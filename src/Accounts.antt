-- ===== src/Accounts.antt =====
-- internal/gateway/roles.go, api_users.go and internal/store/store.go: who may change which account.
--
-- A request holds its texts as they are after TrimSpace and ToLower. The users table is a list of rows;
-- an id is its primary key, so an UPDATE or DELETE of an id is one of the first row with it. `Faults`
-- says which calls of the database or of bcrypt fail. A handler is one step here, its reads and then its
-- writes, which are not one transaction: what the first of them wrote stays where a later
-- one fails. The rebuild of the pools after the writes changes no account, but it can fail.
pub mod Changes
pub mod Guards
pub mod Powers
mod Examples
use Prim.Native.String.{len}
use nano_llm_proxy.Prelude.{
  ℕ, Bool, true, false, not, ◌&&◌, ◌||◌, Option, none, some, List, [], ◌∷◌, ltb, leb, ◌==◌,
  if◌then◌else◌, String, str_eq, contains, keep_if, count_if,
}

abbrev pub superadmin : String
superadmin = "superadmin"

abbrev pub admin : String
admin = "admin"

abbrev pub regular : String
regular = "user"

-- store.User
pub record User : Type 0 where
  pub id : ℕ
  pub name : String
  pub email : String
  pub password_hash : String
  pub role : String
  pub disabled : Bool
  pub google_linked : Bool

-- the tables: users, the user ids of the sessions, and the user ids of user_provider_access
pub record Store : Type 0 where
  pub users : List User
  pub sessions : List ℕ
  pub denied : List ℕ

pub record Faults : Type 0 where
  pub load_fails : Bool
  pub count_fails : Bool
  pub hash_fails : Bool
  pub update_fails : Bool
  pub clear_fails : Bool
  pub kill_fails : Bool
  pub delete_fails : Bool
  pub rebuild_fails : Bool

abbrev pub is_superadmin : User → Bool
is_superadmin u = str_eq u.role superadmin

pub is_admin_role : String → Bool
is_admin_role role = str_eq role superadmin || str_eq role admin

pub valid_role : String → Bool
valid_role role = str_eq role superadmin || (str_eq role admin || str_eq role regular)

pub account_change_denied : User → User → Bool
account_change_denied actor target = not (is_superadmin actor) && is_superadmin target

pub role_grant_denied : User → String → Bool
role_grant_denied actor role = str_eq role superadmin && not (is_superadmin actor)

-- Store.User
unfoldable pub find_user : ℕ → List User → Option User
find_user id [] = none
find_user id (u ∷ us) = let rest = find_user id us in if u.id == id then some u else rest

abbrev pub is_active : User → Bool
is_active u = is_superadmin u && not u.disabled

-- CountSuperadmins; its error is dropped, and the count is 0 then
pub count_superadmins : Faults → List User → ℕ
count_superadmins faults us = if faults.count_fails then 0 else count_if is_active us

-- UPDATE users … WHERE id=?
pub update_row : ℕ → (User → User) → List User → List User
update_row id f [] = []
update_row id f (u ∷ us) =
    let rest = update_row id f us in if u.id == id then f u ∷ us else u ∷ rest

-- DELETE FROM users WHERE id=?
pub delete_row : ℕ → List User → List User
delete_row id [] = []
delete_row id (u ∷ us) = let rest = delete_row id us in if u.id == id then us else u ∷ rest

pub email_taken : ℕ → String → List User → Bool
email_taken id email [] = false
email_taken id email (u ∷ us) =
    let rest = email_taken id email us in (not (u.id == id) && str_eq u.email email) || rest

pub record PatchRequest : Type 0 where
  pub name : Option String
  pub email : Option String
  pub password : Option String
  pub role : Option String
  pub disabled : Option Bool

abbrev pub given {ℓ} : {A : Type ℓ} → (A → Bool) → Option A → Bool
given p none = false
given p (some a) = p a

-- req.Disabled != nil && *req.Disabled
abbrev pub deactivates : PatchRequest → Bool
deactivates req = given (λ b. b) req.disabled

-- the guards of handlePatchUser after the target is loaded: the status of the first that refuses
pub patch_refused : User → User → ℕ → Bool → PatchRequest → Option ℕ
unfolding account_change_denied valid_role role_grant_denied
patch_refused actor target superadmins hash_fails req =
    if account_change_denied actor target
    then some 403
    else if given (λ role. not (valid_role role)) req.role
    then some 400
    else if given (λ role. not (str_eq role target.role) && role_grant_denied actor role) req.role
    then some 403
    else if deactivates req && (actor.id == target.id)
    then some 409
    else if given (λ role. is_superadmin target && not (str_eq role superadmin)) req.role
        && leb superadmins 1
    then some 409
    else if deactivates req && (is_superadmin target && leb superadmins 1)
    then some 409
    else if given (λ name. target.google_linked && not (str_eq name target.name)) req.name
    then some 400
    else if given (λ email. not (contains email "@")) req.email
    then some 400
    else if given (λ password. ltb (len password) 10) req.password
    then some 400
    else if given (λ password. hash_fails) req.password
    then some 500
    else none

abbrev or_old {ℓ} : {A : Type ℓ} → Option A → A → A
or_old none old = old
or_old (some new) old = new

-- the status after the writes of applyMutation
abbrev pub rebuilt : Faults → ℕ
rebuilt faults = if faults.rebuild_fails then 500 else 200

-- if killSessions { return g.store.DeleteUserSessions(id) }
unfoldable pub kill_sessions : ℕ → Faults → PatchRequest → Store → Store × ℕ
kill_sessions id faults req st =
    if given (λ p. true) req.password || deactivates req
    then (if faults.kill_fails
        then (st, 500)
        else (record st { sessions = keep_if (λ u. not (u == id)) st.sessions }, rebuilt faults))
    else (st, rebuilt faults)

-- ClearUserProviderAccess for who becomes an admin, then the sessions
unfoldable pub clear_access : ℕ → User → Faults → PatchRequest → Store → Store × ℕ
unfolding kill_sessions is_admin_role
clear_access id target faults req st =
    if given is_admin_role req.role && not (is_admin_role target.role)
    then (if faults.clear_fails
        then (st, 500)
        else kill_sessions id faults req
            (record st { denied = keep_if (λ u. not (u == id)) st.denied }))
    else kill_sessions id faults req st

module _ (bcrypt : String → String) where
  -- the SET clauses of Store.UpdateUser
  pub updated : PatchRequest → User → User
  updated req u = record u {
    name = or_old req.name u.name;
    email = or_old req.email u.email;
    password_hash = elim req.password [ none ↦ u.password_hash | some p ↦ bcrypt p ];
    role = or_old req.role u.role;
    disabled = or_old req.disabled u.disabled;
  }

  -- the function that handlePatchUser gives to applyMutation, and its status
  pub patch_write : ℕ → User → Faults → PatchRequest → Store → Store × ℕ
  unfolding updated email_taken clear_access
  patch_write id target faults req st =
      if faults.update_fails
      then (st, 500)
      else if given (λ email. email_taken id email st.users) req.email
      then (st, 409)
      else clear_access id target faults req
          (record st { users = update_row id (updated req) st.users })

  pub handle_patch_user : User → ℕ → Faults → PatchRequest → Store → Store × ℕ
  unfolding patch_write
  handle_patch_user actor id faults req st =
      if faults.load_fails then (st, 500) else elim (find_user id st.users) [
        | none ↦ (st, 404)
        | some target ↦
            elim (patch_refused actor target (count_superadmins faults st.users) faults.hash_fails
              req) [ some status ↦ (st, status) | none ↦ patch_write id target faults req st ]
      ]

pub delete_refused : User → User → ℕ → Option ℕ
unfolding account_change_denied
delete_refused actor target superadmins =
    if account_change_denied actor target
    then some 403
    else if is_superadmin target && leb superadmins 1
    then some 409
    else none

-- the rows of a deleted user in the other tables go with it
pub handle_delete_user : User → ℕ → Faults → Store → Store × ℕ
handle_delete_user actor id faults st =
    if actor.id == id
    then (st, 409)
    else if faults.load_fails
    then (st, 500)
    else elim (find_user id st.users) [
      | none ↦ (st, 404)
      | some target ↦ elim (delete_refused actor target (count_superadmins faults st.users)) [
        | some status ↦ (st, status)
        | none ↦ if faults.delete_fails then (st, 500) else (
          record {
            users = delete_row id st.users;
            sessions = keep_if (λ u. not (u == id)) st.sessions;
            denied = keep_if (λ u. not (u == id)) st.denied;
          },
          rebuilt faults,
        )
      ]
    ]
