-- ===== src/Accounts/Powers.antt =====
-- What an admin cannot do, and what a change of an account ends.
use nano_llm_proxy.Prelude.{
  ℕ, ◌≡◌, ◌≢◌, refl, ap, ◌∙◌, ◌⊎◌, inl, inr, Bool, true, false, not, ◌&&◌, none, some, List, [],
  ◌∷◌, arith, ◌==◌, String, str_eq, eq_iff, keep_if, Option-cases, Bool-cases, All,
}
use nano_llm_proxy.Accounts.{
  User, Store, Faults, PatchRequest, superadmin, is_superadmin, account_change_denied,
  role_grant_denied, find_user, count_superadmins, update_row, delete_row, deactivates, given,
  is_admin_role, email_taken, kill_sessions, clear_access, patch_refused, updated, patch_write,
  handle_patch_user, delete_refused, handle_delete_user,
}
use nano_llm_proxy.Accounts.Changes.{
  Patched, same_users, one_row, Deleted, same_rows, row_gone, patch-Patched, delete-Deleted,
}

-- Writing a row that is no superadmin's before and after leaves the superadmins' rows.
keep_if-update_row :
    (id : ℕ) (f : User → User) (us : List User) (u : User)
    → find_user id us ≡ some u
    → is_superadmin u ≡ false
    → is_superadmin (f u) ≡ false
    → keep_if is_superadmin (update_row id f us) ≡ keep_if is_superadmin us
unfolding find_user update_row
keep_if-update_row id f [] u h a b = cc
keep_if-update_row id f (x ∷ us) u h a b = elim (Bool-cases (x.id == id)) [
  | inl e ↦ let same : x ≡ u = ground (arith, e, h) in rw (e, same) (ground (arith, a, b))
  | inr e ↦ rw (e, keep_if-update_row id f us u (rw e at h) a b) refl
]

keep_if-delete_row :
    (id : ℕ) (us : List User) (u : User)
    → find_user id us ≡ some u
    → is_superadmin u ≡ false
    → keep_if is_superadmin (delete_row id us) ≡ keep_if is_superadmin us
unfolding find_user delete_row
keep_if-delete_row id [] u h a = cc
keep_if-delete_row id (x ∷ us) u h a = elim (Bool-cases (x.id == id)) [
  | inl e ↦ let same : x ≡ u = ground (arith, e, h) in rw (e, same) (ground (arith, a))
  | inr e ↦ rw (e, keep_if-delete_row id us u (rw e at h) a) refl
]

role_kept :
    (actor target : User) (role : String)
    → (not (str_eq role target.role) && role_grant_denied actor role) ≡ false
    → is_superadmin actor ≡ false
    → is_superadmin target ≡ false
    → str_eq role superadmin ≡ false
unfolding role_grant_denied
role_kept actor target role g low t =
    ground (arith, eq_iff role superadmin, eq_iff role target.role, eq_iff target.role superadmin)

module _ (bcrypt : String → String) (actor target : User) (n : ℕ) (hash_fails : Bool)
    (req : PatchRequest) (ok : patch_refused actor target n hash_fails req ≡ none) where
  granted :
      (role : String)
      → req.role ≡ some role
      → (not (str_eq role target.role) && role_grant_denied actor role) ≡ false
  unfolding patch_refused
  granted role e = ground arith

  target_power : is_superadmin actor ≡ false → is_superadmin target ≡ false
  unfolding patch_refused account_change_denied
  target_power low = ground arith

  role_new : (role : String) → req.role ≡ some role → (updated bcrypt req target).role ≡ role
  unfolding updated
  role_new role e = cc

  role_old : req.role ≡ none → (updated bcrypt req target).role ≡ target.role
  unfolding updated
  role_old e = cc

  patch_refused_power :
      is_superadmin actor ≡ false
      → (is_superadmin target ≡ false) × (is_superadmin (updated bcrypt req target) ≡ false)
  patch_refused_power low =
      let t = target_power low in
      (
        t,
        elim (Option-cases req.role) [
          | inl e ↦ ap (λ r. str_eq r superadmin) (role_old e) ∙ t
          | inr (role, e) ↦
              ap (λ r. str_eq r superadmin) (role_new role e)
              ∙ role_kept actor target role (granted role e) low t
        ],
      )

delete_refused_power :
    (actor target : User) (n : ℕ)
    → delete_refused actor target n ≡ none
    → is_superadmin actor ≡ false
    → is_superadmin target ≡ false
unfolding delete_refused account_change_denied
delete_refused_power actor target n ok low = ground arith

kept_by_patch :
    (bcrypt : String → String) (actor : User) (id : ℕ) (faults : Faults) (req : PatchRequest)
    (before after : List User)
    → Patched bcrypt actor id faults req before after
    → is_superadmin actor ≡ false
    → keep_if is_superadmin after ≡ keep_if is_superadmin before
kept_by_patch bcrypt actor id faults req before after (same_users e) low = rw e refl
kept_by_patch bcrypt actor id faults req before after (one_row target e ok w) low =
    let (a, b) = patch_refused_power bcrypt actor target _ faults.hash_fails req ok low in
    rw w (keep_if-update_row id (updated bcrypt req) before target e a b)

kept_by_delete :
    (actor : User) (id : ℕ) (faults : Faults) (before after : List User)
    → Deleted actor id faults before after
    → is_superadmin actor ≡ false
    → keep_if is_superadmin after ≡ keep_if is_superadmin before
kept_by_delete actor id faults before after (same_rows e) low = rw e refl
kept_by_delete actor id faults before after (row_gone target e ok w) low =
    rw w (keep_if-delete_row id before target e (delete_refused_power actor target _ ok low))

-- A change or a deletion of an account by someone who is no superadmin leaves the rows of the
-- superadmins as they are: it changes none, deletes none and makes nobody a superadmin, whichever calls
-- of the database fail; two requests are not handled at once.
pub superadmins_kept :
    (bcrypt : String → String) (actor : User) (id : ℕ) (faults : Faults) (req : PatchRequest)
    (st : Store)
    → is_superadmin actor ≡ false
    → (keep_if is_superadmin (handle_patch_user bcrypt actor id faults req st).0.users
        ≡ keep_if is_superadmin st.users)
      × (keep_if is_superadmin (handle_delete_user actor id faults st).0.users
          ≡ keep_if is_superadmin st.users)
superadmins_kept bcrypt actor id faults req st low = (
  kept_by_patch bcrypt actor id faults req st.users _ (patch-Patched bcrypt actor id faults st req)
      low,
  kept_by_delete actor id faults st.users _ (delete-Deleted bcrypt actor id faults st) low,
)

keep_if-All :
    (id : ℕ) (sessions : List ℕ)
    → All (λ u. (u == id) ≡ false) (keep_if (λ u. not (u == id)) sessions)
keep_if-All id [] = tt
keep_if-All id (u ∷ sessions) = elim (Bool-cases (u == id)) [
  | inl e ↦ rw e (keep_if-All id sessions)
  | inr e ↦ rw e (e, keep_if-All id sessions)
]

kill_sessions-sessions :
    (id : ℕ) (faults : Faults) (req : PatchRequest) (st : Store)
    → (kill_sessions id faults req st).1 ≡ 200
    → (req.password ≢ none) ⊎ (deactivates req ≡ true)
    → (kill_sessions id faults req st).0.sessions ≡ keep_if (λ u. not (u == id)) st.sessions
unfolding kill_sessions
kill_sessions-sessions id faults req st ok (inl pass) = ground arith
kill_sessions-sessions id faults req st ok (inr off) = ground arith

clear_access-sessions :
    (id : ℕ) (target : User) (faults : Faults) (req : PatchRequest) (st : Store)
    → (clear_access id target faults req st).1 ≡ 200
    → (req.password ≢ none) ⊎ (deactivates req ≡ true)
    → (clear_access id target faults req st).0.sessions ≡ keep_if (λ u. not (u == id)) st.sessions
unfolding clear_access
clear_access-sessions id target faults req st ok why =
    let st' : Store = record st { denied = keep_if (λ u. not (u == id)) st.denied } in
    elim (Bool-cases (given is_admin_role req.role && not (is_admin_role target.role))) [
      | inr e ↦ rw e (kill_sessions-sessions id faults req st (rw e at ok) why)
      | inl e ↦ elim (Bool-cases faults.clear_fails) [
        | inl f ↦ absurd (ground (arith, e, f, ok))
        | inr f ↦ rw (e, f) (kill_sessions-sessions id faults req st' (rw (e, f) at ok) why)
      ]
    ]

patch_write-sessions :
    (bcrypt : String → String) (id : ℕ) (target : User) (faults : Faults) (req : PatchRequest)
    (st : Store)
    → (patch_write bcrypt id target faults req st).1 ≡ 200
    → (req.password ≢ none) ⊎ (deactivates req ≡ true)
    → (patch_write bcrypt id target faults req st).0.sessions
      ≡ keep_if (λ u. not (u == id)) st.sessions
unfolding patch_write
patch_write-sessions bcrypt id target faults req st ok why =
    let st' : Store = record st { users = update_row id (updated bcrypt req) st.users } in
    elim (Bool-cases faults.update_fails) [
      | inl f ↦ absurd (ground (arith, f, ok))
      | inr f ↦ elim (Bool-cases (given (λ email. email_taken id email st.users) req.email)) [
        | inl e ↦ absurd (ground (arith, f, e, ok))
        | inr e ↦ rw (f, e) (clear_access-sessions id target faults req st' (rw (f, e) at ok) why)
      ]
    ]

refused_status :
    (actor target : User) (n : ℕ) (hash_fails : Bool) (req : PatchRequest) (status : ℕ)
    → patch_refused actor target n hash_fails req ≡ some status
    → status ≢ 200
unfolding patch_refused
refused_status actor target n hash_fails req status r e = ground arith

handled :
    (bcrypt : String → String) (actor : User) (id : ℕ) (faults : Faults) (req : PatchRequest)
    (st : Store)
    → (handle_patch_user bcrypt actor id faults req st).1 ≡ 200
    → (target : User) × (handle_patch_user bcrypt actor id faults req st
        ≡ patch_write bcrypt id target faults req st)
unfolding handle_patch_user
handled bcrypt actor id faults req st ok = elim (Bool-cases faults.load_fails) [
  | inl l ↦ absurd (ground (arith, l, ok))
  | inr l ↦ elim (Option-cases (find_user id st.users)) [
    | inl e ↦ absurd (ground (arith, l, e, ok))
    | inr (target, e) ↦
        elim (Option-cases
          (patch_refused actor target (count_superadmins faults st.users) faults.hash_fails req)) [
            | inr (status, r) ↦ absurd (
                refused_status actor target _ faults.hash_fails req status r
                  (ground (arith, l, e, r, ok)))
            | inl r ↦ (target, cc (l, e, r))
          ]
  ]
]

-- After a change that sets a new password or deactivates the account, no session of the account is
-- left.
pub patch_ends_sessions :
    (bcrypt : String → String) (actor : User) (id : ℕ) (faults : Faults) (req : PatchRequest)
    (st : Store)
    → (handle_patch_user bcrypt actor id faults req st).1 ≡ 200
    → (req.password ≢ none) ⊎ (deactivates req ≡ true)
    → All (λ u. (u == id) ≡ false) (handle_patch_user bcrypt actor id faults req st).0.sessions
patch_ends_sessions bcrypt actor id faults req st ok why =
    let (target, e) = handled bcrypt actor id faults req st ok in
    let w = patch_write-sessions bcrypt id target faults req st (rw e at ok) why in
    rw (e, w) (keep_if-All id st.sessions)
