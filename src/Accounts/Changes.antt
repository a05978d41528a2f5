-- ===== src/Accounts/Changes.antt =====
-- How a request changes the users table.
use nano_llm_proxy.Prelude.{
  ℕ, ◌≡◌, refl, ◌⊎◌, inl, inr, none, some, List, arith, ◌==◌, String, Option-cases, Bool-cases, not,
  keep_if,
}
use nano_llm_proxy.Accounts.{
  User, Store, Faults, PatchRequest, find_user, count_superadmins, update_row, delete_row,
  patch_refused, updated, kill_sessions, clear_access, patch_write, handle_patch_user,
  delete_refused, handle_delete_user,
}

-- How the users table changes: not at all, or by what the guards let through.
pub data Patched (bcrypt : String → String) (actor : User) (id : ℕ) (faults : Faults)
    (req : PatchRequest) (before after : List User) : Type 0 where
  same_users : after ≡ before → Patched bcrypt actor id faults req before after
  one_row :
      (target : User)
      → find_user id before ≡ some target
      → patch_refused actor target (count_superadmins faults before) faults.hash_fails req ≡ none
      → after ≡ update_row id (updated bcrypt req) before
      → Patched bcrypt actor id faults req before after

pub data Deleted (actor : User) (id : ℕ) (faults : Faults) (before after : List User) : Type 0 where
  same_rows : after ≡ before → Deleted actor id faults before after
  row_gone :
      (target : User)
      → find_user id before ≡ some target
      → delete_refused actor target (count_superadmins faults before) ≡ none
      → after ≡ delete_row id before
      → Deleted actor id faults before after

kill_sessions-users :
    (id : ℕ) (faults : Faults) (req : PatchRequest) (st : Store)
    → (kill_sessions id faults req st).0.users ≡ st.users
unfolding kill_sessions
kill_sessions-users id faults req st = ground arith

clear_access-users :
    (id : ℕ) (target : User) (faults : Faults) (req : PatchRequest) (st : Store)
    → (clear_access id target faults req st).0.users ≡ st.users
unfolding clear_access
clear_access-users id target faults req st =
    let st' : Store = record st { denied = keep_if (λ u. not (u == id)) st.denied } in
    ground (arith, kill_sessions-users id faults req st, kill_sessions-users id faults req st')

patch_write-users :
    (bcrypt : String → String) (id : ℕ) (target : User) (faults : Faults) (req : PatchRequest)
    (st : Store)
    → ((patch_write bcrypt id target faults req st).0.users ≡ st.users)
      ⊎ ((patch_write bcrypt id target faults req st).0.users
          ≡ update_row id (updated bcrypt req) st.users)
unfolding patch_write
patch_write-users bcrypt id target faults req st =
    let st' : Store = record st { users = update_row id (updated bcrypt req) st.users } in
    let c = clear_access-users id target faults req st' in ground (arith, c)

module _ (bcrypt : String → String) (actor : User) (id : ℕ) (faults : Faults) (st : Store) where
  pub patch-Patched :
      (req : PatchRequest)
      → Patched bcrypt actor id faults req st.users
          (handle_patch_user bcrypt actor id faults req st).0.users
  unfolding handle_patch_user count_superadmins
  patch-Patched req = elim (Bool-cases faults.load_fails) [
    | inl l ↦ rw l (same_users refl)
    | inr l ↦ rw l (elim (Option-cases (find_user id st.users)) [
      | inl e ↦ rw e (same_users refl)
      | inr (target, e) ↦
          rw e
            (elim (Option-cases (
              patch_refused actor target (count_superadmins faults st.users) faults.hash_fails
                req)) [
                  | inr (status, r) ↦ rw r (same_users refl)
                  | inl r ↦ rw r (elim (patch_write-users bcrypt id target faults req st) [
                    | inl q ↦ same_users q
                    | inr q ↦ one_row target e r q
                  ])
                ])
    ])
  ]

  pub delete-Deleted :
      Deleted actor id faults st.users (handle_delete_user actor id faults st).0.users
  unfolding handle_delete_user count_superadmins
  delete-Deleted = elim (Bool-cases (actor.id == id)) [
    | inl l ↦ rw l (same_rows refl)
    | inr l ↦ rw l (elim (Bool-cases faults.load_fails) [
      | inl f ↦ rw f (same_rows refl)
      | inr f ↦ rw f (elim (Option-cases (find_user id st.users)) [
        | inl e ↦ rw e (same_rows refl)
        | inr (target, e) ↦
            rw e
              (elim (Option-cases
                (delete_refused actor target (count_superadmins faults st.users))) [
                  | inr (status, r) ↦ rw r (same_rows refl)
                  | inl r ↦ rw r (elim (Bool-cases faults.delete_fails) [
                    | inl w ↦ rw w (same_rows refl)
                    | inr w ↦ rw w (row_gone target e r refl)
                  ])
                ])
      ])
    ])
  ]
