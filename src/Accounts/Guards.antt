-- ===== src/Accounts/Guards.antt =====
-- What the guards of the account handlers keep.
use nano_llm_proxy.Prelude.{
  ℕ, ◌+◌, ◌≤◌, ◌<◌, ◌≡◌, ◌⊎◌, inl, inr, Bool, true, none, some, List, [], ◌∷◌, arith, ◌==◌,
  if◌then◌else◌, String, count_if, Bool-cases,
}
use nano_llm_proxy.Accounts.{
  User, Store, Faults, PatchRequest, is_active, find_user, count_superadmins, update_row,
  delete_row, patch_refused, updated, handle_patch_user, delete_refused, handle_delete_user,
}
use nano_llm_proxy.Accounts.Changes.{
  Patched, same_users, one_row, Deleted, same_rows, row_gone, patch-Patched, delete-Deleted,
}

abbrev flag : Bool → ℕ
flag b = if b then 1 else 0

-- Writing one row changes the count of active superadmins by that row.
count-update_row :
    (id : ℕ) (f : User → User) (us : List User) (u : User)
    → find_user id us ≡ some u
    → count_if is_active (update_row id f us) + flag (is_active u)
      ≡ count_if is_active us + flag (is_active (f u))
unfolding find_user update_row
count-update_row id f [] u h = cc
count-update_row id f (x ∷ us) u h = elim (Bool-cases (x.id == id)) [
  | inl e ↦ let same : x ≡ u = ground (arith, e, h) in rw (e, same) (omega arith)
  | inr e ↦ rw e (omega (arith, count-update_row id f us u (rw e at h)))
]

count-delete_row :
    (id : ℕ) (us : List User) (u : User)
    → find_user id us ≡ some u
    → count_if is_active (delete_row id us) + flag (is_active u) ≡ count_if is_active us
unfolding find_user delete_row
count-delete_row id [] u h = cc
count-delete_row id (x ∷ us) u h = elim (Bool-cases (x.id == id)) [
  | inl e ↦ let same : x ≡ u = ground (arith, e, h) in rw (e, same) (omega arith)
  | inr e ↦ rw e (omega (arith, count-delete_row id us u (rw e at h)))
]

module _ (bcrypt : String → String) where
  -- An accepted change takes the role or the activity of a superadmin only while there are two.
  patch_refused_last :
      (actor target : User) (n : ℕ) (hash_fails : Bool) (req : PatchRequest)
      → patch_refused actor target n hash_fails req ≡ none
      → is_active target ≡ true
      → (is_active (updated bcrypt req target) ≡ true) ⊎ (2 ≤ n)
  unfolding patch_refused updated
  patch_refused_last actor target n hash_fails req ok act = ground arith

delete_refused_last :
    (actor target : User) (n : ℕ)
    → delete_refused actor target n ≡ none
    → is_active target ≡ true
    → 2 ≤ n
unfolding delete_refused
delete_refused_last actor target n ok act = ground arith

count_superadmins-le :
    (faults : Faults) (us : List User) → count_superadmins faults us ≤ count_if is_active us
unfolding count_superadmins
count_superadmins-le faults us = ground arith

left_by_patch :
    (bcrypt : String → String) (actor : User) (id : ℕ) (faults : Faults) (req : PatchRequest)
    (before after : List User)
    → Patched bcrypt actor id faults req before after
    → 0 < count_if is_active before
    → 0 < count_if is_active after
left_by_patch bcrypt actor id faults req before after (same_users e) h = rw e h
left_by_patch bcrypt actor id faults req before after (one_row target e ok w) h =
    let c = count-update_row id (updated bcrypt req) before target e in
    let n = count_superadmins-le faults before in
    rw w (elim (Bool-cases (is_active target)) [
      | inr off ↦ ground (arith, c, off)
      | inl on ↦ elim (patch_refused_last bcrypt actor target _ faults.hash_fails req ok on) [
        | inl still ↦ ground (arith, c, on, still)
        | inr two ↦ ground (arith, c, on, two, n)
      ]
    ])

left_by_delete :
    (actor : User) (id : ℕ) (faults : Faults) (before after : List User)
    → Deleted actor id faults before after
    → 0 < count_if is_active before
    → 0 < count_if is_active after
left_by_delete actor id faults before after (same_rows e) h = rw e h
left_by_delete actor id faults before after (row_gone target e ok w) h =
    let c = count-delete_row id before target e in
    let n = count_superadmins-le faults before in
    rw w (elim (Bool-cases (is_active target)) [
      | inr off ↦ ground (arith, c, off)
      | inl on ↦ ground (arith, c, on, n, delete_refused_last actor target _ ok on)
    ])

-- While there is a superadmin who is not deactivated, no change and no deletion of an account takes
-- the last one away, whoever asks, whatever the request holds and whichever calls of the database
-- fail, those included that fail after a part of the change was written; two requests are not handled
-- at once.
pub superadmin_left :
    (bcrypt : String → String) (actor : User) (id : ℕ) (faults : Faults) (req : PatchRequest)
    (st : Store)
    → 0 < count_if is_active st.users
    → (0 < count_if is_active (handle_patch_user bcrypt actor id faults req st).0.users)
      × (0 < count_if is_active (handle_delete_user actor id faults st).0.users)
superadmin_left bcrypt actor id faults req st h = (
  left_by_patch bcrypt actor id faults req st.users _ (patch-Patched bcrypt actor id faults st req)
      h,
  left_by_delete actor id faults st.users _ (delete-Deleted bcrypt actor id faults st) h,
)
