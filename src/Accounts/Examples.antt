-- ===== src/Accounts/Examples.antt =====
-- Two superadmins, an admin and a user: requests, and the theorems on them.
use nano_llm_proxy.Prelude.{
  ℕ, ◌<◌, ◌≡◌, refl, true, false, none, some, [], ◌∷◌, arith, String, keep_if, count_if,
}
use nano_llm_proxy.Accounts.{
  User, Store, Faults, PatchRequest, is_superadmin, is_active, handle_patch_user,
  handle_delete_user, find_user, update_row, patch_refused, patch_write, count_superadmins, updated,
}
use nano_llm_proxy.Accounts.Guards.{superadmin_left}
use nano_llm_proxy.Accounts.Powers.{superadmins_kept}

abbrev user : ℕ → String → User
user id role = record {
  id = id;
  name = "n";
  email = "n@example.org";
  password_hash = "";
  role = role;
  disabled = false;
  google_linked = false;
}

abbrev store : Store
store = record {
  users = user 1 "superadmin" ∷ user 2 "superadmin" ∷ user 3 "admin" ∷ user 4 "user" ∷ [];
  sessions = 2 ∷ 4 ∷ 2 ∷ [];
  denied = [];
}

abbrev no_faults : Faults
no_faults = record {
  load_fails = false;
  count_fails = false;
  hash_fails = false;
  update_fails = false;
  clear_fails = false;
  kill_fails = false;
  delete_fails = false;
  rebuild_fails = false;
}

abbrev off : PatchRequest
off = record { name = none; email = none; password = none; role = none; disabled = some true }

abbrev bcrypt : String → String
bcrypt p = p

deactivated : (handle_patch_user bcrypt (user 1 "superadmin") 2 no_faults off store).1 ≡ 200
unfolding handle_patch_user find_user patch_refused patch_write count_superadmins
deactivated = refl

-- The account is deactivated although the deletion of its sessions fails.
half_written :
    let answer =
      handle_patch_user bcrypt
        (user 1 "superadmin")
        2
        (record no_faults { kill_fails = true })
        off
        store in
    (answer.1 ≡ 500)
    × (count_if is_active answer.0.users ≡ 1)
    × (answer.0.sessions ≡ 2 ∷ 4 ∷ 2 ∷ [])
unfolding handle_patch_user find_user patch_refused patch_write count_superadmins update_row updated
half_written = (refl, refl, refl)

not_by_admin : (handle_patch_user bcrypt (user 3 "admin") 2 no_faults off store).1 ≡ 403
unfolding handle_patch_user find_user patch_refused patch_write count_superadmins
not_by_admin = refl

superadmin_left_example :
    (0
      < count_if is_active
          (handle_patch_user bcrypt (user 1 "superadmin") 2 no_faults off store).0.users)
    × (0 < count_if is_active (handle_delete_user (user 1 "superadmin") 2 no_faults store).0.users)
superadmin_left_example =
    superadmin_left bcrypt (user 1 "superadmin") 2 no_faults off store (omega arith)

superadmins_kept_example :
    (keep_if is_superadmin (handle_patch_user bcrypt (user 3 "admin") 4 no_faults off store).0.users
      ≡ keep_if is_superadmin store.users)
    × (keep_if is_superadmin (handle_delete_user (user 3 "admin") 4 no_faults store).0.users
        ≡ keep_if is_superadmin store.users)
superadmins_kept_example = superadmins_kept bcrypt (user 3 "admin") 4 no_faults off store refl

-- Two superadmins demote each other. Both handlers count the superadmins before either writes, and
-- no superadmin is left.
abbrev demotes : PatchRequest
demotes = record { name = none; email = none; password = none; role = some "user"; disabled = none }

both_pass :
    (patch_refused (user 1 "superadmin") (user 2 "superadmin") 2 false demotes ≡ none)
    × (patch_refused (user 2 "superadmin") (user 1 "superadmin") 2 false demotes ≡ none)
unfolding patch_refused
both_pass = (refl, refl)

abbrev both_written : Store
both_written =
    (patch_write bcrypt 1 (user 1 "superadmin") no_faults demotes
      (patch_write bcrypt 2 (user 2 "superadmin") no_faults demotes store).0).0

none_left : count_if is_active both_written.users ≡ 0
unfolding patch_write updated update_row
none_left = refl
