-- ===== src/Access/Rules.antt =====
-- What the access cache holds after a reload.
use nano_llm_proxy.Prelude.{
  ℕ, ◌≡◌, ap, ◌∙◌, Bool, false, ◌&&◌, ◌||◌, List, [], ◌∷◌, arith, ◌==◌, if◌then◌else◌,
}
use nano_llm_proxy.Accounts.{User}
use nano_llm_proxy.Access.{
  AccessRow, Pairs, UserAccessCache, has_id, has_row, inner, mark, is_regular, collect,
  all_provider_access, reload, disabled,
}

inner-mark :
    (m : Pairs) (uid pid user_id : ℕ)
    → inner (mark m uid pid) user_id
      ≡ (if uid == user_id then pid ∷ inner m user_id else inner m user_id)
unfolding inner mark
inner-mark [] uid pid user_id = ground arith
inner-mark ((u, ids) ∷ m) uid pid user_id = ground (arith, inner-mark m uid pid user_id)

abbrev held : Pairs → ℕ → ℕ → Bool
held m user_id provider_id = has_id provider_id (inner m user_id)

held-mark :
    (m : Pairs) (uid pid user_id provider_id : ℕ)
    → held (mark m uid pid) user_id provider_id
      ≡ (((uid == user_id) && (pid == provider_id)) || held m user_id provider_id)
held-mark m uid pid user_id provider_id =
    ap (has_id provider_id) (inner-mark m uid pid user_id) ∙ ground arith

-- A row of another user, and a row of a user that is not regular, change nothing.
marked_or_not :
    (users : List User) (row : AccessRow) (rows : List AccessRow) (m : Pairs)
    (user_id provider_id : ℕ)
    → ((out : Pairs)
        → held (collect users rows out) user_id provider_id ≡ (
            (is_regular users user_id && has_row rows user_id provider_id)
            || held out user_id provider_id))
    → held (collect users (row ∷ rows) m) user_id provider_id ≡ (
        (is_regular users user_id && has_row (row ∷ rows) user_id provider_id)
        || held m user_id provider_id)
unfolding collect
marked_or_not users row rows m user_id provider_id rest =
    let marked = rest (mark m row.user_id row.provider_id) in
    let now = held-mark m row.user_id row.provider_id user_id provider_id in
    let skipped = rest m in ground (arith, marked, now, skipped)

held-collect :
    (users : List User) (rows : List AccessRow) (m : Pairs) (user_id provider_id : ℕ)
    → held (collect users rows m) user_id provider_id ≡ (
        (is_regular users user_id && has_row rows user_id provider_id)
        || held m user_id provider_id)
unfolding collect
held-collect users [] m user_id provider_id = ground arith
held-collect users (row ∷ rows) m user_id provider_id =
    marked_or_not users row rows m user_id provider_id
      (λ out. held-collect users rows out user_id provider_id)

-- After a reload that reads the database, a provider is disabled for a user exactly if the table has
-- the row and the user's role is "user": admins and superadmins reach every provider, whatever rows
-- they have.
pub disabled-reload :
    (c : UserAccessCache) (users : List User) (rows : List AccessRow) (user_id provider_id : ℕ)
    → disabled (reload c (all_provider_access false users rows)) user_id provider_id
      ≡ (is_regular users user_id && has_row rows user_id provider_id)
unfolding disabled reload all_provider_access inner
disabled-reload c users rows user_id provider_id =
    ground (arith, held-collect users rows [] user_id provider_id)
