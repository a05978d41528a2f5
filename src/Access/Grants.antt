-- ===== src/Access/Grants.antt =====
-- Revoking and granting a provider, and the list that the access dialog shows.
use nano_llm_proxy.Prelude.{
  ℕ, ◌≡◌, refl, ap, ◌∙◌, inl, inr, Bool, true, false, not, ◌&&◌, List, [], ◌∷◌, arith, ◌==◌,
  if◌then◌else◌, Bool-cases, keep_if,
}
use nano_llm_proxy.Accounts.{User}
use nano_llm_proxy.Access.{
  AccessRow, UserAccessCache, has_id, has_row, is_regular, ids_of, set_user_provider_access,
  disabled_provider_ids, all_provider_access, reload, disabled,
}
use nano_llm_proxy.Access.Rules.{disabled-reload}

has_row-kept :
    (rows : List AccessRow) (uid pid user_id provider_id : ℕ)
    → has_row
        (keep_if (λ row. not ((row.user_id == uid) && (row.provider_id == pid))) rows)
        user_id
        provider_id
      ≡ (if (uid == user_id) && (pid == provider_id)
          then false
          else has_row rows user_id provider_id)
has_row-kept [] uid pid user_id provider_id = ground arith
has_row-kept (row ∷ rows) uid pid user_id provider_id =
    ground (arith, has_row-kept rows uid pid user_id provider_id)

has_row-same :
    (rows : List AccessRow) (uid pid user_id provider_id : ℕ)
    → has_row rows uid pid ≡ true
    → has_row rows user_id provider_id ≡ (
        if (uid == user_id) && (pid == provider_id) then true else has_row rows user_id provider_id)
has_row-same rows uid pid user_id provider_id h = ground (arith, h)

has_row-set :
    (rows : List AccessRow) (uid pid user_id provider_id : ℕ) (off : Bool)
    → has_row (set_user_provider_access uid pid off rows) user_id provider_id
      ≡ (if (uid == user_id) && (pid == provider_id) then off else has_row rows user_id provider_id)
unfolding set_user_provider_access
has_row-set rows uid pid user_id provider_id false = has_row-kept rows uid pid user_id provider_id
has_row-set rows uid pid user_id provider_id true = elim (Bool-cases (has_row rows uid pid)) [
  | inl t ↦ rw t (has_row-same rows uid pid user_id provider_id t)
  | inr f ↦ ground (arith, f)
]

-- Revoking or granting one provider for one user, followed by a reload of the cache, changes exactly
-- that: for a user whose role is "user" the provider is disabled if it was revoked and not if it was
-- granted, and every other pair of user and provider is as the table had it. A user of another role
-- has no provider disabled.
pub disabled-set :
    (c : UserAccessCache) (users : List User) (rows : List AccessRow)
    (uid pid user_id provider_id : ℕ) (off : Bool)
    → disabled
        (reload c (all_provider_access false users (set_user_provider_access uid pid off rows)))
        user_id
        provider_id
      ≡ (is_regular users user_id
          && (if (uid == user_id) && (pid == provider_id)
              then off
              else has_row rows user_id provider_id))
disabled-set c users rows uid pid user_id provider_id off =
    disabled-reload c users (set_user_provider_access uid pid off rows) user_id provider_id
    ∙ ap (λ b. is_regular users user_id && b) (has_row-set rows uid pid user_id provider_id off)

has_id-ids_of :
    (rows : List AccessRow) (user_id provider_id : ℕ)
    → has_id provider_id (ids_of rows user_id) ≡ has_row rows user_id provider_id
unfolding ids_of
has_id-ids_of [] user_id provider_id = refl
has_id-ids_of (row ∷ rows) user_id provider_id =
    ground (arith, has_id-ids_of rows user_id provider_id)

-- The access dialog and the routing agree: the providers that `DisabledProviderIDs` lists for a user
-- are exactly those that the cache, reloaded from the same tables, disables for this user.
pub dialog-disabled :
    (c : UserAccessCache) (users : List User) (rows : List AccessRow) (user_id provider_id : ℕ)
    → has_id provider_id (disabled_provider_ids users rows user_id)
      ≡ disabled (reload c (all_provider_access false users rows)) user_id provider_id
unfolding disabled_provider_ids
dialog-disabled c users rows user_id provider_id =
    let listed = has_id-ids_of rows user_id provider_id in
    let routed = disabled-reload c users rows user_id provider_id in ground (arith, listed, routed)
