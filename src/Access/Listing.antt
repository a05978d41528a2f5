-- ===== src/Access/Listing.antt =====
-- A caller's catalog lists what the caller can route to.
use nano_llm_proxy.Prelude.{
  ℕ, ◌≡◌, refl, inl, inr, Bool, true, false, not, Option, none, some, List, [], ◌∷◌, arith,
  Bool-cases, String, keep_if,
}
use nano_llm_proxy.Access.{
  UserAccessCache, ProviderRef, Gateway, Caller, CatalogEntry, model, raw, disabled, any_disabled,
  provider, provider_for, caller_user_id, prefix_of, prefix_blocked, entry_hidden, filter_models,
  catalog_for,
}

-- The prefix is none of a provider, or the caller can route to it.
pub routable : Gateway → Caller → String → Bool
routable g r prefix = elim (provider g.registry prefix) [
  | none ↦ true
  | some ref ↦ elim (provider_for g r prefix) [ none ↦ false | some found ↦ true ]
]

pub listed : Gateway → Caller → CatalogEntry → Bool
unfolding routable
listed g r raw = true
listed g r (model id) = elim (prefix_of id) [ none ↦ true | some prefix ↦ routable g r prefix ]

prefix_blocked-provider :
    (refs : List ProviderRef) (access : UserAccessCache) (uid : ℕ) (prefix : String)
    → prefix_blocked refs access uid prefix
      ≡ elim (provider refs prefix) [ none ↦ false | some ref ↦ disabled access uid ref.id ]
unfolding prefix_blocked provider
prefix_blocked-provider [] access uid prefix = refl
prefix_blocked-provider (ref ∷ refs) access uid prefix =
    ground (arith, prefix_blocked-provider refs access uid prefix)

module _ (g : Gateway) (r : Caller) (uid : ℕ) (owner : r.client_key ≡ some uid) where
  routable_iff :
      (prefix : String) → not (prefix_blocked g.registry g.access uid prefix) ≡ routable g r prefix
  unfolding routable provider_for
  routable_iff prefix =
      ground (arith, owner, prefix_blocked-provider g.registry g.access uid prefix)

  by_prefix :
      (o : Option String)
      → not (elim o [ none ↦ false | some prefix ↦ prefix_blocked g.registry g.access uid prefix ])
        ≡ elim o [ none ↦ true | some prefix ↦ routable g r prefix ]
  by_prefix none = refl
  by_prefix (some prefix) = routable_iff prefix

  shown-listed : (m : CatalogEntry) → not (entry_hidden g uid m) ≡ listed g r m
  unfolding entry_hidden listed
  shown-listed raw = refl
  shown-listed (model id) = by_prefix (prefix_of id)

  filter_models-keep_if :
      (models : List CatalogEntry) → filter_models g uid models ≡ keep_if (listed g r) models
  unfolding filter_models
  filter_models-keep_if [] = refl
  filter_models-keep_if (m ∷ models) = rw (shown-listed m, filter_models-keep_if models) refl

  free_disabled : any_disabled g.access uid ≡ false → (id : ℕ) → disabled g.access uid id ≡ false
  unfolding any_disabled disabled
  free_disabled h id = ground (arith, h)

  free_blocked :
      (refs : List ProviderRef) (prefix : String)
      → any_disabled g.access uid ≡ false
      → prefix_blocked refs g.access uid prefix ≡ false
  unfolding prefix_blocked
  free_blocked [] prefix h = refl
  free_blocked (ref ∷ refs) prefix h =
      ground (arith, free_disabled h ref.id, free_blocked refs prefix h)

  free_shown : (m : CatalogEntry) → any_disabled g.access uid ≡ false → entry_hidden g uid m ≡ false
  unfolding entry_hidden
  free_shown raw h = refl
  free_shown (model id) h = free_by (prefix_of id)
    where
      free_by :
          (o : Option String)
          → elim o [ none ↦ false | some prefix ↦ prefix_blocked g.registry g.access uid prefix ]
            ≡ false
      free_by none = refl
      free_by (some prefix) = free_blocked g.registry prefix h

  -- With no restriction the filter would drop nothing.
  free_filter :
      (models : List CatalogEntry)
      → any_disabled g.access uid ≡ false
      → filter_models g uid models ≡ models
  unfolding filter_models
  free_filter [] h = refl
  free_filter (m ∷ models) h = rw (free_shown m h, free_filter models h) refl

-- The owner of a client key is shown exactly the models that `providerFor` routes for that key: of the
-- merged catalog those remain whose prefix resolves to a provider for the caller, and those that
-- name no provider at all. The shortcut for an owner without restrictions changes nothing.
pub catalog_for-routable :
    (g : Gateway) (r : Caller) (uid : ℕ) (models : List CatalogEntry)
    → r.client_key ≡ some uid
    → catalog_for (some models) g r ≡ some (keep_if (listed g r) models)
unfolding catalog_for caller_user_id
catalog_for-routable g r uid models owner =
    let filtered = filter_models-keep_if g r uid owner models in
    elim (Bool-cases (any_disabled g.access uid)) [
      | inl t ↦ ground (arith, owner, t, filtered)
      | inr f ↦ ground (arith, owner, f, filtered, free_filter g r uid owner models f)
    ]
