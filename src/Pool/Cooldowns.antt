-- ===== src/Pool/Cooldowns.antt =====
-- What a 429 for one model blocks, and what a rebuild of the pool keeps.
use nano_llm_proxy.Prelude.{
  ℕ, zero, suc, ◌+◌, ◌≤◌, ◌≡◌, refl, inl, inr, Bool, true, false, not, ◌&&◌, ◌||◌, Option, none,
  some, List, [], ◌∷◌, map, arith, get_elem?, get_elem?-modify_self, Map, String, if◌then◌else◌,
  ltb, str_eq, lookup, insert, retain, lookup-insert, filtered, lookup-retain, Option-cases,
}
use nano_llm_proxy.Time.{Calendar}
use nano_llm_proxy.Pool.Keys.{KeyState, until_of, model_until, blocked, new_key}
use nano_llm_proxy.Pool.{
  Pool, KeyFileEntry, runtime_disabled, cooldown_model, carry, preserve, new_pool_preserving,
}

-- Pruning the cooldowns that are over by `now` changes no answer at `now` or later.
until_of-prune :
    (b : Bool) (a now t : ℕ) (o : Option ℕ)
    → now ≤ t
    → ltb t (until_of (if b then some a else filtered (λ until. ltb now until) o))
      ≡ ltb t (if b then a else until_of o)
until_of-prune true a now t o h = refl
until_of-prune false a now t none h = refl
until_of-prune false a now t (some u) h = ground arith

module _ (c : Calendar) (daily_cap : ℕ) (exclude : Map Bool) (model other : String) (now d t : ℕ)
    (k : KeyState) where
  abbrev cooled : KeyState
  cooled = record k {
    model_cooldown = insert model (now + d) (retain (λ until. ltb now until) k.model_cooldown);
  }

  model_until-cooled :
      now ≤ t
      → ltb t (model_until cooled other)
        ≡ ltb t (if str_eq model other then now + d else model_until k other)
  unfolding model_until
  model_until-cooled h =
      rw
        (
          lookup-insert model other (now + d) (retain (λ until. ltb now until) k.model_cooldown),
          lookup-retain (λ until. ltb now until) other k.model_cooldown,
        )
        (until_of-prune (str_eq model other) (now + d) now t (lookup other k.model_cooldown) h)

  blocked-cooled :
      now ≤ t
      → blocked c daily_cap exclude other t cooled ≡ (
          blocked c daily_cap exclude "" t k
          || (not (str_eq other "")
              && ltb t (if str_eq model other then now + d else model_until k other)))
  unfolding blocked
  blocked-cooled h = ground (arith, model_until-cooled h)

-- A 429 cools one key for one model: until `now + d` the key is blocked for that model, for every
-- other model it is blocked exactly as before, and nothing else that blocks it has changed.
pub cooldown_model_scope :
    (c : Calendar) (p : Pool) (exclude : Map Bool) (model other : String) (i d now t : ℕ)
    (k : KeyState)
    → get_elem? p.keys i ≡ some k
    → now ≤ t
    → (k' : KeyState) × (get_elem? (cooldown_model p i model d now).keys i ≡ some k')
      × (blocked c p.daily_cap exclude other t k' ≡ (
          blocked c p.daily_cap exclude "" t k
          || (not (str_eq other "")
              && ltb t (if str_eq model other then now + d else model_until k other))))
unfolding cooldown_model
cooldown_model_scope c p exclude model other i d now t k e h = (
  _,
  get_elem?-modify_self p.keys i _ k e,
  blocked-cooled c p.daily_cap exclude model other now d t k h,
)

get_elem?-map {ℓ κ} :
    {A : Type ℓ} {B : Type κ} (f : A → B) (xs : List A) (i : ℕ) (a : A)
    → get_elem? xs i ≡ some a
    → get_elem? (map f xs) i ≡ some (f a)
get_elem?-map f [] i a e = cc
get_elem?-map f (x ∷ xs) zero a e = cc
get_elem?-map f (x ∷ xs) (suc i) a e = get_elem?-map f xs i a e

-- An admin's disable has no reason; a runtime disable has one.
abbrev pub admin_disabled : KeyState → Bool
admin_disabled k = k.disabled && not (runtime_disabled k)

module _ (c : Calendar) (daily_cap t : ℕ) (exclude : Map Bool) (model : String) where
  carry-blocked :
      (k old : KeyState)
      → k.disabled ≡ false
      → old.hash ≡ k.hash
      → admin_disabled old ≡ false
      → blocked c daily_cap exclude model t (carry old k) ≡ blocked c daily_cap exclude model t old
  unfolding carry blocked
  carry-blocked k old on same kept = rw (on, same) (ground (arith, kept))

  preserve-label : (prev : Map KeyState) (k : KeyState) → (preserve prev k).label ≡ k.label
  unfolding preserve
  preserve-label prev k = elim (Option-cases (lookup k.hash prev)) [
    | inl e ↦ rw (e, preserve)
    | inr (old, e) ↦ rw (e, preserve)
  ]

  preserve-blocked :
      (prev : Map KeyState) (k old : KeyState)
      → k.disabled ≡ false
      → lookup k.hash prev ≡ some old
      → old.hash ≡ k.hash
      → admin_disabled old ≡ false
      → blocked c daily_cap exclude model t (preserve prev k)
        ≡ blocked c daily_cap exclude model t old
  unfolding preserve
  preserve-blocked prev k old on e same kept = rw (e, preserve) (carry-blocked k old on same kept)

  -- A rebuild keeps what blocks a key: a key of the new pool whose hash had a state before is
  -- blocked, for any model, exclusions and time, exactly when that state was, unless an admin had
  -- disabled it.
  pub rebuild_keeps_blocked :
      (short_hash : String → String) (name mode : String) (entries : List KeyFileEntry)
      (prev : Map KeyState) (j : ℕ) (e : KeyFileEntry) (old : KeyState)
      → get_elem? entries j ≡ some e
      → lookup (short_hash e.key) prev ≡ some old
      → old.hash ≡ short_hash e.key
      → admin_disabled old ≡ false
      → (k : KeyState) × (get_elem?
            (new_pool_preserving short_hash name mode daily_cap entries prev).keys
            j
          ≡ some k)
        × (k.label ≡ e.label)
        × (blocked c daily_cap exclude model t k ≡ blocked c daily_cap exclude model t old)
  unfolding new_pool_preserving new_key
  rebuild_keeps_blocked short_hash name mode entries prev j e old at known same kept =
      let fresh = new_key e.label e.key (short_hash e.key) in
      (
        preserve prev fresh,
        get_elem?-map (preserve prev) _ j fresh (get_elem?-map _ entries j e at),
        preserve-label prev fresh,
        preserve-blocked prev fresh old refl known same kept,
      )
