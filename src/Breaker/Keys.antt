-- ===== src/Breaker/Keys.antt =====
-- How many keys it takes to trip a breaker.
use text.Mathlib.TextPositions.{eq_refl}
use nano_llm_proxy.Prelude.{
  ℕ, ◌≡◌, ◌≢◌, refl, ◌∙◌, ◌⊎◌, inl, inr, Bool, false, not, ◌&&◌, Option, none, some, List, [], ◌∷◌,
  ltb, String, str_eq, eq_iff, if_false, Map, lookup, lookup-nil, filtered, lookup-delete, insert,
  delete, retain, Bool-cases, All,
}
use nano_llm_proxy.Breaker.{
  ModelBreaker, Breakers, breaker_key, is_open, stays, current, hit, count_hit, within_window,
  tripped, success,
}
use nano_llm_proxy.Breaker.Answers.{lookup-record_429, entry_after}
use nano_llm_proxy.Breaker.Calls.{Call, limited, succeeded, step, run}

both_false : (a b : Bool) → a ≡ false → (a && b) ≡ false
both_false a b n = rw n

pub hit-untripped :
    (key_hash : String) (cool floor now : ℕ) (e : ModelBreaker)
    → e.is_tripped ≡ false
    → hit key_hash cool floor now e ≡ count_hit key_hash cool floor now (within_window now e)
unfolding hit
hit-untripped key_hash cool floor now e n = if_false e.is_tripped _ _ n

module _ (h : String) where
  -- At most the key `h` has hit.
  abbrev OneHit : Map ℕ → Type 0
  OneHit m = (m ≡ []) ⊎ ((t : ℕ) × (m ≡ (h, t) ∷ []))

  -- The entry is not tripped and holds at most a hit of `h`.
  abbrev OneKey : Option ModelBreaker → Type 0
  OneKey none = Unit
  OneKey (some e) = (e.is_tripped ≡ false) × OneHit e.hits

  retain-OneHit : (p : ℕ → Bool) (m : Map ℕ) → OneHit m → OneHit (retain p m)
  unfolding retain delete
  retain-OneHit p m (inl e) = inl (rw e)
  retain-OneHit p m (inr (t, e)) = elim (Bool-cases (p t)) [
    | inl k ↦ inr (t, rw (e, k))
    | inr g ↦ inl (rw (e, g))
  ]

  insert_same : (now : ℕ) (m : Map ℕ) → OneHit m → insert h now m ≡ (h, now) ∷ []
  unfolding insert delete
  insert_same now m (inl e) = rw e
  insert_same now m (inr (t, e)) = rw (e, eq_refl h)

  count_hit_same :
      (cool floor now : ℕ) (e : ModelBreaker)
      → e.is_tripped ≡ false
      → OneHit e.hits
      → OneKey (some (count_hit h cool floor now e).0)
  unfolding count_hit
  count_hit_same cool floor now e n o = rw (insert_same now e.hits o) (n, inr (now, refl))

  within_window-OneHit :
      (now : ℕ) (e : ModelBreaker) → OneHit e.hits → OneHit (within_window now e).hits
  unfolding within_window
  within_window-OneHit now e o = retain-OneHit _ e.hits o

  within_window-is_tripped :
      (now : ℕ) (e : ModelBreaker) → (within_window now e).is_tripped ≡ e.is_tripped
  unfolding within_window
  within_window-is_tripped now e = refl

  hit-OneKey :
      (cool floor now : ℕ) (e : ModelBreaker)
      → e.is_tripped ≡ false
      → OneHit e.hits
      → OneKey (some (hit h cool floor now e).0)
  hit-OneKey cool floor now e n o = rw (hit-untripped h cool floor now e n) (
      count_hit_same cool floor now (within_window now e) (within_window-is_tripped now e ∙ n)
        (within_window-OneHit now e o))

  filtered-OneKey : (now : ℕ) (o : Option ModelBreaker) → OneKey o → OneKey (filtered (stays now) o)
  filtered-OneKey now none k = tt
  filtered-OneKey now (some e) k = elim (Bool-cases (stays now e)) [
    | inl s ↦ rw s k
    | inr s ↦ rw s tt
  ]

  current-OneKey : (now : ℕ) (o : Option ModelBreaker) → OneKey o → OneKey (some (current now o))
  unfolding current
  current-OneKey now none k = (refl, inl refl)
  current-OneKey now (some e) k =
      rw (if_false (e.is_tripped && not (ltb now e.open_until)) _ _ (both_false _ _ k.0)) k

  -- The call is not a 429 of the model from a key other than `h`.
  abbrev pub FromKey : String → Call → Type 0
  FromKey key (limited provider model key_hash cool floor) =
      (breaker_key provider model ≢ key) ⊎ (key_hash ≡ h)
  FromKey key (succeeded provider model) = Unit

  hit_same :
      (b : Breakers) (provider model key_hash : String) (cool floor now : ℕ) (key : String)
      → (breaker_key provider model ≢ key) ⊎ (key_hash ≡ h)
      → breaker_key provider model ≡ key
      → OneKey (lookup key b)
      → OneKey (some (entry_after b provider model key_hash cool floor now).0)
  hit_same b provider model key_hash cool floor now key (inl ne) same k = absurd (ne same)
  hit_same b provider model key_hash cool floor now key (inr e) same k =
      rw (e, same)
        (let c = current-OneKey now _ (filtered-OneKey now (lookup key b) k) in
          hit-OneKey cool floor now _ c.0 c.1)

  step-OneKey :
      (b : Breakers) (key : String) (now : ℕ) (call : Call)
      → FromKey key call
      → OneKey (lookup key b)
      → OneKey (lookup key (step b now call))
  unfolding step success
  step-OneKey b key now (succeeded provider model) f k =
      rw (lookup-delete (breaker_key provider model) key b)
        (elim (Bool-cases (str_eq (breaker_key provider model) key)) [
          | inl e ↦ rw e tt
          | inr e ↦ rw e k
        ])
  step-OneKey b key now (limited provider model key_hash cool floor) f k =
      rw (lookup-record_429 b provider model key_hash cool floor now key)
        (elim (Bool-cases (str_eq (breaker_key provider model) key)) [
          | inr e ↦ rw e (filtered-OneKey now (lookup key b) k)
          | inl e ↦
              let same : breaker_key provider model ≡ key =
                (eq_iff (breaker_key provider model) key).0 e in
              rw e (hit_same b provider model key_hash cool floor now key f same k)
        ])

  run-OneKey :
      (b : Breakers) (key : String) (calls : List (ℕ × Call))
      → All (λ (call : ℕ × Call). FromKey key call.1) calls
      → OneKey (lookup key b)
      → OneKey (lookup key (run b calls))
  unfolding run
  run-OneKey b key [] f k = k
  run-OneKey b key ((now, call) ∷ calls) f k =
      run-OneKey (step b now call) key calls f.1 (step-OneKey b key now call f.0 k)

  OneKey-is_open : (t : ℕ) (o : Option ModelBreaker) → OneKey o → is_open t o ≡ false
  OneKey-is_open t none k = refl
  OneKey-is_open t (some e) k = both_false _ _ k.0

  -- A single key never trips a model, however often it answers 429: if every 429 of the model came
  -- from the key `h`, the model is not in single-attempt mode at any time, whatever other models do.
  pub one_key_never_trips :
      (provider model : String) (calls : List (ℕ × Call)) (t : ℕ)
      → All (λ (call : ℕ × Call). FromKey (breaker_key provider model) call.1) calls
      → tripped (run [] calls) provider model t ≡ false
  unfolding tripped
  one_key_never_trips provider model calls t f =
      OneKey-is_open t _ (run-OneKey [] (breaker_key provider model) calls f (rw lookup-nil tt))
