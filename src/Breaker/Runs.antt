-- ===== src/Breaker/Runs.antt =====
-- What holds of the breakers after any calls in the order of time.
use nano_llm_proxy.Prelude.{
  ℕ, ◌+◌, ◌≤◌, ◌≡◌, refl, inl, inr, Bool, true, false, Option, none, some, List, [], ◌∷◌, arith,
  String, str_eq, if◌then◌else◌, lookup, lookup-nil, filtered, lookup-delete, Bool-cases,
}
use nano_llm_proxy.Breaker.{
  ModelBreaker, Breakers, breaker_key, breaker_max_backoff, is_open, stays, current, tripped,
  success,
}
use nano_llm_proxy.Breaker.Entry.{IsValid, hit-IsValid}
use nano_llm_proxy.Breaker.Answers.{lookup-record_429}
use nano_llm_proxy.Breaker.Calls.{Call, limited, succeeded, step, run, InOrder, last_call}

abbrev ValidEntry : ℕ → Option ModelBreaker → Type 0
ValidEntry now none = Unit
ValidEntry now (some e) = IsValid now e

-- Every entry is valid.
record AllValid (now : ℕ) (b : Breakers) : Type 0 where
  at : (k : String) → ValidEntry now (lookup k b)

IsValid-later : (a now : ℕ) (e : ModelBreaker) → a ≤ now → IsValid a e → IsValid now e
IsValid-later a now e h v = record {
  seen = omega (arith, v.seen);
  closes = v.closes;
  capped = v.capped;
  tripped_backoff = v.tripped_backoff;
  few_hits = v.few_hits;
}

touched-IsValid :
    (a now : ℕ) (o : Option ModelBreaker)
    → a ≤ now
    → ValidEntry a o
    → IsValid now (record (current now (filtered (stays now) o)) { touched = now })
unfolding current
touched-IsValid a now none h v = ground arith
touched-IsValid a now (some e) h v = ground (arith, v.seen, v.closes, v.capped)

filtered-ValidEntry :
    (a now : ℕ) (o : Option ModelBreaker)
    → a ≤ now
    → ValidEntry a o
    → ValidEntry now (filtered (stays now) o)
filtered-ValidEntry a now none h v = tt
filtered-ValidEntry a now (some e) h v = elim (Bool-cases (stays now e)) [
  | inl s ↦ rw s (IsValid-later a now e h v)
  | inr s ↦ rw s tt
]

later-ValidEntry :
    (a now : ℕ) (o : Option ModelBreaker) → a ≤ now → ValidEntry a o → ValidEntry now o
later-ValidEntry a now none h v = tt
later-ValidEntry a now (some e) h v = IsValid-later a now e h v

if-ValidEntry :
    (now : ℕ) (b : Bool) (x y : Option ModelBreaker)
    → ValidEntry now x
    → ValidEntry now y
    → ValidEntry now (if b then x else y)
if-ValidEntry now true x y h k = h
if-ValidEntry now false x y h k = k

step-AllValid :
    (a now : ℕ) (b : Breakers) (call : Call)
    → a ≤ now
    → AllValid a b
    → AllValid now (step b now call)
unfolding step success
step-AllValid a now b (limited provider model key_hash cool floor) h v = record {
  at = λ k. rw (lookup-record_429 b provider model key_hash cool floor now k) (
      if-ValidEntry now (str_eq (breaker_key provider model) k) _ _
        (hit-IsValid key_hash cool floor now _ (touched-IsValid a now _ h (v.at _)) refl)
        (filtered-ValidEntry a now _ h (v.at k)));
}
step-AllValid a now b (succeeded provider model) h v = record {
  at = λ k. rw (lookup-delete (breaker_key provider model) k b) (
      if-ValidEntry now (str_eq (breaker_key provider model) k) _ _ tt
        (later-ValidEntry a now _ h (v.at k)));
}

run-AllValid :
    (a : ℕ) (b : Breakers) (calls : List (ℕ × Call))
    → AllValid a b
    → InOrder a calls
    → AllValid (last_call a calls) (run b calls)
unfolding run
run-AllValid a b [] v o = v
run-AllValid a b ((now, call) ∷ calls) v o =
    run-AllValid now (step b now call) calls (step-AllValid a now b call o.0 v) o.1

closed_after :
    (now t : ℕ) (o : Option ModelBreaker)
    → ValidEntry now o
    → now + breaker_max_backoff ≤ t
    → is_open t o ≡ false
closed_after now t none v h = refl
closed_after now t (some e) v h = ground (arith, v.seen, v.closes)

-- From no entries, after any 429s and 200s in the order of time, every model is out of
-- single-attempt mode five minutes after the last call, whatever its Retry-After values were.
pub breaker_reopens :
    (calls : List (ℕ × Call)) (provider model : String) (t : ℕ)
    → InOrder 0 calls
    → last_call 0 calls + breaker_max_backoff ≤ t
    → tripped (run [] calls) provider model t ≡ false
unfolding tripped
breaker_reopens calls provider model t o h =
    closed_after (last_call 0 calls) t _
      ((run-AllValid 0 [] calls (record { at = λ k. rw lookup-nil tt }) o).at
        (breaker_key provider model))
      h
