-- ===== src/Rotation/Rounds.antt =====
-- The rounds of the rotation loops, as equations.
use nano_llm_proxy.Prelude.{ℕ, suc, ◌≡◌, refl, ◌⊎◌, inl, inr, Option, none, some, [], ◌∷◌}
use nano_llm_proxy.Time.{Calendar}
use nano_llm_proxy.Pool.Keys.{KeyState}
use nano_llm_proxy.Classify.{RetryConfig, Hint}
use nano_llm_proxy.Rotation.{Rotation, next}
use nano_llm_proxy.Rotation.Failures.{Trace, Failure}
use nano_llm_proxy.Rotation.Loops.{
  Turn, Style, Then, Reply, ends, goes_on, also_tried, give_up, settle, call, walk_keys,
}

pub Then-cases : (t : Then) → ((o : Option Failure) × (t ≡ ends o)) ⊎ ((h : Hint) × (t ≡ goes_on h))
Then-cases (ends o) = inl (o, refl)
Then-cases (goes_on h) = inr (h, refl)

abbrev pub handed : Calendar → (ℕ → Turn) → ℕ → Rotation → Rotation × Option (ℕ × KeyState)
handed c turns n rot = next c rot (turns n).asked_at

module _ (c : Calendar) (s : RetryConfig) (turns : ℕ → Turn) (style : Style) where
  abbrev pub called : ℕ → Rotation → Trace → ℕ → KeyState → Rotation × (Trace × Reply)
  called n rot tr i k = call s style (handed c turns n rot).0 tr i k (turns n)

  pub walk_keys_zero :
      (n : ℕ) (rot : Rotation) (tr : Trace) (hint : Hint)
      → walk_keys c s turns style 0 n rot tr hint ≡ give_up c s turns rot tr hint (turns n).asked_at
  unfolding walk_keys
  walk_keys_zero n rot tr hint = refl

  module _ (left n : ℕ) (rot : Rotation) (tr : Trace) (hint : Hint) where
    pub walk_keys-none :
        (handed c turns n rot).1 ≡ none
        → walk_keys c s turns style (suc left) n rot tr hint
          ≡ give_up c s turns (handed c turns n rot).0 tr hint (turns n).asked_at
    unfolding walk_keys
    walk_keys-none e = cc

    pub walk_keys_ends :
        (i : ℕ) (k : KeyState) (o : Option Failure)
        → (handed c turns n rot).1 ≡ some (i, k)
        → settle style.on_flip (called n rot tr i k).1.1 ≡ ends o
        → walk_keys c s turns style (suc left) n rot tr hint ≡ record {
          tried = k.hash ∷ [];
          rotation = (called n rot tr i k).0;
          trace = (called n rot tr i k).1.0;
          failure = o;
        }
    unfolding walk_keys
    walk_keys_ends i k o e t = cc

    pub walk_keys_goes :
        (i : ℕ) (k : KeyState) (h : Hint)
        → (handed c turns n rot).1 ≡ some (i, k)
        → settle style.on_flip (called n rot tr i k).1.1 ≡ goes_on h
        → walk_keys c s turns style (suc left) n rot tr hint
          ≡ also_tried k.hash (
              walk_keys c s turns style left
                (suc n)
                (called n rot tr i k).0
                (called n rot tr i k).1.0
                h)
    unfolding walk_keys
    walk_keys_goes i k h e t = cc
