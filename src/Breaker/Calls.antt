-- ===== src/Breaker/Calls.antt =====
-- internal/gateway/ratelimit.go: any sequence of calls on the breakers, each with the clock's time.
use nano_llm_proxy.Prelude.{ℕ, ◌≤◌, List, [], ◌∷◌, String}
use nano_llm_proxy.Breaker.{Breakers, record_429, success}

pub data Call : Type 0 where
  -- provider, model, key hash, cooldown, floor
  limited : String → String → String → ℕ → ℕ → Call
  succeeded : String → String → Call

unfoldable pub step : Breakers → ℕ → Call → Breakers
step b now (limited provider model key_hash cool floor) =
    (record_429 b provider model key_hash cool floor now).0
step b now (succeeded provider model) = success b provider model

unfoldable pub run : Breakers → List (ℕ × Call) → Breakers
unfolding step
run b [] = b
run b ((now, call) ∷ calls) = run (step b now call) calls

-- The calls come in the order of time, none before `from`.
abbrev pub InOrder : ℕ → List (ℕ × Call) → Type 0
InOrder from [] = Unit
InOrder from ((now, call) ∷ calls) = (from ≤ now) × InOrder now calls

-- The time of the last call, `from` if there is none.
abbrev pub last_call : ℕ → List (ℕ × Call) → ℕ
last_call from [] = from
last_call from ((now, call) ∷ calls) = last_call now calls
