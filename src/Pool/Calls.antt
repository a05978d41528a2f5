-- ===== src/Pool/Calls.antt =====
-- internal/gateway/pool.go: any sequence of calls on a pool, each with the clock's time.
use nano_llm_proxy.Prelude.{
  ℕ, ◌+◌, ◌≤◌, Bool, Option, none, some, List, [], ◌∷◌, Map, String, ◌==◌, ◌&&◌, if◌then◌else◌,
}
use nano_llm_proxy.Time.{Calendar}
use nano_llm_proxy.Pool.Keys.{DisabledReason}
use nano_llm_proxy.Pool.{
  Pool, pick_at, cooldown, cooldown_account, cooldown_model, disable, record_rate_limit,
  record_error, set_enabled,
}

pub data Call : Type 0 where
  picks : Map Bool → String → Call
  cools cools_account : ℕ → ℕ → Call
  cools_model : ℕ → String → ℕ → Call
  disables : ℕ → DisabledReason → Call
  counts_rate_limit counts_error : ℕ → Call
  enables : String → Bool → Call

-- The pool after a call at `now`, and the position that a pick returned.
unfoldable pub step : Calendar → Pool → ℕ → Call → Pool × Option ℕ
step c p now (picks exclude model) = pick_at c p exclude model now
step c p now (cools i d) = (cooldown p i d now, none)
step c p now (cools_account i d) = (cooldown_account p i d now, none)
step c p now (cools_model i model d) = (cooldown_model p i model d now, none)
step c p now (disables i kind) = (disable p i kind, none)
step c p now (counts_rate_limit i) = (record_rate_limit p i, none)
step c p now (counts_error i) = (record_error p i, none)
step c p now (enables hash enabled) = ((set_enabled p hash enabled).0, none)

abbrev pub returned : Option ℕ → ℕ → Bool
returned none i = Bool.false
returned (some j) i = j == i

-- How many of the calls returned the key at position `i` on day `d`.
unfoldable pub served_on : Calendar → ℕ → ℕ → Pool → List (ℕ × Call) → ℕ
unfolding step
served_on c i d p [] = 0
served_on c i d p ((now, call) ∷ calls) =
    (if (c.day now == d) && returned (step c p now call).1 i then 1 else 0)
    + served_on c i d (step c p now call).0 calls

-- The calls come in the order of time, none before `from`.
abbrev pub InOrder : ℕ → List (ℕ × Call) → Type 0
InOrder from [] = Unit
InOrder from ((now, call) ∷ calls) = (from ≤ now) × InOrder now calls
