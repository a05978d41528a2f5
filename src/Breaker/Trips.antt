-- ===== src/Breaker/Trips.antt =====
-- Two keys inside the window trip a breaker.
use nano_llm_proxy.Prelude.{ℕ, ◌≡◌, false, some, String, lookup}
use nano_llm_proxy.Breaker.{ModelBreaker}

-- The entry holds a hit of `h` at `t`, is not tripped, and was touched then.
record Holds (h : String) (t : ℕ) (e : ModelBreaker) : Type 0 where
  waiting : e.is_tripped ≡ false
  hit_at : lookup h e.hits ≡ some t
  touched_at : e.touched ≡ t
