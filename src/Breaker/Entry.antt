-- ===== src/Breaker/Entry.antt =====
-- What one 429 does to the entry of its (provider, model).
use nano_llm_proxy.Prelude.{
  ℕ, ◌+◌, ◌≤◌, ◌<◌, ◌≡◌, ◌⊎◌, true, false, Option, none, some, arith, String, length,
}
use nano_llm_proxy.Breaker.{
  ModelBreaker, breaker_window, breaker_distinct_keys, breaker_min_backoff, breaker_max_backoff,
  is_open, current, hit,
}

-- A trip is between its least and its greatest backoff and ends at most the greatest one after the
-- last 429; before a trip there are too few hits for one.
pub record IsValid (now : ℕ) (e : ModelBreaker) : Type 0 where
  pub seen : e.touched ≤ now
  pub closes : e.open_until ≤ e.touched + breaker_max_backoff
  pub capped : e.backoff ≤ breaker_max_backoff
  pub tripped_backoff : e.is_tripped ≡ true → breaker_min_backoff ≤ e.backoff
  pub few_hits : e.is_tripped ≡ false → length e.hits < breaker_distinct_keys

-- A tripped entry that record429 goes on with is still open.
abbrev pub IsCurrent : ℕ → ModelBreaker → Type 0
IsCurrent now e = (e.is_tripped ≡ false) ⊎ (now < e.open_until)

pub current-IsCurrent : (now : ℕ) (o : Option ModelBreaker) → IsCurrent now (current now o)
unfolding current
current-IsCurrent now none = ground arith
current-IsCurrent now (some e) = ground arith

module _ (key_hash : String) (cool floor now : ℕ) (e : ModelBreaker) where
  -- The answer of record429 says whether the entry is open afterwards.
  pub hit-is_open :
      IsCurrent now e
      → (hit key_hash cool floor now e).1 ≡ is_open now (some (hit key_hash cool floor now e).0)
  unfolding hit
  hit-is_open h = ground arith

  -- The time that an open trip ends and its backoff never go down.
  pub hit_grows :
      e.is_tripped ≡ true
      → e.backoff ≤ breaker_max_backoff
      → (e.open_until ≤ (hit key_hash cool floor now e).0.open_until)
        × (e.backoff ≤ (hit key_hash cool floor now e).0.backoff)
        × (now + (hit key_hash cool floor now e).0.backoff
            ≤ (hit key_hash cool floor now e).0.open_until)
  unfolding hit
  hit_grows h b = ground arith

  -- A burst counts once: within the window of the last growth the backoff stays.
  pub hit_burst :
      e.is_tripped ≡ true
      → now < e.grown_at + breaker_window
      → e.grown_at ≤ now
      → (hit key_hash cool floor now e).0.backoff ≡ e.backoff
  unfolding hit
  hit_burst h b g = ground arith

  pub hit-IsValid : IsValid now e → e.touched ≡ now → IsValid now (hit key_hash cool floor now e).0
  unfolding hit
  hit-IsValid v at = ground arith
