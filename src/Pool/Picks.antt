-- ===== src/Pool/Picks.antt =====
-- What `pick` returns and changes, in each rotation mode.
use native.Mathlib.Nat.{mod-lt}
use nano_llm_proxy.Prelude.{
  ℕ, ◌<◌, ◌≡◌, refl, ◌↔◌, inl, inr, Bool, true, false, Option, none, some, List, arith, length,
  get_elem?, get_elem?_bound, get_elem?-modify_self, All, All-of-get, All-get, Map, String,
  Option-cases,
}
use nano_llm_proxy.Time.{Calendar}
use nano_llm_proxy.Pool.Keys.{KeyState, serve}
use nano_llm_proxy.Pool.Choice.{
  Mode, priority, priority_daily, lru, choose, daily_offset, position, least_used, walk,
}
use nano_llm_proxy.Pool.Choice.Walks.{Found, walk-Found, walk-none, reached_all}
use nano_llm_proxy.Pool.Choice.Lru.{least_used-some, least_used-none}
use nano_llm_proxy.Pool.{Pool, pick_at, blocked_in, at_key}

pub daily_offset-lt : (c : Calendar) (now n : ℕ) → 0 < n → daily_offset c now n < n
unfolding daily_offset
daily_offset-lt c now n h = mod-lt (c.day now) h

module _ (c : Calendar) (now : ℕ) (test : KeyState → Bool) (keys : List KeyState) where
  -- The chosen position holds a key that passes.
  abbrev Free : ℕ → Type 0
  Free i = (k : KeyState) × (get_elem? keys i ≡ some k) × (test k ≡ false)

  of_Found : (start i : ℕ) → Found test keys start 0 i → Free i
  of_Found start i f = (f.key, f.there, f.free)

  pub position_some :
      (o : Option (ℕ × KeyState)) (i : ℕ) → position o ≡ some i → (k : KeyState) × (o ≡ some (i, k))
  position_some none i h = cc
  position_some (some (j, k)) i h = (k, ground arith)

  pub choose-Free : (mode : Mode) (i : ℕ) → choose c mode keys test now ≡ some i → Free i
  unfolding choose
  choose-Free priority i h = of_Found _ i (walk-Found test keys _ 0 _ i h)
  choose-Free priority_daily i h = of_Found _ i (walk-Found test keys _ 0 _ i h)
  choose-Free lru i h =
      let (k, e) = position_some (least_used test 0 keys none) i h in
      let r = least_used-some test keys i k e in (k, r.0, r.1)

  walk-none-All :
      (start : ℕ)
      → (0 < length keys → start < length keys)
      → walk test keys start 0 (length keys) ≡ none
      → All (λ k. test k ≡ true) keys
  walk-none-All start h w =
      All-of-get (λ k. test k ≡ true) keys
        λ j k e.
          let bound = get_elem?_bound keys j k e in
          let pos : 0 < length keys = omega (arith, bound) in
          let (t, lt, at) = reached_all (length keys) start j (h pos) bound in
          walk-none test keys start 0 (length keys) w pos t (omega arith) (omega (arith, lt)) k
            (rw at e)

  position_none : (o : Option (ℕ × KeyState)) → position o ≡ none → o ≡ none
  position_none none h = refl
  position_none (some (j, k)) h = cc

  pub choose-none :
      (mode : Mode) → choose c mode keys test now ≡ none → All (λ k. test k ≡ true) keys
  unfolding choose
  choose-none priority h = walk-none-All 0 (λ p. p) h
  choose-none priority_daily h =
      walk-none-All (daily_offset c now (length keys)) (λ p. daily_offset-lt c now _ p) h
  choose-none lru h = (least_used-none test 0 keys none (position_none _ h)).1

module _ (c : Calendar) (p : Pool) (exclude : Map Bool) (model : String) (now : ℕ) where
  abbrev test : KeyState → Bool
  test = blocked_in c p exclude model now

  abbrev picked : Pool × Option ℕ
  picked = pick_at c p exclude model now

  pub pick_at_choice :
      (i : ℕ)
      → picked.1 ≡ some i
      → (choose c p.mode p.keys test now ≡ some i)
        × (picked.0 ≡ at_key p i (serve c p.daily_cap now))
  unfolding pick_at
  pick_at_choice i h = elim (Option-cases (choose c p.mode p.keys test now)) [
    | inl e ↦ absurd (ground (arith, e))
    | inr (j, e) ↦ let same : j ≡ i = ground (arith, e) in rw (e, pick_at, same) (refl, refl)
  ]

  pick_at_none : picked.1 ≡ none → (choose c p.mode p.keys test now ≡ none) × (picked.0 ≡ p)
  unfolding pick_at
  pick_at_none h = elim (Option-cases (choose c p.mode p.keys test now)) [
    | inl e ↦ rw (e, pick_at) (refl, refl)
    | inr (j, e) ↦ absurd (ground (arith, e))
  ]

  -- A key that `pick` returns passes the test, and the pool changes only there, by what `serve` makes of
  -- the key.
  pub pick-free :
      (i : ℕ)
      → picked.1 ≡ some i
      → (k : KeyState) × (get_elem? p.keys i ≡ some k)
        × (test k ≡ false)
        × (get_elem? picked.0.keys i ≡ some (serve c p.daily_cap now k))
        × (picked.0 ≡ at_key p i (serve c p.daily_cap now))
  pick-free i h =
      let (e, q) = pick_at_choice i h in
      let (k, there, free) = choose-Free c now test p.keys p.mode i e in
      (k, there, free, rw q (get_elem?-modify_self p.keys i _ k there), q)

  pub none_of_blocked : All (λ k. test k ≡ true) p.keys → picked.1 ≡ none
  none_of_blocked all = elim (Option-cases picked.1) [
    | inl e ↦ e
    | inr (i, e) ↦
        let (k, there, free, _, _) = pick-free i e in
        let b = All-get (λ k. test k ≡ true) p.keys all i k there in absurd (cc (b, free))
  ]

  -- `pick` returns no key exactly when every key of the pool is blocked, in every mode, and then it
  -- leaves the pool as it was.
  pub pick_none : (picked.1 ≡ none) ↔ (All (λ k. test k ≡ true) p.keys × (picked.0 ≡ p))
  pick_none = (
    λ h. let (e, same) = pick_at_none h in (choose-none c now test p.keys p.mode e, same),
    λ b. none_of_blocked b.0,
  )
