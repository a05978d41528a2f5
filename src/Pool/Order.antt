-- ===== src/Pool/Order.antt =====
-- In which order `pick` prefers the unblocked keys.
use native.Mathlib.Nat.{mod-le, mod-eq_of_lt, add-mod-mod, mod-add-mod, add-mod_right}
use nano_llm_proxy.Prelude.{
  ℕ, suc, ◌+◌, ◌-◌, ◌%◌, ◌≤◌, ◌<◌, ◌≡◌, ◌≢◌, refl, sym, ◌∙◌, Bool, true, false, none, some, List,
  arith, length, get_elem?, get_elem?_bound, Map, String,
}
use nano_llm_proxy.Time.{Calendar}
use nano_llm_proxy.Pool.Keys.{KeyState}
use nano_llm_proxy.Pool.Choice.{
  Mode, priority, priority_daily, lru, choose, daily_offset, least_used,
}
use nano_llm_proxy.Pool.Choice.Walks.{Found, walk-Found}
use nano_llm_proxy.Pool.Choice.Lru.{least_used-some}
use nano_llm_proxy.Pool.Picks.{position_some, pick_at_choice, choose-Free, daily_offset-lt}
use nano_llm_proxy.Pool.{Pool, pick_at, blocked_in}

-- How many steps a walk of `n` positions that starts at `off` takes to reach position `j`.
turn_from : ℕ → ℕ → ℕ → ℕ
turn_from n off j = (j + n - off) % n

-- Priority walks from the first key, priority-daily from the key of the day.
unfoldable pub turn : Calendar → Mode → ℕ → ℕ → ℕ → ℕ
unfolding turn_from
turn c priority_daily n now j = turn_from n (daily_offset c now n) j
turn c _ n now j = j

reached_turn : (n off j : ℕ) → off < n → j < n → (off + turn_from n off j) % n ≡ j
unfolding turn_from
reached_turn n off j h k =
    let e : off + (j + n - off) ≡ j + n = omega arith in
    add-mod-mod off (j + n - off) n ∙ rw e (add-mod_right j n ∙ mod-eq_of_lt k)

turn_reached : (n off s : ℕ) → off < n → turn_from n off ((off + s) % n) ≤ s
unfolding turn_from
turn_reached n off s h =
    let e : (off + s) % n + n - off ≡ (off + s) % n + (n - off) = omega arith in
    let e' : off + s + (n - off) ≡ s + n = omega arith in
    rw (e, mod-add-mod (off + s) n (n - off), e', add-mod_right s n) (mod-le s n)

module _ (test : KeyState → Bool) (keys : List KeyState) (off i j : ℕ) (k : KeyState) where
  first_in_turn :
      Found test keys off 0 i
      → off < length keys
      → get_elem? keys j ≡ some k
      → turn_from (length keys) off j < turn_from (length keys) off i
      → test k ≡ true
  first_in_turn f h e lt =
      let n = length keys in
      let at = reached_turn n off j h (get_elem?_bound keys j k e) in
      let low : turn_from n off i ≤ f.step = rw f.position (turn_reached n off f.step h) in
      f.skipped (turn_from n off j) (omega arith) (omega (arith, low)) k (rw at e)

turn_from_zero : (n j : ℕ) → j < n → turn_from n 0 j ≡ j
unfolding turn_from
turn_from_zero n j h =
    let e : j + n - 0 ≡ j + n = omega arith in rw e (add-mod_right j n ∙ mod-eq_of_lt h)

module _ (c : Calendar) (test : KeyState → Bool) (keys : List KeyState) (now i j : ℕ)
    (k : KeyState) where
  choose_in_turn :
      (mode : Mode)
      → mode ≢ lru
      → choose c mode keys test now ≡ some i
      → get_elem? keys j ≡ some k
      → i < length keys
      → turn c mode (length keys) now j < turn c mode (length keys) now i
      → test k ≡ true
  unfolding choose turn
  choose_in_turn priority ne h e ib lt =
      let jb = get_elem?_bound keys j k e in
      first_in_turn test keys 0 i j k (walk-Found test keys 0 0 _ i h) (omega (arith, jb)) e
        (rw (turn_from_zero _ j jb, turn_from_zero _ i ib) lt)
  choose_in_turn priority_daily ne h e ib lt =
      let jb = get_elem?_bound keys j k e in
      first_in_turn test keys _ i j k (walk-Found test keys _ 0 _ i h)
        (daily_offset-lt c now _ (omega (arith, jb))) e lt
  choose_in_turn lru ne h e ib lt = absurd (ne refl)

module _ (c : Calendar) (p : Pool) (exclude : Map Bool) (model : String) (now : ℕ) where
  abbrev test : KeyState → Bool
  test = blocked_in c p exclude model now

  -- In the two priority modes, every key whose turn comes before that of the key that `pick`
  -- returns is blocked.
  pub pick_in_turn :
      (i j : ℕ) (k : KeyState)
      → p.mode ≢ lru
      → (pick_at c p exclude model now).1 ≡ some i
      → get_elem? p.keys j ≡ some k
      → turn c p.mode (length p.keys) now j < turn c p.mode (length p.keys) now i
      → test k ≡ true
  pick_in_turn i j k ne h e lt =
      let (found, _) = pick_at_choice c p exclude model now i h in
      let (k', there, _) = choose-Free c now test p.keys p.mode i found in
      choose_in_turn c test p.keys now i j k p.mode ne found e (get_elem?_bound p.keys i k' there)
        lt

  lru_oldest :
      (mode : Mode) (i j : ℕ) (k k' : KeyState)
      → mode ≡ lru
      → choose c mode p.keys test now ≡ some i
      → get_elem? p.keys i ≡ some k
      → get_elem? p.keys j ≡ some k'
      → test k' ≡ false
      → k.last_used ≤ k'.last_used
  unfolding choose
  lru_oldest priority i j k k' m h e e' u = cc
  lru_oldest priority_daily i j k k' m h e e' u = cc
  lru_oldest lru i j k k' m h e e' u =
      let (x, found) = position_some c now test p.keys (least_used test 0 p.keys none) i h in
      let (there, _, oldest) = least_used-some test p.keys i x found in
      let same : x ≡ k = cc (there, e) in rw (← same) (oldest j k' e' u)

  -- In LRU mode the key that `pick` returns was used no later than any other unblocked key.
  pub pick_least_used :
      (i j : ℕ) (k k' : KeyState)
      → p.mode ≡ lru
      → (pick_at c p exclude model now).1 ≡ some i
      → get_elem? p.keys i ≡ some k
      → get_elem? p.keys j ≡ some k'
      → test k' ≡ false
      → k.last_used ≤ k'.last_used
  pick_least_used i j k k' m h =
      lru_oldest p.mode i j k k' m (pick_at_choice c p exclude model now i h).0

-- From one day to the next the starting key moves on by one, and from the last key to the first.
pub daily_offset-midnight :
    (c : Calendar) (now n : ℕ)
    → daily_offset c (c.next_midnight now) n ≡ (daily_offset c now n + 1) % n
unfolding daily_offset
daily_offset-midnight c now n = rw (c.day-midnight now) (
    let e : suc (c.day now) ≡ c.day now + 1 = omega arith in
    rw e (sym (mod-add-mod (c.day now) n 1)))
