-- ===== src/Pool/RateLimit.antt =====
-- What `rateLimitedFor` promises: how long no key can serve the model, to the instant.
use nano_llm_proxy.Prelude.{
  ℕ, suc, ◌+◌, ◌-◌, ◌≤◌, ◌<◌, ◌≡◌, ◌≢◌, refl, ◌⊎◌, inl, inr, Bool, true, false, Option, none, some,
  List, [], ◌∷◌, arith, get_elem?, All, All-get, All-of-get, Map, String, Bool-cases, Option-cases,
  str_eq, lookup,
}
use nano_llm_proxy.Time.{Calendar}
use nano_llm_proxy.Pool.Keys.{KeyState, blocked}
use nano_llm_proxy.Pool.Waits.{frees_at, shorter, wait_all}
use nano_llm_proxy.Pool.{Pool, pick_at, blocked_in, rate_limited_for}
use nano_llm_proxy.Pool.Picks.{pick_none, none_of_blocked}

abbrev StampedBy : ℕ → Option ℕ → Type 0
StampedBy today none = Unit
StampedBy today (some d) = d ≤ today

module _ (c : Calendar) (daily_cap : ℕ) (model : String) (now u : ℕ) (k : KeyState) where
  frees_later : frees_at c daily_cap model now k ≡ some u → now < u
  unfolding frees_at
  frees_later h = ground (arith, c.midnight_later now)

  -- Until then the key is blocked for the model.
  blocked_before :
      (exclude : Map Bool) (t : ℕ)
      → frees_at c daily_cap model now k ≡ some u
      → str_eq model "" ≡ false
      → now ≤ t
      → t < u
      → blocked c daily_cap exclude model t k ≡ true
  unfolding frees_at blocked
  blocked_before exclude t h named le lt = ground (arith, c.same_day now t)

  -- At that instant an enabled key is free.
  free_at :
      frees_at c daily_cap model now k ≡ some u
      → k.disabled ≡ false
      → StampedBy (c.day now) k.day_stamp
      → blocked c daily_cap [] model u k ≡ false
  unfolding frees_at blocked lookup
  free_at h on s = ground (
    arith,
    c.day-midnight now,
    c.day_mono now u,
    c.day_mono (c.next_midnight now) u,
    c.midnight_later now,
  )

module _ (frees : KeyState → Option ℕ) (now : ℕ) where
  -- The key is disabled, or it frees up no sooner than after `w`.
  abbrev Waits : ℕ → KeyState → Type 0
  Waits w k = (k.disabled ≡ true) ⊎ ((u : ℕ) × (frees k ≡ some u) × (w ≤ u - now))

  abbrev AtMost : ℕ → Option ℕ → Type 0
  AtMost w none = Unit
  AtMost w (some a) = w ≤ a

  AtMost-shorter : (w d : ℕ) (acc : Option ℕ) → AtMost w (shorter d acc) → (w ≤ d) × AtMost w acc
  unfolding shorter
  AtMost-shorter w d none h = (h, tt)
  AtMost-shorter w d (some a) h = ground arith

  wait_all-skip :
      (k : KeyState) (ks : List KeyState) (acc : Option ℕ)
      → k.disabled ≡ true
      → wait_all frees now (k ∷ ks) acc ≡ wait_all frees now ks acc
  unfolding wait_all
  wait_all-skip k ks acc off = rw off

  wait_all-stop :
      (k : KeyState) (ks : List KeyState) (acc : Option ℕ)
      → k.disabled ≡ false
      → frees k ≡ none
      → wait_all frees now (k ∷ ks) acc ≡ none
  unfolding wait_all
  wait_all-stop k ks acc on e = ground arith

  wait_all-next :
      (k : KeyState) (ks : List KeyState) (acc : Option ℕ) (u : ℕ)
      → k.disabled ≡ false
      → frees k ≡ some u
      → wait_all frees now (k ∷ ks) acc ≡ wait_all frees now ks (shorter (u - now) acc)
  unfolding wait_all
  wait_all-next k ks acc u on e = ground arith

  wait_all_nil : (acc : Option ℕ) → wait_all frees now [] acc ≡ acc
  unfolding wait_all
  wait_all_nil acc = refl

  wait_all_least :
      (ks : List KeyState) (acc : Option ℕ) (w : ℕ)
      → wait_all frees now ks acc ≡ some w
      → AtMost w acc × All (Waits w) ks
  wait_all_least [] none w h = cc (wait_all_nil none)
  wait_all_least [] (some a) w h = (ground (arith, wait_all_nil (some a)), tt)
  wait_all_least (k ∷ ks) acc w h = elim (Bool-cases k.disabled) [
    | inl off ↦
        let (m, all) = wait_all_least ks acc w (rw (wait_all-skip k ks acc off) at h) in
        (m, (inl off, all))
    | inr on ↦ elim (Option-cases (frees k)) [
      | inl stop ↦ absurd (cc (wait_all-stop k ks acc on stop, h))
      | inr (u, e) ↦
          let (m, all) =
            wait_all_least ks (shorter (u - now) acc) w (rw (wait_all-next k ks acc u on e) at h) in
          let (le, m') = AtMost-shorter w (u - now) acc m in (m', (inr (u, e, le), all))
    ]
  ]

  -- Some enabled key frees up after exactly `w`.
  record Attained (w : ℕ) (ks : List KeyState) : Type 0 where
    at : ℕ
    key : KeyState
    there : get_elem? ks at ≡ some key
    on : key.disabled ≡ false
    until : ℕ
    frees_then : frees key ≡ some until
    exact : w ≡ until - now

  Attained-later : (w : ℕ) (k : KeyState) (ks : List KeyState) → Attained w ks → Attained w (k ∷ ks)
  Attained-later w k ks a = record {
    at = suc a.at;
    key = a.key;
    there = a.there;
    on = a.on;
    until = a.until;
    frees_then = a.frees_then;
    exact = a.exact;
  }

  shorter_cases : (w d : ℕ) (acc : Option ℕ) → shorter d acc ≡ some w → (acc ≡ some w) ⊎ (w ≡ d)
  unfolding shorter
  shorter_cases w d none h = ground arith
  shorter_cases w d (some a) h = ground arith

  wait_all-Attained :
      (ks : List KeyState) (acc : Option ℕ) (w : ℕ)
      → wait_all frees now ks acc ≡ some w
      → (acc ≡ some w) ⊎ Attained w ks
  wait_all-Attained [] acc w h = inl (cc (wait_all_nil acc))
  wait_all-Attained (k ∷ ks) acc w h = elim (Bool-cases k.disabled) [
    | inl off ↦ elim (wait_all-Attained ks acc w (rw (wait_all-skip k ks acc off) at h)) [
      | inl e ↦ inl e
      | inr a ↦ inr (Attained-later w k ks a)
    ]
    | inr on ↦ elim (Option-cases (frees k)) [
      | inl stop ↦ absurd (cc (wait_all-stop k ks acc on stop, h))
      | inr (u, e) ↦
          elim (wait_all-Attained ks (shorter (u - now) acc) w
            (rw (wait_all-next k ks acc u on e) at h)) [
              | inr a ↦ inr (Attained-later w k ks a)
              | inl s ↦ elim (shorter_cases w (u - now) acc s) [
                | inl old ↦ inl old
                | inr new ↦ inr (record {
                  at = 0;
                  key = k;
                  there = refl;
                  on = on;
                  until = u;
                  frees_then = e;
                  exact = new;
                })
              ]
            ]
    ]
  ]

module _ (c : Calendar) (p : Pool) (model : String) (now w : ℕ)
    (limited : rate_limited_for c p model now ≡ some w) where
  abbrev frees : KeyState → Option ℕ
  frees = frees_at c p.daily_cap model now

  named : str_eq model "" ≡ false
  unfolding rate_limited_for
  named = ground (arith, limited)

  waits : wait_all frees now p.keys none ≡ some w
  unfolding rate_limited_for
  waits = ground (arith, limited)

  blocked_until :
      (exclude : Map Bool) (t : ℕ) (k : KeyState)
      → now ≤ t
      → t < now + w
      → Waits frees now w k
      → blocked_in c p exclude model t k ≡ true
  unfolding blocked
  blocked_until exclude t k le lt (inl off) = rw off
  blocked_until exclude t k le lt (inr (u, e, far)) =
      blocked_before c p.daily_cap model now u k exclude t e named le
        (omega (arith, frees_later c p.daily_cap model now u k e))

  -- When `rateLimitedFor` reports a wait, no `pick` for the model returns a key before the wait is
  -- over, whatever it excludes.
  pub rate_limited-pick_none :
      (exclude : Map Bool) (t : ℕ) → now ≤ t → t < now + w → (pick_at c p exclude model t).1 ≡ none
  rate_limited-pick_none exclude t le lt = none_of_blocked c p exclude model t (
      All-of-get (λ k. blocked_in c p exclude model t k ≡ true) p.keys
        λ i k e. blocked_until exclude t k le lt (
          All-get (Waits frees now w) p.keys (wait_all_least frees now p.keys none w waits).1 i k
            e))

  -- At the end of a wait that `rateLimitedFor` reports, a `pick` for the model that excludes nothing
  -- returns a key, if no key's daily count is of a day to come.
  pub rate_limited-pick_some :
      All (λ k. StampedBy (c.day now) k.day_stamp) p.keys
      → (pick_at c p [] model (now + w)).1 ≢ none
  rate_limited-pick_some stamped none_free =
      elim (wait_all-Attained frees now p.keys none w waits) [
        | inl e ↦ cc
        | inr a ↦
            let later = frees_later c p.daily_cap model now a.until a.key a.frees_then in
            let end : now + w ≡ a.until = omega (arith, later, a.exact) in
            let free = free_at c p.daily_cap model now a.until a.key a.frees_then a.on (
              All-get (λ k. StampedBy (c.day now) k.day_stamp) p.keys stamped a.at a.key a.there) in
            let all = (pick_none c p [] model (now + w)).0 none_free in
            let stuck =
              All-get (λ k. blocked_in c p [] model (now + w) k ≡ true) p.keys all.0 a.at a.key
                a.there in
            cc (rw end at stuck, free)
      ]
