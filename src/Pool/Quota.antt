-- ===== src/Pool/Quota.antt =====
-- The daily cap over any sequence of calls.
use nano_llm_proxy.Prelude.{
  ℕ, ◌+◌, ◌≤◌, ◌<◌, ◌≡◌, refl, ◌∙◌, inl, inr, false, Option, none, some, List, [], ◌∷◌, arith,
  get_elem?, All, All-get, if◌then◌else◌, ◌==◌, ◌&&◌, Option-cases,
}
use nano_llm_proxy.Time.{Calendar}
use nano_llm_proxy.Pool.Keys.{KeyState, serve}
use nano_llm_proxy.Pool.{Pool}
use nano_llm_proxy.Pool.Calls.{Call, step, returned, served_on, InOrder}
use nano_llm_proxy.Pool.Effects.{
  spent, StampedBy, SameDay, absent, present, InQuota, Effect, kept, served, step-Effect, le_or_lt,
}

module _ (c : Calendar) where
  -- A day that is over has no more calls.
  served_past :
      (i d from : ℕ) (p : Pool) (calls : List (ℕ × Call))
      → d < c.day from
      → InOrder from calls
      → served_on c i d p calls ≡ 0
  unfolding served_on
  served_past i d from p [] h o = refl
  served_past i d from p ((now, call) ∷ calls) h o =
      let later = c.day_mono from now o.0 in
      let rest = served_past i d now (step c p now call).0 calls (omega (arith, later)) o.1 in
      ground (arith, later, rest)

  absent_next :
      (p : Pool) (now i : ℕ) (q : Pool × Option ℕ)
      → get_elem? p.keys i ≡ none
      → Effect c p now i q
      → (get_elem? q.0.keys i ≡ none) × (returned q.1 i ≡ false)
  absent_next p now i q h (kept r (absent a b) e) = (b, r)
  absent_next p now i q h (kept r (present k k' a b s) e) = cc
  absent_next p now i q h (served k r a b u e) = cc

  -- A position with no key is never returned.
  served_absent :
      (i d : ℕ) (p : Pool) (calls : List (ℕ × Call))
      → get_elem? p.keys i ≡ none
      → served_on c i d p calls ≡ 0
  unfolding served_on
  served_absent i d p [] h = refl
  served_absent i d p ((now, call) ∷ calls) h =
      let (gone, not_it) = absent_next p now i _ h (step-Effect c p now i call) in
      ground (arith, not_it, served_absent i d (step c p now call).0 calls gone)

  -- One call's share of the count for day `d`.
  abbrev share : ℕ → ℕ → ℕ → Option ℕ → ℕ
  share i d now o = if (c.day now == d) && returned o i then 1 else 0

  record Next (p : Pool) (now i d : ℕ) (k : KeyState) (q : Pool × Option ℕ) : Type 0 where
    after : KeyState
    there : get_elem? q.0.keys i ≡ some after
    quota : InQuota p.daily_cap (c.day now) after
    grows : c.day now ≤ d → share i d now q.1 + spent d k ≤ spent d after
    past : d < c.day now → share i d now q.1 ≡ 0
    cap : q.0.daily_cap ≡ p.daily_cap

  StampedBy-mono : (a b : ℕ) (o : Option ℕ) → a ≤ b → StampedBy a o → StampedBy b o
  StampedBy-mono a b none h s = tt
  StampedBy-mono a b (some d) h s = omega arith

  SameDay-InQuota :
      (daily_cap a b : ℕ) (k k' : KeyState)
      → a ≤ b
      → SameDay k k'
      → InQuota daily_cap a k
      → InQuota daily_cap b k'
  SameDay-InQuota daily_cap a b k k' h s v = record {
    counted = rw (s.1) v.counted;
    stamped = rw (s.0) (StampedBy-mono a b k.day_stamp h v.stamped);
  }

  spent-SameDay : (d : ℕ) (k k' : KeyState) → SameDay k k' → spent d k' ≡ spent d k
  spent-SameDay d k k' s = rw (s.0, s.1)

  serve-InQuota :
      (daily_cap now : ℕ) (k : KeyState)
      → 0 < daily_cap
      → spent (c.day now) k < daily_cap
      → InQuota daily_cap (c.day now) (serve c daily_cap now k)
  unfolding serve
  serve-InQuota daily_cap now k pos r = ground arith

  serve_grows :
      (daily_cap now d today : ℕ) (k : KeyState)
      → 0 < daily_cap
      → today ≤ c.day now
      → StampedBy today k.day_stamp
      → c.day now ≤ d
      → share 0 d now (some 0) + spent d k ≤ spent d (serve c daily_cap now k)
  unfolding serve
  serve_grows daily_cap now d today k pos le s h = ground arith

  present-Next :
      (p : Pool) (now i d today : ℕ) (k : KeyState) (q : Pool × Option ℕ)
      → 0 < p.daily_cap
      → today ≤ c.day now
      → get_elem? p.keys i ≡ some k
      → InQuota p.daily_cap today k
      → Effect c p now i q
      → Next p now i d k q
  present-Next p now i d today k q pos le h v (kept r (absent a b) e) = absurd (cc (a, h))
  present-Next p now i d today k q pos le h v (kept r (present x k' a b s) e) =
      let same : x ≡ k = cc (a, h) in
      let s' : SameDay k k' = rw same at s in
      record {
        after = k';
        there = b;
        quota = SameDay-InQuota p.daily_cap today (c.day now) k k' le s' v;
        grows = λ l. rw (spent-SameDay d k k' s') (ground arith);
        past = λ l. ground arith;
        cap = e;
      }
  present-Next p now i d today k q pos le h v (served x r a b u e) =
      let same : x ≡ k = cc (a, h) in
      let u' : 0 < p.daily_cap → spent (c.day now) k < p.daily_cap = rw same at u in
      record {
        after = serve c p.daily_cap now k;
        there = rw same at b;
        quota = serve-InQuota p.daily_cap now k pos (u' pos);
        grows = λ l. rw r (serve_grows p.daily_cap now d today k pos le v.stamped l);
        past = λ l. ground arith;
        cap = e;
      }

  spent-le :
      (d daily_cap today : ℕ) (k : KeyState) → InQuota daily_cap today k → spent d k ≤ daily_cap
  spent-le d daily_cap today k v = ground arith

  quota_from :
      (i d from daily_cap : ℕ) (p : Pool) (k : KeyState) (calls : List (ℕ × Call))
      → 0 < daily_cap
      → p.daily_cap ≡ daily_cap
      → get_elem? p.keys i ≡ some k
      → InQuota daily_cap (c.day from) k
      → InOrder from calls
      → served_on c i d p calls + spent d k ≤ daily_cap
  unfolding served_on
  quota_from i d from daily_cap p k [] pos e h v o =
      omega (arith, spent-le d daily_cap (c.day from) k v)
  quota_from i d from daily_cap p k ((now, call) ∷ calls) pos e h v o =
      let q = step c p now call in
      let n =
        present-Next p now i d (c.day from) k q (rw e pos) (c.day_mono from now o.0) h (rw e v)
          (step-Effect c p now i call) in
      let rest =
        quota_from i d now daily_cap q.0 n.after calls pos (n.cap ∙ e) n.there (rw e at n.quota)
          o.1 in
      elim (le_or_lt (c.day now) d) [
        | inl l ↦ omega (arith, n.grows l, rest)
        | inr g ↦ omega (
          arith,
          n.past g,
          served_past i d now q.0 calls g o.1,
          spent-le d daily_cap (c.day from) k v,
        )
      ]

  -- With a daily cap set, no key is returned more often than the cap on any calendar day, whatever
  -- calls follow in the order of time: picks for any model and with any exclusions, cooldowns,
  -- disables and re-enables. The counts that the pool starts with are within the cap and not of a
  -- day to come, as those of a new pool are.
  pub daily_quota :
      (p : Pool) (i d from : ℕ) (calls : List (ℕ × Call))
      → 0 < p.daily_cap
      → All (InQuota p.daily_cap (c.day from)) p.keys
      → InOrder from calls
      → served_on c i d p calls ≤ p.daily_cap
  daily_quota p i d from calls pos v o = elim (Option-cases (get_elem? p.keys i)) [
    | inl none_there ↦ rw (served_absent i d p calls none_there) (omega arith)
    | inr (k, e) ↦
        omega
          (arith, quota_from i d from p.daily_cap p k calls pos refl e (All-get _ p.keys v i k e) o)
  ]
