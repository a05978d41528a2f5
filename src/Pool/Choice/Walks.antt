-- ===== src/Pool/Choice/Walks.antt =====
-- The walk of the priority modes takes the first unblocked key from its start, wrapping round.
use native.Mathlib.Nat.{mod-eq_of_lt, mod-lt, add-mod_right}
use nano_llm_proxy.Prelude.{
  ℕ, zero, suc, ◌+◌, ◌-◌, ◌%◌, ◌≤◌, ◌<◌, ◌≡◌, sym, ◌∙◌, ◌⊎◌, inl, inr, Bool, true, false, none,
  some, List, arith, length, get_elem?, get_elem?_total, Bool-cases, Option-cases,
}
use nano_llm_proxy.Pool.Keys.{KeyState}
use nano_llm_proxy.Pool.Choice.{walk}

-- The key at a position, if there is one, fails the test.
abbrev pub BlockedAt : (KeyState → Bool) → List KeyState → ℕ → Type 0
BlockedAt test keys j = (k : KeyState) → get_elem? keys j ≡ some k → test k ≡ true

le_or_lt : (a b : ℕ) → (a ≤ b) ⊎ (b < a)
le_or_lt a b = omega arith

eq_or_later : (a t : ℕ) → a ≤ t → (a ≡ t) ⊎ (a + 1 ≤ t)
eq_or_later a t h = omega arith

module _ (test : KeyState → Bool) (keys : List KeyState) (start : ℕ) where
  -- The position that the walk reaches after `i` steps.
  abbrev pub reached : ℕ → ℕ
  reached i = (start + i) % length keys

  -- The walk from step `i` found an unblocked key, and all before it were blocked.
  pub record Found (i j : ℕ) : Type 0 where
    pub step : ℕ
    pub from_i : i ≤ step
    pub position : j ≡ reached step
    pub key : KeyState
    pub there : get_elem? keys j ≡ some key
    pub free : test key ≡ false
    pub skipped : (t : ℕ) → i ≤ t → t < step → BlockedAt test keys (reached t)

  Found-later : (i j : ℕ) → BlockedAt test keys (reached i) → Found (i + 1) j → Found i j
  Found-later i j b f = record {
    step = f.step;
    from_i = omega (arith, f.from_i);
    position = f.position;
    key = f.key;
    there = f.there;
    free = f.free;
    skipped =
        λ t h k. elim (eq_or_later i t h) [ inl e ↦ subst_blocked e | inr l ↦ f.skipped t l k ];
  }
    where
      subst_blocked : {t : ℕ} → i ≡ t → BlockedAt test keys (reached t)
      subst_blocked e = rw e at b

  pub walk-Found : (i rounds j : ℕ) → walk test keys start i rounds ≡ some j → Found i j
  unfolding walk
  walk-Found i zero j h = cc
  walk-Found i (suc r) j h = elim (Option-cases (get_elem? keys (reached i))) [
    | inl out ↦ absurd (ground (arith, out))
    | inr (k, e) ↦ elim (Bool-cases (test k)) [
      | inl b ↦
          Found-later i j (λ k' e'. ground (arith, e, e', b))
            (walk-Found (i + 1) r j (ground (arith, e, b)))
      | inr u ↦
          let here : reached i ≡ j = ground (arith, e, u, h) in
          record {
            step = i;
            from_i = omega arith;
            position = sym here;
            key = k;
            there = rw (← here) e;
            free = u;
            skipped = λ t p q. absurd (omega (arith, p, q));
          }
    ]
  ]

  -- A walk that finds nothing has seen only blocked keys.
  pub walk-none :
      (i rounds : ℕ)
      → walk test keys start i rounds ≡ none
      → 0 < length keys
      → (t : ℕ) → i ≤ t
      → t < i + rounds
      → BlockedAt test keys (reached t)
  unfolding walk
  walk-none i zero h pos t p q k e = absurd (omega arith)
  walk-none i (suc r) h pos t p q k e =
      let (k', e') = get_elem?_total keys (reached i) (mod-lt _ pos) in
      let later = λ (u : test k' ≡ true) (l : i + 1 ≤ t).
        walk-none (i + 1) r (ground (arith, e', u, h)) pos t l (omega arith) k e in
      elim (Bool-cases (test k')) [
        | inr u ↦ absurd (ground (arith, e', u, h))
        | inl b ↦ elim (eq_or_later i t p) [
          | inl x ↦
              (let e'' : get_elem? keys (reached t) ≡ some k' = rw (← x) e' in
                ground (arith, e, e'', b))
          | inr l ↦ later b l
        ]
      ]

-- From any start below the number of keys, every position is reached within a round.
pub reached_all : (n start j : ℕ) → start < n → j < n → (t : ℕ) × (t < n) × ((start + t) % n ≡ j)
reached_all n start j hs hj = elim (le_or_lt start j) [
  | inl l ↦
      let e : start + (j - start) ≡ j = omega arith in
      (j - start, omega arith, rw e (mod-eq_of_lt hj))
  | inr l ↦
      let e : start + (j + n - start) ≡ j + n = omega arith in
      (j + n - start, omega arith, rw e (add-mod_right j n ∙ mod-eq_of_lt hj))
]
