-- ===== src/Pool/Choice/Lru.antt =====
-- The LRU loop takes the unblocked key that was used least recently, the earliest of equals.
use nano_llm_proxy.Prelude.{
  ℕ, zero, suc, ◌+◌, ◌≤◌, ◌≡◌, ◌≢◌, inl, inr, Bool, true, false, Option, none, some, List, [], ◌∷◌,
  arith, get_elem?, ltb, if◌then◌else◌, Bool-cases, All,
}
use nano_llm_proxy.Pool.Keys.{KeyState}
use nano_llm_proxy.Pool.Choice.{better, least_used}

better-ne-none : (n : ℕ) (x : KeyState) (best : Option (ℕ × KeyState)) → better n x best ≢ none
unfolding better
better-ne-none n x none h = cc
better-ne-none n x (some (j, b)) h = ground arith

module _ (test : KeyState → Bool) where
  -- `k` is used no later than any unblocked key of the list.
  abbrev pub Oldest : KeyState → List KeyState → Type 0
  Oldest k ks =
      (j : ℕ) (k' : KeyState)
      → get_elem? ks j ≡ some k'
      → test k' ≡ false
      → k.last_used ≤ k'.last_used

  abbrev Beats : KeyState → Option (ℕ × KeyState) → Type 0
  Beats k none = Unit
  Beats k (some (j, b)) = k.last_used ≤ b.last_used

  -- Where the result came from: the running best, or position `s` of the rest of the list.
  data Origin (n : ℕ) (ks : List KeyState) (best : Option (ℕ × KeyState)) (i : ℕ) (k : KeyState)
      : Type 0 where
    kept : best ≡ some (i, k) → Origin n ks best i k
    found : (s : ℕ) → i ≡ n + s → get_elem? ks s ≡ some k → test k ≡ false → Origin n ks best i k

  Origin-cons :
      (n : ℕ) (x : KeyState) (ks : List KeyState) (best : Option (ℕ × KeyState)) (i : ℕ)
      (k : KeyState)
      → Origin (n + 1) ks (if test x then best else better n x best) i k
      → Origin n (x ∷ ks) best i k
  unfolding better
  Origin-cons n x ks best i k (found s e g u) = found (suc s) (omega (arith, e)) g u
  Origin-cons n x ks best i k (kept e) = elim (Bool-cases (test x)) [
    | inl b ↦ kept (rw b at e)
    | inr u ↦ here best u (rw u at e)
  ]
    where
      here :
          (o : Option (ℕ × KeyState))
          → test x ≡ false
          → better n x o ≡ some (i, k)
          → Origin n (x ∷ ks) o i k
      here none u h =
          let p : x ≡ k = ground arith in found 0 (ground arith) (ground arith) (rw p at u)
      here (some (j, b)) u h = elim (Bool-cases (ltb x.last_used b.last_used)) [
        | inl l ↦ let p : x ≡ k = ground arith in found 0 (ground arith) (ground arith) (rw p at u)
        | inr g ↦ kept (ground arith)
      ]

  least_used-Origin :
      (n : ℕ) (ks : List KeyState) (best : Option (ℕ × KeyState)) (i : ℕ) (k : KeyState)
      → least_used test n ks best ≡ some (i, k)
      → Origin n ks best i k
  unfolding least_used
  least_used-Origin n [] best i k h = kept h
  least_used-Origin n (x ∷ ks) best i k h =
      Origin-cons n x ks best i k (least_used-Origin (n + 1) ks _ i k h)

  Beats-step :
      (n : ℕ) (x k : KeyState) (best : Option (ℕ × KeyState))
      → Beats k (if test x then best else better n x best)
      → Beats k best × (test x ≡ false → k.last_used ≤ x.last_used)
  unfolding better
  Beats-step n x k none h = ground arith
  Beats-step n x k (some (j, b)) h = ground arith

  least_used-Oldest :
      (n : ℕ) (ks : List KeyState) (best : Option (ℕ × KeyState)) (i : ℕ) (k : KeyState)
      → least_used test n ks best ≡ some (i, k)
      → Beats k best × Oldest k ks
  unfolding least_used
  least_used-Oldest n [] none i k h = (tt, λ j k' e u. cc)
  least_used-Oldest n [] (some (j, b)) i k h = (ground arith, λ j k' e u. cc)
  least_used-Oldest n (x ∷ ks) best i k h =
      let (b, o) = least_used-Oldest (n + 1) ks _ i k h in
      let (b', ox) = Beats-step n x k best b in (b', either ox o)
    where
      either : (test x ≡ false → k.last_used ≤ x.last_used) → Oldest k ks → Oldest k (x ∷ ks)
      either ox o zero k' e u = let p : x ≡ k' = cc in rw (← p) (ox (rw (← p) at u))
      either ox o (suc j) k' e u = o j k' e u

  -- With nothing held, nothing found means that every key is blocked.
  pub least_used-none :
      (n : ℕ) (ks : List KeyState) (best : Option (ℕ × KeyState))
      → least_used test n ks best ≡ none
      → (best ≡ none) × All (λ k. test k ≡ true) ks
  unfolding least_used
  least_used-none n [] best h = (h, tt)
  least_used-none n (x ∷ ks) best h =
      let (e, a) = least_used-none (n + 1) ks _ h in
      elim (Bool-cases (test x)) [
        | inl b ↦ (rw b at e, (b, a))
        | inr u ↦ absurd (better-ne-none n x best (rw u at e))
      ]

  pub least_used-some :
      (ks : List KeyState) (i : ℕ) (k : KeyState)
      → least_used test 0 ks none ≡ some (i, k)
      → (get_elem? ks i ≡ some k) × (test k ≡ false) × Oldest k ks
  least_used-some ks i k h = from (least_used-Origin 0 ks none i k h)
    where
      from : Origin 0 ks none i k → (get_elem? ks i ≡ some k) × (test k ≡ false) × Oldest k ks
      from (kept e) = cc
      from (found s e g u) =
          (let e' : i ≡ s = omega (arith, e) in rw e' g, u, (least_used-Oldest 0 ks none i k h).1)
