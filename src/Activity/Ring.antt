-- ===== src/Activity/Ring.antt =====
-- The ring shows the newest requests.
use nano_llm_proxy.Prelude.{
  ℕ, zero, suc, ◌+◌, ◌<◌, ◌≡◌, ◌≢◌, refl, ap, ◌∙◌, inl, inr, Bool, false, some, List, [], ◌∷◌,
  arith, ◌==◌, if◌then◌else◌, get_elem?, get_elem?-modify_self, get_elem?-modify_ne,
  get_elem?_total, get_elem?-replicate, length, length-modify, length-replicate, modify, take,
  keep_if, All, Bool-cases,
}
use nano_llm_proxy.Activity.{
  ActivityEntry, UsageTracker, activity_ring_size, no_entry, new_usage_tracker, add_activity, slot,
  walk_ring, recent_where,
}

-- The tracker after the entries of a list were added, the last of them first in the list.
pub tracker_of : List ActivityEntry → UsageTracker
tracker_of [] = new_usage_tracker
tracker_of (e ∷ older) = add_activity (tracker_of older) e

-- The entry at a position, the zero value past the end.
abbrev nth : List ActivityEntry → ℕ → ActivityEntry
nth [] i = no_entry
nth (e ∷ es) zero = e
nth (e ∷ es) (suc i) = nth es i

-- The slots hold the entries, from the newest back.
record Holds (u : UsageTracker) (es : List ActivityEntry) : Type 0 where
  full : length u.ring ≡ activity_ring_size
  inside : u.ring_idx < activity_ring_size
  at : (i : ℕ) → i < activity_ring_size → get_elem? u.ring (slot u i) ≡ some (nth es i)

new-Holds : Holds new_usage_tracker []
unfolding new_usage_tracker
new-Holds = record {
  full = length-replicate activity_ring_size no_entry;
  inside = omega arith;
  at = λ i h.
      get_elem?-replicate activity_ring_size (slot new_usage_tracker i) no_entry (omega arith);
}

module _ (u : UsageTracker) (es : List ActivityEntry) (e : ActivityEntry) (v : Holds u es) where
  slot_new : slot (add_activity u e) 0 ≡ u.ring_idx
  unfolding add_activity
  slot_new = omega (arith, v.inside)

  slot_old : (i : ℕ) → suc i < activity_ring_size → slot (add_activity u e) (suc i) ≡ slot u i
  unfolding add_activity
  slot_old i h = omega (arith, v.inside)

  slot_apart : (i : ℕ) → suc i < activity_ring_size → u.ring_idx ≢ slot u i
  slot_apart i h q = omega (arith, v.inside)

  added_at :
      (i : ℕ)
      → i < activity_ring_size
      → get_elem? (add_activity u e).ring (slot (add_activity u e) i) ≡ some (nth (e ∷ es) i)
  unfolding add_activity
  added_at zero h =
      let (old, there) = get_elem?_total u.ring u.ring_idx (omega (arith, v.inside, v.full)) in
      ap (get_elem? (modify u.ring u.ring_idx (λ old. e))) slot_new
      ∙ get_elem?-modify_self u.ring u.ring_idx (λ old. e) old there
  added_at (suc i) h =
      ap (get_elem? (modify u.ring u.ring_idx (λ old. e))) (slot_old i h)
      ∙ get_elem?-modify_ne u.ring u.ring_idx (slot u i) (λ old. e) (slot_apart i h)
      ∙ v.at i (omega arith)

  added-Holds : Holds (add_activity u e) (e ∷ es)
  unfolding add_activity
  added-Holds = record {
    full = length-modify u.ring u.ring_idx (λ old. e) ∙ v.full;
    inside = omega arith;
    at = added_at;
  }

tracker_of-Holds : (es : List ActivityEntry) → Holds (tracker_of es) es
unfolding tracker_of
tracker_of-Holds [] = new-Holds
tracker_of-Holds (e ∷ older) = added-Holds (tracker_of older) older e (tracker_of-Holds older)

-- A recorded request has a time.
abbrev pub Timed : List ActivityEntry → Type 0
Timed es = All (λ (e : ActivityEntry). (e.ts == 0) ≡ false) es

module _ (u : UsageTracker) (keep : ActivityEntry → Bool) where
  abbrev shown : ℕ → List ActivityEntry → List ActivityEntry
  shown n es = take n (keep_if keep es)

  walk_stop :
      (left i n : ℕ)
      → get_elem? u.ring (slot u i) ≡ some no_entry
      → walk_ring u keep (suc left) i (suc n) ≡ []
  unfolding walk_ring
  walk_stop left i n at = cc

  walk_next :
      (left i n : ℕ) (e : ActivityEntry)
      → get_elem? u.ring (slot u i) ≡ some e
      → (e.ts == 0) ≡ false
      → walk_ring u keep (suc left) i (suc n) ≡ (
          if keep e
          then e ∷ walk_ring u keep left (suc i) n
          else walk_ring u keep left (suc i) (suc n))
  unfolding walk_ring
  walk_next left i n e at t = ground (arith, at, t)

  walk_none : (left i : ℕ) → walk_ring u keep left i 0 ≡ []
  unfolding walk_ring
  walk_none zero i = refl
  walk_none (suc left) i = refl

  walk_zero : (i n : ℕ) → walk_ring u keep 0 i n ≡ []
  unfolding walk_ring
  walk_zero i n = refl

  -- The slots from the i-th on hold the entries of a list.
  abbrev From : ℕ → ℕ → List ActivityEntry → Type 0
  From left i es = (j : ℕ) → j < left → get_elem? u.ring (slot u (i + j)) ≡ some (nth es j)

  From-head :
      (left i : ℕ) (es : List ActivityEntry)
      → From (suc left) i es
      → get_elem? u.ring (slot u i) ≡ some (nth es 0)
  From-head left i es at =
      let same : i ≡ i + 0 = omega arith in
      ap (λ j. get_elem? u.ring (slot u j)) same ∙ at 0 (omega arith)

  From-tail :
      (left i : ℕ) (e : ActivityEntry) (es : List ActivityEntry)
      → From (suc left) i (e ∷ es)
      → From left (suc i) es
  From-tail left i e es at j h =
      let same : suc i + j ≡ i + suc j = omega arith in
      ap (λ m. get_elem? u.ring (slot u m)) same ∙ at (suc j) (omega arith)

  walk_shown :
      (left i n : ℕ) (es : List ActivityEntry)
      → From left i es
      → Timed es
      → walk_ring u keep left i n ≡ shown n (take left es)
  walk_shown left i zero es at t = walk_none left i
  walk_shown zero i (suc n) es at t = walk_zero i (suc n)
  walk_shown (suc left) i (suc n) [] at t = walk_stop left i n (From-head left i [] at)
  walk_shown (suc left) i (suc n) (e ∷ es) at t =
      let step = walk_next left i n e (From-head left i (e ∷ es) at) t.0 in
      let rest = From-tail left i e es at in
      elim (Bool-cases (keep e)) [
        | inl k ↦ rw (step, k, walk_shown left (suc i) n es rest t.1) refl
        | inr k ↦ rw (step, k) (walk_shown left (suc i) (suc n) es rest t.1)
      ]

-- The ring is the list of all requests cut to the newest hundred: after any requests were recorded,
-- `recentWhere` returns the first `n` of these that pass the filter, the newest first.
pub recent_where-take :
    (es : List ActivityEntry) (n : ℕ) (keep : ActivityEntry → Bool)
    → Timed es
    → recent_where (tracker_of es) n keep ≡ take n (keep_if keep (take activity_ring_size es))
unfolding recent_where
recent_where-take es n keep t =
    let at : From (tracker_of es) keep activity_ring_size 0 es = λ j h.
      let same : 0 + j ≡ j = omega arith in
      ap (λ m. get_elem? (tracker_of es).ring (slot (tracker_of es) m)) same
      ∙ (tracker_of-Holds es).at j h in
    walk_shown (tracker_of es) keep activity_ring_size 0 n es at t
