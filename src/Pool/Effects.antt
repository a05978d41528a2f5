-- ===== src/Pool/Effects.antt =====
-- What one call does to the key at a position.
use nano_llm_proxy.Prelude.{
  ℕ, zero, suc, ◌≤◌, ◌<◌, ◌≡◌, ◌≢◌, refl, ◌⊎◌, inl, inr, Bool, true, false, Option, none, some,
  List, [], ◌∷◌, arith, get_elem?, get_elem?-modify_ne, modify, Map, String, if◌then◌else◌,
  Bool-cases, Option-cases, str_eq,
}
use nano_llm_proxy.Time.{Calendar}
use nano_llm_proxy.Pool.Keys.{KeyState, is_today, blocked, serve}
use nano_llm_proxy.Pool.{
  Pool, at_key, pick_at, cooldown, cooldown_account, cooldown_model, disable, record_rate_limit,
  record_error, enable_first, set_enabled,
}
use nano_llm_proxy.Pool.Picks.{pick-free, pick_none}
use nano_llm_proxy.Pool.Calls.{
  Call, picks, cools, cools_account, cools_model, disables, counts_rate_limit, counts_error,
  enables, step, returned,
}

-- What the key has served of its quota on a day.
abbrev pub spent : ℕ → KeyState → ℕ
spent d k = if is_today k.day_stamp d then k.day_count else 0

abbrev pub StampedBy : ℕ → Option ℕ → Type 0
StampedBy today none = Unit
StampedBy today (some d) = d ≤ today

-- The count is within the cap, and its day is not in the future.
pub record InQuota (daily_cap today : ℕ) (k : KeyState) : Type 0 where
  pub counted : k.day_count ≤ daily_cap
  pub stamped : StampedBy today k.day_stamp

abbrev pub SameDay : KeyState → KeyState → Type 0
SameDay k k' = (k'.day_stamp ≡ k.day_stamp) × (k'.day_count ≡ k.day_count)

-- The key at a position, before and after: both are there, or neither is.
pub data Tracked (R : KeyState → KeyState → Type 0) (old new : Option KeyState) : Type 0 where
  absent : old ≡ none → new ≡ none → Tracked R old new
  present : (k k' : KeyState) → old ≡ some k → new ≡ some k' → R k k' → Tracked R old new

Tracked-refl : (o : Option KeyState) → Tracked SameDay o o
Tracked-refl none = absent refl refl
Tracked-refl (some k) = present k k refl refl (refl, refl)

modify-Tracked :
    (keys : List KeyState) (i j : ℕ) (f : KeyState → KeyState)
    → ((k : KeyState) → SameDay k (f k))
    → Tracked SameDay (get_elem? keys i) (get_elem? (modify keys j f) i)
modify-Tracked [] i j f h = absent refl refl
modify-Tracked (x ∷ xs) zero zero f h = present x (f x) refl refl (h x)
modify-Tracked (x ∷ xs) zero (suc j) f h = Tracked-refl (some x)
modify-Tracked (x ∷ xs) (suc i) zero f h = Tracked-refl (get_elem? xs i)
modify-Tracked (x ∷ xs) (suc i) (suc j) f h = modify-Tracked xs i j f h

enable_first-Tracked :
    (keys : List KeyState) (i : ℕ) (hash : String) (enabled : Bool)
    → Tracked SameDay (get_elem? keys i) (get_elem? (enable_first hash enabled keys).0 i)
unfolding enable_first
enable_first-Tracked [] i hash enabled = absent refl refl
enable_first-Tracked (x ∷ xs) zero hash enabled = elim (Bool-cases (str_eq x.hash hash)) [
  | inl e ↦ rw e (present x _ refl refl (refl, refl))
  | inr e ↦ rw e (Tracked-refl (some x))
]
enable_first-Tracked (x ∷ xs) (suc i) hash enabled = elim (Bool-cases (str_eq x.hash hash)) [
  | inl e ↦ rw e (Tracked-refl (get_elem? xs i))
  | inr e ↦ rw e (enable_first-Tracked xs i hash enabled)
]

pub le_or_lt : (a b : ℕ) → (a ≤ b) ⊎ (b < a)
le_or_lt a b = omega arith

module _ (c : Calendar) where
  -- What a call does to the key at position `i`: it is served, or keeps its count.
  pub data Effect (p : Pool) (now : ℕ) (i : ℕ) (q : Pool × Option ℕ) : Type 0 where
    kept :
        returned q.1 i ≡ false
        → Tracked SameDay (get_elem? p.keys i) (get_elem? q.0.keys i)
        → q.0.daily_cap ≡ p.daily_cap
        → Effect p now i q
    served :
        (k : KeyState)
        → returned q.1 i ≡ true
        → get_elem? p.keys i ≡ some k
        → get_elem? q.0.keys i ≡ some (serve c p.daily_cap now k)
        → (0 < p.daily_cap → spent (c.day now) k < p.daily_cap)
        → q.0.daily_cap ≡ p.daily_cap
        → Effect p now i q

  pub room :
      (daily_cap now : ℕ) (exclude : Map Bool) (model : String) (k : KeyState)
      → blocked c daily_cap exclude model now k ≡ false
      → 0 < daily_cap
      → spent (c.day now) k < daily_cap
  unfolding blocked
  room daily_cap now exclude model k h pos = ground arith

  pick-Effect :
      (p : Pool) (now i : ℕ) (exclude : Map Bool) (model : String)
      → Effect p now i (pick_at c p exclude model now)
  pick-Effect p now i exclude model = elim (Option-cases (pick_at c p exclude model now).1) [
    | inl e ↦
        let (_, same) = (pick_none c p exclude model now).0 e in
        kept (rw e) (rw same (Tracked-refl _)) (rw same)
    | inr (j, e) ↦
        let (k, there, free, new, same) = pick-free c p exclude model now j e in
        elim (Bool-cases (returned (some j) i)) [
          | inl hit ↦
              let at : j ≡ i = ground arith in
              served k (rw e hit) (rw at at there) (rw at at new) (room _ now exclude model k free)
                (rw same)
          | inr miss ↦
              let apart : j ≢ i = λ x. ground arith in
              kept (rw e miss) (rw (same, get_elem?-modify_ne p.keys j i _ apart) (Tracked-refl _))
                (rw same)
        ]
  ]

  at_key-Effect :
      (p : Pool) (now i j : ℕ) (f : KeyState → KeyState)
      → ((k : KeyState) → SameDay k (f k))
      → Effect p now i (at_key p j f, none)
  at_key-Effect p now i j f h = kept refl (modify-Tracked p.keys i j f h) refl

  pub step-Effect : (p : Pool) (now i : ℕ) (call : Call) → Effect p now i (step c p now call)
  unfolding step cooldown cooldown_account cooldown_model disable record_rate_limit record_error
      set_enabled
  step-Effect p now i (picks exclude model) = pick-Effect p now i exclude model
  step-Effect p now i (cools j d) = at_key-Effect p now i j _ λ k. (refl, refl)
  step-Effect p now i (cools_account j d) = at_key-Effect p now i j _ λ k. (refl, refl)
  step-Effect p now i (cools_model j model d) = at_key-Effect p now i j _ λ k. (refl, refl)
  step-Effect p now i (disables j kind) = at_key-Effect p now i j _ λ k. (refl, refl)
  step-Effect p now i (counts_rate_limit j) = at_key-Effect p now i j _ λ k. (refl, refl)
  step-Effect p now i (counts_error j) = at_key-Effect p now i j _ λ k. (refl, refl)
  step-Effect p now i (enables hash enabled) =
      kept refl (enable_first-Tracked p.keys i hash enabled) refl
