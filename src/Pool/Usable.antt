-- ===== src/Pool/Usable.antt =====
-- What a key is like that `pick` returns, and what the pool is like after it.
use nano_llm_proxy.Prelude.{
  ℕ, ◌+◌, ◌≤◌, ◌<◌, ◌≡◌, ◌≢◌, refl, ◌⊎◌, inl, inr, Bool, true, false, Option, none, some, ltb,
  arith, get_elem?, get_elem?-modify_ne, Map, String, str_eq, eq_iff, lookup, Bool-cases,
}
use nano_llm_proxy.Time.{Calendar}
use nano_llm_proxy.Pool.Keys.{
  KeyState, flag_of, until_of, model_until, is_today, capped, blocked, serve,
}
use nano_llm_proxy.Pool.{Pool, pick_at}
use nano_llm_proxy.Pool.Picks.{pick-free}

-- A key that may be used now for the model.
pub record Usable (c : Calendar) (daily_cap : ℕ) (exclude : Map Bool) (model : String) (now : ℕ)
    (k : KeyState) : Type 0 where
  pub enabled : k.disabled ≡ false
  pub not_excluded : lookup k.hash exclude ≢ some true
  pub rested : k.cooldown_until ≤ now
  pub below_cap : (daily_cap ≡ 0) ⊎ ((k.day_stamp ≢ some (c.day now)) ⊎ (k.day_count < daily_cap))
  pub model_rested : (model ≡ "") ⊎ ((t : ℕ) → lookup model k.model_cooldown ≡ some t → t ≤ now)

-- The key after it was used once more.
pub record Used (c : Calendar) (daily_cap now : ℕ) (k k' : KeyState) : Type 0 where
  pub same_key : (k'.hash ≡ k.hash) × (k'.disabled ≡ k.disabled)
  pub same_models : k'.model_cooldown ≡ k.model_cooldown
  pub used_now : (k'.last_used ≡ now) × (k'.requests ≡ k.requests + 1)
  pub without_cap :
      daily_cap ≡ 0 → (k'.day_count ≡ k.day_count) × (k'.cooldown_until ≡ k.cooldown_until)
  pub stamped : 0 < daily_cap → k'.day_stamp ≡ some (c.day now)
  pub first_today : 0 < daily_cap → k.day_stamp ≢ some (c.day now) → k'.day_count ≡ 1
  pub again_today : 0 < daily_cap → k.day_stamp ≡ some (c.day now) → k'.day_count ≡ k.day_count + 1
  pub at_cap : 0 < daily_cap → k'.day_count ≡ daily_cap → k'.cooldown_until ≡ c.next_midnight now
  pub under_cap : k'.day_count ≢ daily_cap → k'.cooldown_until ≡ k.cooldown_until

flag_not : (o : Option Bool) → flag_of o ≡ false → o ≢ some true
flag_not none h e = cc
flag_not (some b) h e = cc

until_le : (o : Option ℕ) (now t : ℕ) → ltb now (until_of o) ≡ false → o ≡ some t → t ≤ now
until_le none now t h e = cc
until_le (some s) now t h e = let q : s ≡ t = cc in ground arith

today_iff : (o : Option ℕ) (d : ℕ) → is_today o d ≡ true → o ≡ some d
today_iff none d h = cc
today_iff (some e) d h = let q : e ≡ d = ground arith in rw q refl

today_not : (o : Option ℕ) (d : ℕ) → is_today o d ≡ false → o ≢ some d
today_not none d h e = cc
today_not (some x) d h e = let q : x ≡ d = cc in ground arith

cap_free :
    (cap today : ℕ) (k : KeyState)
    → capped cap today k ≡ false
    → (cap ≡ 0) ⊎ ((k.day_stamp ≢ some today) ⊎ (k.day_count < cap))
unfolding capped
cap_free cap today k h = elim (Bool-cases (is_today k.day_stamp today)) [
  | inr e ↦ inr (inl (today_not k.day_stamp today e))
  | inl e ↦ elim (Bool-cases (ltb 0 cap)) [
    | inr z ↦ inl (ground (arith, z))
    | inl p ↦ inr (inr (ground (arith, h, e, p)))
  ]
]

module _ (c : Calendar) (cap : ℕ) (exclude : Map Bool) (model : String) (now : ℕ)
    (k : KeyState) where
  free-Usable : blocked c cap exclude model now k ≡ false → Usable c cap exclude model now k
  unfolding blocked model_until
  free-Usable h = record {
    enabled = ground (arith, h);
    not_excluded = flag_not (lookup k.hash exclude) (ground (arith, h));
    rested = ground (arith, h);
    below_cap = cap_free cap (c.day now) k (ground (arith, h));
    model_rested = elim (Bool-cases (str_eq model "")) [
      | inl e ↦ inl ((eq_iff model "").0 e)
      | inr e ↦ inr (λ t q. until_le (lookup model k.model_cooldown) now t (ground (arith, h, e)) q)
    ];
  }

serve_today : (o : Option ℕ) (d count : ℕ) → o ≢ some d → is_today o d ≡ false
serve_today o d count ne = elim (Bool-cases (is_today o d)) [
  | inl e ↦ absurd (ne (today_iff o d e))
  | inr e ↦ e
]

is_today_refl : (o : Option ℕ) (d : ℕ) → o ≡ some d → is_today o d ≡ true
is_today_refl none d e = cc
is_today_refl (some x) d e = let q : x ≡ d = cc in ground arith

module _ (c : Calendar) (cap now : ℕ) (k : KeyState) where
  serve-Used : Used c cap now k (serve c cap now k)
  unfolding serve
  serve-Used = record {
    same_key = (ground arith, ground arith);
    same_models = ground arith;
    used_now = (ground arith, ground arith);
    without_cap = λ z. (ground (arith, z), ground (arith, z));
    stamped = λ p. ground (arith, p);
    first_today = λ p ne. ground (arith, p, serve_today k.day_stamp (c.day now) 0 ne);
    again_today = λ p e. ground (arith, p, is_today_refl k.day_stamp (c.day now) e);
    at_cap = λ p e. ground (arith, p, e);
    under_cap = λ e. ground (arith, e);
  }

module _ (c : Calendar) (p : Pool) (exclude : Map Bool) (model : String) (now : ℕ) where
  -- A key that `pick` returns is not disabled, not excluded and not cooling, it is below the daily cap
  -- if there is one, and the model is not cooling on it. It has one request more afterwards; with a
  -- daily cap its count of the day is one more too, from zero on a new day, and at the cap it cools
  -- until midnight. No other key changes.
  pub pick-Usable :
      (i j : ℕ)
      → (pick_at c p exclude model now).1 ≡ some i
      → i ≢ j
      → (k : KeyState) × (k' : KeyState) × (get_elem? p.keys i ≡ some k)
        × (get_elem? (pick_at c p exclude model now).0.keys i ≡ some k')
        × (Usable c p.daily_cap exclude model now k
            × (Used c p.daily_cap now k k'
                × (get_elem? (pick_at c p exclude model now).0.keys j ≡ get_elem? p.keys j)))
  pick-Usable i j h ne =
      let (k, there, free, new, same) = pick-free c p exclude model now i h in
      (
        k,
        serve c p.daily_cap now k,
        there,
        new,
        (
          free-Usable c p.daily_cap exclude model now k free,
          (
            serve-Used c p.daily_cap now k,
            rw same (get_elem?-modify_ne p.keys i j (serve c p.daily_cap now) ne),
          ),
        ),
      )
