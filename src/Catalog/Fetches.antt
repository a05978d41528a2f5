-- ===== src/Catalog/Fetches.antt =====
-- A request for the model list cools no key.
use nano_llm_proxy.Prelude.{
  ℕ, zero, suc, max, ◌≡◌, refl, ap, ◌∙◌, inl, inr, ◌⊎◌, Bool, true, Option, none, some, List, [],
  ◌∷◌, map, arith, Option-cases, Map, insert, String, modify,
}
use nano_llm_proxy.Time.{Calendar}
use nano_llm_proxy.Pool.Keys.{KeyState, serve, DisabledReason, disabled_auth, disabled_expired}
use nano_llm_proxy.Pool.{Pool, pick_at, blocked_in, disable, record_rate_limit, record_error}
use nano_llm_proxy.Pool.Choice.{choose}
use nano_llm_proxy.Classify.{RetryConfig, Answer, classify}
use nano_llm_proxy.Rotation.{held}
use nano_llm_proxy.Catalog.{
  Round, Get, no_request, no_answer, answered, judge, fetch_keys, catalog_get,
}

-- How long a key cools, and why.
abbrev pub cooling : KeyState → ℕ × (Bool × Map ℕ)
cooling k = (k.cooldown_until, (k.cooldown_rate_limited, k.model_cooldown))

abbrev pub cooldowns : Pool → List (ℕ × (Bool × Map ℕ))
cooldowns p = map cooling p.keys

map-modify :
    (keys : List KeyState) (i : ℕ) (f : KeyState → KeyState)
    → ((k : KeyState) → cooling (f k) ≡ cooling k)
    → map cooling (modify keys i f) ≡ map cooling keys
map-modify [] i f h = refl
map-modify (x ∷ xs) zero f h = ap (λ y. y ∷ map cooling xs) (h x)
map-modify (x ∷ xs) (suc i) f h = ap (λ ys. cooling x ∷ ys) (map-modify xs i f h)

cooldowns-disable :
    (p : Pool) (i : ℕ) (kind : DisabledReason) → cooldowns (disable p i kind) ≡ cooldowns p
unfolding disable
cooldowns-disable p i kind = map-modify p.keys i _ (λ k. refl)

cooldowns-record_error : (p : Pool) (i : ℕ) → cooldowns (record_error p i) ≡ cooldowns p
unfolding record_error
cooldowns-record_error p i = map-modify p.keys i _ (λ k. refl)

cooldowns-record_rate_limit : (p : Pool) (i : ℕ) → cooldowns (record_rate_limit p i) ≡ cooldowns p
unfolding record_rate_limit
cooldowns-record_rate_limit p i = map-modify p.keys i _ (λ k. refl)

-- What may happen to a pool without a daily cap while its cooldowns stay.
pub record Same (p q : Pool) : Type 0 where
  pub cools : cooldowns q ≡ cooldowns p
  pub cap : q.daily_cap ≡ p.daily_cap

module _ (c : Calendar) where
  cooling-serve : (now : ℕ) (k : KeyState) → cooling (serve c 0 now k) ≡ cooling k
  unfolding serve
  cooling-serve now k = refl

  cooldowns-serve :
      (p : Pool) (i now : ℕ)
      → p.daily_cap ≡ 0
      → map cooling (modify p.keys i (serve c p.daily_cap now)) ≡ cooldowns p
  cooldowns-serve p i now free =
      ap (λ cap. map cooling (modify p.keys i (serve c cap now))) free
      ∙ map-modify p.keys i (serve c 0 now) (cooling-serve now)

  -- the pool after a choice
  abbrev served : Pool → ℕ → Option ℕ → Pool × Option ℕ
  served p now o = elim o [
    | none ↦ (p, none)
    | some i ↦ (record p { keys = modify p.keys i (serve c p.daily_cap now) }, some i)
  ]

  served-Same : (p : Pool) (now : ℕ) (o : Option ℕ) → p.daily_cap ≡ 0 → Same p (served p now o).0
  served-Same p now none free = record { cools = refl; cap = refl }
  served-Same p now (some i) free = record { cools = cooldowns-serve p i now free; cap = refl }

  pick_at-Same :
      (p : Pool) (exclude : Map Bool) (model : String) (now : ℕ)
      → p.daily_cap ≡ 0
      → Same p (pick_at c p exclude model now).0
  unfolding pick_at
  pick_at-Same p exclude model now free =
      served-Same p now (choose c p.mode p.keys (blocked_in c p exclude model now) now) free

Get-cases : (g : Get) → (g ≡ no_request) ⊎ ((g ≡ no_answer) ⊎ ((a : Answer) × (g ≡ answered a)))
Get-cases no_request = inl refl
Get-cases no_answer = inr (inl refl)
Get-cases (answered a) = inr (inr (a, refl))

cooldowns-judge :
    (s : RetryConfig) (p : Pool) (i : ℕ) (a : Answer) (now : ℕ)
    → cooldowns (judge s p i a now) ≡ cooldowns p
unfolding judge classify
cooldowns-judge s p i a now = ground (
  arith,
  cooldowns-disable p i disabled_auth,
  cooldowns-disable p i disabled_expired,
  cooldowns-record_error p i,
  cooldowns-record_rate_limit p i,
)

cap-judge :
    (s : RetryConfig) (p : Pool) (i : ℕ) (a : Answer) (now : ℕ)
    → (judge s p i a now).daily_cap ≡ p.daily_cap
unfolding judge classify disable record_error record_rate_limit
cap-judge s p i a now = ground arith

-- The other requests leave the cooldowns and the cap alone.
unfoldable pub Quiet : (ℕ → Round) → Type 0
Quiet rounds = (n : ℕ) (p : Pool) → Same p ((rounds n).afterwards p)

module _ (c : Calendar) (s : RetryConfig) (rounds : ℕ → Round) (quiet : Quiet rounds) where
  -- one round with an answer, from the pool before the pick
  round-Same : (n : ℕ) (p q : Pool) → Same p q → Same p ((rounds n).afterwards q)
  unfolding Quiet
  round-Same n p q same = record {
    cools = (quiet n q).cools ∙ same.cools;
    cap = (quiet n q).cap ∙ same.cap;
  }

  cooldowns-fetch_keys :
      (left n : ℕ) (p : Pool) (exclude : Map Bool) (last : Option ℕ)
      → p.daily_cap ≡ 0
      → cooldowns (fetch_keys c s rounds left n p exclude last).pool ≡ cooldowns p
  unfolding fetch_keys
  cooldowns-fetch_keys zero n p exclude last free = refl
  cooldowns-fetch_keys (suc left) n p exclude last free =
      let now = (rounds n).picked_at in
      let q = (pick_at c p exclude "" now).0 in
      let same = pick_at-Same c p exclude "" now free in
      let picked = same.cools in
      let later = (round-Same n p q same).cools in
      elim (Option-cases (held q (pick_at c p exclude "" now).1)) [
        | inl h ↦ ground (arith, h, picked)
        | inr ((i, k), h) ↦ elim (Get-cases (rounds n).get) [
          | inl e ↦ ground (arith, h, e, picked)
          | inr (inl e) ↦ ground (arith, h, e, later)
          | inr (inr (a, e)) ↦
              let j = judge s q i a (rounds n).answered_at in
              let judged : Same p j = record {
                cools = cooldowns-judge s q i a (rounds n).answered_at ∙ picked;
                cap = cap-judge s q i a (rounds n).answered_at ∙ same.cap;
              } in
              let next = round-Same n p j judged in
              let rest =
                cooldowns-fetch_keys left (suc n) ((rounds n).afterwards j)
                  (insert k.hash true exclude) (some a.status) (next.cap ∙ free)
                ∙ next.cools in
              ground (arith, h, e, later, rest)
        ]
      ]

-- A request for the model list cools no key: in a pool without a daily cap the cooldowns of all keys
-- are after it what they were before, whatever the upstream answers, rate limits included, as long as
-- the other requests of that time leave them alone.
pub cooldowns-catalog_get :
    (c : Calendar) (s : RetryConfig) (rounds : ℕ → Round) (p : Pool)
    → Quiet rounds
    → p.daily_cap ≡ 0
    → cooldowns (catalog_get c s rounds p).pool ≡ cooldowns p
unfolding catalog_get
cooldowns-catalog_get c s rounds p quiet free =
    cooldowns-fetch_keys c s rounds quiet (max 1 s.max_keys_per_request) 0 p [] none free
