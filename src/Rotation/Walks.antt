-- ===== src/Rotation/Walks.antt =====
-- How many keys a request tries, and which.
use nano_llm_proxy.Prelude.{
  ℕ, zero, suc, ◌+◌, ◌≤◌, max, ◌≡◌, ◌≢◌, refl, ◌∙◌, inl, inr, Bool, true, false, ◌&&◌, ◌||◌, Option,
  none, some, List, [], ◌∷◌, arith, String, str_eq, eq_iff, ltb, if◌then◌else◌, Map, lookup, insert,
  lookup-insert, length, All, All-map, Option-cases, Bool-cases,
}
use nano_llm_proxy.Time.{Calendar}
use nano_llm_proxy.Breaker.{tripped}
use nano_llm_proxy.Pool.Keys.{KeyState, flag_of, blocked, serve}
use nano_llm_proxy.Pool.{pick_at}
use nano_llm_proxy.Pool.Picks.{pick-free}
use nano_llm_proxy.Classify.{RetryConfig, Hint, no_hint, Verdict, Answer, classify}
use nano_llm_proxy.Rotation.{
  World, Rotation, new_rotation, next, held, with_pool, apply_verdict, limit_model, exclude_key,
  rejected, succeeded,
}
use nano_llm_proxy.Rotation.Failures.{Trace, attempt}
use nano_llm_proxy.Rotation.Rounds.{
  handed, called, Then-cases, walk_keys_zero, walk_keys-none, walk_keys_ends, walk_keys_goes,
}
use nano_llm_proxy.Rotation.Loops.{
  Turn, Style, Outcome, no_request, no_answer, answered, give_up, settle, call, walk_keys,
  walk_pool, reply, lose_call,
}

abbrev flag : String → Rotation → Bool
flag h rot = flag_of (lookup h rot.exclude)

-- Nothing of the walk's own record has changed.
pub record SameWalk (rot rot' : Rotation) : Type 0 where
  pub exclude_same : rot'.exclude ≡ rot.exclude
  pub single_same : rot'.single ≡ rot.single
  pub picked_same : rot'.picked ≡ rot.picked

module _ (s : RetryConfig) where
  apply_verdict-SameWalk :
      (rot : Rotation) (i : ℕ) (k : KeyState) (v : Verdict) (now : ℕ)
      → SameWalk rot (apply_verdict s rot i k v now)
  unfolding apply_verdict limit_model
  apply_verdict-SameWalk rot i k v now = record {
    exclude_same = ground arith;
    single_same = ground arith;
    picked_same = ground arith;
  }

  rejected-SameWalk :
      (rot : Rotation) (i : ℕ) (k : KeyState) (a : Answer) (now : ℕ)
      → SameWalk rot (rejected s rot i k a now).0
  unfolding rejected
  rejected-SameWalk rot i k a now =
      let m =
        apply_verdict-SameWalk
          (record (with_pool rot (classify s rot.world.pool i a now).0) {
            key_lost = (classify s rot.world.pool i a now).1.key_disabled;
          })
          i k (classify s rot.world.pool i a now).1 now in
      record {
        exclude_same = m.exclude_same;
        single_same = m.single_same;
        picked_same = m.picked_same;
      }

  reply-SameWalk :
      (style : Style) (rot : Rotation) (tr : Trace) (i : ℕ) (k : KeyState) (now : ℕ) (o : Outcome)
      → SameWalk rot (reply s style rot tr i k now o).0
  unfolding reply succeeded lose_call
  reply-SameWalk style rot tr i k now no_request = record {
    exclude_same = ground arith;
    single_same = ground arith;
    picked_same = ground arith;
  }
  reply-SameWalk style rot tr i k now no_answer = record {
    exclude_same = refl;
    single_same = refl;
    picked_same = refl;
  }
  reply-SameWalk style rot tr i k now (answered a readable) =
      let m = rejected-SameWalk rot i k a now in
      record {
        exclude_same = ground (arith, m.exclude_same);
        single_same = ground (arith, m.single_same);
        picked_same = ground (arith, m.picked_same);
      }

  pub call-SameWalk :
      (style : Style) (rot : Rotation) (tr : Trace) (i : ℕ) (k : KeyState) (turn : Turn)
      → SameWalk rot (call s style rot tr i k turn).0
  unfolding call
  call-SameWalk style rot tr i k turn =
      let m =
        reply-SameWalk style (record rot { world = turn.during rot.world }) (attempt tr k.label) i k
          turn.answered_at turn.outcome in
      record {
        exclude_same = m.exclude_same;
        single_same = m.single_same;
        picked_same = m.picked_same;
      }

serve-hash :
    (c : Calendar) (daily_cap now : ℕ) (k : KeyState) → (serve c daily_cap now k).hash ≡ k.hash
unfolding serve
serve-hash c daily_cap now k = ground arith

-- A key that `next` hands out was not excluded, is excluded from then on, and is the walk's only one
-- in single-attempt mode.
record Fresh (rot rot' : Rotation) (k : KeyState) : Type 0 where
  was_free : flag k.hash rot ≡ false
  excluded : rot'.exclude ≡ insert k.hash true rot.exclude
  counted : rot'.picked ≡ rot.picked + 1
  single_same : rot'.single ≡ rot.single
  only_one : (rot.single && ltb 0 rot.picked) ≡ false

unblocked-flag :
    (c : Calendar) (daily_cap now : ℕ) (exclude : Map Bool) (model : String) (k : KeyState)
    → blocked c daily_cap exclude model now k ≡ false
    → flag_of (lookup k.hash exclude) ≡ false
unfolding blocked
unblocked-flag c daily_cap now exclude model k h = ground arith

held_pick :
    (c : Calendar) (rot : Rotation) (now i : ℕ) (k : KeyState)
    → held
        (pick_at c rot.world.pool rot.exclude rot.model now).0
        (pick_at c rot.world.pool rot.exclude rot.model now).1
      ≡ some (i, k)
    → flag k.hash rot ≡ false
held_pick c rot now i k h =
    let p = rot.world.pool in
    let q = pick_at c p rot.exclude rot.model now in
    elim (Option-cases q.1) [
      | inl e ↦ absurd (ground (arith, e))
      | inr (j, e) ↦
          let (k0, there, free, new, same) = pick-free c p rot.exclude rot.model now j e in
          let it : k ≡ serve c p.daily_cap now k0 = ground (arith, e, new) in
          rw (it, serve-hash c p.daily_cap now k0)
            (unblocked-flag c p.daily_cap now rot.exclude rot.model k0 free)
    ]

-- The two branches of `next`.
abbrev branch :
    Rotation → Rotation → Bool → Option (ℕ × KeyState) → Rotation × Option (ℕ × KeyState)
branch rot drawn stop o = if stop then (rot, none) else (exclude_key drawn o, o)

branch-some :
    (rot drawn : Rotation) (stop : Bool) (o : Option (ℕ × KeyState)) (i : ℕ) (k : KeyState)
    → (branch rot drawn stop o).1 ≡ some (i, k)
    → (stop ≡ false)
      × (o ≡ some (i, k))
      × ((branch rot drawn stop o).0 ≡ exclude_key drawn (some (i, k)))
branch-some rot drawn true o i k h = cc
branch-some rot drawn false o i k h = (refl, h, cc)

next-Fresh :
    (c : Calendar) (rot : Rotation) (now i : ℕ) (k : KeyState)
    → (next c rot now).1 ≡ some (i, k)
    → Fresh rot (next c rot now).0 k
unfolding next
next-Fresh c rot now i k h =
    let (go, o, e) =
      branch-some rot (with_pool rot (pick_at c rot.world.pool rot.exclude rot.model now).0)
        (rot.limited || rot.single && ltb 0 rot.picked) _ i k h in
    record {
      was_free = held_pick c rot now i k o;
      excluded = rw e refl;
      counted = rw e refl;
      single_same = rw e refl;
      only_one = ground arith;
    }

-- No text twice.
abbrev pub AllDistinct : List String → Type 0
AllDistinct [] = Unit
AllDistinct (h ∷ hs) = All (λ other. other ≢ h) hs × AllDistinct hs

-- What the keys promise that a walk tries from a given state on: they were not excluded before, each is
-- tried once, and in single-attempt mode there is one at most.
record Polite (left : ℕ) (rot : Rotation) (tried : List String) : Type 0 where
  few : length tried ≤ left
  free : All (λ h. flag h rot ≡ false) tried
  distinct : AllDistinct tried
  alone : rot.single ≡ true → length tried + rot.picked ≤ max 1 rot.picked

Polite-nil : (left : ℕ) (rot : Rotation) → Polite left rot []
Polite-nil left rot = record {
  few = omega arith;
  free = tt;
  distinct = tt;
  alone = λ e. omega arith;
}

still_free :
    (k h : String) (exclude : Map Bool)
    → flag_of (lookup h (insert k true exclude)) ≡ false
    → (h ≢ k) × (flag_of (lookup h exclude) ≡ false)
still_free k h exclude f =
    let e = lookup-insert k h true exclude in
    elim (Bool-cases (str_eq k h)) [
      | inl same ↦ absurd (ground (arith, same, e, f))
      | inr apart ↦ (λ q. ground (arith, apart, eq_iff k h), ground (arith, apart, e, f))
    ]

Polite-cons :
    (left : ℕ) (rot rot' rot2 : Rotation) (k : KeyState) (rest : List String)
    → Fresh rot rot' k
    → SameWalk rot' rot2
    → Polite left rot2 rest
    → Polite (suc left) rot (k.hash ∷ rest)
Polite-cons left rot rot' rot2 k rest f m p =
    let excluded : rot2.exclude ≡ insert k.hash true rot.exclude = m.exclude_same ∙ f.excluded in
    let each : All (λ h. (h ≢ k.hash) × (flag h rot ≡ false)) rest =
      All-map (λ h. flag h rot2 ≡ false) (λ h. (h ≢ k.hash) × (flag h rot ≡ false)) rest
        (λ h e. still_free k.hash h rot.exclude (rw excluded at e)) p.free in
    record {
      few = omega (arith, p.few);
      free = (f.was_free, All-map _ (λ h. flag h rot ≡ false) rest (λ h e. e.1) each);
      distinct = (All-map _ (λ h. h ≢ k.hash) rest (λ h e. e.0) each, p.distinct);
      alone = λ e.
          ground
            (arith, f.only_one, f.counted, f.single_same, m.single_same, m.picked_same, p.alone);
    }

module _ (c : Calendar) (s : RetryConfig) (turns : ℕ → Turn) (style : Style) where
  walk_keys-Polite :
      (left n : ℕ) (rot : Rotation) (tr : Trace) (hint : Hint)
      → Polite left rot (walk_keys c s turns style left n rot tr hint).tried
  unfolding give_up
  walk_keys-Polite zero n rot tr hint =
      rw (walk_keys_zero c s turns style n rot tr hint) (Polite-nil zero rot)
  walk_keys-Polite (suc left) n rot tr hint = elim (Option-cases (handed c turns n rot).1) [
    | inl e ↦ rw (walk_keys-none c s turns style left n rot tr hint e) (Polite-nil (suc left) rot)
    | inr ((i, k), e) ↦
        let fresh = next-Fresh c rot (turns n).asked_at i k e in
        let r = called c s turns style n rot tr i k in
        let same = call-SameWalk s style (handed c turns n rot).0 tr i k (turns n) in
        elim (Then-cases (settle style.on_flip r.1.1)) [
          | inl (o, t) ↦
              rw (walk_keys_ends c s turns style left n rot tr hint i k o e t)
                (Polite-cons left rot _ r.0 k [] fresh same (Polite-nil left r.0))
          | inr (h, t) ↦ rw (walk_keys_goes c s turns style left n rot tr hint i k h e t) (
              Polite-cons left rot _ r.0 k _ fresh same (walk_keys-Polite left (suc n) r.0 r.1.0 h))
        ]
  ]

  -- A request in one of the loops over one surface, all but those over zen's two, calls upstream with
  -- each key at most once and with at most `maxKeysPerRequest` keys, whatever the upstream answers and
  -- whatever other requests do to the pool and the breakers meanwhile.
  pub walk_pool-AllDistinct :
      (w : World) (provider model : String) (tr : Trace) (now : ℕ)
      → (length (walk_pool c s turns style w provider model tr now).tried ≤ s.max_keys_per_request)
        × AllDistinct (walk_pool c s turns style w provider model tr now).tried
  unfolding walk_pool
  walk_pool-AllDistinct w provider model tr now =
      let p =
        walk_keys-Polite s.max_keys_per_request 0 (new_rotation w provider model now) tr no_hint in
      (p.few, p.distinct)

  -- Such a request for a model that is in single-attempt mode calls upstream once at most.
  pub walk_single :
      (w : World) (provider model : String) (tr : Trace) (now : ℕ)
      → str_eq model "" ≡ false
      → tripped w.breakers provider model now ≡ true
      → length (walk_pool c s turns style w provider model tr now).tried ≤ 1
  unfolding walk_pool new_rotation
  walk_single w provider model tr now named t =
      let p =
        walk_keys-Polite s.max_keys_per_request 0 (new_rotation w provider model now) tr no_hint in
      omega (arith, p.alone (rw (named, t) refl))
