-- ===== src/Rotation/Endless.antt =====
-- internal/gateway/zen.go: the loop over zen's two surfaces when the upstream refuses both.
use nano_llm_proxy.Prelude.{
  ℕ, zero, suc, ◌+◌, ◌<◌, ◌≡◌, ◌≢◌, refl, ◌∙◌, inl, inr, Bool, true, false, ◌&&◌, ◌||◌, none, some,
  [], arith, String, str_eq, ltb, ◌==◌, contains, Map, lookup, insert, lookup-insert, get_elem?,
  get_elem?-modify_self, get_elem?-modify_ne, All-get, Option-cases, Bool-cases,
}
use nano_llm_proxy.Time.{Calendar}
use nano_llm_proxy.Pool.Keys.{KeyState, flag_of, blocked, serve}
use nano_llm_proxy.Pool.{Pool, pick_at, at_key, blocked_in}
use nano_llm_proxy.Pool.Picks.{pick-free, pick_none}
use nano_llm_proxy.Classify.{
  RetryConfig, Hint, no_hint, Answer, new_verdict, flip_surface, classify, says_key_expired,
}
use nano_llm_proxy.Rotation.{
  World, Rotation, new_rotation, next, retry_same, rejected, apply_verdict, held,
}
use nano_llm_proxy.Rotation.Failures.{Trace, attempt, upstream}
use nano_llm_proxy.Rotation.Loops.{Turn, answered, judged, call, reply}
use nano_llm_proxy.Rotation.Zen.{
  Surface, Surfaces, surface_for, learn_surface, other, zen_flips, settle_zen, zen_style, walk_zen,
  zen,
}
use nano_llm_proxy.Rotation.Flips.{called, walk_zen_flips}

-- A key that nothing blocks: enabled and not cooling.
record Idle (k : KeyState) : Type 0 where
  on : k.disabled ≡ false
  cool : k.cooldown_until ≡ 0
  unlimited : k.model_cooldown ≡ []

-- The walk may take a key, excludes none, and the pool has one that nothing blocks.
record Ready (rot : Rotation) : Type 0 where
  may_pick : (rot.limited || (rot.single && ltb 0 rot.picked)) ≡ false
  no_cap : rot.world.pool.daily_cap ≡ 0
  none_excluded : (h : String) → flag_of (lookup h rot.exclude) ≡ false
  at : ℕ
  key : KeyState
  there : get_elem? rot.world.pool.keys at ≡ some key
  idle : Idle key

Idle-free :
    (c : Calendar) (exclude : Map Bool) (model : String) (now : ℕ) (k : KeyState)
    → Idle k
    → flag_of (lookup k.hash exclude) ≡ false
    → blocked c 0 exclude model now k ≡ false
unfolding blocked lookup
Idle-free c exclude model now k v f = ground (arith, v.on, v.cool, v.unlimited, f)

serve-Idle :
    (c : Calendar) (daily_cap now : ℕ) (k : KeyState)
    → daily_cap ≡ 0
    → Idle k
    → Idle (serve c daily_cap now k)
unfolding serve
serve-Idle c daily_cap now k e v = record {
  on = ground (arith, v.on);
  cool = ground (arith, v.cool);
  unlimited = ground (arith, v.unlimited);
}

module _ (s : RetryConfig) (p : Pool) (i : ℕ) (a : Answer) (now : ℕ) where
  classify_unavailable :
      a.status ≡ 503
      → contains a.body "Endpoint is unavailable" ≡ true
      → classify s p i a now ≡ (p, record new_verdict { action = flip_surface })
  unfolding classify says_key_expired
  classify_unavailable st b = ground arith

-- An answer that asks for the other surface, while no other request touches the pool and the breakers.
pub record Refuses (turn : Turn) : Type 0 where
  pub alone_during : (w : World) → turn.during w ≡ w
  pub alone_afterwards : (w : World) → turn.afterwards w ≡ w
  pub answer : Answer
  pub readable : Bool
  pub outcome : turn.outcome ≡ answered answer readable
  pub status : answer.status ≡ 503
  pub body : contains answer.body "Endpoint is unavailable" ≡ true

module _ (s : RetryConfig) where
  rejected_unavailable :
      (rot : Rotation) (i : ℕ) (k : KeyState) (a : Answer) (now : ℕ)
      → a.status ≡ 503
      → contains a.body "Endpoint is unavailable" ≡ true
      → rejected s rot i k a now
        ≡ (record rot { key_lost = false }, record new_verdict { action = flip_surface })
  unfolding rejected apply_verdict
  rejected_unavailable rot i k a now st b =
      rw (rejected, classify_unavailable s rot.world.pool i a now st b) refl

  reply_unavailable :
      (posts : Bool) (rot : Rotation) (tr : Trace) (i : ℕ) (k : KeyState) (now : ℕ) (a : Answer)
      (readable : Bool)
      → a.status ≡ 503
      → contains a.body "Endpoint is unavailable" ≡ true
      → reply s (zen_style posts) rot tr i k now (answered a readable) ≡ (
        record rot { key_lost = false },
        (upstream tr a.status, judged (record new_verdict { action = flip_surface })),
      )
  unfolding reply
  reply_unavailable posts rot tr i k now a readable st b =
      let ne : (a.status == 200) ≡ false = ground (arith, st) in
      rw (ne, rejected_unavailable rot i k a now st b) refl

  call_refused :
      (posts : Bool) (rot : Rotation) (tr : Trace) (i : ℕ) (k : KeyState) (turn : Turn)
      → (r : Refuses turn)
      → ((call s (zen_style posts) rot tr i k turn).0 ≡ record rot { key_lost = false })
        × (settle_zen (call s (zen_style posts) rot tr i k turn).1.1 ≡ zen_flips no_hint)
  unfolding call settle_zen
  call_refused posts rot tr i k turn r =
      let said : reply s (zen_style posts) (record rot { world = turn.during rot.world })
            (attempt tr k.label) i k turn.answered_at turn.outcome
          ≡ (
            record rot { key_lost = false },
            (
              upstream (attempt tr k.label) r.answer.status,
              judged (record new_verdict { action = flip_surface }),
            ),
          ) =
        rw (r.alone_during, r.outcome)
          (reply_unavailable posts rot (attempt tr k.label) i k turn.answered_at r.answer r.readable
            r.status r.body) in
      (rw (said, r.alone_afterwards) refl, rw said refl)

drawn_from :
    (c : Calendar) (rot : Rotation) (now : ℕ)
    → Ready rot
    → (i : ℕ) × ((pick_at c rot.world.pool rot.exclude rot.model now).1 ≡ some i)
drawn_from c rot now r =
    elim (Option-cases (pick_at c rot.world.pool rot.exclude rot.model now).1) [
      | inr (i, e) ↦ (i, e)
      | inl e ↦
          let all = (pick_none c rot.world.pool rot.exclude rot.model now).0 e in
          let stuck =
            All-get (λ k. blocked_in c rot.world.pool rot.exclude rot.model now k ≡ true)
              rot.world.pool.keys all.0 r.at r.key r.there in
          let free =
            Idle-free c rot.exclude rot.model now r.key r.idle (r.none_excluded r.key.hash) in
          absurd (ground (arith, stuck, free, r.no_cap))
    ]

-- The idle key is idle after a pick too.
at_key-Idle :
    (c : Calendar) (p : Pool) (now i at : ℕ) (k : KeyState)
    → p.daily_cap ≡ 0
    → get_elem? p.keys at ≡ some k
    → Idle k
    → (k' : KeyState) × (get_elem? (at_key p i (serve c p.daily_cap now)).keys at ≡ some k')
      × Idle k'
at_key-Idle c p now i at k cap there v = elim (Bool-cases (i == at)) [
  | inl e ↦
      let same : i ≡ at = ground (arith, e) in
      (
        serve c p.daily_cap now k,
        rw same (get_elem?-modify_self p.keys at (serve c p.daily_cap now) k there),
        serve-Idle c p.daily_cap now k cap v,
      )
  | inr e ↦
      let apart : i ≢ at = λ q. ground (arith, e) in
      (k, get_elem?-modify_ne p.keys i at (serve c p.daily_cap now) apart ∙ there, v)
]

flags_restored :
    (hash h : String) (exclude : Map Bool)
    → flag_of (lookup h exclude) ≡ false
    → flag_of (lookup h (insert hash false (insert hash true exclude))) ≡ false
flags_restored hash h exclude f =
    rw (lookup-insert hash h false (insert hash true exclude), lookup-insert hash h true exclude)
      (elim (Bool-cases (str_eq hash h)) [ inl e ↦ rw e refl | inr e ↦ rw e f ])

-- The walk after `next` has handed out the key at `i`.
abbrev drawn : Calendar → Rotation → ℕ → ℕ → String → Rotation
drawn c rot now i hash = record rot {
  world = record {
    pool = at_key rot.world.pool i (serve c rot.world.pool.daily_cap now);
    breakers = rot.world.breakers;
  };
  exclude = insert hash true rot.exclude;
  picked = rot.picked + 1;
}

restored :
    (c : Calendar) (rot : Rotation) (now i : ℕ) (hash : String)
    → Ready rot
    → Ready (retry_same (record (drawn c rot now i hash) { key_lost = false }) hash)
unfolding retry_same
restored c rot now i hash r =
    let (k, there, idle) = at_key-Idle c rot.world.pool now i r.at r.key r.no_cap r.there r.idle in
    record {
      may_pick = ground (arith, r.may_pick);
      no_cap = r.no_cap;
      none_excluded = λ h. flags_restored hash h rot.exclude (r.none_excluded h);
      at = r.at;
      key = k;
      there = there;
      idle = idle;
    }

-- A ready walk hands out a key, and is ready again once it may retry that key.
record Again (c : Calendar) (rot : Rotation) (now : ℕ) : Type 0 where
  i : ℕ
  k : KeyState
  handed_out : (next c rot now).1 ≡ some (i, k)
  ready : Ready (retry_same (record (next c rot now).0 { key_lost = false }) k.hash)

next-Ready : (c : Calendar) (rot : Rotation) (now : ℕ) → Ready rot → Again c rot now
unfolding next
next-Ready c rot now r =
    let p = rot.world.pool in
    let (i, e) = drawn_from c rot now r in
    let (k0, there, _, new, same) = pick-free c p rot.exclude rot.model now i e in
    let k = serve c p.daily_cap now k0 in
    let held_it : held (pick_at c p rot.exclude rot.model now).0
          (pick_at c p rot.exclude rot.model now).1
        ≡ some (i, k) =
      cc (e, new) in
    let out : (next c rot now).0 ≡ drawn c rot now i k.hash = cc (r.may_pick, held_it, same) in
    record {
      i = i;
      k = k;
      handed_out = rw (r.may_pick) held_it;
      ready = rw out (restored c rot now i k.hash r);
    }

module _ (c : Calendar) (s : RetryConfig) (turns : ℕ → Turn) (posts : Bool)
    (refuses : (n : ℕ) → Refuses (turns n)) where
  walk_zen_stuck :
      (left n : ℕ) (rot : Rotation) (z : Surfaces) (surface : Surface) (tr : Trace) (hint : Hint)
      → walk_zen c s turns posts 0 (suc left) n rot z surface tr hint ≡ none
  unfolding walk_zen
  walk_zen_stuck left n rot z surface tr hint = refl

  endless :
      (fuel left n : ℕ) (rot : Rotation) (z : Surfaces) (surface : Surface) (tr : Trace)
      (hint : Hint)
      → Ready rot
      → walk_zen c s turns posts fuel (suc left) n rot z surface tr hint ≡ none
  endless zero left n rot z surface tr hint r = walk_zen_stuck left n rot z surface tr hint
  endless (suc fuel) left n rot z surface tr hint r =
      let a = next-Ready c rot (turns n).asked_at r in
      let (after, flips) =
        call_refused s posts (next c rot (turns n).asked_at).0 tr a.i a.k (turns n) (refuses n) in
      let again : Ready (retry_same (called c s turns posts n rot tr a.i a.k).0 a.k.hash) =
        rw after a.ready in
      rw
        (
          walk_zen_flips c s turns posts fuel left n rot z surface tr hint a.i a.k a.handed_out
              no_hint flips,
          endless fuel left (suc n)
              (retry_same (called c s turns posts n rot tr a.i a.k).0 a.k.hash)
              (learn_surface z rot.model (other surface)) (other surface)
              (called c s turns posts n rot tr a.i a.k).1.0 no_hint again,
        )
        refl

  from_max :
      (most fuel n : ℕ) (rot : Rotation) (z : Surfaces) (surface : Surface) (tr : Trace)
      (hint : Hint)
      → 0 < most
      → Ready rot
      → walk_zen c s turns posts fuel most n rot z surface tr hint ≡ none
  from_max zero fuel n rot z surface tr hint pos r = absurd (omega arith)
  from_max (suc left) fuel n rot z surface tr hint pos r =
      endless fuel left n rot z surface tr hint r

  new_rotation-Ready :
      (w : World) (provider model : String) (now at : ℕ) (k : KeyState)
      → w.pool.daily_cap ≡ 0
      → get_elem? w.pool.keys at ≡ some k
      → k.disabled ≡ false
      → k.cooldown_until ≡ 0
      → k.model_cooldown ≡ []
      → Ready (new_rotation w provider model now)
  unfolding new_rotation lookup
  new_rotation-Ready w provider model now at k cap there on cool unlimited = record {
    may_pick = ground arith;
    no_cap = cap;
    none_excluded = λ h. refl;
    at = at;
    key = k;
    there = there;
    idle = record { on = on; cool = cool; unlimited = unlimited };
  }

  -- If the upstream answers every call with 503 "Endpoint is unavailable", on both surfaces, the loop
  -- never ends: whatever the fuel, it is used up, though `maxKeysPerRequest` bounds the keys of a
  -- request. The pool has no daily cap and a key that is enabled and not cooling, and no other request
  -- touches it.
  pub zen_endless :
      (fuel : ℕ) (w : World) (z : Surfaces) (provider model : String) (tr : Trace) (now at : ℕ)
      (k : KeyState)
      → 0 < s.max_keys_per_request
      → w.pool.daily_cap ≡ 0
      → get_elem? w.pool.keys at ≡ some k
      → k.disabled ≡ false
      → k.cooldown_until ≡ 0
      → k.model_cooldown ≡ []
      → zen c s turns posts fuel w z provider model tr now ≡ none
  unfolding zen
  zen_endless fuel w z provider model tr now at k pos cap there on cool unlimited =
      from_max s.max_keys_per_request fuel 0 (new_rotation w provider model now) z
        (surface_for z model) tr no_hint pos
        (new_rotation-Ready w provider model now at k cap there on cool unlimited)
