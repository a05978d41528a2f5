-- ===== src/Rotation/Retries.antt =====
-- What the client is told when the keys ran out.
use nano_llm_proxy.Prelude.{
  ℕ, zero, suc, ◌+◌, ◌-◌, ◌*◌, ◌≤◌, ◌<◌, max, ◌≡◌, ◌≢◌, ◌↔◌, refl, ◌∙◌, ◌⊎◌, inl, inr, Bool, ◌&&◌,
  not, Option, none, some, arith, String, ◌==◌, Map, Option-cases, Bool-cases,
}
use nano_llm_proxy.Time.{Calendar, second}
use nano_llm_proxy.Pool.Keys.{KeyState}
use nano_llm_proxy.Pool.{pick_at, rate_limited_for}
use nano_llm_proxy.Pool.RateLimit.{rate_limited-pick_none}
use nano_llm_proxy.Classify.{
  RetryConfig, Hint, no_hint, moved_hint, internal_hint, invalid_json_hint, Verdict, Action,
  fail_fast, next_key, flip_surface,
}
use nano_llm_proxy.Rotation.{World, Rotation, new_rotation, exhausted}
use nano_llm_proxy.Rotation.Failures.{
  Failure, fail_hint, retry_after_seconds, rate_limit_failure, Trace, attempt, Response,
  upstream_failure_status, write_upstream_failure,
}
use nano_llm_proxy.Rotation.Loops.{
  OnFlip, says_unavailable, passes_on, stops, served, refused, lost, judged, Turn, Style, Then,
  Reply, Outcome, no_request, no_answer, answered, ends, goes_on, give_up, settle, call, walk_keys,
  walk_pool, reply, lose_call,
}
use nano_llm_proxy.Rotation.Rounds.{
  handed, called, Then-cases, walk_keys_zero, walk_keys-none, walk_keys_ends, walk_keys_goes,
}

-- retryAfterSeconds rounds up to whole seconds, and to one at least.
pub retry_after_bounds :
    (d : ℕ)
    → (1 ≤ retry_after_seconds d)
      × (d ≤ retry_after_seconds d * second)
      × (retry_after_seconds d * second ≤ max second (d + (second - 1)))
unfolding retry_after_seconds
retry_after_bounds d = omega arith

-- A wait of whole seconds is written as it is.
retry_after_exact : (n : ℕ) → 1 ≤ n → retry_after_seconds (n * second) ≡ n
unfolding retry_after_seconds
retry_after_exact n h = omega arith

-- The failures that a loop returns.
pub data Explained (f : Failure) : Type 0 where
  unset : f.status ≡ 0 → f.retry_after ≡ 0 → Explained f
  key_gone : f.status ≡ 503 → f.retry_after ≡ 0 → Explained f
  limited_for : (wait : ℕ) → f ≡ rate_limit_failure wait → Explained f

unfoldable pub ExplainedEnd : Option Failure → Type 0
ExplainedEnd none = Unit
ExplainedEnd (some f) = Explained f

pub exhausted-Explained :
    (c : Calendar) (rot : Rotation) (hint : Hint) (now : ℕ) → Explained (exhausted c rot hint now)
unfolding exhausted fail_hint
exhausted-Explained c rot hint now =
    elim (Option-cases (rate_limited_for c rot.world.pool rot.model now)) [
      | inr (w, e) ↦ rw (exhausted, e) (limited_for w refl)
      | inl e ↦
          rw (exhausted, e)
            (elim (Bool-cases rot.limited) [
              | inl l ↦ rw l (limited_for second refl)
              | inr l ↦ rw l (elim (Bool-cases rot.key_lost) [
                | inl g ↦ key_gone (rw g refl) refl
                | inr g ↦ unset (rw g refl) refl
              ])
            ])
    ]

ExplainedThen : Then → Type 0
ExplainedThen (ends o) = ExplainedEnd o
ExplainedThen (goes_on h) = Unit

unfoldable pub ExplainedReply : Reply → Type 0
ExplainedReply served = Unit
ExplainedReply (refused f) = Explained f
ExplainedReply lost = Unit
ExplainedReply (judged v) = Unit

pub fail_hint-Explained : (h : Hint) → Explained (fail_hint h)
unfolding fail_hint
fail_hint-Explained h = unset refl refl

judged-Explained :
    (on_flip : OnFlip) (a : Action) (h : Hint) (v : Verdict)
    → v.action ≡ a
    → ExplainedThen (settle on_flip (judged v))
unfolding settle ExplainedThen ExplainedEnd fail_hint
judged-Explained on_flip fail_fast h v e = rw e (fail_hint-Explained v.hint)
judged-Explained on_flip next_key h v e = rw e tt
judged-Explained says_unavailable flip_surface h v e = rw e tt
judged-Explained passes_on flip_surface h v e = rw e tt
judged-Explained stops flip_surface h v e = rw e (fail_hint-Explained moved_hint)

settle-Explained :
    (on_flip : OnFlip) (r : Reply) → ExplainedReply r → ExplainedThen (settle on_flip r)
unfolding settle ExplainedThen ExplainedReply ExplainedEnd
settle-Explained on_flip served h = tt
settle-Explained on_flip (refused f) h = h
settle-Explained on_flip lost h = tt
settle-Explained on_flip (judged v) h = judged-Explained on_flip v.action v.hint v refl

module _ (s : RetryConfig) where
  reply-Explained :
      (style : Style) (rot : Rotation) (tr : Trace) (i : ℕ) (k : KeyState) (now : ℕ) (o : Outcome)
      → ExplainedReply (reply s style rot tr i k now o).1.1
  unfolding reply lose_call ExplainedReply
  reply-Explained style rot tr i k now no_request = elim (Bool-cases style.posts) [
    | inl e ↦ rw e tt
    | inr e ↦ rw e (fail_hint-Explained internal_hint)
  ]
  reply-Explained style rot tr i k now no_answer = tt
  reply-Explained style rot tr i k now (answered a readable) = elim (Bool-cases (a.status == 200)) [
    | inr e ↦ rw e tt
    | inl e ↦ rw e (elim (Bool-cases (style.reads_json && not readable)) [
      | inl f ↦ rw f (fail_hint-Explained invalid_json_hint)
      | inr f ↦ rw f tt
    ])
  ]

  pub call-Explained :
      (style : Style) (rot : Rotation) (tr : Trace) (i : ℕ) (k : KeyState) (turn : Turn)
      → ExplainedReply (call s style rot tr i k turn).1.1
  unfolding call
  call-Explained style rot tr i k turn =
      reply-Explained style (record rot { world = turn.during rot.world }) (attempt tr k.label) i k
        turn.answered_at turn.outcome

module _ (c : Calendar) (s : RetryConfig) (turns : ℕ → Turn) (style : Style) where
  give_up-Explained :
      (rot : Rotation) (tr : Trace) (hint : Hint) (now : ℕ)
      → ExplainedEnd (give_up c s turns rot tr hint now).failure
  unfolding give_up ExplainedEnd
  give_up-Explained rot tr hint now = exhausted-Explained c rot hint now

  ends-Explained : (t : Then) (o : Option Failure) → t ≡ ends o → ExplainedThen t → ExplainedEnd o
  unfolding ExplainedThen
  ends-Explained t o e h = rw e at h

  walk_keys-Explained :
      (left n : ℕ) (rot : Rotation) (tr : Trace) (hint : Hint)
      → ExplainedEnd (walk_keys c s turns style left n rot tr hint).failure
  walk_keys-Explained zero n rot tr hint =
      rw (walk_keys_zero c s turns style n rot tr hint)
        (give_up-Explained rot tr hint (turns n).asked_at)
  walk_keys-Explained (suc left) n rot tr hint = elim (Option-cases (handed c turns n rot).1) [
    | inl e ↦
        rw (walk_keys-none c s turns style left n rot tr hint e)
          (give_up-Explained (handed c turns n rot).0 tr hint (turns n).asked_at)
    | inr ((i, k), e) ↦
        let r = called c s turns style n rot tr i k in
        let why =
          settle-Explained style.on_flip r.1.1
            (call-Explained s style (handed c turns n rot).0 tr i k (turns n)) in
        elim (Then-cases (settle style.on_flip r.1.1)) [
          | inl (o, t) ↦
              rw (walk_keys_ends c s turns style left n rot tr hint i k o e t)
                (ends-Explained _ o t why)
          | inr (h, t) ↦
              rw (walk_keys_goes c s turns style left n rot tr hint i k h e t)
                (walk_keys-Explained left (suc n) r.0 r.1.0 h)
        ]
  ]

-- A status of an answered failure, and whether it has a Retry-After header.
abbrev pub Told : Response → Type 0
Told r =
    ((r.status ≡ 400) ⊎ ((r.status ≡ 429) ⊎ (r.status ≡ 503)))
    × ((r.status ≡ 429) ↔ (r.retry_after ≢ none))

failure_status_range :
    (tr : Trace) → (upstream_failure_status tr ≡ 400) ⊎ (upstream_failure_status tr ≡ 503)
unfolding upstream_failure_status
failure_status_range tr = ground arith

no_header :
    (tr : Trace) (f : Failure)
    → f.retry_after ≡ 0
    → (write_upstream_failure tr f).retry_after ≡ none
unfolding write_upstream_failure
no_header tr f r = rw r refl

header :
    (tr : Trace) (f : Failure)
    → 0 < f.retry_after
    → (write_upstream_failure tr f).retry_after ≡ some (retry_after_seconds f.retry_after)
unfolding write_upstream_failure
header tr f r = ground arith

unset_status :
    (tr : Trace) (f : Failure)
    → f.status ≡ 0
    → (write_upstream_failure tr f).status ≡ upstream_failure_status tr
unfolding write_upstream_failure
unset_status tr f e = ground arith

set_status :
    (tr : Trace) (f : Failure) → 0 < f.status → (write_upstream_failure tr f).status ≡ f.status
unfolding write_upstream_failure
set_status tr f e = ground arith

rate_limit_fields :
    (wait : ℕ)
    → ((rate_limit_failure wait).status ≡ 429) × (0 < (rate_limit_failure wait).retry_after)
unfolding rate_limit_failure
rate_limit_fields wait = (refl, omega (arith, retry_after_bounds wait))

pub Explained-Told : (tr : Trace) (f : Failure) → Explained f → Told (write_upstream_failure tr f)
Explained-Told tr f (unset e r) =
    let st = unset_status tr f e in
    let none_there = no_header tr f r in
    elim (failure_status_range tr) [
      | inl q ↦ (inl (st ∙ q), (λ h. absurd (omega (arith, st, q)), λ h. absurd (h none_there)))
      | inr q ↦
          (inr (inr (st ∙ q)), (λ h. absurd (omega (arith, st, q)), λ h. absurd (h none_there)))
    ]
Explained-Told tr f (key_gone e r) =
    let st = set_status tr f (omega arith) in
    let none_there = no_header tr f r in
    (inr (inr (st ∙ e)), (λ h. absurd (omega (arith, st, e)), λ h. absurd (h none_there)))
Explained-Told tr f (limited_for wait e) =
    let (st, pos) = rate_limit_fields wait in
    let at : f.status ≡ 429 = rw e st in
    let out = set_status tr f (omega (arith, at)) in
    let some_there = header tr f (rw e pos) in
    (inr (inl (out ∙ at)), (λ h q. cc (some_there, q), λ h. out ∙ at))

pub walk_pool-Explained :
    (c : Calendar) (s : RetryConfig) (turns : ℕ → Turn) (style : Style) (w : World)
    (provider model : String) (tr : Trace) (now : ℕ)
    → ExplainedEnd (walk_pool c s turns style w provider model tr now).failure
unfolding walk_pool
walk_pool-Explained c s turns style w provider model tr now =
    walk_keys-Explained c s turns style s.max_keys_per_request 0 (new_rotation w provider model now)
      tr no_hint

-- The wait that a 429 is told: the pool's, rounded up, or one second.
exhausted_wait :
    (c : Calendar) (rot : Rotation) (hint : Hint) (now : ℕ)
    → (exhausted c rot hint now).status ≡ 429
    → ((w : ℕ) × (rate_limited_for c rot.world.pool rot.model now ≡ some w)
        × ((exhausted c rot hint now).retry_after ≡ retry_after_seconds w * second))
      ⊎ ((exhausted c rot hint now).retry_after ≡ second)
unfolding exhausted fail_hint rate_limit_failure
exhausted_wait c rot hint now st =
    elim (Option-cases (rate_limited_for c rot.world.pool rot.model now)) [
      | inr (w, e) ↦ inl (w, e, cc)
      | inl e ↦ inr (ground (arith, e, retry_after_exact 1))
    ]

-- When a walk ends in a 429, the Retry-After that the client is told is not too long by a second: no
-- `pick` for the model returns a key until a second before it is over, whatever it excludes.
pub exhausted_honest :
    (c : Calendar) (rot : Rotation) (hint : Hint) (now t : ℕ) (exclude : Map Bool)
    → (exhausted c rot hint now).status ≡ 429
    → now ≤ t
    → t + second < now + (exhausted c rot hint now).retry_after
    → (pick_at c rot.world.pool exclude rot.model t).1 ≡ none
exhausted_honest c rot hint now t exclude st le lt = elim (exhausted_wait c rot hint now st) [
  | inr one ↦ absurd (omega (arith, one))
  | inl (w, e, r) ↦
      rate_limited-pick_none c rot.world.pool rot.model now w e exclude t le
        (omega (arith, r, retry_after_bounds w))
]
