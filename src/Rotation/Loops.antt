-- ===== src/Rotation/Loops.antt =====
-- The rotation loops of internal/gateway that try one key after the other: generic.go (proxyOpenAI),
-- anthropic_handler.go (messagesViaOpenAI), anthropic_native.go (messagesViaAnthropic),
-- anthropic_outbound.go (chatViaAnthropic) and responses_endpoint.go (proxyZenResponses).
--
-- They differ in the request that they build, in what they make of a "flipsurface" verdict and in
-- whether they decode the JSON body of a 200. The bodies of requests and responses are not modelled.
use nano_llm_proxy.Prelude.{
  ℕ, zero, suc, ◌*◌, Bool, true, false, ◌&&◌, not, Option, none, some, List, [], ◌∷◌, ◌==◌,
  if◌then◌else◌, String,
}
use nano_llm_proxy.Time.{Calendar, second}
use nano_llm_proxy.Pool.Keys.{KeyState}
use nano_llm_proxy.Pool.{cooldown}
use nano_llm_proxy.Classify.{
  RetryConfig, Answer, Verdict, Hint, no_hint, network_hint, unavailable_hint, moved_hint,
  invalid_json_hint, internal_hint, fail_fast, next_key, flip_surface,
}
use nano_llm_proxy.Rotation.{
  World, Rotation, new_rotation, with_pool, next, rejected, succeeded, exhausted,
}
use nano_llm_proxy.Rotation.Failures.{Failure, fail_hint, Trace, attempt, upstream}

-- What the upstream does with one call.
pub data Outcome : Type 0 where
  -- http.NewRequestWithContext fails: nothing is sent
  no_request : Outcome
  -- the client's Do fails
  no_answer : Outcome
  -- the answer, and whether its body is the JSON that a non-streaming loop decodes
  answered : Answer → Bool → Outcome

-- One round of a loop, as the world outside determines it: the clock, the upstream's answer, and what
-- the other requests do to the pool and the breakers during the call and after it.
pub record Turn : Type 0 where
  pub asked_at : ℕ
  pub during : World → World
  pub outcome : Outcome
  pub answered_at : ℕ
  pub afterwards : World → World

-- What a loop does with a "flipsurface" verdict: it goes on with its own hint, goes on like for any
-- other verdict, or stops.
pub data OnFlip : Type 0 where
  says_unavailable passes_on stops : OnFlip

-- How a loop differs from the others.
pub record Style : Type 0 where
  pub on_flip : OnFlip
  -- it decodes the JSON body of a 200
  pub reads_json : Bool
  -- it calls postUpstream, where a request that cannot be built is a call that failed
  pub posts : Bool

pub data Reply : Type 0 where
  served : Reply
  refused : Failure → Reply
  lost : Reply
  judged : Verdict → Reply

-- a call that failed: the key cools for ten seconds
unfoldable pub lose_call : Rotation → Trace → ℕ → ℕ → Rotation × (Trace × Reply)
lose_call rot tr i now =
    (with_pool rot (cooldown rot.world.pool i (10 * second) now), (upstream tr 0, lost))

module _ (s : RetryConfig) where
  -- the answer, in the loops' order: an error of Do, another status than 200, or a 200
  unfoldable pub reply :
      Style → Rotation → Trace → ℕ → KeyState → ℕ → Outcome → Rotation × (Trace × Reply)
  unfolding lose_call
  reply style rot tr i k now no_request =
      if style.posts then lose_call rot tr i now else (rot, (tr, refused (fail_hint internal_hint)))
  reply style rot tr i k now no_answer = lose_call rot tr i now
  reply style rot tr i k now (answered a readable) =
      let (rot', v) = rejected s rot i k a now in
      if a.status == 200
      then (
        succeeded rot,
        (
          upstream tr a.status,
          if style.reads_json && not readable
              then refused (fail_hint invalid_json_hint)
              else served,
        ),
      )
      else (rot', (upstream tr a.status, judged v))

  -- one upstream call with the key `k` at position `i`
  unfoldable pub call : Style → Rotation → Trace → ℕ → KeyState → Turn → Rotation × (Trace × Reply)
  unfolding reply
  call style rot tr i k turn =
      let asked = record rot { world = turn.during rot.world } in
      let (rot', r) = reply style asked (attempt tr k.label) i k turn.answered_at turn.outcome in
      (record rot' { world = turn.afterwards rot'.world }, r)

pub data Then : Type 0 where
  -- the loop returns: none for nil
  ends : Option Failure → Then
  goes_on : Hint → Then

unfoldable pub settle : OnFlip → Reply → Then
settle on_flip served = ends none
settle on_flip (refused f) = ends (some f)
settle on_flip lost = goes_on network_hint
settle on_flip (judged v) = elim v.action [
  | fail_fast ↦ ends (some (fail_hint v.hint))
  | next_key ↦ goes_on v.hint
  | flip_surface ↦ elim on_flip [
    | says_unavailable ↦ goes_on unavailable_hint
    | passes_on ↦ goes_on v.hint
    | stops ↦ ends (some (fail_hint moved_hint))
  ]
]

-- A finished loop: the hashes of the keys that were called with, in order, and what it returned.
pub record Walk : Type 0 where
  pub tried : List String
  pub rotation : Rotation
  pub trace : Trace
  pub failure : Option Failure

abbrev pub also_tried : String → Walk → Walk
also_tried hash w = record w { tried = hash ∷ w.tried }

module _ (c : Calendar) (s : RetryConfig) (turns : ℕ → Turn) where
  -- return rot.exhausted(lastHint)
  unfoldable pub give_up : Rotation → Trace → Hint → ℕ → Walk
  give_up rot tr hint now = record {
    tried = [];
    rotation = rot;
    trace = tr;
    failure = some (exhausted c rot hint now);
  }

  module _ (style : Style) where
    -- the loop with `left` rounds to go, after `n` upstream calls
    unfoldable pub walk_keys : ℕ → ℕ → Rotation → Trace → Hint → Walk
    unfolding give_up settle
    walk_keys zero n rot tr hint = give_up rot tr hint (turns n).asked_at
    walk_keys (suc left) n rot tr hint =
        let (rot', choice) = next c rot (turns n).asked_at in
        elim choice [
          | none ↦ give_up rot' tr hint (turns n).asked_at
          | some (i, k) ↦
              let (after, (tr', r)) = call s style rot' tr i k (turns n) in
              elim (settle style.on_flip r) [
                | ends failure ↦ record {
                  tried = k.hash ∷ [];
                  rotation = after;
                  trace = tr';
                  failure = failure;
                }
                | goes_on hint' ↦ also_tried k.hash (walk_keys left (suc n) after tr' hint')
              ]
        ]

    unfoldable pub walk_pool : World → String → String → Trace → ℕ → Walk
    unfolding walk_keys
    walk_pool w provider model tr now =
        walk_keys s.max_keys_per_request 0 (new_rotation w provider model now) tr no_hint

  unfoldable pub proxy_open_ai : World → String → String → Trace → ℕ → Walk
  proxy_open_ai =
      walk_pool (record { on_flip = says_unavailable; reads_json = false; posts = false })

  -- a streaming client's response is not decoded
  unfoldable pub messages_via_open_ai : Bool → World → String → String → Trace → ℕ → Walk
  messages_via_open_ai stream =
      walk_pool (record { on_flip = passes_on; reads_json = not stream; posts = true })

  unfoldable pub messages_via_anthropic : World → String → String → Trace → ℕ → Walk
  messages_via_anthropic =
      walk_pool (record { on_flip = passes_on; reads_json = false; posts = false })

  unfoldable pub chat_via_anthropic : Bool → World → String → String → Trace → ℕ → Walk
  chat_via_anthropic client_wants_stream =
      walk_pool
        (record { on_flip = passes_on; reads_json = not client_wants_stream; posts = false })

  unfoldable pub proxy_zen_responses : World → String → String → Trace → ℕ → Walk
  proxy_zen_responses = walk_pool (record { on_flip = stops; reads_json = false; posts = false })
