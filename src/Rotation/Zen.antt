-- ===== src/Rotation/Zen.antt =====
-- internal/gateway/zen.go (proxyZen) and anthropic_handler.go (messagesViaZen): the rotation loop over
-- zen's two surfaces. A "flipsurface" verdict turns to the other surface with the same key and does
-- not count as an attempt, so the loop is on fuel; `none` is the loop still running when the fuel is
-- used up.
use nano_llm_proxy.Prelude.{
  ℕ, zero, suc, Bool, true, false, Option, none, some, List, [], ◌∷◌, if◌then◌else◌, String, Map,
  lookup, insert,
}
use nano_llm_proxy.Time.{Calendar}
use nano_llm_proxy.Classify.{
  RetryConfig, Hint, no_hint, network_hint, fail_fast, next_key, flip_surface,
}
use nano_llm_proxy.Rotation.{World, Rotation, new_rotation, next, retry_same, exhausted}
use nano_llm_proxy.Rotation.Failures.{Failure, fail_hint, Trace}
use nano_llm_proxy.Rotation.Loops.{
  Turn, Style, says_unavailable, Reply, served, refused, lost, judged, call,
}

pub data Surface : Type 0 where
  chat responses : Surface

-- gateway.surfaceOver, and the responsesApi flags of Zen.ModelMeta
pub record Surfaces : Type 0 where
  pub surface_over : Map Surface
  pub responses_api : Map Bool

unfoldable pub surface_for : Surfaces → String → Surface
surface_for z model = elim (lookup model z.surface_over) [
  | some s ↦ s
  | none ↦ elim (lookup model z.responses_api) [
    | some flag ↦ if flag then responses else chat
    | none ↦ chat
  ]
]

unfoldable pub learn_surface : Surfaces → String → Surface → Surfaces
learn_surface z model surface = record z { surface_over = insert model surface z.surface_over }

unfoldable pub other : Surface → Surface
other chat = responses
other responses = chat

pub data ZenThen : Type 0 where
  zen_ends : Option Failure → ZenThen
  zen_goes_on zen_flips : Hint → ZenThen

unfoldable pub settle_zen : Reply → ZenThen
settle_zen served = zen_ends none
settle_zen (refused f) = zen_ends (some f)
settle_zen lost = zen_goes_on network_hint
settle_zen (judged v) = elim v.action [
  | fail_fast ↦ zen_ends (some (fail_hint v.hint))
  | next_key ↦ zen_goes_on v.hint
  | flip_surface ↦ zen_flips v.hint
]

-- A finished loop: the key's hash and the surface of every upstream call, what the walk and the
-- surfaces are then, and what the loop returned.
pub record ZenWalk : Type 0 where
  pub calls : List (String × Surface)
  pub rotation : Rotation
  pub surfaces : Surfaces
  pub trace : Trace
  pub failure : Option Failure

abbrev pub also_called : String × Surface → Option ZenWalk → Option ZenWalk
also_called x none = none
also_called x (some w) = some (record w { calls = x ∷ w.calls })

-- proxyZen builds its requests itself, messagesViaZen calls postUpstream. Neither decodes JSON.
abbrev pub zen_style : Bool → Style
zen_style posts = record { on_flip = says_unavailable; reads_json = false; posts = posts }

-- return rot.exhausted(lastHint)
abbrev pub zen_gives_up : Calendar → Rotation → Surfaces → Trace → Hint → ℕ → ZenWalk
zen_gives_up c rot z tr hint now = record {
  calls = [];
  rotation = rot;
  surfaces = z;
  trace = tr;
  failure = some (exhausted c rot hint now);
}

module _ (c : Calendar) (s : RetryConfig) (turns : ℕ → Turn) (posts : Bool) where
  -- the loop with `left` rounds to go, after `n` upstream calls
  unfoldable pub walk_zen :
      ℕ → ℕ → ℕ → Rotation → Surfaces → Surface → Trace → Hint → Option ZenWalk
  unfolding settle_zen learn_surface other
  walk_zen fuel zero n rot z surface tr hint =
      some (zen_gives_up c rot z tr hint (turns n).asked_at)
  walk_zen zero (suc left) n rot z surface tr hint = none
  walk_zen (suc fuel) (suc left) n rot z surface tr hint =
      let (rot', choice) = next c rot (turns n).asked_at in
      elim choice [
        | none ↦ some (zen_gives_up c rot' z tr hint (turns n).asked_at)
        | some (i, k) ↦
            let (after, (tr', r)) = call s (zen_style posts) rot' tr i k (turns n) in
            elim (settle_zen r) [
              | zen_ends failure ↦ some (record {
                calls = (k.hash, surface) ∷ [];
                rotation = after;
                surfaces = z;
                trace = tr';
                failure = failure;
              })
              | zen_goes_on h ↦
                  also_called (k.hash, surface) (walk_zen fuel left (suc n) after z surface tr' h)
              | zen_flips h ↦
                  also_called (k.hash, surface)
                    (walk_zen fuel (suc left) (suc n) (retry_same after k.hash)
                      (learn_surface z rot.model (other surface)) (other surface) tr' h)
            ]
      ]

-- either loop, from the start
unfoldable pub zen :
    Calendar
    → RetryConfig
    → (ℕ → Turn)
    → Bool
    → ℕ
    → World
    → Surfaces
    → String
    → String
    → Trace
    → ℕ
    → Option ZenWalk
unfolding walk_zen surface_for
zen c s turns posts fuel w z provider model tr now =
    walk_zen c s turns posts fuel s.max_keys_per_request 0 (new_rotation w provider model now) z
      (surface_for z model) tr no_hint

pub proxy_zen :
    Calendar
    → RetryConfig
    → (ℕ → Turn)
    → ℕ
    → World
    → Surfaces
    → String
    → String
    → Trace
    → ℕ
    → Option ZenWalk
proxy_zen c s turns = zen c s turns false

pub messages_via_zen :
    Calendar
    → RetryConfig
    → (ℕ → Turn)
    → ℕ
    → World
    → Surfaces
    → String
    → String
    → Trace
    → ℕ
    → Option ZenWalk
messages_via_zen c s turns = zen c s turns true
