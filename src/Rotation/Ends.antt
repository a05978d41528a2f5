-- ===== src/Rotation/Ends.antt =====
-- What the client is told when a loop ends without a 200: any loop over one surface, and zen's two.
use nano_llm_proxy.Prelude.{
  ℕ, zero, suc, ◌≡◌, refl, inl, inr, Bool, Option, none, some, String, Option-cases,
}
use nano_llm_proxy.Time.{Calendar}
use nano_llm_proxy.Classify.{
  RetryConfig, Hint, no_hint, Verdict, Action, fail_fast, next_key, flip_surface,
}
use nano_llm_proxy.Rotation.{World, Rotation, new_rotation, retry_same}
use nano_llm_proxy.Rotation.Failures.{Failure, Trace, write_upstream_failure}
use nano_llm_proxy.Rotation.Loops.{Turn, Style, Reply, served, refused, lost, judged, walk_pool}
use nano_llm_proxy.Rotation.Zen.{
  Surface, Surfaces, surface_for, learn_surface, other, ZenThen, zen_ends, zen_goes_on, zen_flips,
  settle_zen, ZenWalk, also_called, zen_style, walk_zen, zen,
}
use nano_llm_proxy.Rotation.Flips.{
  ZenThen-cases, handed, called, walk_zen_zero, walk_zen-none, walk_zen_ends, walk_zen_goes,
  walk_zen_flips, walk_zen_out,
}
use nano_llm_proxy.Rotation.Retries.{
  Explained, ExplainedEnd, ExplainedReply, exhausted-Explained, fail_hint-Explained, call-Explained,
  walk_pool-Explained, Told, Explained-Told,
}

ExplainedZen : ZenThen → Type 0
ExplainedZen (zen_ends o) = ExplainedEnd o
ExplainedZen (zen_goes_on h) = Unit
ExplainedZen (zen_flips h) = Unit

judged-ExplainedZen :
    (v : Verdict) (a : Action) → v.action ≡ a → ExplainedZen (settle_zen (judged v))
unfolding settle_zen ExplainedZen ExplainedEnd
judged-ExplainedZen v fail_fast e = rw e (fail_hint-Explained v.hint)
judged-ExplainedZen v next_key e = rw e tt
judged-ExplainedZen v flip_surface e = rw e tt

settle_zen-Explained : (r : Reply) → ExplainedReply r → ExplainedZen (settle_zen r)
unfolding settle_zen ExplainedZen ExplainedEnd ExplainedReply
settle_zen-Explained served h = tt
settle_zen-Explained (refused f) h = h
settle_zen-Explained lost h = tt
settle_zen-Explained (judged v) h = judged-ExplainedZen v v.action refl

zen_end : (t : ZenThen) (o : Option Failure) → t ≡ zen_ends o → ExplainedZen t → ExplainedEnd o
unfolding ExplainedZen
zen_end t o e h = rw e at h

-- A loop over zen's surfaces that has ended returned such a failure, or none.
ExplainedWalk : Option ZenWalk → Type 0
ExplainedWalk none = Unit
ExplainedWalk (some w) = ExplainedEnd w.failure

also_called-Explained :
    (x : String × Surface) (o : Option ZenWalk) → ExplainedWalk o → ExplainedWalk (also_called x o)
unfolding ExplainedWalk
also_called-Explained x none h = tt
also_called-Explained x (some w) h = h

module _ (c : Calendar) (s : RetryConfig) (turns : ℕ → Turn) (posts : Bool) where
  walk_zen-Explained :
      (fuel left n : ℕ) (rot : Rotation) (z : Surfaces) (surface : Surface) (tr : Trace)
      (hint : Hint)
      → ExplainedWalk (walk_zen c s turns posts fuel left n rot z surface tr hint)
  unfolding ExplainedWalk ExplainedEnd
  walk_zen-Explained fuel zero n rot z surface tr hint =
      rw (walk_zen_zero c s turns posts fuel n rot z surface tr hint)
        (exhausted-Explained c rot hint (turns n).asked_at)
  walk_zen-Explained zero (suc left) n rot z surface tr hint =
      rw (walk_zen_out c s turns posts left n rot z surface tr hint) tt
  walk_zen-Explained (suc fuel) (suc left) n rot z surface tr hint =
      let asked = handed c s turns posts n rot in
      elim (Option-cases asked.1) [
        | inl e ↦
            rw (walk_zen-none c s turns posts fuel left n rot z surface tr hint e)
              (exhausted-Explained c asked.0 hint (turns n).asked_at)
        | inr ((i, k), e) ↦
            let r = called c s turns posts n rot tr i k in
            let why =
              settle_zen-Explained r.1.1
                (call-Explained s (zen_style posts) asked.0 tr i k (turns n)) in
            elim (ZenThen-cases (settle_zen r.1.1)) [
              | inl (o, t) ↦
                  rw (walk_zen_ends c s turns posts fuel left n rot z surface tr hint i k e o t)
                    (zen_end _ o t why)
              | inr (inl (h, t)) ↦
                  rw (walk_zen_goes c s turns posts fuel left n rot z surface tr hint i k e h t) (
                    also_called-Explained (k.hash, surface) _
                      (walk_zen-Explained fuel left (suc n) r.0 z surface r.1.0 h))
              | inr (inr (h, t)) ↦
                  rw (walk_zen_flips c s turns posts fuel left n rot z surface tr hint i k e h t) (
                    also_called-Explained (k.hash, surface) _
                      (walk_zen-Explained fuel (suc left) (suc n) (retry_same r.0 k.hash)
                        (learn_surface z rot.model (other surface)) (other surface) r.1.0 h))
            ]
      ]

  zen-Explained :
      (fuel : ℕ) (w : World) (z : Surfaces) (provider model : String) (tr : Trace) (now : ℕ)
      → ExplainedWalk (zen c s turns posts fuel w z provider model tr now)
  unfolding zen
  zen-Explained fuel w z provider model tr now =
      walk_zen-Explained fuel s.max_keys_per_request 0 (new_rotation w provider model now) z
        (surface_for z model) tr no_hint

-- A request whose loop has ended with the trace and the failure: one of the loops over one surface, or
-- one over zen's two.
pub data Fails (c : Calendar) (s : RetryConfig) (turns : ℕ → Turn) (w : World)
    (provider model : String) (tr : Trace) (now : ℕ) (last : Trace) (f : Failure) : Type 0 where
  on_one_surface :
      (style : Style)
      → (walk_pool c s turns style w provider model tr now).trace ≡ last
      → (walk_pool c s turns style w provider model tr now).failure ≡ some f
      → Fails c s turns w provider model tr now last f
  on_two_surfaces :
      (posts : Bool) (fuel : ℕ) (z : Surfaces) (walk : ZenWalk)
      → zen c s turns posts fuel w z provider model tr now ≡ some walk
      → walk.trace ≡ last
      → walk.failure ≡ some f
      → Fails c s turns w provider model tr now last f

module _ (c : Calendar) (s : RetryConfig) (turns : ℕ → Turn) (w : World) (provider model : String)
    (tr : Trace) (now : ℕ) where
  fails-Explained :
      (last : Trace) (f : Failure) → Fails c s turns w provider model tr now last f → Explained f
  unfolding ExplainedEnd ExplainedWalk
  fails-Explained last f (on_one_surface style t e) =
      rw e at (walk_pool-Explained c s turns style w provider model tr now)
  fails-Explained last f (on_two_surfaces posts fuel z walk q t e) =
      let x = rw q at (zen-Explained c s turns posts fuel w z provider model tr now) in rw e at x

  -- A request whose loop ends in a failure is answered with status 400, 429 or 503, never 502, whatever
  -- the upstream and the other requests do, and the answer carries a Retry-After header exactly if the
  -- status is 429: in every loop over one surface, and in the loops over zen's two.
  pub loop_response :
      (last : Trace) (f : Failure)
      → Fails c s turns w provider model tr now last f
      → Told (write_upstream_failure last f)
  loop_response last f h = Explained-Told last f (fails-Explained last f h)
