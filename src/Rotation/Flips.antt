-- ===== src/Rotation/Flips.antt =====
-- When the loop over zen's two surfaces ends.
use nano_llm_proxy.Prelude.{
  ℕ, zero, suc, ◌+◌, ◌-◌, ◌≤◌, ◌<◌, ◌≡◌, ◌≢◌, refl, sym, ap, ◌∙◌, ◌⊎◌, inl, inr, Bool, true, ◌||◌,
  not, Option, none, some, [], ◌∷◌, arith, String, length, Option-cases, Bool-cases, contains, ◌==◌,
}
use nano_llm_proxy.Time.{Calendar}
use nano_llm_proxy.Pool.Keys.{KeyState}
use nano_llm_proxy.Classify.{
  RetryConfig, Hint, no_hint, Answer, Verdict, Action, flip_surface, fail_fast, next_key, classify,
}
use nano_llm_proxy.Classify.Verdicts.{classify_flips}
use nano_llm_proxy.Rotation.{World, Rotation, new_rotation, next, retry_same, rejected}
use nano_llm_proxy.Rotation.Failures.{Failure, Trace, attempt}
use nano_llm_proxy.Rotation.Loops.{
  Turn, Style, Reply, Outcome, no_request, no_answer, answered, judged, call, reply, lose_call,
}
use nano_llm_proxy.Rotation.Zen.{
  Surface, Surfaces, surface_for, learn_surface, other, ZenThen, zen_ends, zen_goes_on, zen_flips,
  settle_zen, ZenWalk, also_called, zen_style, walk_zen, zen, zen_gives_up,
}

-- The answer does not have one of the texts that ask for the other surface.
abbrev pub quiet : Outcome → Bool
quiet no_request = true
quiet no_answer = true
quiet (answered a readable) =
    not (contains a.body "Endpoint is unavailable" || contains a.body "ModelProtocolUnsupported")

pub ZenThen-cases :
    (t : ZenThen)
    → ((o : Option Failure) × (t ≡ zen_ends o))
      ⊎ (((h : Hint) × (t ≡ zen_goes_on h)) ⊎ ((h : Hint) × (t ≡ zen_flips h)))
ZenThen-cases (zen_ends o) = inl (o, refl)
ZenThen-cases (zen_goes_on h) = inr (inl (h, refl))
ZenThen-cases (zen_flips h) = inr (inr (h, refl))

judged_flips :
    (v : Verdict) (a : Action) (h : Hint)
    → v.action ≡ a
    → settle_zen (judged v) ≡ zen_flips h
    → a ≡ flip_surface
unfolding settle_zen
judged_flips v fail_fast h e t = ground arith
judged_flips v next_key h e t = ground arith
judged_flips v flip_surface h e t = refl

module _ (s : RetryConfig) where
  rejected-verdict :
      (rot : Rotation) (i : ℕ) (k : KeyState) (a : Answer) (now : ℕ)
      → (rejected s rot i k a now).1 ≡ (classify s rot.world.pool i a now).1
  unfolding rejected
  rejected-verdict rot i k a now = refl

  reply-quiet :
      (style : Style) (rot : Rotation) (tr : Trace) (i : ℕ) (k : KeyState) (now : ℕ) (o : Outcome)
      (h : Hint)
      → quiet o ≡ true
      → settle_zen (reply s style rot tr i k now o).1.1 ≢ zen_flips h
  unfolding reply lose_call settle_zen
  reply-quiet style rot tr i k now no_request h q t = ground arith
  reply-quiet style rot tr i k now no_answer h q t = ground arith
  reply-quiet style rot tr i k now (answered a readable) h q t =
      elim (Bool-cases (a.status == 200)) [
        | inl e ↦ ground arith
        | inr e ↦
            let v = rejected-verdict rot i k a now in
            let t' : settle_zen (judged (rejected s rot i k a now).1) ≡ zen_flips h = rw e at t in
            classify_flips s rot.world.pool i a now (ground arith) (ground arith) (
              ap (λ (w : Verdict). w.action) (sym v)
              ∙ judged_flips (rejected s rot i k a now).1 _ h refl t')
      ]

  call-quiet :
      (style : Style) (rot : Rotation) (tr : Trace) (i : ℕ) (k : KeyState) (turn : Turn) (h : Hint)
      → quiet turn.outcome ≡ true
      → settle_zen (call s style rot tr i k turn).1.1 ≢ zen_flips h
  unfolding call
  call-quiet style rot tr i k turn h q =
      reply-quiet style (record rot { world = turn.during rot.world }) (attempt tr k.label) i k
        turn.answered_at turn.outcome h q

lt_or_le : (a b : ℕ) → (a < b) ⊎ (b ≤ a)
lt_or_le a b = omega arith

module _ (c : Calendar) (s : RetryConfig) (turns : ℕ → Turn) (posts : Bool) where
  abbrev pub handed : ℕ → Rotation → Rotation × Option (ℕ × KeyState)
  handed n rot = next c rot (turns n).asked_at

  abbrev pub called : ℕ → Rotation → Trace → ℕ → KeyState → Rotation × (Trace × Reply)
  called n rot tr i k = call s (zen_style posts) (handed n rot).0 tr i k (turns n)

  -- The loop has ended, after no more than `most` calls.
  Returns : ℕ → Option ZenWalk → Type 0
  Returns most o = (w : ZenWalk) × (o ≡ some w) × (length w.calls ≤ most)

  also_called-Returns :
      (most : ℕ) (x : String × Surface) (o : Option ZenWalk)
      → Returns most o
      → Returns (suc most) (also_called x o)
  unfolding Returns
  also_called-Returns most x o (w, e, le) =
      (record w { calls = x ∷ w.calls }, rw e refl, omega (arith, le))

  pub walk_zen_zero :
      (fuel n : ℕ) (rot : Rotation) (z : Surfaces) (surface : Surface) (tr : Trace) (hint : Hint)
      → walk_zen c s turns posts fuel 0 n rot z surface tr hint
        ≡ some (zen_gives_up c rot z tr hint (turns n).asked_at)
  unfolding walk_zen
  walk_zen_zero zero n rot z surface tr hint = refl
  walk_zen_zero (suc fuel) n rot z surface tr hint = refl

  pub walk_zen_out :
      (left n : ℕ) (rot : Rotation) (z : Surfaces) (surface : Surface) (tr : Trace) (hint : Hint)
      → walk_zen c s turns posts 0 (suc left) n rot z surface tr hint ≡ none
  unfolding walk_zen
  walk_zen_out left n rot z surface tr hint = refl

  module _ (fuel left n : ℕ) (rot : Rotation) (z : Surfaces) (surface : Surface) (tr : Trace)
      (hint : Hint) where
    pub walk_zen-none :
        (handed n rot).1 ≡ none
        → walk_zen c s turns posts (suc fuel) (suc left) n rot z surface tr hint
          ≡ some (zen_gives_up c (handed n rot).0 z tr hint (turns n).asked_at)
    unfolding walk_zen
    walk_zen-none e = cc

    module _ (i : ℕ) (k : KeyState) (e : (handed n rot).1 ≡ some (i, k)) where
      pub walk_zen_ends :
          (o : Option Failure)
          → settle_zen (called n rot tr i k).1.1 ≡ zen_ends o
          → walk_zen c s turns posts (suc fuel) (suc left) n rot z surface tr hint
            ≡ some (record {
              calls = (k.hash, surface) ∷ [];
              rotation = (called n rot tr i k).0;
              surfaces = z;
              trace = (called n rot tr i k).1.0;
              failure = o;
            })
      unfolding walk_zen
      walk_zen_ends o t = cc

      pub walk_zen_goes :
          (h : Hint)
          → settle_zen (called n rot tr i k).1.1 ≡ zen_goes_on h
          → walk_zen c s turns posts (suc fuel) (suc left) n rot z surface tr hint
            ≡ also_called
                (k.hash, surface)
                (walk_zen c s turns posts fuel left
                  (suc n)
                  (called n rot tr i k).0
                  z
                  surface
                  (called n rot tr i k).1.0
                  h)
      unfolding walk_zen
      walk_zen_goes h t = cc

      pub walk_zen_flips :
          (h : Hint)
          → settle_zen (called n rot tr i k).1.1 ≡ zen_flips h
          → walk_zen c s turns posts (suc fuel) (suc left) n rot z surface tr hint
            ≡ also_called
                (k.hash, surface)
                (walk_zen c s turns posts fuel
                  (suc left)
                  (suc n)
                  (retry_same (called n rot tr i k).0 k.hash)
                  (learn_surface z rot.model (other surface))
                  (other surface)
                  (called n rot tr i k).1.0
                  h)
      unfolding walk_zen
      walk_zen_flips h t = cc

  some-Returns : (most : ℕ) (w : ZenWalk) → length w.calls ≤ most → Returns most (some w)
  unfolding Returns
  some-Returns most w le = (w, refl, le)

  Returns-le : (a b : ℕ) (o : Option ZenWalk) → a ≤ b → Returns a o → Returns b o
  unfolding Returns
  Returns-le a b o le (w, e, l) = (w, e, omega (arith, l))

  module _ (last : ℕ) (q : (m : ℕ) → last ≤ m → quiet (turns m).outcome ≡ true) where
    -- A call after which the loop goes to the other surface is before `last`.
    flips_early :
        (n i : ℕ) (rot : Rotation) (tr : Trace) (k : KeyState) (h : Hint)
        → settle_zen (called n rot tr i k).1.1 ≡ zen_flips h
        → n < last
    flips_early n i rot tr k h t = elim (lt_or_le n last) [
      | inl l ↦ l
      | inr le ↦
          absurd (call-quiet s (zen_style posts) (handed n rot).0 tr i k (turns n) h (q n le) t)
    ]

    walk_zen-Returns :
        (fuel left n : ℕ) (rot : Rotation) (z : Surfaces) (surface : Surface) (tr : Trace)
        (hint : Hint)
        → left + (last - n) ≤ fuel
        → Returns (left + (last - n)) (walk_zen c s turns posts fuel left n rot z surface tr hint)
    walk_zen-Returns fuel zero n rot z surface tr hint le =
        rw (walk_zen_zero fuel n rot z surface tr hint) (some-Returns _ _ (omega arith))
    walk_zen-Returns zero (suc left) n rot z surface tr hint le = absurd (omega arith)
    walk_zen-Returns (suc fuel) (suc left) n rot z surface tr hint le =
        elim (Option-cases (handed n rot).1) [
          | inl e ↦
              rw (walk_zen-none fuel left n rot z surface tr hint e)
                (some-Returns _ _ (omega arith))
          | inr ((i, k), e) ↦
              let r = called n rot tr i k in
              elim (ZenThen-cases (settle_zen r.1.1)) [
                | inl (o, t) ↦
                    rw (walk_zen_ends fuel left n rot z surface tr hint i k e o t)
                      (some-Returns _ _ (omega arith))
                | inr (inl (h, t)) ↦
                    rw (walk_zen_goes fuel left n rot z surface tr hint i k e h t) (
                      Returns-le _ _ _ (omega arith) (
                        also_called-Returns _ (k.hash, surface) _
                          (walk_zen-Returns fuel left (suc n) r.0 z surface r.1.0 h (omega arith))))
                | inr (inr (h, t)) ↦
                    let early = flips_early n i rot tr k h t in
                    rw (walk_zen_flips fuel left n rot z surface tr hint i k e h t) (
                      Returns-le _ _ _ (omega (arith, early)) (
                        also_called-Returns _ (k.hash, surface) _
                          (walk_zen-Returns fuel (suc left) (suc n) (retry_same r.0 k.hash)
                            (learn_surface z rot.model (other surface)) (other surface) r.1.0 h
                            (omega (arith, early)))))
              ]
        ]

    -- If from the call `last` on no answer asks for the other surface, the loop ends, after at most
    -- `maxKeysPerRequest` calls more than that, and this much fuel is enough.
    pub zen_returns :
        (w : World) (z : Surfaces) (provider model : String) (tr : Trace) (now : ℕ)
        → (end : ZenWalk) × (zen c s turns posts
              (s.max_keys_per_request + last)
              w
              z
              provider
              model
              tr
              now
            ≡ some end)
          × (length end.calls ≤ s.max_keys_per_request + last)
    unfolding zen Returns
    zen_returns w z provider model tr now = Returns-le _ _ _ (omega arith) (
        walk_zen-Returns (s.max_keys_per_request + last) s.max_keys_per_request 0
          (new_rotation w provider model now) z (surface_for z model) tr no_hint (omega arith))
