-- ===== src/Rotation/Scope.antt =====
-- What one refused answer closes, and what it leaves open.
use nano_llm_proxy.Prelude.{ℕ, ◌*◌, ◌≡◌, true, false, ◌||◌, none, arith, str_eq}
use nano_llm_proxy.Time.{Calendar, second}
use nano_llm_proxy.Pool.Keys.{KeyState}
use nano_llm_proxy.Breaker.{tripped, record_429}
use nano_llm_proxy.Breaker.Answers.{record_429-tripped}
use nano_llm_proxy.Classify.{RetryConfig, Answer, Verdict, classify}
use nano_llm_proxy.Rotation.{Rotation, next, rejected, apply_verdict, limit_model}

module _ (c : Calendar) (s : RetryConfig) (rot : Rotation) (i : ℕ) (k : KeyState) (a : Answer)
    (now : ℕ) where
  abbrev judgement : Verdict
  judgement = (classify s rot.world.pool i a now).1

  rejected_limit :
      judgement.rate_limited ≡ true
      → str_eq rot.model "" ≡ false
      → ((rejected s rot i k a now).0.world.breakers
          ≡ (record_429 rot.world.breakers rot.provider rot.model k.hash judgement.cooldown
              (s.cooldown_seconds * second)
              now).0)
        × ((rejected s rot i k a now).0.limited ≡ (
            rot.limited
            || (record_429 rot.world.breakers rot.provider rot.model k.hash judgement.cooldown
                (s.cooldown_seconds * second)
                now).1))
        × ((rejected s rot i k a now).0.model ≡ rot.model)
        × ((rejected s rot i k a now).0.provider ≡ rot.provider)
  unfolding rejected apply_verdict limit_model
  rejected_limit r n = (ground arith, ground arith, ground arith, ground arith)

  next_limited : (rot' : Rotation) (t : ℕ) → rot'.limited ≡ true → (next c rot' t).1 ≡ none
  unfolding next
  next_limited rot' t l = ground arith

  -- After a 429 that leaves the model in single-attempt mode the walk hands out no further key.
  pub rejected_stops :
      (t : ℕ)
      → judgement.rate_limited ≡ true
      → str_eq rot.model "" ≡ false
      → tripped (rejected s rot i k a now).0.world.breakers rot.provider rot.model now ≡ true
      → (next c (rejected s rot i k a now).0 t).1 ≡ none
  rejected_stops t r n open_now =
      let (b, l, _, _) = rejected_limit r n in
      let e =
        record_429-tripped rot.world.breakers rot.provider rot.model k.hash judgement.cooldown
          (s.cooldown_seconds * second) now in
      next_limited _ t (ground (arith, l, e, rw b at open_now))
