-- ===== src/Rotation/Failures.antt =====
-- internal/gateway/ratelimit.go, gateway.go and trace.go: why a request could not be served upstream,
-- and the response that the client gets for it.
use nano_llm_proxy.Prelude.{
  ℕ, ◌+◌, ◌-◌, ◌*◌, ◌/◌, max, ◌&&◌, not, Option, none, some, ltb, leb, ◌==◌, if◌then◌else◌, String,
}
use nano_llm_proxy.Time.{second}
use nano_llm_proxy.Classify.{Hint, rate_limit_hint}

-- upstreamFailure; status 0 and a wait of 0 are unset
pub record Failure : Type 0 where
  pub hint : Hint
  pub status : ℕ
  pub retry_after : ℕ

unfoldable pub fail_hint : Hint → Failure
fail_hint hint = record { hint = hint; status = 0; retry_after = 0 }

-- retryAfterSeconds: math.Ceil of the seconds as a float, which is exact for a wait of less than
-- ninety days
unfoldable pub retry_after_seconds : ℕ → ℕ
retry_after_seconds d = max 1 ((d + (second - 1)) / second)

unfoldable pub rate_limit_failure : ℕ → Failure
unfolding retry_after_seconds
rate_limit_failure wait = record {
  hint = rate_limit_hint (retry_after_seconds wait);
  status = 429;
  retry_after = retry_after_seconds wait * second;
}

-- reqTrace: the fields that the walks write and read
pub record Trace : Type 0 where
  pub attempts : ℕ
  pub upstream_status : ℕ
  -- label of the last upstream key tried
  pub upstream_key : String

unfoldable pub attempt : Trace → String → Trace
attempt tr label = record { attempts = tr.attempts + 1; upstream_status = 0; upstream_key = label }

unfoldable pub upstream : Trace → ℕ → Trace
upstream tr status = record tr { upstream_status = status }

unfoldable pub upstream_failure_status : Trace → ℕ
upstream_failure_status tr =
    if leb 400 tr.upstream_status
      && (ltb tr.upstream_status 500
          && (not (tr.upstream_status == 401)
              && (not (tr.upstream_status == 403)
                  && (not (tr.upstream_status == 408)
                      && (not (tr.upstream_status == 426) && not (tr.upstream_status == 429))))))
    then 400
    else 503

-- what the client receives: the status, the Retry-After header in seconds, and the message
pub record Response : Type 0 where
  pub status : ℕ
  pub retry_after : Option ℕ
  pub hint : Hint

-- writeUpstreamFailure
unfoldable pub write_upstream_failure : Trace → Failure → Response
unfolding upstream_failure_status retry_after_seconds
write_upstream_failure tr f = record {
  status = if f.status == 0 then upstream_failure_status tr else f.status;
  retry_after = if ltb 0 f.retry_after then some (retry_after_seconds f.retry_after) else none;
  hint = f.hint;
}
