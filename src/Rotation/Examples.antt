-- ===== src/Rotation/Examples.antt =====
-- Requests over a pool of two keys: runs of the loops, and their theorems at concrete inputs.
use nano_llm_proxy.Prelude.{
  ℕ, zero, suc, ◌+◌, ◌*◌, ◌≤◌, ◌≡◌, ◌≢◌, ◌↔◌, ◌⊎◌, refl, true, false, none, some, [], ◌∷◌, arith,
  String, length, contains, lookup, insert, retain,
}
use nano_llm_proxy.Time.{second, utc}
use nano_llm_proxy.Pool.Keys.{KeyState, new_key, blocked}
use nano_llm_proxy.Pool.Choice.{priority, walk as walk_positions}
use nano_llm_proxy.Pool.{pick_at, rate_limited_for, cooldown_model, record_rate_limit}
use nano_llm_proxy.Breaker.{tripped, record_429, breaker_key, stays, hit, current, prune}
use nano_llm_proxy.Classify.{RetryConfig, Answer, no_hint, rate_limit_hint, classify}
use nano_llm_proxy.Rotation.{World, Rotation, new_rotation, next, rejected, exhausted}
use nano_llm_proxy.Rotation.Failures.{Failure, Trace, write_upstream_failure, rate_limit_failure}
use nano_llm_proxy.Rotation.Loops.{call, Turn, Style, says_unavailable, answered, Walk, walk_pool}
use nano_llm_proxy.Rotation.Zen.{Surfaces, ZenWalk, zen}
use nano_llm_proxy.Rotation.Walks.{AllDistinct, walk_pool-AllDistinct}
use nano_llm_proxy.Rotation.Retries.{exhausted_honest}
use nano_llm_proxy.Rotation.Ends.{on_one_surface, loop_response}
use nano_llm_proxy.Rotation.Flips.{zen_returns, quiet}
use nano_llm_proxy.Rotation.Endless.{zen_endless, Refuses}

abbrev start : ℕ
start = 8640000 * second

abbrev retry : RetryConfig
retry = record { max_keys_per_request = 3; cooldown_seconds = 30; respect_retry_after = true }

work : KeyState
unfolding new_key
work = new_key "work" "sk-1" "aaaa"

abbrev world : World
world = record {
  pool = record {
    name = "kilo";
    mode = priority;
    daily_cap = 0;
    keys = new_key "work" "sk-1" "aaaa" ∷ new_key "home" "sk-2" "bbbb" ∷ [];
  };
  breakers = [];
}

abbrev answer : ℕ → String → Answer
answer status body = record {
  status = status;
  retry_after = none;
  body = body;
  error = none;
  stated_reset = none;
}

-- The upstream gives one answer to every call, one second after it.
abbrev always : Answer → ℕ → Turn
always a n = record {
  asked_at = start + n * second;
  during = λ w. w;
  outcome = answered a true;
  answered_at = start + n * second + second;
  afterwards = λ w. w;
}

abbrev trace : Trace
trace = record { attempts = 0; upstream_status = 0; upstream_key = "" }

abbrev plain : Style
plain = record { on_flip = says_unavailable; reads_json = false; posts = false }

limited : Walk
limited = walk_pool utc retry (always (answer 429 "")) plain world "kilo" "m" trace start

tries_both : limited.tried ≡ "aaaa" ∷ "bbbb" ∷ []
unfolding limited new_key record_rate_limit breaker_key stays hit current prune walk_pool
    new_rotation tripped lookup next pick_at walk_positions blocked call rejected classify contains
    record_429 retain insert cooldown_model
tries_both = refl

-- The 429 that the client gets, with the 29 seconds until the first key is free.
abbrev told : Failure
told = record { hint = rate_limit_hint 29; status = 429; retry_after = 29 * second }

limited_failure : limited.failure ≡ some told
unfolding limited new_key record_rate_limit breaker_key stays hit current prune rate_limited_for
    rate_limit_failure exhausted walk_pool new_rotation tripped lookup next pick_at walk_positions
    blocked call rejected classify contains record_429 retain insert cooldown_model
limited_failure = refl

walk_pool-AllDistinct_example : (length limited.tried ≤ 3) × AllDistinct limited.tried
unfolding limited
walk_pool-AllDistinct_example =
    walk_pool-AllDistinct utc retry (always (answer 429 "")) plain world "kilo" "m" trace start

abbrev tripped_world : World
tripped_world = record {
  pool = world.pool;
  breakers =
      (
        "kilo\0m",
        record {
          hits = [];
          max_cool = 0;
          is_tripped = true;
          open_until = start + 20 * second;
          backoff = 20 * second;
          grown_at = start;
          touched = start;
        },
      )
      ∷ [];
}

in_mode : tripped tripped_world.breakers "kilo" "m" start ≡ true
unfolding tripped lookup breaker_key
in_mode = refl

loop_response_example :
    (((write_upstream_failure limited.trace told).status ≡ 400)
      ⊎ (((write_upstream_failure limited.trace told).status ≡ 429)
          ⊎ ((write_upstream_failure limited.trace told).status ≡ 503)))
    × (((write_upstream_failure limited.trace told).status ≡ 429)
        ↔ ((write_upstream_failure limited.trace told).retry_after ≢ none))
unfolding limited
loop_response_example =
    loop_response utc retry (always (answer 429 "")) world "kilo" "m" trace start limited.trace told
      (on_one_surface plain refl limited_failure)

-- Both keys are cooling for the model, for half a minute at least.
abbrev waiting : Rotation
waiting = record {
  world = record {
    pool = record world.pool {
      keys =
          record (new_key "work" "sk-1" "aaaa") { model_cooldown = ("m", start + 30 * second) ∷ [] }
          ∷ record (new_key "home" "sk-2" "bbbb") {
            model_cooldown = ("m", start + 40 * second) ∷ [];
          }
          ∷ [];
    };
    breakers = [];
  };
  provider = "kilo";
  model = "m";
  exclude = [];
  single = false;
  picked = 0;
  key_lost = false;
  limited = false;
}

waiting_status : (exhausted utc waiting no_hint start).status ≡ 429
unfolding new_key rate_limited_for rate_limit_failure exhausted lookup
waiting_status = refl

waiting_wait : (exhausted utc waiting no_hint start).retry_after ≡ 30 * second
unfolding new_key rate_limited_for rate_limit_failure exhausted lookup
waiting_wait = refl

exhausted_honest_example : (pick_at utc waiting.world.pool [] "m" (start + 28 * second)).1 ≡ none
exhausted_honest_example =
    exhausted_honest utc waiting no_hint start (start + 28 * second) [] waiting_status (omega arith)
      (omega (arith, waiting_wait))

rejected_in_mode :
    tripped
      (rejected retry
        (new_rotation tripped_world "kilo" "m" start)
        0
        work
        (answer 429 "")
        start).0.world.breakers
      "kilo"
      "m"
      start
    ≡ true
unfolding breaker_key stays hit current prune new_rotation tripped lookup rejected classify contains
    record_429 retain insert
rejected_in_mode = refl

rejected_limited :
    (classify retry
      (new_rotation tripped_world "kilo" "m" start).world.pool
      0
      (answer 429 "")
      start).1.rate_limited
    ≡ true
unfolding classify contains
rejected_limited = refl

abbrev surfaces : Surfaces
surfaces = record { surface_over = []; responses_api = [] }

-- The first call is refused on the chat surface, the others are answered 500.
abbrev once_moved : ℕ → Turn
once_moved zero = always (answer 503 "Endpoint is unavailable") 0
once_moved (suc n) = always (answer 500 "") (suc n)

quiet_later : (m : ℕ) → 1 ≤ m → quiet (once_moved m).outcome ≡ true
unfolding contains
quiet_later zero h = absurd (omega arith)
quiet_later (suc m) h = refl

zen_returns_example :
    (end : ZenWalk) × (zen utc retry once_moved false (3 + 1) world surfaces "zen" "m" trace start
      ≡ some end)
    × (length end.calls ≤ 3 + 1)
zen_returns_example =
    zen_returns utc retry once_moved false 1 quiet_later world surfaces "zen" "m" trace start

refused_both : (n : ℕ) → Refuses (always (answer 503 "Endpoint is unavailable") n)
unfolding contains
refused_both n = record {
  alone_during = λ w. refl;
  alone_afterwards = λ w. refl;
  answer = answer 503 "Endpoint is unavailable";
  readable = true;
  outcome = refl;
  status = refl;
  body = refl;
}

zen_endless_example :
    zen utc retry
      (always (answer 503 "Endpoint is unavailable"))
      false
      1000
      world
      surfaces
      "zen"
      "m"
      trace
      start
    ≡ none
unfolding new_key
zen_endless_example =
    zen_endless utc retry (always (answer 503 "Endpoint is unavailable")) false refused_both 1000
      world surfaces "zen" "m" trace start 0 (new_key "work" "sk-1" "aaaa") (omega arith) refl refl
      refl refl refl
