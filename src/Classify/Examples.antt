-- ===== src/Classify/Examples.antt =====
-- Answers of an upstream, and the theorems on `classify` at them.
use nano_llm_proxy.Prelude.{
  ℕ, ◌*◌, ◌≤◌, ◌≡◌, ◌↔◌, refl, true, false, none, some, [], ◌∷◌, arith, String, get_elem?, contains,
  lower_contains,
}
use nano_llm_proxy.Time.{second}
use nano_llm_proxy.Pool.Keys.{KeyState, new_key}
use nano_llm_proxy.Pool.Choice.{priority}
use nano_llm_proxy.Pool.{Pool}
use nano_llm_proxy.Classify.{RetryConfig, Answer, classify}
use nano_llm_proxy.Classify.Blame.{BlamesKey}
use nano_llm_proxy.Classify.Verdicts.{classify-BlamesKey, classify_cooldown}

abbrev retry : RetryConfig
retry = record { max_keys_per_request = 3; cooldown_seconds = 30; respect_retry_after = true }

key : KeyState
unfolding new_key
key = new_key "work" "sk-1" "aaaa"

pool : Pool
unfolding key
pool = record {
  name = "kilo";
  mode = priority;
  daily_cap = 0;
  keys = key ∷ new_key "home" "sk-2" "bbbb" ∷ [];
}

abbrev answer : ℕ → String → Answer
answer status body = record {
  status = status;
  retry_after = some 90;
  body = body;
  error = none;
  stated_reset = none;
}

invalid_token :
    (classify retry pool 0 (answer 401 "INVALID_TOKEN: bad") (100 * second)).1.key_disabled ≡ true
unfolding classify lower_contains contains
invalid_token = refl

flake : (classify retry pool 0 (answer 401 "server_error") (100 * second)).1.key_disabled ≡ false
unfolding classify lower_contains contains
flake = refl

waits_as_told : (classify retry pool 0 (answer 429 "") (100 * second)).1.cooldown ≡ 90 * second
unfolding classify lower_contains contains
waits_as_told = refl

classify-BlamesKey_example :
    (k' : KeyState) × (get_elem?
        (classify retry pool 0 (answer 403 "AuthError") (100 * second)).0.keys
        0
      ≡ some k')
    × ((k'.disabled ≡ true) ↔ BlamesKey (answer 403 "AuthError"))
    × (get_elem? (classify retry pool 0 (answer 403 "AuthError") (100 * second)).0.keys 1
        ≡ get_elem? pool.keys 1)
unfolding pool
classify-BlamesKey_example =
    classify-BlamesKey retry pool 0 (answer 403 "AuthError") (100 * second) key 1 refl refl
      (λ e. cc)

classify_cooldown_example :
    (classify retry pool 0 (answer 429 "") (100 * second)).1.cooldown ≤ 86400 * second
classify_cooldown_example =
    classify_cooldown retry pool 0 (answer 429 "") (100 * second) (omega arith)
