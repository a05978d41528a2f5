-- ===== src/Catalog/Examples.antt =====
-- The model list from an upstream that limits the first key.
use nano_llm_proxy.Prelude.{ℕ, zero, suc, ◌≡◌, refl, true, none, [], ◌∷◌, lookup, insert}
use nano_llm_proxy.Time.{utc}
use nano_llm_proxy.Pool.Keys.{new_key, blocked}
use nano_llm_proxy.Pool.Choice.{priority, walk}
use nano_llm_proxy.Pool.{Pool, pick_at}
use nano_llm_proxy.Classify.{RetryConfig, Answer}
use nano_llm_proxy.Catalog.{Round, found, answered, catalog_get}
use nano_llm_proxy.Catalog.Fetches.{Quiet}

abbrev retry : RetryConfig
retry = record { max_keys_per_request = 3; cooldown_seconds = 30; respect_retry_after = true }

abbrev pool : Pool
pool = record {
  name = "kilo";
  mode = priority;
  daily_cap = 0;
  keys = new_key "work" "sk-1" "aaaa" ∷ new_key "home" "sk-2" "bbbb" ∷ [];
}

abbrev answer : ℕ → Answer
answer status = record {
  status = status;
  retry_after = none;
  body = "";
  error = none;
  stated_reset = none;
}

abbrev rounds : ℕ → Round
rounds zero = record {
  picked_at = 5;
  get = answered (answer 429);
  answered_at = 6;
  afterwards = λ p. p;
}
rounds (suc n) = record {
  picked_at = 7;
  get = answered (answer 200);
  answered_at = 8;
  afterwards = λ p. p;
}

rounds-Quiet : Quiet rounds
unfolding Quiet
rounds-Quiet zero p = record { cools = refl; cap = refl }
rounds-Quiet (suc n) p = record { cools = refl; cap = refl }

second_key_answers : (catalog_get utc retry rounds pool).fetched ≡ found (answer 200)
unfolding catalog_get pick_at walk blocked new_key lookup insert
second_key_answers = refl
