-- ===== src/Breaker/Examples.antt =====
-- A model that several keys are limited on: runs of the breakers, and their theorems at concrete inputs.
use nano_llm_proxy.Prelude.{
  ℕ, ◌+◌, ◌*◌, ◌≡◌, ◌≢◌, refl, true, false, inr, List, [], ◌∷◌, arith, lookup, insert, delete,
  retain, ne_of_str_eq,
}
use nano_llm_proxy.Time.{second}
use nano_llm_proxy.Breaker.{
  ModelBreaker, Breakers, breaker_key, record_429, tripped, current, hit, stays, prune,
}
use nano_llm_proxy.Breaker.Calls.{Call, limited, succeeded, run}
use nano_llm_proxy.Breaker.Entry.{hit_burst}
use nano_llm_proxy.Breaker.Runs.{breaker_reopens}
use nano_llm_proxy.Breaker.Keys.{one_key_never_trips}

abbrev start : ℕ
start = 1000 * second

-- One 429 of the key "aaaa".
once : Breakers
once = (record_429 [] "zen" "m" "aaaa" second 0 start).0

-- A second one, of the key "bbbb", within the window.
twice : Breakers
unfolding once
twice = (record_429 once "zen" "m" "bbbb" second 0 (start + 15 * second)).0

second_trips : tripped twice "zen" "m" (start + 15 * second) ≡ true
unfolding twice record_429 prune current hit lookup insert delete retain breaker_key tripped stays
second_trips = refl

trip_ends : tripped twice "zen" "m" (start + 20 * second) ≡ false
unfolding twice record_429 prune current hit lookup insert delete retain breaker_key tripped stays
trip_ends = refl

abbrev one_key : List (ℕ × Call)
one_key =
    (start, limited "zen" "m" "aaaa" second 0)
    ∷ (start + second, limited "zen" "m" "aaaa" second 0)
    ∷ (start + 2 * second, succeeded "zen" "n")
    ∷ []

one_key_never_trips_example : tripped (run [] one_key) "zen" "m" (start + 3 * second) ≡ false
one_key_never_trips_example =
    one_key_never_trips "aaaa" "zen" "m" one_key (start + 3 * second)
      (inr refl, (inr refl, (tt, tt)))

breaker_reopens_example : tripped (run [] one_key) "zen" "m" (start + 302 * second) ≡ false
breaker_reopens_example =
    breaker_reopens one_key "zen" "m" (start + 302 * second)
      (omega arith, (omega arith, (omega arith, tt))) (omega arith)

keys_differ : breaker_key "zen" "n" ≢ breaker_key "zen" "m"
unfolding breaker_key
keys_differ = ne_of_str_eq (breaker_key "zen" "n") (breaker_key "zen" "m") refl

abbrev open_entry : ModelBreaker
open_entry = record {
  hits = [];
  max_cool = 0;
  is_tripped = true;
  open_until = start + 20 * second;
  backoff = 5 * second;
  grown_at = start;
  touched = start;
}

hit_burst_example : (hit "bbbb" second 0 (start + 14 * second) open_entry).0.backoff ≡ 5 * second
hit_burst_example =
    hit_burst "bbbb" second 0 (start + 14 * second) open_entry refl (omega arith) (omega arith)
