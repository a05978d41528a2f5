-- ===== src/Breaker.antt =====
-- internal/gateway/ratelimit.go: the rate-limit breaker of every (provider, model).
--
-- Each method holds the mutex for its whole body, so it is one step on the map. Go's nil map reads as
-- an empty one. The log lines are not modelled.
pub mod Calls
pub mod Answers
pub mod Runs
pub mod Keys
pub mod Trips
mod Examples
pub mod Entry
use Prim.Native.String.{◌++◌}
use nano_llm_proxy.Prelude.{
  ℕ, ◌+◌, ◌-◌, ◌*◌, ◌≤◌, ◌<◌, min, max, Bool, true, false, not, ◌&&◌, ◌||◌, Option, none, some,
  List, [], ◌∷◌, ltb, leb, String, if◌then◌else◌, Map, lookup, insert, delete, retain, length,
}
use nano_llm_proxy.Time.{second}

abbrev pub breaker_window : ℕ
breaker_window = 15 * second

abbrev pub breaker_distinct_keys : ℕ
breaker_distinct_keys = 2

abbrev pub breaker_min_backoff : ℕ
breaker_min_backoff = 5 * second

abbrev pub breaker_max_backoff : ℕ
breaker_max_backoff = 5 * 60 * second

abbrev pub breaker_idle : ℕ
breaker_idle = 10 * 60 * second

pub record ModelBreaker : Type 0 where
  -- key hash -> last 429 inside the window
  pub hits : Map ℕ
  pub max_cool : ℕ
  pub is_tripped : Bool
  pub open_until : ℕ
  pub backoff : ℕ
  pub grown_at : ℕ
  pub touched : ℕ

abbrev pub Breakers : Type 0
Breakers = Map ModelBreaker

unfoldable pub breaker_key : String → String → String
breaker_key provider model = provider ++ "\0" ++ model

-- single-attempt mode, for one entry
abbrev pub is_open : ℕ → Option ModelBreaker → Bool
is_open now none = false
is_open now (some e) = e.is_tripped && ltb now e.open_until

-- rateBreaker.tripped
unfoldable pub tripped : Breakers → String → String → ℕ → Bool
tripped b provider model now = is_open now (lookup (breaker_key provider model) b)

-- prune's test on an entry that stays
unfoldable pub stays : ℕ → ModelBreaker → Bool
stays now e =
    not (ltb breaker_idle (now - e.touched) && (not e.is_tripped || not (ltb now e.open_until)))

unfoldable pub prune : Breakers → ℕ → Breakers
prune b now = retain (stays now) b

unfoldable pub new_breaker : ModelBreaker
new_breaker = record {
  hits = [];
  max_cool = 0;
  is_tripped = false;
  open_until = 0;
  backoff = 0;
  grown_at = 0;
  touched = 0;
}

-- the entry that record429 goes on with: the old one, or a new one for a missing entry and for a
-- trip whose backoff ran out
unfoldable pub current : ℕ → Option ModelBreaker → ModelBreaker
unfolding new_breaker
current now none = new_breaker
current now (some e) = if e.is_tripped && not (ltb now e.open_until) then new_breaker else e

-- the branch of record429 for a tripped entry
unfoldable pub back_off_longer : ℕ → ℕ → ModelBreaker → ModelBreaker
back_off_longer cool now e = record e {
  backoff = backoff;
  grown_at = if grows then now else e.grown_at;
  open_until = if ltb e.open_until (now + backoff) then now + backoff else e.open_until;
}
  where
    grows : Bool
    grows = leb breaker_window (now - e.grown_at)

    backoff : ℕ
    backoff = if grows then min (max (2 * e.backoff) cool) breaker_max_backoff else e.backoff

-- the hits inside the window, and the longest cooldown among them
unfoldable pub within_window : ℕ → ModelBreaker → ModelBreaker
within_window now e = record e { hits = hits; max_cool = elim hits [ [] ↦ 0 | _ ↦ e.max_cool ] }
  where
    hits : Map ℕ
    hits = retain (λ at. not (ltb breaker_window (now - at))) e.hits

-- file the hit; `breaker_distinct_keys` of them trip the breaker
unfoldable pub count_hit : String → ℕ → ℕ → ℕ → ModelBreaker → ModelBreaker × Bool
count_hit key_hash cool floor now e =
    if ltb (length hits) breaker_distinct_keys
    then (record e { hits = hits; max_cool = max_cool }, false)
    else (
      record e {
        is_tripped = true;
        backoff = backoff;
        open_until = now + backoff;
        grown_at = now;
        hits = [];
        max_cool = 0;
      },
      true,
    )
  where
    hits : Map ℕ
    hits = insert key_hash now e.hits

    max_cool : ℕ
    max_cool = max e.max_cool cool

    backoff : ℕ
    backoff = min (max (max max_cool floor) breaker_min_backoff) breaker_max_backoff

-- what record429 makes of the entry, and its answer
unfoldable pub hit : String → ℕ → ℕ → ℕ → ModelBreaker → ModelBreaker × Bool
unfolding back_off_longer within_window count_hit
hit key_hash cool floor now e =
    if e.is_tripped
    then (back_off_longer cool now e, true)
    else count_hit key_hash cool floor now (within_window now e)

-- rateBreaker.record429
unfoldable pub record_429 : Breakers → String → String → String → ℕ → ℕ → ℕ → Breakers × Bool
record_429 b provider model key_hash cool floor now =
    let pruned = prune b now in
    let key = breaker_key provider model in
    let e = current now (lookup key pruned) in
    let (e', now_open) = hit key_hash cool floor now (record e { touched = now }) in
    (insert key e' pruned, now_open)

-- rateBreaker.success
unfoldable pub success : Breakers → String → String → Breakers
success b provider model = delete (breaker_key provider model) b
