-- ===== src/Pool/Examples.antt =====
-- A pool of two keys: runs of its operations, and its theorems at concrete inputs.
use nano_llm_proxy.Prelude.{
  ℕ, ◌+◌, ◌*◌, ◌≤◌, ◌≡◌, ◌≢◌, refl, true, false, none, some, List, [], ◌∷◌, arith, get_elem?,
  String, lookup, insert, delete, retain,
}
use nano_llm_proxy.Time.{utc, second}
use nano_llm_proxy.Pool.Keys.{KeyState, new_key, blocked}
use nano_llm_proxy.Pool.Choice.{Mode, priority, lru, choose, walk, least_used}
use nano_llm_proxy.Pool.{Pool, KeyFileEntry, pick_at, blocked_in, cooldown_model, rate_limited_for}
use nano_llm_proxy.Pool.Calls.{Call, picks, served_on}
use nano_llm_proxy.Pool.Usable.{Usable, Used, pick-Usable}
use nano_llm_proxy.Pool.Quota.{daily_quota}
use nano_llm_proxy.Pool.RateLimit.{rate_limited-pick_none, rate_limited-pick_some}

-- noon of day 100
abbrev noon : ℕ
noon = 100 * 86400 * second + 43200 * second

key_named : String → String → KeyState
unfolding new_key
key_named label hash = new_key label label hash

-- The first key is cooling for a minute.
work : KeyState
unfolding key_named
work = record (key_named "work" "aaaa") { cooldown_until = noon + 60 * second }

home : KeyState
unfolding key_named
home = record (key_named "home" "bbbb") { last_used = noon }

pool : Mode → Pool
unfolding work home
pool mode = record { name = "zen"; mode = mode; daily_cap = 2; keys = work ∷ home ∷ [] }

-- Both keys answered 429 for the model "m".
limited : Pool
unfolding pool cooldown_model
limited =
    cooldown_model (cooldown_model (pool priority) 0 "m" (30 * second) noon) 1 "m" (90 * second)
      noon

picks_second : (pick_at utc (pool priority) [] "m" noon).1 ≡ some 1
unfolding pool pick_at choose walk blocked lookup
picks_second = refl

picks_none_excluded : (pick_at utc (pool priority) (("bbbb", true) ∷ []) "m" noon).1 ≡ none
unfolding pool pick_at choose walk blocked lookup
picks_none_excluded = refl

waits_a_minute : rate_limited_for utc limited "m" noon ≡ some (60 * second)
unfolding limited rate_limited_for lookup insert delete retain
waits_a_minute = refl

pick-Usable_example :
    (k : KeyState) × (k' : KeyState) × (get_elem? (pool priority).keys 1 ≡ some k)
    × (get_elem? (pick_at utc (pool priority) [] "m" noon).0.keys 1 ≡ some k')
    × (Usable utc 2 [] "m" noon k
        × (Used utc 2 noon k k'
            × (get_elem? (pick_at utc (pool priority) [] "m" noon).0.keys 0
                ≡ get_elem? (pool priority).keys 0)))
unfolding pool
pick-Usable_example = pick-Usable utc (pool priority) [] "m" noon 1 0 picks_second (λ e. cc)

picks_lru : (pick_at utc (pool lru) [] "m" (noon + 60 * second)).1 ≡ some 0
unfolding pool pick_at choose least_used blocked lookup
picks_lru = refl

home_free : blocked_in utc (pool lru) [] "m" (noon + 60 * second) home ≡ false
unfolding pool blocked lookup
home_free = refl

abbrev calls : List (ℕ × Call)
calls =
    (noon, picks [] "m")
    ∷ (noon + second, picks [] "m")
    ∷ (noon + 2 * second, picks [] "m")
    ∷ (noon + 90 * second, picks [] "")
    ∷ []

served_twice : served_on utc 1 100 (pool priority) calls ≡ 2
unfolding pool served_on pick_at choose walk blocked lookup
served_twice = refl

daily_quota_example : served_on utc 1 100 (pool priority) calls ≤ 2
unfolding pool
daily_quota_example =
    daily_quota utc (pool priority) 1 100 noon calls (omega arith)
      (
        record { counted = omega arith; stamped = tt },
        (record { counted = omega arith; stamped = tt }, tt),
      )
      (omega arith)

rate_limited-pick_none_example : (pick_at utc limited [] "m" (noon + 59 * second)).1 ≡ none
rate_limited-pick_none_example =
    rate_limited-pick_none utc limited "m" noon (60 * second) waits_a_minute [] (noon + 59 * second)
      (omega arith) (omega arith)

rate_limited-pick_some_example : (pick_at utc limited [] "m" (noon + 60 * second)).1 ≢ none
unfolding limited
rate_limited-pick_some_example =
    rate_limited-pick_some utc limited "m" noon (60 * second) waits_a_minute (tt, (tt, tt))

abbrev entries : List KeyFileEntry
entries = record { label = "work"; key = "aaaa" } ∷ []

work_known : lookup "aaaa" (("aaaa", work) ∷ []) ≡ some work
unfolding lookup
work_known = refl
