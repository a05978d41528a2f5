-- ===== src/Pool.antt =====
-- internal/gateway/pool.go: one provider's key pool.
--
-- The Go pool holds pointers to KeyState, and `pick` hands one out that later calls mutate. Here a
-- pointer is a position in `keys`, which no operation reorders: `cooldown`, `disable` and the others
-- take the position. Every method runs under the pool's mutex, so each is one step on the state.
-- The counters are int64 and do not reach their limit. The log lines are not modelled.
pub mod Keys
pub mod Choice
pub mod Waits
pub mod Calls
pub mod Effects
pub mod Quota
pub mod RateLimit
pub mod Cooldowns
mod Examples
pub mod Picks
pub mod Usable
pub mod Order
use nano_llm_proxy.Prelude.{
  ℕ, zero, suc, ◌+◌, ◌-◌, ◌%◌, max, Bool, true, false, ◌&&◌, not, Option, none, some, List, [], ◌∷◌,
  map, ltb, leb, str_eq, String, if◌then◌else◌, Map, lookup, insert, retain, length, get_elem?,
  modify, count_if,
}
use nano_llm_proxy.Time.{Calendar}
use Choice.{Mode, priority, priority_daily, lru, choose}
use Waits.{frees_at, wait_all}
use Keys.{
  KeyState, DisabledReason, no_reason, status_healthy, status, until_of, model_until, capped,
  blocked, serve, new_key,
}

pub record Pool : Type 0 where
  pub name : String
  pub mode : Mode
  -- max requests per key per day, 0 = off
  pub daily_cap : ℕ
  pub keys : List KeyState

-- the switch of newPool: any other text is "priority"
mode_of : String → Mode
mode_of mode =
    if str_eq mode "priority-daily"
    then priority_daily
    else if str_eq mode "lru"
    then lru
    else priority

-- an entry of the key file: label and key
pub record KeyFileEntry : Type 0 where
  pub label : String
  pub key : String

-- disabled with a reason: by classify, not by an admin
abbrev pub runtime_disabled : KeyState → Bool
runtime_disabled old = old.disabled && elim old.disabled_reason [ no_reason ↦ false | _ ↦ true ]

-- the body of newPoolPreserving's loop for a key with an old state
carry : KeyState → KeyState → KeyState
carry old k = record k {
  disabled = if runtime_disabled old then true else k.disabled;
  disabled_reason = if runtime_disabled old then old.disabled_reason else k.disabled_reason;
  cooldown_until = old.cooldown_until;
  cooldown_rate_limited = old.cooldown_rate_limited;
  model_cooldown = old.model_cooldown;
  last_used = old.last_used;
  requests = old.requests;
  rate_limited = old.rate_limited;
  errors = old.errors;
  day_stamp = old.day_stamp;
  day_count = old.day_count;
}

preserve : Map KeyState → KeyState → KeyState
unfolding carry
preserve prev k = elim (lookup k.hash prev) [ none ↦ k | some old ↦ carry old k ]

module _ (short_hash : String → String) where
  -- newPool; `short_hash` is the first twelve hexadecimal digits of the key's SHA-256
  pub new_pool : String → String → ℕ → List KeyFileEntry → Pool
  unfolding mode_of
  new_pool name mode daily_cap entries = record {
    name = name;
    mode = mode_of mode;
    daily_cap = daily_cap;
    keys = map (λ e. new_key e.label e.key (short_hash e.key)) entries;
  }

  -- newPoolPreserving
  pub new_pool_preserving : String → String → ℕ → List KeyFileEntry → Map KeyState → Pool
  unfolding new_pool preserve
  new_pool_preserving name mode daily_cap entries prev =
      let p = new_pool name mode daily_cap entries in record p { keys = map (preserve prev) p.keys }

-- Write to the key at a position.
abbrev pub at_key : Pool → ℕ → (KeyState → KeyState) → Pool
at_key p i f = record p { keys = modify p.keys i f }

abbrev pub blocked_in : Calendar → Pool → Map Bool → String → ℕ → KeyState → Bool
blocked_in c p = blocked c p.daily_cap

-- pickAt; `pick` is the same at the clock's time
unfoldable pub pick_at : Calendar → Pool → Map Bool → String → ℕ → Pool × Option ℕ
unfolding choose serve
pick_at c p exclude model now =
    elim (choose c p.mode p.keys (blocked_in c p exclude model now) now) [
      | none ↦ (p, none)
      | some i ↦ (at_key p i (serve c p.daily_cap now), some i)
    ]

unfoldable pub cooldown : Pool → ℕ → ℕ → ℕ → Pool
cooldown p i d now =
    at_key p i λ k. record k { cooldown_until = now + d; cooldown_rate_limited = false }

unfoldable pub cooldown_account : Pool → ℕ → ℕ → ℕ → Pool
cooldown_account p i d now =
    at_key p i λ k. record k { cooldown_until = now + d; cooldown_rate_limited = true }

-- expired entries are pruned on the way
unfoldable pub cooldown_model : Pool → ℕ → String → ℕ → ℕ → Pool
cooldown_model p i model d now = at_key p i λ k. record k {
  model_cooldown = insert model (now + d) (retain (λ until. ltb now until) k.model_cooldown);
}

unfoldable pub disable : Pool → ℕ → DisabledReason → Pool
disable p i kind = at_key p i λ k. record k { disabled = true; disabled_reason = kind }

unfoldable pub record_rate_limit : Pool → ℕ → Pool
record_rate_limit p i = at_key p i λ k. record k { rate_limited = k.rate_limited + 1 }

unfoldable pub record_error : Pool → ℕ → Pool
record_error p i = at_key p i λ k. record k { errors = k.errors + 1 }

-- the loop of setEnabled: the first key with that hash
enable_first : String → Bool → List KeyState → List KeyState × Bool
enable_first hash enabled [] = ([], false)
enable_first hash enabled (k ∷ ks) =
    let (rest, found) = enable_first hash enabled ks in
    if str_eq k.hash hash
    then (record k { disabled = not enabled; disabled_reason = no_reason } ∷ ks, true)
    else (k ∷ rest, found)

unfoldable pub set_enabled : Pool → String → Bool → Pool × Bool
unfolding enable_first
set_enabled p hash enabled =
    let (keys, found) = enable_first hash enabled p.keys in (record p { keys = keys }, found)

unfoldable pub rate_limited_for : Calendar → Pool → String → ℕ → Option ℕ
unfolding frees_at wait_all
rate_limited_for c p model now =
    let wait = wait_all (frees_at c p.daily_cap model now) now p.keys none in
    if str_eq model "" then none else wait

is_healthy : ℕ → KeyState → Bool
unfolding status
is_healthy now k = elim (status k now) [ status_healthy ↦ true | _ ↦ false ]

-- healthyCount
pub healthy_count : Pool → ℕ → ℕ
unfolding is_healthy
healthy_count p now = count_if (is_healthy now) p.keys
