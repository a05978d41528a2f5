-- ===== src/Rotation.antt =====
-- internal/gateway/ratelimit.go: one request's walk over a provider's pool, and the answer that the
-- client gets when the walk ends without a 200.
--
-- The pool and the breakers are shared with the other requests; `World` holds both. The log lines and
-- the activity record are not modelled.
pub mod Failures
pub mod Loops
pub mod Rounds
pub mod Zen
pub mod Scope
pub mod Walks
pub mod Flips
pub mod Retries
pub mod Ends
pub mod Endless
mod Examples
use nano_llm_proxy.Prelude.{
  ℕ, ◌+◌, ◌-◌, ◌*◌, Bool, true, false, ◌&&◌, ◌||◌, not, Option, none, some, [], ltb, ◌==◌,
  if◌then◌else◌, String, str_eq, Map, insert, get_elem?,
}
use nano_llm_proxy.Time.{Calendar, second}
use nano_llm_proxy.Pool.Keys.{KeyState}
use nano_llm_proxy.Pool.{
  Pool, pick_at, cooldown, cooldown_account, cooldown_model, rate_limited_for,
}
use nano_llm_proxy.Breaker.{Breakers, tripped, record_429, success}
use nano_llm_proxy.Classify.{
  RetryConfig, Answer, Verdict, Hint, no_hint, no_keys_hint, rate_limit_hint, classify,
}
use Failures.{Failure, fail_hint, rate_limit_failure}

pub record World : Type 0 where
  pub pool : Pool
  pub breakers : Breakers

pub record Rotation : Type 0 where
  pub world : World
  -- ref.name
  pub provider : String
  pub model : String
  pub exclude : Map Bool
  -- breaker tripped: at most one key, no rotation
  pub single : Bool
  pub picked : ℕ
  -- the last answer disabled its key
  pub key_lost : Bool
  -- the walk stopped on a 429 with the breaker tripped
  pub limited : Bool

unfoldable pub new_rotation : World → String → String → ℕ → Rotation
new_rotation w provider model now = record {
  world = w;
  provider = provider;
  model = model;
  exclude = [];
  single = not (str_eq model "") && tripped w.breakers provider model now;
  picked = 0;
  key_lost = false;
  limited = false;
}

-- the key that a pick returned, with its position
abbrev pub held : Pool → Option ℕ → Option (ℕ × KeyState)
held p none = none
held p (some i) = elim (get_elem? p.keys i) [ none ↦ none | some k ↦ some (i, k) ]

abbrev pub with_pool : Rotation → Pool → Rotation
with_pool rot p = record rot { world = record { pool = p; breakers = rot.world.breakers } }

abbrev exclude_key : Rotation → Option (ℕ × KeyState) → Rotation
exclude_key rot none = rot
exclude_key rot (some (i, k)) = record rot {
  exclude = insert k.hash true rot.exclude;
  picked = rot.picked + 1;
}

module _ (c : Calendar) where
  -- keyRotation.next
  unfoldable pub next : Rotation → ℕ → Rotation × Option (ℕ × KeyState)
  next rot now =
      let (p, choice) = pick_at c rot.world.pool rot.exclude rot.model now in
      let k = held p choice in
      if rot.limited || (rot.single && ltb 0 rot.picked)
      then (rot, none)
      else (exclude_key (with_pool rot p) k, k)

  -- keyRotation.exhausted
  unfoldable pub exhausted : Rotation → Hint → ℕ → Failure
  exhausted rot last_hint now = elim (rate_limited_for c rot.world.pool rot.model now) [
    | some wait ↦ rate_limit_failure wait
    | none ↦
        if rot.limited
        then rate_limit_failure second
        else record (fail_hint (elim last_hint [ no_hint ↦ no_keys_hint | h ↦ h ])) {
          status = if rot.key_lost then 503 else 0;
        }
  ]

-- keyRotation.retrySame: the key's flag in `exclude` and the count go back
unfoldable pub retry_same : Rotation → String → Rotation
retry_same rot hash = record rot {
  exclude = insert hash false rot.exclude;
  picked = rot.picked - 1;
}

-- a 429 of the model: cool (key, model) and feed the breaker
unfoldable pub limit_model : RetryConfig → Rotation → ℕ → KeyState → Verdict → ℕ → Rotation
limit_model s rot i k v now =
    let p = rot.world.pool in
    let cooled = if ltb 0 v.cooldown then cooldown_model p i rot.model v.cooldown now else p in
    let (b, now_open) =
      record_429 rot.world.breakers rot.provider rot.model k.hash v.cooldown
        (s.cooldown_seconds * second) now in
    record rot { world = record { pool = cooled; breakers = b }; limited = rot.limited || now_open }

-- the switch of `rejected`
unfoldable pub apply_verdict : RetryConfig → Rotation → ℕ → KeyState → Verdict → ℕ → Rotation
unfolding limit_model
apply_verdict s rot i k v now =
    if v.rate_limited && not (str_eq rot.model "")
    then limit_model s rot i k v now
    else if v.account_wide && ltb 0 v.cooldown
    then with_pool rot (cooldown_account rot.world.pool i v.cooldown now)
    else if ltb 0 v.cooldown
    then with_pool rot (cooldown rot.world.pool i v.cooldown now)
    else rot

-- keyRotation.rejected
unfoldable pub rejected : RetryConfig → Rotation → ℕ → KeyState → Answer → ℕ → Rotation × Verdict
unfolding apply_verdict
rejected s rot i k a now =
    let (p, v) = classify s rot.world.pool i a now in
    (apply_verdict s (record (with_pool rot p) { key_lost = v.key_disabled }) i k v now, v)

-- keyRotation.succeeded
unfoldable pub succeeded : Rotation → Rotation
succeeded rot = if str_eq rot.model "" then rot else record rot {
  world = record {
    pool = rot.world.pool;
    breakers = success rot.world.breakers rot.provider rot.model;
  };
}
