-- ===== src/Pool/Keys.antt =====
-- internal/gateway/pool.go: the health record of one upstream key, and the tests that read it.
use nano_llm_proxy.Prelude.{
  ℕ, ◌+◌, Bool, false, ◌&&◌, ◌||◌, not, Option, none, some, [], ltb, leb, ◌==◌, str_eq, String,
  if◌then◌else◌, Map, lookup,
}
use nano_llm_proxy.Time.{Calendar}

-- KeyState.DisabledReason: "", disabledAuth or disabledExpired
pub data DisabledReason : Type 0 where
  no_reason disabled_auth disabled_expired : DisabledReason

pub record KeyState : Type 0 where
  pub label : String
  pub key : String
  pub hash : String
  pub disabled : Bool
  pub disabled_reason : DisabledReason
  pub cooldown_until : ℕ
  pub cooldown_rate_limited : Bool
  -- upstream model id -> until
  pub model_cooldown : Map ℕ
  pub last_used : ℕ
  pub requests : ℕ
  pub rate_limited : ℕ
  pub errors : ℕ
  -- the calendar day of `day_count`; `none` is the empty stamp
  pub day_stamp : Option ℕ
  pub day_count : ℕ

-- m[k] on a map of instants or of flags, the zero value where the key is missing
abbrev pub until_of : Option ℕ → ℕ
until_of none = 0
until_of (some t) = t

abbrev pub flag_of : Option Bool → Bool
flag_of none = false
flag_of (some b) = b

unfoldable pub model_until : KeyState → String → ℕ
model_until k model = until_of (lookup model k.model_cooldown)

pub data Status : Type 0 where
  status_disabled status_cooling status_healthy : Status

-- KeyState.Status
unfoldable pub status : KeyState → ℕ → Status
status k now =
    if k.disabled
    then Status.status_disabled
    else if ltb now k.cooldown_until
    then Status.status_cooling
    else Status.status_healthy

abbrev pub is_today : Option ℕ → ℕ → Bool
is_today none today = false
is_today (some d) today = d == today

-- the closure `capped` of pickAt
unfoldable pub capped : ℕ → ℕ → KeyState → Bool
capped daily_cap today k =
    ltb 0 daily_cap && (is_today k.day_stamp today && leb daily_cap k.day_count)

-- the closure `blocked` of pickAt
unfoldable pub blocked : Calendar → ℕ → Map Bool → String → ℕ → KeyState → Bool
unfolding capped model_until
blocked c daily_cap exclude model now k =
    k.disabled
    || (flag_of (lookup k.hash exclude)
        || (ltb now k.cooldown_until
            || (capped daily_cap (c.day now) k
                || (not (str_eq model "") && ltb now (model_until k model)))))

-- what pickAt writes to the key that it returns
unfoldable pub serve : Calendar → ℕ → ℕ → KeyState → KeyState
serve c daily_cap now k =
    if ltb 0 daily_cap then served else record k { last_used = now; requests = k.requests + 1 }
  where
    count : ℕ
    count = (if is_today k.day_stamp (c.day now) then k.day_count else 0) + 1

    served : KeyState
    served = record k {
      last_used = now;
      requests = k.requests + 1;
      day_stamp = some (c.day now);
      day_count = count;
      cooldown_until = if count == daily_cap then c.next_midnight now else k.cooldown_until;
      cooldown_rate_limited = if count == daily_cap then false else k.cooldown_rate_limited;
    }

-- newPool's initial record of a key
unfoldable pub new_key : String → String → String → KeyState
new_key label key hash = record {
  label = label;
  key = key;
  hash = hash;
  disabled = false;
  disabled_reason = no_reason;
  cooldown_until = 0;
  cooldown_rate_limited = false;
  model_cooldown = [];
  last_used = 0;
  requests = 0;
  rate_limited = 0;
  errors = 0;
  day_stamp = none;
  day_count = 0;
}
