-- ===== src/Classify.antt =====
-- internal/gateway/gateway.go, keycheck.go and providerspec.go: what a non-200 answer of an upstream
-- says about the key.
--
-- `Answer` holds what the code reads of the answer, with the standard library's decoding done: the
-- number that Sscanf finds in the Retry-After header, the fields of the JSON error object, and the
-- instant that the regular expression and time.ParseInLocation find in the body. A hint stands for
-- its text: every hint but `no_hint` is a text that is not empty.
pub mod Blame
pub mod Verdicts
mod Examples
use nano_llm_proxy.Prelude.{
  ℕ, ◌-◌, ◌*◌, Bool, true, false, ◌&&◌, ◌||◌, not, Option, none, some, List, [], ◌∷◌, ltb, leb,
  ◌==◌, if◌then◌else◌, String, str_eq, contains, lower_contains,
}
use nano_llm_proxy.Time.{second}
use nano_llm_proxy.Pool.Keys.{disabled_auth, disabled_expired}
use nano_llm_proxy.Pool.{Pool, disable, record_rate_limit, record_error}

-- settings.RetryConfig, less the daily cap, which the pool holds. The numbers are those that Validate
-- lets through: none is negative.
pub record RetryConfig : Type 0 where
  pub max_keys_per_request : ℕ
  pub cooldown_seconds : ℕ
  pub respect_retry_after : Bool

-- the struct of saysKeyExpired; `code` is "" where the JSON value is not a string
pub record ErrorBody : Type 0 where
  pub code : String
  pub type : String

pub record Answer : Type 0 where
  pub status : ℕ
  -- `none` for a header that is missing, not a number or negative
  pub retry_after : Option ℕ
  -- its first 8 KiB
  pub body : String
  -- `none` where json.Unmarshal fails
  pub error : Option ErrorBody
  -- `none` where the body has no such time
  pub stated_reset : Option ℕ

pub data Action : Type 0 where
  next_key fail_fast flip_surface : Action

pub data Hint : Type 0 where
  no_hint key_expired_hint rejected_401_hint rejected_403_hint free_tier_hint upgrade_hint : Hint
  network_hint unavailable_hint moved_hint no_keys_hint invalid_json_hint internal_hint : Hint
  -- "upstream %d: %s" of the status and the first line of the body
  upstream_hint : ℕ → String → Hint
  -- "… is rate-limiting … — retry after %ds"
  rate_limit_hint : ℕ → Hint

pub record Verdict : Type 0 where
  pub action : Action
  pub cooldown : ℕ
  pub rate_limited : Bool
  pub account_wide : Bool
  pub key_disabled : Bool
  pub hint : Hint

abbrev pub new_verdict : Verdict
new_verdict = record {
  action = next_key;
  cooldown = 0;
  rate_limited = false;
  account_wide = false;
  key_disabled = false;
  hint = no_hint;
}

unfoldable pub key_expired_code : String
key_expired_code = "api_key_expired"

-- saysKeyExpired
unfoldable pub says_key_expired : ℕ → Option ErrorBody → Bool
unfolding key_expired_code
says_key_expired status error = (status == 401 || status == 403) && elim error [
  | none ↦ false
  | some e ↦ str_eq e.code key_expired_code || str_eq e.type key_expired_code
]

unfoldable pub key_error_phrases : List String
key_error_phrases =
    "incorrect api key" ∷ "invalid api key" ∷ "invalid_api_key" ∷ "api key is invalid"
    ∷ "api key not valid" ∷ "invalid x-api-key" ∷ "invalid authentication" ∷ "invalid credential"
    ∷ "invalid_token" ∷ "authentication token is invalid" ∷ []

unfoldable pub any_phrase : String → List String → Bool
any_phrase body [] = false
any_phrase body (p ∷ ps) = lower_contains body p || any_phrase body ps

-- saysKeyIsWrong
unfoldable pub says_key_is_wrong : String → Bool
unfolding key_error_phrases any_phrase
says_key_is_wrong body = any_phrase body key_error_phrases

abbrev six_hours : ℕ
six_hours = 6 * 3600 * second

-- zaiRateLimitReset
unfoldable pub zai_rate_limit_reset : Answer → ℕ → Option ℕ
zai_rate_limit_reset a now =
    if contains a.body "\"1308\""
    then elim a.stated_reset [
      | none ↦ none
      | some t ↦ if leb t now || ltb six_hours (t - now) then none else some t
    ]
    else none

-- the cooldown of a Retry-After header, 0 for none
unfoldable pub header_cooldown : RetryConfig → Answer → ℕ
header_cooldown s a = elim a.retry_after [
  | none ↦ 0
  | some secs ↦ if s.respect_retry_after && (ltb 0 secs && ltb secs 3600) then secs * second else 0
]

abbrev or_default : RetryConfig → ℕ → ℕ
or_default s d = if d == 0 then s.cooldown_seconds * second else d

-- the 429 case of classify
unfoldable pub limit_verdict : RetryConfig → Answer → ℕ → Verdict
unfolding zai_rate_limit_reset header_cooldown
limit_verdict s a now = elim (zai_rate_limit_reset a now) [
  | none ↦ record new_verdict { rate_limited = true; cooldown = or_default s (header_cooldown s a) }
  | some t ↦ record new_verdict {
    account_wide = true;
    cooldown = or_default s (if header_cooldown s a == 0 then t - now else header_cooldown s a);
  }
]

-- the cases that cool the key for ten seconds and count an error
abbrev cools_off : Pool → ℕ → Pool × Verdict
cools_off p i = (record_error p i, record new_verdict { cooldown = 10 * second })

unfoldable pub classify : RetryConfig → Pool → ℕ → Answer → ℕ → Pool × Verdict
unfolding says_key_expired says_key_is_wrong limit_verdict
classify s p i a now =
    if says_key_expired a.status a.error
    then (
      disable p i disabled_expired,
      record new_verdict { hint = key_expired_hint; key_disabled = true },
    )
    else if a.status == 429
    then (record_rate_limit p i, limit_verdict s a now)
    else if a.status == 401
    then (if contains a.body "AuthError" || says_key_is_wrong a.body
        then (
          disable p i disabled_auth,
          record new_verdict { hint = rejected_401_hint; key_disabled = true },
        )
        else cools_off p i)
    else if a.status == 403
    then (if contains a.body "FreeTierError"
        then (p, record new_verdict { action = fail_fast; hint = free_tier_hint })
        else if contains a.body "AuthError" || contains a.body "auth"
        then (
          disable p i disabled_auth,
          record new_verdict { hint = rejected_403_hint; key_disabled = true },
        )
        else cools_off p i)
    else if a.status == 426
    then (p, record new_verdict { action = fail_fast; hint = upgrade_hint })
    else if a.status == 503
    then (if contains a.body "Endpoint is unavailable"
        then (p, record new_verdict { action = flip_surface })
        else cools_off p i)
    else if leb 500 a.status
    then cools_off p i
    else if contains a.body "ModelProtocolUnsupported"
    then (p, record new_verdict { action = flip_surface })
    else (p, record new_verdict { action = fail_fast; hint = upstream_hint a.status a.body })
