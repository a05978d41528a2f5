-- ===== src/Login.antt =====
-- internal/gateway/auth.go: the password sign-in and its lockout.
--
-- The lock is held inside `allow`, `fail` and `reset` only, so a sign-in is two steps, `begin_login`
-- and `end_login`, and those of other sign-ins may come between them. The session that a success
-- creates is not modelled.
pub mod Calls
pub mod SignIns
pub mod Counting
pub mod Lockout
mod Examples
use nano_llm_proxy.Prelude.{
  ℕ, ◌+◌, ◌-◌, ◌*◌, Bool, true, false, not, Option, none, some, ltb, leb, if◌then◌else◌, String,
  Map, lookup, insert, delete,
}
use nano_llm_proxy.Time.{second}

pub record FailState : Type 0 where
  pub count : ℕ
  pub last_fail : ℕ
  pub locked_to : ℕ

-- loginBackoff.fails: "ip|email" -> the failures
abbrev pub LoginBackoff : Type 0
LoginBackoff = Map FailState

abbrev pub backoff_max_fails : ℕ
backoff_max_fails = 5

abbrev pub backoff_window : ℕ
backoff_window = 15 * 60 * second

abbrev pub backoff_lockout_for : ℕ
backoff_lockout_for = 15 * 60 * second

abbrev pub expired : FailState → ℕ → Bool
expired st now = ltb backoff_window (now - st.last_fail)

pub allow : LoginBackoff → String → ℕ → LoginBackoff × Bool
allow b key now = elim (lookup key b) [
  | none ↦ (b, true)
  | some st ↦
      if ltb now st.locked_to
      then (b, false)
      else (if expired st now then delete key b else b, true)
]

-- the state that `fail` counts on
pub counted_on : Option FailState → ℕ → FailState
counted_on none now = record { count = 0; last_fail = 0; locked_to = 0 }
counted_on (some st) now =
    if expired st now then record { count = 0; last_fail = 0; locked_to = 0 } else st

-- one more failure
pub failed : FailState → ℕ → FailState
failed st now = record {
  count = st.count + 1;
  last_fail = now;
  locked_to =
      if leb backoff_max_fails (st.count + 1) then now + backoff_lockout_for else st.locked_to;
}

pub fail : LoginBackoff → String → ℕ → LoginBackoff
unfolding counted_on failed
fail b key now = insert key (failed (counted_on (lookup key b) now) now) b

pub reset : LoginBackoff → String → LoginBackoff
reset b key = delete key b

-- what the store and bcrypt say of the email and the password: the query fails, or the account is
-- unknown or disabled or the password wrong, or all is right
pub data Credentials : Type 0 where
  query_fails wrong right : Credentials

-- how far handleLogin comes before it queries the store: an answer, or it tries the password
pub data LoginBegun : Type 0 where
  answered : ℕ → LoginBegun
  tries : LoginBegun

-- handleLogin up to its call of `allow`, the request being read
pub begin_login : Bool → Bool → LoginBackoff → String → ℕ → LoginBackoff × LoginBegun
unfolding allow
begin_login is_local credential_login b key now =
    let (b', allowed) = allow b key now in
    if is_local
    then (b, answered 404)
    else if not credential_login
    then (b, answered 403)
    else if not allowed
    then (b', answered 429)
    else (b', tries)

-- the rest of handleLogin, after what the store and bcrypt say: the status of the answer
pub end_login : LoginBackoff → String → ℕ → Credentials → LoginBackoff × ℕ
unfolding fail reset
end_login b key now query_fails = (b, 500)
end_login b key now wrong = (fail b key now, 401)
end_login b key now right = (reset b key, 200)
