-- ===== src/Login/Calls.antt =====
-- internal/gateway/auth.go: any sequence of the steps of sign-ins, each with the clock's time. The steps
-- of different sign-ins may be mixed in any order.
use nano_llm_proxy.Prelude.{
  ℕ, ◌+◌, ◌≤◌, Bool, true, false, ◌&&◌, List, [], ◌∷◌, if◌then◌else◌, String, str_eq, All,
}
use nano_llm_proxy.Login.{
  LoginBackoff, Credentials, query_fails, wrong, right, begin_login, end_login,
}

pub data Step : Type 0 where
  begins : Step
  ends : Credentials → Step

pub record Event : Type 0 where
  pub at : ℕ
  -- "ip|email"
  pub key : String
  pub step : Step

-- A step on the failures, where signing in with a password is on.
abbrev pub stepped : Step → LoginBackoff → String → ℕ → LoginBackoff
stepped begins b key now = (begin_login false true b key now).0
stepped (ends credentials) b key now = (end_login b key now credentials).0

abbrev pub run : LoginBackoff → List Event → LoginBackoff
run b [] = b
run b (x ∷ xs) = run (stepped x.step b x.key x.at) xs

abbrev pub fails_now : Step → Bool
fails_now begins = false
fails_now (ends query_fails) = false
fails_now (ends wrong) = true
fails_now (ends right) = false

-- How many passwords of the key turn out wrong.
abbrev pub failures : String → List Event → ℕ
failures key [] = 0
failures key (x ∷ xs) = (if str_eq x.key key && fails_now x.step then 1 else 0) + failures key xs

-- All steps are between two times.
abbrev pub Between : ℕ → ℕ → List Event → Type 0
Between from to xs = All (λ (x : Event). (from ≤ x.at) × (x.at ≤ to)) xs
