-- ===== src/Login/SignIns.antt =====
-- What one step of a sign-in does to the failures of its key, and of the others.
use text.Mathlib.TextPositions.{eq_refl}
use nano_llm_proxy.Prelude.{
  ℕ, ◌+◌, ◌≤◌, ◌≡◌, ◌≢◌, refl, ap, ◌∙◌, inl, inr, true, false, not, some, arith, ltb, String,
  str_eq, lookup, lookup-insert, lookup-delete, Bool-cases, Option-cases,
}
use nano_llm_proxy.Login.{
  FailState, LoginBackoff, backoff_window, allow, counted_on, failed, fail, reset, query_fails,
  wrong, right, answered, begin_login, end_login,
}
use nano_llm_proxy.Login.Calls.{Step, begins, ends, stepped, fails_now}

module _ (b : LoginBackoff) (key : String) (now : ℕ) where
  pub allow_other :
      (other : String)
      → str_eq key other ≡ false
      → lookup other (allow b key now).0 ≡ lookup other b
  unfolding allow
  allow_other other ne = elim (Option-cases (lookup key b)) [
    | inl e ↦ ground (arith, e)
    | inr (st, e) ↦ ground (arith, e, ne, lookup-delete key other b)
  ]

  -- A failure inside the window is kept.
  pub allow_recent :
      (st : FailState)
      → lookup key b ≡ some st
      → now ≤ st.last_fail + backoff_window
      → ((allow b key now).0 ≡ b) × ((allow b key now).1 ≡ not (ltb now st.locked_to))
  unfolding allow
  allow_recent st e le = (ground (arith, e), ground (arith, e))

  pub fail_entry : lookup key (fail b key now) ≡ some (failed (counted_on (lookup key b) now) now)
  unfolding fail
  fail_entry =
      ground
        (arith, lookup-insert key key (failed (counted_on (lookup key b) now) now) b, eq_refl key)

  pub fail_other :
      (other : String) → str_eq key other ≡ false → lookup other (fail b key now) ≡ lookup other b
  unfolding fail
  fail_other other ne =
      ground (arith, ne, lookup-insert key other (failed (counted_on (lookup key b) now) now) b)

pub counted_on_recent :
    (st : FailState) (now : ℕ) → now ≤ st.last_fail + backoff_window → counted_on (some st) now ≡ st
unfolding counted_on
counted_on_recent st now le = ground arith

-- The step of a sign-in that finds the password right.
abbrev pub NotRight : Step → Type 0
NotRight s = s ≢ ends right

module _ (b : LoginBackoff) (key : String) (now : ℕ) where
  begin_state : (begin_login false true b key now).0 ≡ (allow b key now).0
  unfolding begin_login
  begin_state = elim (Bool-cases (allow b key now).1) [ inl e ↦ rw e refl | inr e ↦ rw e refl ]

  pub begin_refused :
      (allow b key now).1 ≡ false
      → begin_login false true b key now ≡ ((allow b key now).0, answered 429)
  unfolding begin_login
  begin_refused e = rw e refl

  pub stepped_other :
      (s : Step) (other : String)
      → str_eq key other ≡ false
      → lookup other (stepped s b key now) ≡ lookup other b
  unfolding end_login reset
  stepped_other begins other ne = ap (lookup other) begin_state ∙ allow_other b key now other ne
  stepped_other (ends query_fails) other ne = refl
  stepped_other (ends wrong) other ne = fail_other b key now other ne
  stepped_other (ends right) other ne = rw (lookup-delete key other b, ne) refl

  -- A wrong password is counted on what was counted before.
  pub stepped_wrong :
      (s : Step)
      → fails_now s ≡ true
      → lookup key (stepped s b key now) ≡ some (failed (counted_on (lookup key b) now) now)
  unfolding end_login
  stepped_wrong begins h = absurd (cc)
  stepped_wrong (ends query_fails) h = absurd (cc)
  stepped_wrong (ends wrong) h = fail_entry b key now
  stepped_wrong (ends right) h = absurd (cc)

  -- Within fifteen minutes of the last failure, the other steps keep what was counted.
  pub stepped_kept :
      (s : Step) (st : FailState)
      → fails_now s ≡ false
      → NotRight s
      → lookup key b ≡ some st
      → now ≤ st.last_fail + backoff_window
      → lookup key (stepped s b key now) ≡ some st
  unfolding end_login
  stepped_kept begins st f nr e le =
      ap (lookup key) (begin_state ∙ (allow_recent b key now st e le).0) ∙ e
  stepped_kept (ends query_fails) st f nr e le = e
  stepped_kept (ends wrong) st f nr e le = absurd (cc)
  stepped_kept (ends right) st f nr e le = absurd (nr refl)
