-- ===== src/Login/Examples.antt =====
-- Sign-ins with wrong passwords within a minute.
use nano_llm_proxy.Prelude.{
  ℕ, ◌+◌, ◌*◌, ◌≡◌, refl, inl, inr, true, false, List, [], ◌∷◌, arith, ne_of_str_eq, lookup, insert,
  delete, String,
}
use nano_llm_proxy.Time.{second}
use nano_llm_proxy.Login.{wrong, right, answered, tries, begin_login, end_login, allow, fail}
use nano_llm_proxy.Login.Calls.{Event, begins, ends, stepped, run}
use nano_llm_proxy.Login.Lockout.{locked_out}

abbrev start : ℕ
start = 1000 * second

abbrev user : String
user = "10.0.0.1|a@b"

abbrev asks : ℕ → Event
asks n = record { at = start + n * second; key = user; step = begins }

abbrev misses : ℕ → Event
misses n = record { at = start + n * second; key = user; step = ends wrong }

-- Another user signs in with the right password.
abbrev other_right : ℕ → Event
other_right n = record { at = start + n * second; key = "10.0.0.1|c@d"; step = ends right }

-- Six sign-ins begin before the first of them ends: all six passwords are tried.
abbrev at_once : List Event
at_once = asks 0 ∷ asks 1 ∷ asks 2 ∷ asks 3 ∷ asks 4 ∷ []

sixth_tries : (begin_login false true (run [] at_once) user (start + 5 * second)).1 ≡ tries
unfolding begin_login allow lookup
sixth_tries = refl

abbrev four : List Event
four = misses 10 ∷ misses 20 ∷ other_right 25 ∷ misses 30 ∷ misses 40 ∷ []

fifth_tries : (begin_login false true (run [] four) user (start + 45 * second)).1 ≡ tries
unfolding begin_login end_login allow fail lookup insert delete
fifth_tries = refl

locked_out_example :
    let b = run (stepped (ends wrong) (run [] four) user (start + 50 * second)) (asks 55 ∷ []) in
    begin_login false true b user (start + 60 * second) ≡ (b, answered 429)
locked_out_example =
    locked_out user [] start (start + 50 * second) (start + 60 * second) four (asks 55 ∷ [])
      (
        (omega arith, omega arith),
        (
          (omega arith, omega arith),
          (
            (omega arith, omega arith),
            ((omega arith, omega arith), ((omega arith, omega arith), tt)),
          ),
        ),
      )
      (omega arith) (omega arith) ((omega arith, omega arith), tt) (omega arith)
      (
        inr (λ e. cc),
        (
          inr (λ e. cc),
          (inl (ne_of_str_eq "10.0.0.1|c@d" user refl), (inr (λ e. cc), (inr (λ e. cc), tt))),
        ),
      )
      (inr (λ e. cc), tt)
