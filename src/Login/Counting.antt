-- ===== src/Login/Counting.antt =====
-- How the failures of a key are counted while its sign-ins go on.
use nano_llm_proxy.Prelude.{
  ℕ, ◌+◌, ◌≤◌, ◌≡◌, ◌≢◌, refl, ap, ◌∙◌, ◌⊎◌, inl, inr, true, false, ◌&&◌, some, List, [], ◌∷◌,
  arith, if◌then◌else◌, String, str_eq, eq_iff, lookup, All, Bool-cases,
}
use nano_llm_proxy.Login.{FailState, LoginBackoff, backoff_window, counted_on, failed}
use nano_llm_proxy.Login.Calls.{Step, Event, stepped, run, fails_now, failures, Between}
use nano_llm_proxy.Login.SignIns.{
  counted_on_recent, NotRight, stepped_other, stepped_wrong, stepped_kept,
}

pub failed-fields :
    (st : FailState) (now : ℕ)
    → ((failed st now).count ≡ st.count + 1)
      × ((failed st now).last_fail ≡ now)
      × (5 ≤ st.count + 1 → now + backoff_window ≤ (failed st now).locked_to)
unfolding failed
failed-fields st now = (refl, refl, λ h. ground (arith, h))

-- Nobody signs in with the key.
abbrev pub NoRight : String → List Event → Type 0
NoRight key xs = All (λ (x : Event). (x.key ≢ key) ⊎ NotRight x.step) xs

pub not_right :
    (key : String) (x : Event) → (x.key ≢ key) ⊎ NotRight x.step → x.key ≡ key → NotRight x.step
not_right key x (inl ne) same = absurd (ne same)
not_right key x (inr nr) same = nr

module _ (key : String) where
  -- At least `n` failures of the key are counted, the last of them not before `from`.
  pub data Counted (from n : ℕ) (b : LoginBackoff) : Type 0 where
    none_yet : n ≡ 0 → Counted from n b
    some_yet :
        (st : FailState)
        → lookup key b ≡ some st
        → from ≤ st.last_fail
        → n ≤ st.count
        → Counted from n b

  abbrev fresh : Event → ℕ
  fresh x = if str_eq x.key key && fails_now x.step then 1 else 0

  abbrev pub after : LoginBackoff → Event → LoginBackoff
  after b x = stepped x.step b x.key x.at

  Counted-other :
      (from n : ℕ) (b b' : LoginBackoff)
      → lookup key b' ≡ lookup key b
      → Counted from n b
      → Counted from n b'
  Counted-other from n b b' e (none_yet z) = none_yet z
  Counted-other from n b b' e (some_yet st at le lc) = some_yet st (e ∙ at) le lc

  pub Counted-le : (from m n : ℕ) (b : LoginBackoff) → m ≤ n → Counted from n b → Counted from m b
  Counted-le from m n b le (none_yet z) = none_yet (omega (arith, z, le))
  Counted-le from m n b le (some_yet st at lf lc) = some_yet st at lf (omega (arith, lc, le))

  -- One more wrong password.
  Counted-wrong :
      (from n now : ℕ) (b : LoginBackoff) (s : Step)
      → fails_now s ≡ true
      → from ≤ now
      → now ≤ from + backoff_window
      → Counted from n b
      → Counted from (1 + n) (stepped s b key now)
  Counted-wrong from n now b s f lo hi (none_yet z) =
      let st = counted_on (lookup key b) now in
      let (c, l, _) = failed-fields st now in
      some_yet (failed st now) (stepped_wrong b key now s f) (omega (arith, l))
        (omega (arith, c, z))
  Counted-wrong from n now b s f lo hi (some_yet st at lf lc) =
      let (c, l, _) = failed-fields st now in
      let on : counted_on (lookup key b) now ≡ st =
        ap (λ o. counted_on o now) at ∙ counted_on_recent st now (omega (arith, lf)) in
      some_yet (failed st now) (stepped_wrong b key now s f ∙ ap (λ q. some (failed q now)) on)
        (omega (arith, l)) (omega (arith, c, lc))

  Counted-else :
      (from n now : ℕ) (b : LoginBackoff) (s : Step)
      → fails_now s ≡ false
      → NotRight s
      → now ≤ from + backoff_window
      → Counted from n b
      → Counted from n (stepped s b key now)
  Counted-else from n now b s f nr hi (none_yet z) = none_yet z
  Counted-else from n now b s f nr hi (some_yet st at lf lc) =
      some_yet st (stepped_kept b key now s st f nr at (omega (arith, lf))) lf lc

  Counted-own :
      (from n now : ℕ) (b : LoginBackoff) (s : Step)
      → NotRight s
      → from ≤ now
      → now ≤ from + backoff_window
      → Counted from n b
      → Counted from ((if fails_now s then 1 else 0) + n) (stepped s b key now)
  Counted-own from n now b s nr lo hi c = elim (Bool-cases (fails_now s)) [
    | inl f ↦ rw f (Counted-wrong from n now b s f lo hi c)
    | inr f ↦
        rw f (Counted-le from (0 + n) n _ (omega arith) (Counted-else from n now b s f nr hi c))
  ]

  Counted-step :
      (from n : ℕ) (b : LoginBackoff) (x : Event)
      → from ≤ x.at
      → x.at ≤ from + backoff_window
      → (x.key ≢ key) ⊎ NotRight x.step
      → Counted from n b
      → Counted from (fresh x + n) (after b x)
  Counted-step from n b x lo hi nr c = elim (Bool-cases (str_eq x.key key)) [
    | inr ne ↦ rw ne (
        Counted-le from (0 + n) n _ (omega arith)
          (Counted-other from n b (after b x) (stepped_other b x.key x.at x.step key ne) c))
    | inl e ↦
        let same : x.key ≡ key = (eq_iff x.key key).0 e in
        let own = Counted-own from n x.at b x.step (not_right key x nr same) lo hi c in
        rw (e, same) own
  ]

  pub Counted-run :
      (from to n : ℕ) (b : LoginBackoff) (xs : List Event)
      → Between from to xs
      → to ≤ from + backoff_window
      → NoRight key xs
      → Counted from n b
      → Counted from (failures key xs + n) (run b xs)
  Counted-run from to n b [] w le nr c = Counted-le from (0 + n) n b (omega arith) c
  Counted-run from to n b (x ∷ xs) w le nr c =
      Counted-le from (failures key (x ∷ xs) + n) (failures key xs + (fresh x + n)) _ (omega arith)
        (Counted-run from to (fresh x + n) (after b x) xs w.1 le nr.1
          (Counted-step from n b x w.0.0 (omega (arith, w.0.1, le)) nr.0 c))
