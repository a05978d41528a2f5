-- ===== src/Login/Lockout.antt =====
-- How the lockout holds, however the steps of sign-ins are mixed.
use nano_llm_proxy.Prelude.{
  ℕ, ◌+◌, ◌≤◌, ◌<◌, ◌≡◌, ◌≢◌, refl, ap, ◌∙◌, ◌⊎◌, inl, inr, true, false, some, List, [], ◌∷◌, arith,
  String, str_eq, eq_iff, lookup, Bool-cases,
}
use nano_llm_proxy.Login.{
  FailState, LoginBackoff, backoff_window, allow, counted_on, failed, wrong, answered, begin_login,
}
use nano_llm_proxy.Login.Calls.{Step, ends, Event, stepped, run, fails_now, failures, Between}
use nano_llm_proxy.Login.SignIns.{
  allow_recent, counted_on_recent, NotRight, begin_refused, stepped_other, stepped_wrong,
  stepped_kept,
}
use nano_llm_proxy.Login.Counting.{
  failed-fields, NoRight, not_right, Counted, none_yet, some_yet, Counted-le, after, Counted-run,
}

module _ (key : String) where
  -- The key is locked until fifteen minutes after `t`.
  record Locked (t : ℕ) (b : LoginBackoff) : Type 0 where
    state : FailState
    there : lookup key b ≡ some state
    since : t ≤ state.last_fail
    five : 5 ≤ state.count
    until : t + backoff_window ≤ state.locked_to

  -- The fifth failure locks the key.
  Locked-by :
      (from t : ℕ) (b : LoginBackoff)
      → t ≤ from + backoff_window
      → Counted key from 4 b
      → Locked t (stepped (ends wrong) b key t)
  Locked-by from t b hi (none_yet z) = absurd (omega (arith, z))
  Locked-by from t b hi (some_yet st at lf lc) =
      let (c, l, k) = failed-fields st t in
      let on : counted_on (lookup key b) t ≡ st =
        ap (λ o. counted_on o t) at ∙ counted_on_recent st t (omega (arith, lf)) in
      record {
        state = failed st t;
        there = stepped_wrong b key t (ends wrong) refl ∙ ap (λ q. some (failed q t)) on;
        since = omega (arith, l);
        five = omega (arith, c, lc);
        until = k (omega (arith, lc));
      }

  Locked-own :
      (t now : ℕ) (b : LoginBackoff) (s : Step)
      → NotRight s
      → t ≤ now
      → now < t + backoff_window
      → Locked t b
      → Locked t (stepped s b key now)
  Locked-own t now b s nr lo hi k = elim (Bool-cases (fails_now s)) [
    | inr f ↦ record {
      state = k.state;
      there = stepped_kept b key now s k.state f nr k.there (omega (arith, k.since));
      since = k.since;
      five = k.five;
      until = k.until;
    }
    | inl f ↦
        let (c, l, u) = failed-fields k.state now in
        let on : counted_on (lookup key b) now ≡ k.state =
          ap (λ o. counted_on o now) k.there
          ∙ counted_on_recent k.state now (omega (arith, k.since)) in
        record {
          state = failed k.state now;
          there = stepped_wrong b key now s f ∙ ap (λ q. some (failed q now)) on;
          since = omega (arith, l);
          five = omega (arith, c, k.five);
          until = omega (arith, u (omega (arith, k.five)));
        }
  ]

  Locked-step :
      (t : ℕ) (b : LoginBackoff) (x : Event)
      → (x.key ≢ key) ⊎ NotRight x.step
      → t ≤ x.at
      → x.at < t + backoff_window
      → Locked t b
      → Locked t (after key b x)
  Locked-step t b x nr lo hi k = elim (Bool-cases (str_eq x.key key)) [
    | inr ne ↦ record {
      state = k.state;
      there = stepped_other b x.key x.at x.step key ne ∙ k.there;
      since = k.since;
      five = k.five;
      until = k.until;
    }
    | inl e ↦
        let same : x.key ≡ key = (eq_iff x.key key).0 e in
        let own = Locked-own t x.at b x.step (not_right key x nr same) lo hi k in rw same own
  ]

  Locked-run :
      (t now : ℕ) (b : LoginBackoff) (xs : List Event)
      → Between t now xs
      → now < t + backoff_window
      → NoRight key xs
      → Locked t b
      → Locked t (run b xs)
  Locked-run t now b [] w hi nr k = k
  Locked-run t now b (x ∷ xs) w hi nr k =
      Locked-run t now (after key b x) xs w.1 hi nr.1
        (Locked-step t b x nr.0 w.0.0 (omega (arith, w.0.1)) k)

  abbrev wrong_at : ℕ → Event
  wrong_at t = record { at = t; key = key; step = ends wrong }

  -- Where password sign-in is on: after a failure of a key with at least four others in the fifteen
  -- minutes before it, every sign-in
  -- with the key is turned away with 429 until fifteen minutes are over, and changes nothing: whatever
  -- was counted before, and however the steps of any sign-ins, with this key and with others, are mixed
  -- before and after, as long as none with this key finds the password right.
  pub locked_out :
      (b : LoginBackoff) (from t now : ℕ) (xs ys : List Event)
      → Between from t xs
      → t ≤ from + backoff_window
      → 4 ≤ failures key xs
      → Between t now ys
      → now < t + backoff_window
      → NoRight key xs
      → NoRight key ys
      → let b' = run (stepped (ends wrong) (run b xs) key t) ys in
        begin_login false true b' key now ≡ (b', answered 429)
  locked_out b from t now xs ys w le four v lt nx ny =
      let c = Counted-run key from t 0 b xs w le nx (none_yet refl) in
      let l =
        Locked-by from t (run b xs) le
          (Counted-le key from 4 _ (run b xs) (omega (arith, four)) c) in
      let b' = run (stepped (ends wrong) (run b xs) key t) ys in
      let k = Locked-run t now (stepped (ends wrong) (run b xs) key t) ys v lt ny l in
      let (same, free) = allow_recent b' key now k.state k.there (omega (arith, k.since)) in
      let shut : (allow b' key now).1 ≡ false = ground (arith, free, k.until) in
      begin_refused b' key now shut ∙ ap (λ q. (q, answered 429)) same
