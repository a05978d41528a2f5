-- ===== src/Classify/Verdicts.antt =====
-- What `classify` does to the key, and what its verdicts hold.
use nano_llm_proxy.Prelude.{
  ℕ, ◌+◌, ◌*◌, ◌≤◌, ◌≡◌, ◌≢◌, ◌↔◌, inl, inr, refl, sym, Bool, true, false, ◌||◌, some, arith, leb,
  ◌==◌, if◌then◌else◌, contains, modify_id, ap, get_elem?, get_elem?-modify_self,
  get_elem?-modify_ne, Bool-cases,
}
use nano_llm_proxy.Time.{second}
use nano_llm_proxy.Pool.Keys.{KeyState, DisabledReason}
use nano_llm_proxy.Pool.{Pool, disable, record_rate_limit, record_error, at_key}
use nano_llm_proxy.Classify.Blame.{
  BlamesKey, expired, auth_401, auth_403, blames_of_expired, expired_of_blames, auth_401_iff,
  auth_403_iff,
}
use nano_llm_proxy.Classify.{
  Answer, RetryConfig, Verdict, says_key_expired, says_key_is_wrong, limit_verdict, classify,
  zai_rate_limit_reset, header_cooldown, flip_surface,
}

module _ (s : RetryConfig) (p : Pool) (i : ℕ) (a : Answer) (now : ℕ) where
  blames_of_disabled : (classify s p i a now).1.key_disabled ≡ true → BlamesKey a
  unfolding classify
  blames_of_disabled h = elim (Bool-cases (says_key_expired a.status a.error)) [
    | inl e ↦ blames_of_expired a a.error refl e
    | inr miss ↦ elim (Bool-cases (a.status == 401)) [
      | inl e ↦ auth_401 (ground arith) ((auth_401_iff a).0 (ground arith))
      | inr n ↦ auth_403 (ground arith) (ground arith) ((auth_403_iff a).0 (ground arith))
    ]
  ]

  disabled_of_blames : BlamesKey a → (classify s p i a now).1.key_disabled ≡ true
  unfolding classify
  disabled_of_blames (expired e st there code) = ground (arith, expired_of_blames a e st there code)
  disabled_of_blames (auth_401 st e) = ground (arith, (auth_401_iff a).1 e)
  disabled_of_blames (auth_403 st f e) = ground (arith, (auth_403_iff a).1 e)

  -- The key after `classify`, with the counters that it may raise.
  record Judged (k k' : KeyState) (v : Verdict) : Type 0 where
    turned_off : k'.disabled ≡ (k.disabled || v.key_disabled)
    key_same : k'.hash ≡ k.hash
    cooling_same : k'.cooldown_until ≡ k.cooldown_until
    models_same : k'.model_cooldown ≡ k.model_cooldown
    stamp_same : k'.day_stamp ≡ k.day_stamp
    count_same : k'.day_count ≡ k.day_count

  -- The new pool is a write at the key, and the verdict says what was written.
  record At (q : Pool × Verdict) : Type 0 where
    write : KeyState → KeyState
    writes : q.0 ≡ at_key p i write
    judged : (k : KeyState) → Judged k (write k) q.1

  if-At : (b : Bool) (x y : Pool × Verdict) → At x → At y → At (if b then x else y)
  if-At true x y h k = h
  if-At false x y h k = k

  same : (k : KeyState) (v : Verdict) → v.key_disabled ≡ false → Judged k k v
  same k v h = record {
    turned_off = ground arith;
    key_same = refl;
    cooling_same = refl;
    models_same = refl;
    stamp_same = refl;
    count_same = refl;
  }

  kept-At : (v : Verdict) → v.key_disabled ≡ false → At (p, v)
  kept-At v h = record {
    write = λ k. k;
    writes = ap (λ keys. record p { keys = keys }) (sym (modify_id p.keys i));
    judged = λ k. same k v h;
  }

  off-At : (kind : DisabledReason) (v : Verdict) → v.key_disabled ≡ true → At (disable p i kind, v)
  unfolding disable
  off-At kind v h = record {
    write = λ k. record k { disabled = true; disabled_reason = kind };
    writes = refl;
    judged = λ k. record {
      turned_off = ground arith;
      key_same = refl;
      cooling_same = refl;
      models_same = refl;
      stamp_same = refl;
      count_same = refl;
    };
  }

  failed-At : (v : Verdict) → v.key_disabled ≡ false → At (record_error p i, v)
  unfolding record_error
  failed-At v h = record {
    write = λ k. record k { errors = k.errors + 1 };
    writes = refl;
    judged = λ k. record {
      turned_off = ground arith;
      key_same = refl;
      cooling_same = refl;
      models_same = refl;
      stamp_same = refl;
      count_same = refl;
    };
  }

  limited-At : (v : Verdict) → v.key_disabled ≡ false → At (record_rate_limit p i, v)
  unfolding record_rate_limit
  limited-At v h = record {
    write = λ k. record k { rate_limited = k.rate_limited + 1 };
    writes = refl;
    judged = λ k. record {
      turned_off = ground arith;
      key_same = refl;
      cooling_same = refl;
      models_same = refl;
      stamp_same = refl;
      count_same = refl;
    };
  }

  limit_verdict-keeps : (limit_verdict s a now).key_disabled ≡ false
  unfolding limit_verdict
  limit_verdict-keeps = ground arith

  classify-At : At (classify s p i a now)
  unfolding classify
  classify-At = elim (Bool-cases (says_key_expired a.status a.error)) [
    | inl e ↦ rw e (off-At _ _ refl)
    | inr e ↦ rw e (elim (Bool-cases (a.status == 429)) [
      | inl e ↦ rw e (limited-At _ limit_verdict-keeps)
      | inr e ↦ rw e (elim (Bool-cases (a.status == 401)) [
        | inl e ↦
            rw e (elim (Bool-cases (contains a.body "AuthError" || says_key_is_wrong a.body)) [
              | inl e ↦ rw e (off-At _ _ refl)
              | inr e ↦ rw e (failed-At _ refl)
            ])
        | inr e ↦ rw e (elim (Bool-cases (a.status == 403)) [
          | inl e ↦ rw e (elim (Bool-cases (contains a.body "FreeTierError")) [
            | inl e ↦ rw e (kept-At _ refl)
            | inr e ↦
                rw e (elim (Bool-cases (contains a.body "AuthError" || contains a.body "auth")) [
                  | inl e ↦ rw e (off-At _ _ refl)
                  | inr e ↦ rw e (failed-At _ refl)
                ])
          ])
          | inr e ↦ rw e (elim (Bool-cases (a.status == 426)) [
            | inl e ↦ rw e (kept-At _ refl)
            | inr e ↦ rw e (elim (Bool-cases (a.status == 503)) [
              | inl e ↦ rw e (elim (Bool-cases (contains a.body "Endpoint is unavailable")) [
                | inl e ↦ rw e (kept-At _ refl)
                | inr e ↦ rw e (failed-At _ refl)
              ])
              | inr e ↦ rw e (elim (Bool-cases (leb 500 a.status)) [
                | inl e ↦ rw e (failed-At _ refl)
                | inr e ↦ rw e (elim (Bool-cases (contains a.body "ModelProtocolUnsupported")) [
                  | inl e ↦ rw e (kept-At _ refl)
                  | inr e ↦ rw e (kept-At _ refl)
                ])
              ])
            ])
          ])
        ])
      ])
    ])
  ]

  -- `classify` disables an enabled key exactly when the answer blames the key: the code or the type
  -- "api_key_expired" in the JSON error of a 401 or 403, "AuthError" or a phrase about a wrong key in the
  -- body of a 401, or "AuthError" or "auth" in that of a 403 without "FreeTierError". No other status
  -- and no other body does, and no other key changes.
  pub classify-BlamesKey :
      (k : KeyState) (j : ℕ)
      → get_elem? p.keys i ≡ some k
      → k.disabled ≡ false
      → i ≢ j
      → (k' : KeyState) × (get_elem? (classify s p i a now).0.keys i ≡ some k')
        × ((k'.disabled ≡ true) ↔ BlamesKey a)
        × (get_elem? (classify s p i a now).0.keys j ≡ get_elem? p.keys j)
  classify-BlamesKey k j there on ne =
      let v = classify-At in
      (
        v.write k,
        rw v.writes (get_elem?-modify_self p.keys i v.write k there),
        (
          λ h. blames_of_disabled (ground (arith, (v.judged k).turned_off)),
          λ b. ground (arith, (v.judged k).turned_off, disabled_of_blames b),
        ),
        rw v.writes (get_elem?-modify_ne p.keys i j v.write ne),
      )

  -- With a default cooldown of at most a day, as the settings are validated, no verdict cools a key
  -- for longer than a day, whatever the upstream's header and body say.
  pub classify_cooldown :
      s.cooldown_seconds ≤ 86400 → (classify s p i a now).1.cooldown ≤ 86400 * second
  unfolding classify limit_verdict zai_rate_limit_reset header_cooldown
  classify_cooldown h = ground arith

  -- Only a body with one of two texts asks for the other surface.
  pub classify_flips :
      contains a.body "Endpoint is unavailable" ≡ false
      → contains a.body "ModelProtocolUnsupported" ≡ false
      → (classify s p i a now).1.action ≢ flip_surface
  unfolding classify limit_verdict
  classify_flips e m h = ground arith
