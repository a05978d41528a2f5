-- ===== src/Breaker/Answers.antt =====
-- Which answers of the breakers a call changes.
use text.Mathlib.TextPositions.{eq_refl}
use nano_llm_proxy.Prelude.{
  ℕ, ◌≤◌, ◌≡◌, ◌≢◌, refl, Bool, false, Option, none, some, arith, String, str_eq, eq_iff,
  if◌then◌else◌, lookup, filtered, lookup-insert, lookup-delete, lookup-retain,
}
use nano_llm_proxy.Breaker.{
  ModelBreaker, Breakers, breaker_key, is_open, stays, prune, current, hit, tripped, record_429,
  success,
}
use nano_llm_proxy.Breaker.Entry.{current-IsCurrent, hit-is_open}

-- What prune drops was idle and not open, so it answered "not tripped" already.
pub prune-is_open :
    (now t : ℕ) (o : Option ModelBreaker)
    → now ≤ t
    → is_open t (filtered (stays now) o) ≡ is_open t o
unfolding stays
prune-is_open now t none h = refl
prune-is_open now t (some e) h = ground arith

pub lookup-prune :
    (b : Breakers) (now : ℕ) (k : String)
    → lookup k (prune b now) ≡ filtered (stays now) (lookup k b)
unfolding prune
lookup-prune b now k = lookup-retain (stays now) k b

module _ (b : Breakers) (provider model key_hash : String) (cool floor now : ℕ) where
  -- The entry after record429.
  abbrev pub entry_after : ModelBreaker × Bool
  entry_after =
      hit key_hash cool floor now
        (record (current now (filtered (stays now) (lookup (breaker_key provider model) b))) {
          touched = now;
        })

  pub lookup-record_429 :
      (k : String)
      → lookup k (record_429 b provider model key_hash cool floor now).0 ≡ (
          if str_eq (breaker_key provider model) k
          then some entry_after.0
          else filtered (stays now) (lookup k b))
  unfolding record_429
  lookup-record_429 k = simp (lookup-insert, lookup-prune)

  pub record_429_answer : (record_429 b provider model key_hash cool floor now).1 ≡ entry_after.1
  unfolding record_429
  record_429_answer = simp lookup-prune

  -- record429 answers "single-attempt mode" exactly when the model is in that mode afterwards.
  pub record_429-tripped :
      (record_429 b provider model key_hash cool floor now).1
      ≡ tripped (record_429 b provider model key_hash cool floor now).0 provider model now
  unfolding tripped
  record_429-tripped =
      rw
        (
          record_429_answer,
          lookup-record_429 (breaker_key provider model),
          eq_refl (breaker_key provider model),
        )
        (hit-is_open key_hash cool floor now _
          (current-IsCurrent now (filtered (stays now) (lookup (breaker_key provider model) b))))

  -- A 429 of one (provider, model) changes the mode of no other, now or later.
  pub record_429-tripped_ne :
      (provider' model' : String) (t : ℕ)
      → breaker_key provider model ≢ breaker_key provider' model'
      → now ≤ t
      → tripped (record_429 b provider model key_hash cool floor now).0 provider' model' t
        ≡ tripped b provider' model' t
  unfolding tripped
  record_429-tripped_ne provider' model' t ne h =
      let apart : str_eq (breaker_key provider model) (breaker_key provider' model') ≡ false =
        ground (arith, eq_iff (breaker_key provider model) (breaker_key provider' model')) in
      rw (lookup-record_429 (breaker_key provider' model'), apart)
        (prune-is_open now t (lookup (breaker_key provider' model') b) h)

-- A 200 ends the mode of its model at once, and changes that of no other.
pub success-tripped :
    (b : Breakers) (provider model provider' model' : String) (t : ℕ)
    → tripped (success b provider model) provider' model' t ≡ (
        if str_eq (breaker_key provider model) (breaker_key provider' model')
        then false
        else tripped b provider' model' t)
unfolding tripped success
success-tripped b provider model provider' model' t =
    rw (lookup-delete (breaker_key provider model) (breaker_key provider' model') b) (ground arith)
