-- ===== src/Pool/Waits.antt =====
-- internal/gateway/pool.go: the loop of `rateLimitedFor`.
use nano_llm_proxy.Prelude.{
  ℕ, ◌-◌, max, ◌&&◌, Option, none, some, List, [], ◌∷◌, ltb, String, if◌then◌else◌,
}
use nano_llm_proxy.Time.{Calendar}
use nano_llm_proxy.Pool.Keys.{KeyState, model_until, capped}

-- the key's 429 cooldown for the model: the model's own or an account-wide one
unfoldable pub limited_until : String → KeyState → ℕ
unfolding model_until
limited_until model k =
    if k.cooldown_rate_limited && ltb (model_until k model) k.cooldown_until
    then k.cooldown_until
    else model_until k model

-- that, or the key-wide cooldown where it is active and ends later
unfoldable pub cooled_until : String → ℕ → KeyState → ℕ
unfolding limited_until
cooled_until model now k =
    if ltb now k.cooldown_until && ltb (limited_until model k) k.cooldown_until
    then k.cooldown_until
    else limited_until model k

-- when an enabled key frees up for the model; `none` ends the loop with "not rate-limited"
unfoldable pub frees_at : Calendar → ℕ → String → ℕ → KeyState → Option ℕ
unfolding limited_until cooled_until capped
frees_at c daily_cap model now k =
    if ltb now (limited_until model k)
    then some (
        if capped daily_cap (c.day now) k
        then max (cooled_until model now k) (c.next_midnight now)
        else cooled_until model now k)
    else none

-- the (wait, ok) of the loop, `none` for ok = false
unfoldable pub shorter : ℕ → Option ℕ → Option ℕ
shorter d none = some d
shorter d (some w) = some (if ltb d w then d else w)

unfoldable pub wait_all : (KeyState → Option ℕ) → ℕ → List KeyState → Option ℕ → Option ℕ
unfolding shorter
wait_all frees now [] acc = acc
wait_all frees now (k ∷ ks) acc =
    let skip = wait_all frees now ks acc in
    let stop_or_next : Option ℕ = elim (frees k) [
      | none ↦ none
      | some until ↦ wait_all frees now ks (shorter (until - now) acc)
    ] in
    if k.disabled then skip else stop_or_next
