-- ===== src/Pool/Choice.antt =====
-- internal/gateway/pool.go: which key `pickAt` takes, by the rotation mode.
pub mod Walks
pub mod Lru
use nano_llm_proxy.Prelude.{
  ℕ, zero, suc, ◌+◌, ◌%◌, Bool, Option, none, some, List, [], ◌∷◌, ltb, if◌then◌else◌, length,
  get_elem?,
}
use nano_llm_proxy.Time.{Calendar}
use nano_llm_proxy.Pool.Keys.{KeyState}

pub data Mode : Type 0 where
  priority priority_daily lru : Mode

-- dailyOffset
unfoldable pub daily_offset : Calendar → ℕ → ℕ → ℕ
daily_offset c now n = c.day now % n

-- the walk of the priority modes: position start + i, start + i + 1, … for `rounds` rounds
unfoldable pub walk : (KeyState → Bool) → List KeyState → ℕ → ℕ → ℕ → Option ℕ
walk test keys start i zero = none
walk test keys start i (suc rounds) =
    let rest = walk test keys start (i + 1) rounds in
    elim (get_elem? keys ((start + i) % length keys)) [
      | none ↦ none
      | some k ↦ if test k then rest else some ((start + i) % length keys)
    ]

-- the body of the LRU loop for an unblocked key
unfoldable pub better : ℕ → KeyState → Option (ℕ × KeyState) → Option (ℕ × KeyState)
better i k none = some (i, k)
better i k (some (j, b)) = if ltb k.last_used b.last_used then some (i, k) else some (j, b)

-- the LRU loop: `best` is the least recently used unblocked key so far
unfoldable pub least_used :
    (KeyState → Bool) → ℕ → List KeyState → Option (ℕ × KeyState) → Option (ℕ × KeyState)
unfolding better
least_used test i [] best = best
least_used test i (k ∷ ks) best =
    least_used test (i + 1) ks (if test k then best else better i k best)

abbrev pub position : Option (ℕ × KeyState) → Option ℕ
position none = none
position (some (i, k)) = some i

-- the position that pickAt returns, and none where every key is blocked by `test`
unfoldable pub choose : Calendar → Mode → List KeyState → (KeyState → Bool) → ℕ → Option ℕ
choose c priority keys test now = walk test keys 0 0 (length keys)
choose c priority_daily keys test now =
    walk test keys (daily_offset c now (length keys)) 0 (length keys)
choose c lru keys test now = position (least_used test 0 keys none)
