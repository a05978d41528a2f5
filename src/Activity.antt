-- ===== src/Activity.antt =====
-- internal/gateway/clientkeys.go: the ring of recent requests that the dashboard shows.
--
-- Each method holds the mutex for its whole body. The counters per client key are not modelled.
pub mod Ring
mod Examples
use nano_llm_proxy.Prelude.{
  ℕ, zero, suc, ◌+◌, ◌-◌, ◌%◌, Bool, true, false, Option, none, some, List, [], ◌∷◌, ◌==◌,
  if◌then◌else◌, String, get_elem?, modify, replicate,
}

pub record ActivityEntry : Type 0 where
  pub ts : ℕ
  pub user_id : ℕ
  pub key_alias : String
  pub user : String
  pub provider : String
  pub model : String
  pub key_hash : String
  pub status : ℕ
  pub duration_ms : ℕ
  pub fail_reason : String

abbrev pub activity_ring_size : ℕ
activity_ring_size = 100

-- the zero value
abbrev pub no_entry : ActivityEntry
no_entry = record {
  ts = 0;
  user_id = 0;
  key_alias = "";
  user = "";
  provider = "";
  model = "";
  key_hash = "";
  status = 0;
  duration_ms = 0;
  fail_reason = "";
}

pub record UsageTracker : Type 0 where
  pub ring : List ActivityEntry
  pub ring_idx : ℕ

pub new_usage_tracker : UsageTracker
new_usage_tracker = record { ring = replicate activity_ring_size no_entry; ring_idx = 0 }

pub add_activity : UsageTracker → ActivityEntry → UsageTracker
add_activity u e = record {
  ring = modify u.ring u.ring_idx (λ old. e);
  ring_idx = (u.ring_idx + 1) % activity_ring_size;
}

-- the slot of the entry that is `i` before the newest
abbrev pub slot : UsageTracker → ℕ → ℕ
slot u i = (u.ring_idx + activity_ring_size - 1 - i) % activity_ring_size

-- the loop of recentWhere, at its i-th round with `left` to go and room for n entries; a nil `keep`
-- keeps all
pub walk_ring : UsageTracker → (ActivityEntry → Bool) → ℕ → ℕ → ℕ → List ActivityEntry
walk_ring u keep zero i n = []
walk_ring u keep (suc left) i zero = []
walk_ring u keep (suc left) i (suc n) = elim (get_elem? u.ring (slot u i)) [
  | none ↦ []
  | some e ↦
      let kept = walk_ring u keep left (suc i) n in
      let skipped = walk_ring u keep left (suc i) (suc n) in
      if e.ts == 0 then [] else if keep e then e ∷ kept else skipped
]

pub recent_where : UsageTracker → ℕ → (ActivityEntry → Bool) → List ActivityEntry
unfolding walk_ring
recent_where u n keep = walk_ring u keep activity_ring_size 0 n

pub recent : UsageTracker → ℕ → List ActivityEntry
unfolding recent_where
recent u n = recent_where u n (λ e. true)
