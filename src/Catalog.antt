-- ===== src/Catalog.antt =====
-- internal/gateway/routes.go (catalogGet): the request for a provider's list of models, which goes on
-- to the next key only where the answer may be the key's.
--
-- Between two steps of the walk the other requests may do anything to the pool. The lists themselves
-- are not modelled.
pub mod Fetches
mod Examples
use nano_llm_proxy.Prelude.{
  ℕ, zero, suc, max, Bool, true, false, Option, none, some, List, [], ◌∷◌, ◌==◌, ◌||◌,
  if◌then◌else◌, Map, insert, String,
}
use nano_llm_proxy.Time.{Calendar}
use nano_llm_proxy.Pool.Keys.{KeyState}
use nano_llm_proxy.Pool.{Pool, pick_at}
use nano_llm_proxy.Classify.{RetryConfig, Answer, classify}
use nano_llm_proxy.Rotation.{held}

-- What the upstream does with one request.
pub data Get : Type 0 where
  -- http.NewRequestWithContext fails
  no_request : Get
  -- the client's Do fails
  no_answer : Get
  answered : Answer → Get

-- One round of the loop, as the world outside determines it.
pub record Round : Type 0 where
  pub picked_at : ℕ
  pub get : Get
  pub answered_at : ℕ
  pub afterwards : Pool → Pool

-- what catalogGet returns: the answer, or an error
pub data Fetched : Type 0 where
  found : Answer → Fetched
  bad_request : Fetched
  unreachable : Fetched
  -- lastErr, with the status
  http_status : ℕ → Fetched
  no_healthy_keys : Fetched

-- lastErr after the loop
abbrev pub last_error : Option ℕ → Fetched
last_error none = no_healthy_keys
last_error (some status) = http_status status

-- A finished walk: the keys that were asked with, the pool and what was returned.
pub record Fetch : Type 0 where
  pub asked : List KeyState
  pub pool : Pool
  pub fetched : Fetched

abbrev also_asked : KeyState → Fetch → Fetch
also_asked k f = record f { asked = k ∷ f.asked }

-- the statuses that go on to the next key
abbrev pub of_the_key : ℕ → Bool
of_the_key status = (status == 401) || ((status == 403) || (status == 429))

-- the pool after an answer other than 200: only a 401 is classified
pub judge : RetryConfig → Pool → ℕ → Answer → ℕ → Pool
judge s p i a now = if a.status == 401 then (classify s p i a now).0 else p

module _ (c : Calendar) (s : RetryConfig) (rounds : ℕ → Round) where
  -- the loop with `left` rounds to go, after `n` requests
  unfoldable pub fetch_keys : ℕ → ℕ → Pool → Map Bool → Option ℕ → Fetch
  unfolding judge
  fetch_keys zero n p exclude last = record { asked = []; pool = p; fetched = last_error last }
  fetch_keys (suc left) n p exclude last =
      let (p', choice) = pick_at c p exclude "" (rounds n).picked_at in
      elim (held p' choice) [
        | none ↦ record { asked = []; pool = p'; fetched = last_error last }
        | some (i, k) ↦ elim (rounds n).get [
          | no_request ↦ record { asked = []; pool = p'; fetched = bad_request }
          | no_answer ↦ record {
            asked = k ∷ [];
            pool = (rounds n).afterwards p';
            fetched = unreachable;
          }
          | answered a ↦
              let judged = judge s p' i a (rounds n).answered_at in
              let rest =
                fetch_keys left (suc n) ((rounds n).afterwards judged) (insert k.hash true exclude)
                  (some a.status) in
              if a.status == 200
              then record { asked = k ∷ []; pool = (rounds n).afterwards p'; fetched = found a }
              else if of_the_key a.status
              then also_asked k rest
              else record {
                asked = k ∷ [];
                pool = (rounds n).afterwards p';
                fetched = http_status a.status;
              }
        ]
      ]

  unfoldable pub catalog_get : Pool → Fetch
  unfolding fetch_keys
  catalog_get p = fetch_keys (max 1 s.max_keys_per_request) 0 p [] none
