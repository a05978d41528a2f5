-- ===== src/Activity/Examples.antt =====
-- A ring with three requests.
use nano_llm_proxy.Prelude.{ℕ, ◌≡◌, refl, Bool, List, [], ◌∷◌, ◌==◌, take, keep_if}
use nano_llm_proxy.Activity.{ActivityEntry, no_entry, recent_where, activity_ring_size}
use nano_llm_proxy.Activity.Ring.{tracker_of, recent_where-take}

abbrev entry : ℕ → ℕ → ActivityEntry
entry ts user_id = record no_entry { ts = ts; user_id = user_id }

abbrev three : List ActivityEntry
three = entry 30 1 ∷ entry 20 2 ∷ entry 10 1 ∷ []

abbrev of_first : ActivityEntry → Bool
of_first e = e.user_id == 1

recent_where-take_example :
    recent_where (tracker_of three) 2 of_first
    ≡ take 2 (keep_if of_first (take activity_ring_size three))
recent_where-take_example = recent_where-take three 2 of_first (refl, (refl, (refl, tt)))

own_requests : recent_where (tracker_of three) 2 of_first ≡ entry 30 1 ∷ entry 10 1 ∷ []
own_requests = recent_where-take_example
