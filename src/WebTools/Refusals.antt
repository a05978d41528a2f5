-- ===== src/WebTools/Refusals.antt =====
-- What web_read hands to the network and to the browser.
use nano_llm_proxy.Prelude.{
  not, ◌||◌, ◌≡◌, ◌⊎◌, Bool, true, false, none, some, List, ◌∷◌, All, String, str_eq,
}
use nano_llm_proxy.WebTools.{WebUrl, Addr, ip_is_blocked, url_allowed}
use nano_llm_proxy.WebTools.Reading.{
  FetchOutcome, Contact, requested, dialled, browsed, Reading, Network,
}

module _ (world : Network) where
  -- The URL is one that the check of URLs lets through.
  abbrev pub Allowed : String → Type 0
  Allowed s = (u : WebUrl) × ((world.parse_url s ≡ some u) × (url_allowed (some u) ≡ none))

  -- The check of URLs does not refuse it, though it may not parse.
  abbrev pub NotRefused : String → Type 0
  NotRefused s = (u : WebUrl) → world.parse_url s ≡ some u → url_allowed (some u) ≡ none

  -- `Asked` is what sends a page to the browser first.
  abbrev pub Guarded : Type 0 → Contact → Type 0
  Guarded Asked (requested s) = Allowed s
  Guarded Asked (dialled a) = (ip : Addr) × ((a ≡ some ip) × (ip_is_blocked ip ≡ false))
  Guarded Asked (browsed s) = Asked ⊎ NotRefused s

  record Fetched (Asked : Type 0) (s : String) (p : FetchOutcome × List Contact) : Type 0 where
    guarded : All (Guarded Asked) p.1
    free : p.0.outcome.blocked ≡ none → NotRefused s

  abbrev AllGuarded : Type 0 → Reading → Type 0
  AllGuarded Asked r = All (Guarded Asked) r.contacts

  -- Whether the URL goes to the browser before anything else.
  abbrev pub browses_first : String → List Contact → Bool
  browses_first s (browsed t ∷ cs) = str_eq t s
  browses_first s _ = false

  AsFirst : Bool → String → Reading → Type 0
  AsFirst asked s r = (not asked || browses_first s r.contacts) ≡ true
