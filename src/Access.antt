-- ===== src/Access.antt =====
-- internal/gateway/useraccess.go: which providers a user reaches, with the statements of
-- internal/store/store.go on user_provider_access and `provider` of internal/gateway/gateway.go.
--
-- The gateway has a store here; only tests run without one. The merged catalog and the caller are
-- arguments. An entry of the catalog is JSON: only a map has an id, a missing one is "". The pool of
-- a provider plays no part here.
pub mod Rules
pub mod Listing
pub mod Grants
mod Examples
use Prim.Native.Char.{code}
use nano_llm_proxy.Prelude.{
  ℕ, Bool, true, false, not, ◌&&◌, ◌||◌, Option, none, some, List, [], ◌∷◌, ◌==◌, ltb,
  if◌then◌else◌, keep_if, String, str_eq,
}
use nano_llm_proxy.Accounts.{User, find_user, regular}

-- a row of user_provider_access
pub record AccessRow : Type 0 where
  pub user_id : ℕ
  pub provider_id : ℕ

-- map[int64]map[int64]bool; each inner map holds only true, so it is the list of its keys
abbrev pub Pairs : Type 0
Pairs = List (ℕ × List ℕ)

-- userAccessCache: nil before the first reload
abbrev pub UserAccessCache : Type 0
UserAccessCache = Option Pairs

abbrev pub has_id : ℕ → List ℕ → Bool
has_id id [] = false
has_id id (i ∷ ids) = (i == id) || has_id id ids

-- m[userID]; a missing user has the nil map
pub inner : Pairs → ℕ → List ℕ
inner [] user_id = []
inner ((u, ids) ∷ m) user_id = if u == user_id then ids else inner m user_id

-- if out[uid] == nil { … }; out[uid][pid] = true
pub mark : Pairs → ℕ → ℕ → Pairs
mark [] uid pid = (uid, pid ∷ []) ∷ []
mark ((u, ids) ∷ m) uid pid =
    let rest = mark m uid pid in if u == uid then (u, pid ∷ ids) ∷ m else (u, ids) ∷ rest

-- JOIN users u ON u.id = a.user_id WHERE u.role = 'user'
pub is_regular : List User → ℕ → Bool
is_regular users user_id = elim (find_user user_id users) [
  | none ↦ false
  | some u ↦ str_eq u.role regular
]

pub collect : List User → List AccessRow → Pairs → Pairs
unfolding mark is_regular
collect users [] out = out
collect users (row ∷ rows) out =
    let marked = collect users rows (mark out row.user_id row.provider_id) in
    let skipped = collect users rows out in if is_regular users row.user_id then marked else skipped

-- The table has the row.
abbrev pub has_row : List AccessRow → ℕ → ℕ → Bool
has_row [] user_id provider_id = false
has_row (row ∷ rows) user_id provider_id =
    ((row.user_id == user_id) && (row.provider_id == provider_id))
    || has_row rows user_id provider_id

-- SetUserProviderAccess; the order of rows plays no part
pub set_user_provider_access : ℕ → ℕ → Bool → List AccessRow → List AccessRow
set_user_provider_access user_id provider_id false rows =
    keep_if (λ row. not ((row.user_id == user_id) && (row.provider_id == provider_id))) rows
set_user_provider_access user_id provider_id true rows =
    if has_row rows user_id provider_id
    then rows
    else record { user_id = user_id; provider_id = provider_id } ∷ rows

-- SELECT a.provider_id … WHERE a.user_id=?
pub ids_of : List AccessRow → ℕ → List ℕ
ids_of [] user_id = []
ids_of (row ∷ rows) user_id =
    let rest = ids_of rows user_id in
    if row.user_id == user_id then row.provider_id ∷ rest else rest

-- DisabledProviderIDs
pub disabled_provider_ids : List User → List AccessRow → ℕ → List ℕ
unfolding ids_of is_regular
disabled_provider_ids users rows user_id =
    if is_regular users user_id then ids_of rows user_id else []

-- AllProviderAccess; none is an error
pub all_provider_access : Bool → List User → List AccessRow → Option Pairs
unfolding collect
all_provider_access fails users rows = if fails then none else some (collect users rows [])

pub reload : UserAccessCache → Option Pairs → UserAccessCache
reload c none = c
reload c (some pairs) = some pairs

pub disabled : UserAccessCache → ℕ → ℕ → Bool
unfolding inner
disabled none user_id provider_id = false
disabled (some m) user_id provider_id = has_id provider_id (inner m user_id)

pub any_disabled : UserAccessCache → ℕ → Bool
unfolding inner
any_disabled none user_id = false
any_disabled (some m) user_id = elim (inner m user_id) [ [] ↦ false | id ∷ ids ↦ true ]

pub record ProviderRef : Type 0 where
  pub id : ℕ
  pub name : String
  pub typ : String
  pub base_url : String
  pub anthropic_base_url : String
  pub builtin : Bool
  pub preset : String

pub record Gateway : Type 0 where
  pub registry : List ProviderRef
  pub access : UserAccessCache

-- the owner of the client key, and the user of the session
pub record Caller : Type 0 where
  pub client_key : Option ℕ
  pub session : Option ℕ

pub provider : List ProviderRef → String → Option ProviderRef
provider [] prefix = none
provider (ref ∷ refs) prefix =
    let rest = provider refs prefix in if str_eq ref.name prefix then some ref else rest

pub provider_for : Gateway → Caller → String → Option ProviderRef
unfolding provider disabled
provider_for g r prefix = elim (provider g.registry prefix) [
  | none ↦ none
  | some ref ↦ elim r.client_key [
    | none ↦ some ref
    | some uid ↦ if disabled g.access uid ref.id then none else some ref
  ]
]

pub caller_user_id : Caller → Option ℕ
caller_user_id r = elim r.client_key [
  | some uid ↦ some uid
  | none ↦ elim r.session [ none ↦ none | some uid ↦ if ltb 0 uid then some uid else none ]
]

-- an entry of the catalog: a JSON map, by its id, or another value
pub data CatalogEntry : Type 0 where
  model : String → CatalogEntry
  raw : CatalogEntry

-- the text before the first "/"
abbrev pub prefix_of : String → Option String
prefix_of String.[] = none
prefix_of (String.◌∷◌ c s) =
    let rest = prefix_of s in
    if code c == 47 then some "" else elim rest [ none ↦ none | some p ↦ some (String.◌∷◌ c p) ]

-- the loop over the registry in catalogFor
pub prefix_blocked : List ProviderRef → UserAccessCache → ℕ → String → Bool
unfolding disabled
prefix_blocked [] access uid prefix = false
prefix_blocked (ref ∷ refs) access uid prefix =
    let rest = prefix_blocked refs access uid prefix in
    if str_eq ref.name prefix then disabled access uid ref.id else rest

pub entry_hidden : Gateway → ℕ → CatalogEntry → Bool
unfolding prefix_blocked
entry_hidden g uid raw = false
entry_hidden g uid (model id) = elim (prefix_of id) [
  | none ↦ false
  | some prefix ↦ prefix_blocked g.registry g.access uid prefix
]

-- the loop over the models in catalogFor
pub filter_models : Gateway → ℕ → List CatalogEntry → List CatalogEntry
unfolding entry_hidden
filter_models g uid [] = []
filter_models g uid (m ∷ models) =
    let out = filter_models g uid models in if not (entry_hidden g uid m) then m ∷ out else out

-- the first argument is the result of mergedCatalog
pub catalog_for : Option (List CatalogEntry) → Gateway → Caller → Option (List CatalogEntry)
unfolding caller_user_id any_disabled filter_models
catalog_for none g r = none
catalog_for (some models) g r = elim (caller_user_id r) [
  | none ↦ some models
  | some uid ↦ if any_disabled g.access uid then some (filter_models g uid models) else some models
]
