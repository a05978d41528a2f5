-- ===== src/Access/Examples.antt =====
-- An admin and a user, both with a row for the same provider.
use nano_llm_proxy.Prelude.{
  ℕ, ◌≡◌, refl, false, ◌&&◌, ◌==◌, if◌then◌else◌, none, some, List, [], ◌∷◌, String,
}
use nano_llm_proxy.Accounts.{User, find_user}
use nano_llm_proxy.Access.{
  AccessRow, has_row, has_id, set_user_provider_access, disabled_provider_ids, UserAccessCache,
  ProviderRef, Gateway, Caller, CatalogEntry, model, raw, is_regular, all_provider_access, reload,
  disabled, catalog_for,
}
use nano_llm_proxy.Access.Rules.{disabled-reload}
use nano_llm_proxy.Access.Grants.{disabled-set, dialog-disabled}

abbrev user : ℕ → String → User
user id role = record {
  id = id;
  name = "n";
  email = "n@example.org";
  password_hash = "";
  role = role;
  disabled = false;
  google_linked = false;
}

abbrev users : List User
users = user 1 "admin" ∷ user 2 "user" ∷ []

abbrev rows : List AccessRow
rows = record { user_id = 1; provider_id = 7 } ∷ record { user_id = 2; provider_id = 7 } ∷ []

abbrev cache : UserAccessCache
cache = reload none (all_provider_access false users rows)

disabled-reload_example : disabled cache 2 7 ≡ (is_regular users 2 && has_row rows 2 7)
disabled-reload_example = disabled-reload none users rows 2 7

disabled-set_example :
    disabled
      (reload cache (all_provider_access false users (set_user_provider_access 2 7 false rows)))
      2
      7
    ≡ (is_regular users 2 && (if (2 == 2) && (7 == 7) then false else has_row rows 2 7))
disabled-set_example = disabled-set cache users rows 2 7 2 7 false

dialog-disabled_example : has_id 7 (disabled_provider_ids users rows 2) ≡ disabled cache 2 7
dialog-disabled_example = dialog-disabled none users rows 2 7

abbrev ref : ℕ → String → ProviderRef
ref id name = record {
  id = id;
  name = name;
  typ = "openai";
  base_url = "https://api.example.org/v1";
  anthropic_base_url = "";
  builtin = false;
  preset = "";
}

abbrev gateway : Gateway
gateway = record { registry = ref 6 "zen" ∷ ref 7 "kilo" ∷ []; access = cache }

abbrev caller : ℕ → Caller
caller uid = record { client_key = some uid; session = none }

abbrev catalog : List CatalogEntry
catalog = model "zen/a" ∷ model "kilo/b" ∷ model "c" ∷ model "gone/d" ∷ raw ∷ []

admin_reaches : disabled cache 1 7 ≡ false
unfolding disabled reload all_provider_access find_user
admin_reaches = refl

user_sees :
    catalog_for (some catalog) gateway (caller 2)
    ≡ some (model "zen/a" ∷ model "c" ∷ model "gone/d" ∷ raw ∷ [])
unfolding catalog_for reload all_provider_access find_user
user_sees = refl

admin_sees : catalog_for (some catalog) gateway (caller 1) ≡ some catalog
unfolding catalog_for reload all_provider_access find_user
admin_sees = refl
