-- ===== src/Settings/Examples.antt =====
-- The seed of a database, and a document with repeated ids and nothing else set.
use nano_llm_proxy.Prelude.{
  ◌≡◌, ◌↔◌, refl, true, false, Option, none, some, [], ◌∷◌, String, str_eq, if◌then◌else◌, ℤ, pos,
  negsuc, split_on, trim_left, trim_right,
}
use nano_llm_proxy.Settings.{
  RuntimeSettings, apply_defaults, default_runtime_settings, default_local_runtime_settings,
}
use nano_llm_proxy.Settings.Versions.{ua_version_ok}
use nano_llm_proxy.Settings.Checks.{Url, validate, bad_provider_id}
use nano_llm_proxy.Settings.Defaults.{Canonical, holds_id, apply_defaults-Canonical}
use nano_llm_proxy.Settings.Valid.{Valid, validate-Valid}

abbrev parse_url : String → Option Url
parse_url s = if str_eq s "" then none else some (record { scheme = "http"; host = "127.0.0.1" })

abbrev unset : RuntimeSettings
unset =
    let rs : RuntimeSettings = default_runtime_settings in
    record rs {
      rotation = "";
      zai_meta = none;
      retry = record (rs.retry) { max_keys_per_request = pos 0 };
      disabled_provider_ids = pos 3 ∷ negsuc 1 ∷ pos 3 ∷ pos 1 ∷ [];
    }

versions-test :
    (ua_version_ok "opencode/1.18.0" ≡ true)
    × ((ua_version_ok "opencode/latest/2.0.29/cli" ≡ true)
        × ((ua_version_ok "opencode/1.17.9" ≡ false)
            × ((ua_version_ok "opencode//2.0.0/cli" ≡ false)
                × (ua_version_ok "opencode/2" ≡ false))))
unfolding ua_version_ok split_on
versions-test = (refl, (refl, (refl, (refl, refl))))

seed-test :
    (validate parse_url default_runtime_settings ≡ none)
    × (validate parse_url default_local_runtime_settings ≡ none)
unfolding validate split_on trim_right trim_left
seed-test = (refl, refl)

-- An id that is not positive is left for the validation to find.
unset-test : validate parse_url (apply_defaults unset) ≡ some (bad_provider_id (negsuc 1))
unfolding validate apply_defaults split_on trim_right trim_left
unset-test = refl

apply_defaults-Canonical_example :
    Canonical (apply_defaults unset)
    × ((i : ℤ)
        → holds_id i (apply_defaults unset).disabled_provider_ids
          ≡ holds_id i unset.disabled_provider_ids)
apply_defaults-Canonical_example = apply_defaults-Canonical unset

validate-Valid_example :
    (validate parse_url default_runtime_settings ≡ none) ↔ Valid parse_url default_runtime_settings
validate-Valid_example = validate-Valid parse_url default_runtime_settings
