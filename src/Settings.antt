-- ===== src/Settings.antt =====
-- internal/settings/settings.go: the runtime settings, their defaults and their validation.
--
-- An int is an integer. A nil map is `none`. A problem is a constructor in place of its message, one for
-- the models of Zen and of Z.ai. A map is a list in the order in which it is read.
-- url.Parse is an argument of the validation: a URL's scheme and host.
pub mod Versions
pub mod Checks
pub mod Defaults
pub mod Parts
pub mod Valid
mod Examples
use nano_llm_proxy.Prelude.{
  ℕ, zero, suc, Bool, true, Option, none, some, List, [], ◌∷◌, if◌then◌else◌, String, str_eq, ℤ,
  pos, negsuc, leb,
}

pub record ModelMeta : Type 0 where
  pub context_window : ℤ
  pub max_output_tokens : ℤ

abbrev pub MetaMap : Type 0
MetaMap = Option (List (String × ModelMeta))

pub record RetryConfig : Type 0 where
  pub max_keys_per_request : ℤ
  pub cooldown_seconds : ℤ
  pub respect_retry_after : Bool
  pub max_requests_per_key_day : ℤ

pub record ZenSettings : Type 0 where
  pub user_agent : String
  pub inject_tools : Bool
  pub free_only : Bool
  pub model_meta : MetaMap

pub record WebToolsSettings : Type 0 where
  pub enabled : Bool
  pub searxng_url : String
  pub reader_mode : String
  pub obscura_path : String
  pub obscura_stealth : Bool
  pub obscura_concurrency : ℤ
  pub fetch_timeout_seconds : ℤ
  pub obscura_timeout_seconds : ℤ
  pub max_chars : ℤ

-- without the settings that neither the defaults nor the validation read
pub record KiloSettings : Type 0 where
  pub free_only : Bool
  pub model_meta : MetaMap

pub record RuntimeSettings : Type 0 where
  pub rotation : String
  pub retry : RetryConfig
  pub fallback_model : String
  pub zen : ZenSettings
  pub kilo : KiloSettings
  pub zai_meta : MetaMap
  pub web_tools : WebToolsSettings
  pub disabled_provider_ids : List ℤ

-- if s == "" { s = d }
abbrev pub or_text : String → String → String
or_text d s = if str_eq s "" then d else s

-- if v <= 0 { v = d }
abbrev pub or_positive : ℕ → ℤ → ℤ
or_positive d (pos zero) = pos d
or_positive d (pos (suc n)) = pos (suc n)
or_positive d (negsuc n) = pos d

abbrev pub or_empty : MetaMap → MetaMap
or_empty none = some []
or_empty (some m) = some m

abbrev pub le_ℤ : ℤ → ℤ → Bool
le_ℤ (pos a) (pos b) = leb a b
le_ℤ (pos a) (negsuc b) = Bool.false
le_ℤ (negsuc a) (pos b) = true
le_ℤ (negsuc a) (negsuc b) = leb b a

abbrev pub eq_int : ℤ → ℤ → Bool
eq_int a b = if le_ℤ a b then le_ℤ b a else Bool.false

abbrev pub insert_id : ℤ → List ℤ → List ℤ
insert_id x [] = x ∷ []
insert_id x (y ∷ ys) = let rest = insert_id x ys in if le_ℤ x y then x ∷ y ∷ ys else y ∷ rest

-- slices.Sort
unfoldable pub sort_ids : List ℤ → List ℤ
sort_ids [] = []
sort_ids (x ∷ xs) = insert_id x (sort_ids xs)

abbrev pub compact_after : ℤ → List ℤ → List ℤ
compact_after x [] = []
compact_after x (y ∷ ys) = let rest = compact_after y ys in if eq_int x y then rest else y ∷ rest

-- slices.Compact
unfoldable pub compact : List ℤ → List ℤ
compact [] = []
compact (x ∷ xs) = x ∷ compact_after x xs

abbrev pub default_zen_user_agent : String
default_zen_user_agent = "opencode/latest/2.0.29/cli"

abbrev pub default_searxng_url : String
default_searxng_url = "http://127.0.0.1:8888"

abbrev pub web_defaults : WebToolsSettings → WebToolsSettings
web_defaults wt = record wt {
  searxng_url = or_text default_searxng_url wt.searxng_url;
  reader_mode = or_text "fast" wt.reader_mode;
  obscura_path = or_text "obscura" wt.obscura_path;
  obscura_concurrency = or_positive 2 wt.obscura_concurrency;
  fetch_timeout_seconds = or_positive 15 wt.fetch_timeout_seconds;
  obscura_timeout_seconds = or_positive 30 wt.obscura_timeout_seconds;
  max_chars = or_positive 20000 wt.max_chars;
}

unfoldable pub apply_defaults : RuntimeSettings → RuntimeSettings
unfolding sort_ids compact
apply_defaults rs = record rs {
  rotation = or_text "priority-daily" rs.rotation;
  retry = record (rs.retry) { max_keys_per_request = or_positive 3 rs.retry.max_keys_per_request };
  zen = record (rs.zen) {
    user_agent = or_text default_zen_user_agent rs.zen.user_agent;
    model_meta = or_empty rs.zen.model_meta;
  };
  zai_meta = or_empty rs.zai_meta;
  web_tools = web_defaults rs.web_tools;
  disabled_provider_ids = compact (sort_ids rs.disabled_provider_ids);
}

-- DefaultRuntimeSettings
abbrev pub default_runtime_settings : RuntimeSettings
default_runtime_settings = record {
  rotation = "priority-daily";
  retry = record {
    max_keys_per_request = pos 3;
    cooldown_seconds = pos 30;
    respect_retry_after = true;
    max_requests_per_key_day = pos 0;
  };
  fallback_model = "";
  zen = record {
    user_agent = default_zen_user_agent;
    inject_tools = true;
    free_only = Bool.false;
    model_meta = some [];
  };
  kilo = record { free_only = Bool.false; model_meta = none };
  zai_meta = some [];
  web_tools = record {
    enabled = Bool.false;
    searxng_url = default_searxng_url;
    reader_mode = "fast";
    obscura_path = "obscura";
    obscura_stealth = Bool.false;
    obscura_concurrency = pos 2;
    fetch_timeout_seconds = pos 15;
    obscura_timeout_seconds = pos 30;
    max_chars = pos 20000;
  };
  disabled_provider_ids = [];
}

-- DefaultLocalRuntimeSettings
abbrev pub default_local_runtime_settings : RuntimeSettings
default_local_runtime_settings =
    let rs : RuntimeSettings = default_runtime_settings in
    record rs {
      web_tools = record (rs.web_tools) { enabled = true; searxng_url = "http://127.0.0.1:8899" };
    }
