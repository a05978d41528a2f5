-- ===== src/Settings/Checks.antt =====
-- Validate: the first problem of the settings.
use nano_llm_proxy.Prelude.{
  ℕ, Bool, true, false, not, ◌&&◌, ◌||◌, Option, none, some, List, [], ◌∷◌, if◌then◌else◌, leb,
  String, str_eq, codes, is_control, trim_space, split_on, same_text, ℤ, pos, negsuc,
}
use nano_llm_proxy.Settings.{ModelMeta, MetaMap, WebToolsSettings, RuntimeSettings}
use nano_llm_proxy.Settings.Versions.{ua_version_ok}

pub data Problem : Type 0 where
  bad_rotation : Problem
  bad_max_keys : Problem
  bad_cooldown : Problem
  bad_daily_cap : Problem
  bad_fallback_model : String → Problem
  bad_user_agent : String → Problem
  bad_context_window : String → Problem
  bad_max_output : String → Problem
  bad_provider_id : ℤ → Problem
  bad_reader_mode : String → Problem
  bad_searxng_url : String → Problem
  bad_concurrency : Problem
  bad_fetch_timeout : Problem
  bad_obscura_timeout : Problem
  bad_max_chars : Problem
  bad_obscura_path : Problem

-- if bad { return p }
unfoldable pub problem_if : Bool → Problem → Option Problem → Option Problem
problem_if bad p rest = if bad then some p else rest

abbrev pub within : ℕ → ℕ → ℤ → Bool
within lo hi (pos n) = leb lo n && leb n hi
within lo hi (negsuc n) = false

abbrev pub positive : ℤ → Bool
positive (pos n) = leb 1 n
positive (negsuc n) = false

abbrev pub is_empty : List ℕ → Bool
is_empty [] = true
is_empty (c ∷ s) = false

abbrev pub two_parts : List (List ℕ) → Bool
two_parts (a ∷ b ∷ []) = not (is_empty a) && not (is_empty b)
two_parts _ = false

abbrev pub fallback_ok : String → Bool
fallback_ok f = str_eq f "" || two_parts (split_on b'/' (codes f))

abbrev pub rotation_ok : String → Bool
rotation_ok r = str_eq r "priority-daily" || str_eq r "priority" || str_eq r "lru"

-- for id, meta := range …
unfoldable pub meta_problem : List (String × ModelMeta) → Option Problem → Option Problem
unfolding problem_if
meta_problem [] rest = rest
meta_problem ((id, m) ∷ ms) rest =
    problem_if (not (positive m.context_window)) (bad_context_window id)
      (problem_if (not (positive m.max_output_tokens)) (bad_max_output id) (meta_problem ms rest))

abbrev pub entries : MetaMap → List (String × ModelMeta)
entries none = []
entries (some ms) = ms

unfoldable pub id_problem : List ℤ → Option Problem → Option Problem
unfolding problem_if
id_problem [] rest = rest
id_problem (id ∷ ids) rest =
    problem_if (not (positive id)) (bad_provider_id id) (id_problem ids rest)

abbrev pub has_control : List ℕ → Bool
has_control [] = false
has_control (c ∷ s) = is_control c || has_control s

abbrev pub path_ok : String → Bool
path_ok p =
    let s = codes p in not (str_eq p "") && same_text s (trim_space s) && not (has_control s)

pub record Url : Type 0 where
  pub scheme : String
  pub host : String

abbrev pub url_ok : Option Url → Bool
url_ok none = false
url_ok (some u) = not (str_eq u.host "") && (str_eq u.scheme "http" || str_eq u.scheme "https")

module _ (parse_url : String → Option Url) where
  unfoldable pub web_problem : WebToolsSettings → Option Problem
  unfolding problem_if
  web_problem wt =
      problem_if (not (str_eq wt.reader_mode "fast" || str_eq wt.reader_mode "render"))
        (bad_reader_mode wt.reader_mode)
        (problem_if (not (url_ok (parse_url wt.searxng_url))) (bad_searxng_url wt.searxng_url) (
          problem_if (not (within 1 8 wt.obscura_concurrency)) bad_concurrency (
            problem_if (not (within 1 120 wt.fetch_timeout_seconds)) bad_fetch_timeout (
              problem_if (not (within 5 300 wt.obscura_timeout_seconds)) bad_obscura_timeout (
                problem_if (not (within 1000 200000 wt.max_chars)) bad_max_chars
                  (problem_if (not (path_ok wt.obscura_path)) bad_obscura_path none))))))

  unfoldable pub validate : RuntimeSettings → Option Problem
  unfolding problem_if ua_version_ok meta_problem id_problem web_problem
  validate rs = problem_if (not (rotation_ok rs.rotation)) bad_rotation (
      problem_if (not (within 1 100 rs.retry.max_keys_per_request)) bad_max_keys (
        problem_if (not (within 0 86400 rs.retry.cooldown_seconds)) bad_cooldown (
          problem_if (not (within 0 1000000 rs.retry.max_requests_per_key_day)) bad_daily_cap (
            problem_if (not (fallback_ok rs.fallback_model)) (bad_fallback_model rs.fallback_model)
              (problem_if (not (ua_version_ok rs.zen.user_agent)) (bad_user_agent rs.zen.user_agent)
                (meta_problem (entries rs.zen.model_meta) (
                  meta_problem (entries rs.zai_meta)
                    (id_problem rs.disabled_provider_ids (web_problem rs.web_tools)))))))))
