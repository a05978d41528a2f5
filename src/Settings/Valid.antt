-- ===== src/Settings/Valid.antt =====
-- Validate accepts the settings that are within their bounds, and no others.
use nano_llm_proxy.Prelude.{
  ℕ, ne_of_str_eq, ◌≤◌, ◌≡◌, ◌≢◌, ◌↔◌, ◌⊎◌, refl, inl, inr, Bool, true, false, not, ◌||◌, ◌&&◌,
  Option, none, some, List, [], ◌∷◌, String, str_eq, eq_iff, arith, ℤ, pos, negsuc, All, Bool-cases,
  codes, trim_space,
}
use nano_llm_proxy.Settings.{ModelMeta, WebToolsSettings, RuntimeSettings}
use nano_llm_proxy.Settings.Versions.{ua_version_ok}
use nano_llm_proxy.Settings.Parts.{
  ProviderModel, two_parts-ProviderModel, GoodPath, same_text_iff, has_control_iff,
}
use nano_llm_proxy.Settings.Checks.{
  Problem, problem_if, within, positive, meta_problem, entries, id_problem, path_ok, Url, url_ok,
  web_problem, validate,
}

abbrev pub Between : ℕ → ℕ → ℤ → Type 0
Between lo hi z = (n : ℕ) × ((z ≡ pos n) × ((lo ≤ n) × (n ≤ hi)))

abbrev pub Positive : ℤ → Type 0
Positive z = (n : ℕ) × ((z ≡ pos n) × (1 ≤ n))

within-Between : (lo hi : ℕ) (z : ℤ) → (within lo hi z ≡ true) ↔ Between lo hi z
within-Between lo hi (pos n) = (
  λ h. (n, (refl, (ground arith, ground arith))),
  λ (m, (e, (a, b))). let q : n ≡ m = cc in ground arith,
)
within-Between lo hi (negsuc n) = (λ h. cc, λ (m, (e, r)). cc)

positive-Positive : (z : ℤ) → (positive z ≡ true) ↔ Positive z
positive-Positive (pos n) =
    (λ h. (n, (refl, ground arith)), λ (m, (e, a)). let q : n ≡ m = cc in ground arith)
positive-Positive (negsuc n) = (λ h. cc, λ (m, (e, r)). cc)

abbrev pub Rotations : String → Type 0
Rotations r = ((r ≡ "priority-daily") ⊎ (r ≡ "priority")) ⊎ (r ≡ "lru")

or_iff : {A B : Type 0} (a b : Bool) → (a ≡ true) ↔ A → (b ≡ true) ↔ B → ((a || b) ≡ true) ↔ (A ⊎ B)
or_iff true b f g = (λ h. inl (f.0 refl), λ x. refl)
or_iff false b f g =
    (λ h. inr (g.0 h), λ x. elim x [ inl y ↦ absurd (let q = f.1 y in cc) | inr y ↦ g.1 y ])

and_iff :
    {A B : Type 0} (a b : Bool) → (a ≡ true) ↔ A → (b ≡ true) ↔ B → ((a && b) ≡ true) ↔ (A × B)
and_iff true b f g = (λ h. (f.0 refl, g.0 h), λ (x, y). g.1 y)
and_iff false b f g = (λ h. absurd (cc), λ (x, y). let q = f.1 x in cc)

not_empty_iff : (s : String) → (not (str_eq s "") ≡ true) ↔ (s ≢ "")
not_empty_iff s = elim (Bool-cases (str_eq s "")) [
  | inl e ↦ rw e (λ h. absurd (cc), λ n. absurd (n ((eq_iff s "").0 e)))
  | inr e ↦ rw e (λ h. ne_of_str_eq s "" e, λ n. refl)
]

if_ok :
    {P Q : Type 0} (ok : Bool) (p : Problem) (rest : Option Problem)
    → (ok ≡ true) ↔ P
    → (rest ≡ none) ↔ Q
    → (problem_if (not ok) p rest ≡ none) ↔ (P × Q)
unfolding problem_if
if_ok true p rest a b = (λ h. (a.0 refl, b.0 h), λ (x, y). b.1 y)
if_ok false p rest a b = (λ h. cc, λ (x, y). let q = a.1 x in cc)

same_iff : {A : Type 0} → A ↔ A
same_iff = (λ a. a, λ a. a)

abbrev pub GoodMeta : String × ModelMeta → Type 0
GoodMeta e = Positive e.1.context_window × Positive e.1.max_output_tokens

assoc_iff : {A B C : Type 0} → (A × (B × C)) ↔ ((A × B) × C)
assoc_iff = (λ (a, (b, c)). ((a, b), c), λ ((a, b), c). (a, (b, c)))

iff_trans : {A B C : Type 0} → A ↔ B → B ↔ C → A ↔ C
iff_trans f g = (λ a. g.0 (f.0 a), λ c. f.1 (g.1 c))

meta_problem-none :
    {Q : Type 0} (ms : List (String × ModelMeta)) (rest : Option Problem)
    → (rest ≡ none) ↔ Q
    → (meta_problem ms rest ≡ none) ↔ (All GoodMeta ms × Q)
unfolding meta_problem
meta_problem-none [] rest q = (λ h. (tt, q.0 h), λ (u, x). q.1 x)
meta_problem-none ((id, m) ∷ ms) rest q =
    iff_trans
      (if_ok (positive m.context_window) _ _ (positive-Positive m.context_window) (
        if_ok (positive m.max_output_tokens) _ _ (positive-Positive m.max_output_tokens)
          (meta_problem-none ms rest q)))
      (λ (a, (b, (c, d))). (((a, b), c), d), λ (((a, b), c), d). (a, (b, (c, d))))

id_problem-none :
    {Q : Type 0} (ids : List ℤ) (rest : Option Problem)
    → (rest ≡ none) ↔ Q
    → (id_problem ids rest ≡ none) ↔ (All Positive ids × Q)
unfolding id_problem
id_problem-none [] rest q = (λ h. (tt, q.0 h), λ (u, x). q.1 x)
id_problem-none (id ∷ ids) rest q =
    iff_trans (if_ok (positive id) _ _ (positive-Positive id) (id_problem-none ids rest q))
      assoc_iff

-- An http URL with a host.
abbrev pub GoodUrl : Option Url → Type 0
GoodUrl o =
    (u : Url) × ((o ≡ some u) × ((u.host ≢ "") × ((u.scheme ≡ "http") ⊎ (u.scheme ≡ "https"))))

url_ok-GoodUrl : (o : Option Url) → (url_ok o ≡ true) ↔ GoodUrl o
url_ok-GoodUrl none = (λ h. absurd (cc), λ (u, (e, r)). absurd (cc))
url_ok-GoodUrl (some u) =
    let f =
      and_iff _ _ (not_empty_iff u.host)
        (or_iff _ _ (eq_iff u.scheme "http") (eq_iff u.scheme "https")) in
    (λ h. (u, (refl, f.0 h)), λ (v, (e, r)). let q : u ≡ v = cc in f.1 (rw q r))

path_ok-GoodPath : (p : String) → (path_ok p ≡ true) ↔ GoodPath p
path_ok-GoodPath p =
    let s = codes p in
    let f =
      and_iff _ _ (and_iff _ _ (not_empty_iff p) (same_text_iff s (trim_space s)))
        (has_control_iff s) in
    (λ h. let ((a, b), c) = f.0 h in (a, (b, c)), λ (a, (b, c)). f.1 ((a, b), c))

abbrev pub ValidWeb : (String → Option Url) → WebToolsSettings → Type 0
ValidWeb parse_url wt =
    ((wt.reader_mode ≡ "fast") ⊎ (wt.reader_mode ≡ "render"))
    × (GoodUrl (parse_url wt.searxng_url)
        × (Between 1 8 wt.obscura_concurrency
            × (Between 1 120 wt.fetch_timeout_seconds
                × (Between 5 300 wt.obscura_timeout_seconds
                    × (Between 1000 200000 wt.max_chars × GoodPath wt.obscura_path)))))

abbrev pub Valid : (String → Option Url) → RuntimeSettings → Type 0
Valid parse_url rs =
    Rotations rs.rotation
    × (Between 1 100 rs.retry.max_keys_per_request
        × (Between 0 86400 rs.retry.cooldown_seconds
            × (Between 0 1000000 rs.retry.max_requests_per_key_day
                × (((rs.fallback_model ≡ "") ⊎ ProviderModel (codes rs.fallback_model))
                    × ((ua_version_ok rs.zen.user_agent ≡ true)
                        × (All GoodMeta (entries rs.zen.model_meta)
                            × (All GoodMeta (entries rs.zai_meta)
                                × (All Positive rs.disabled_provider_ids
                                    × ValidWeb parse_url rs.web_tools))))))))

module _ (parse_url : String → Option Url) where
  last_ok :
      {P : Type 0} (ok : Bool) (p : Problem)
      → (ok ≡ true) ↔ P
      → (problem_if (not ok) p none ≡ none) ↔ P
  unfolding problem_if
  last_ok true p f = (λ h. f.0 refl, λ x. refl)
  last_ok false p f = (λ h. cc, λ x. absurd (let q = f.1 x in cc))

  web_problem-none :
      (wt : WebToolsSettings) → (web_problem parse_url wt ≡ none) ↔ ValidWeb parse_url wt
  unfolding web_problem
  web_problem-none wt =
      if_ok _ _ _ (or_iff _ _ (eq_iff wt.reader_mode "fast") (eq_iff wt.reader_mode "render")) (
        if_ok _ _ _ (url_ok-GoodUrl (parse_url wt.searxng_url)) (
          if_ok _ _ _ (within-Between 1 8 wt.obscura_concurrency) (
            if_ok _ _ _ (within-Between 1 120 wt.fetch_timeout_seconds) (
              if_ok _ _ _ (within-Between 5 300 wt.obscura_timeout_seconds) (
                if_ok _ _ _ (within-Between 1000 200000 wt.max_chars)
                  (last_ok (path_ok wt.obscura_path) _ (path_ok-GoodPath wt.obscura_path)))))))

  -- Validate finds no problem exactly if every setting is within its bounds: the rotation is one of the
  -- three, the numbers are in their ranges, the fallback model is empty or two texts that are not empty
  -- with one slash between them, the user agent passes UAVersionOK, the limits of every model of Zen and
  -- of Z.ai and every provider id are positive, the reader's mode is "fast" or "render", the search URL
  -- is an http URL with a host, and the path of the browser is not empty and has no control characters
  -- and no blanks around it. The limits of Kilo's models are free.
  pub validate-Valid : (rs : RuntimeSettings) → (validate parse_url rs ≡ none) ↔ Valid parse_url rs
  unfolding validate
  validate-Valid rs =
      if_ok _ _ _
        (or_iff _ _
          (or_iff _ _ (eq_iff rs.rotation "priority-daily") (eq_iff rs.rotation "priority"))
          (eq_iff rs.rotation "lru"))
        (if_ok _ _ _ (within-Between 1 100 rs.retry.max_keys_per_request) (
          if_ok _ _ _ (within-Between 0 86400 rs.retry.cooldown_seconds) (
            if_ok _ _ _ (within-Between 0 1000000 rs.retry.max_requests_per_key_day) (
              if_ok _ _ _
                (or_iff _ _ (eq_iff rs.fallback_model "")
                  (two_parts-ProviderModel (codes rs.fallback_model)))
                (if_ok _ _ _ same_iff (
                  meta_problem-none (entries rs.zen.model_meta) _ (
                    meta_problem-none (entries rs.zai_meta) _ (
                      id_problem-none rs.disabled_provider_ids _
                        (web_problem-none rs.web_tools)))))))))
