-- ===== src/Settings/Defaults.antt =====
-- ApplyDefaults: it gives a canonical document, and does nothing to one.
use nano_llm_proxy.Prelude.{
  ◌≡◌, refl, sym, ap, ◌∙◌, ◌||◌, inl, inr, Bool-cases, Bool, true, false, List, [], ◌∷◌, String,
  str_eq, if◌then◌else◌, ℤ, pos, negsuc, ℕ, suc, zero, arith, none, some,
}
use nano_llm_proxy.Settings.{
  MetaMap, RuntimeSettings, WebToolsSettings, or_text, or_positive, or_empty, le_ℤ, eq_int,
  insert_id, sort_ids, compact_after, compact, web_defaults, apply_defaults, default_zen_user_agent,
  default_searxng_url,
}

le_ℤ_total : (a b : ℤ) → le_ℤ a b ≡ false → le_ℤ b a ≡ true
le_ℤ_total (pos a) (pos b) h = ground arith
le_ℤ_total (pos a) (negsuc b) h = refl
le_ℤ_total (negsuc a) (pos b) h = absurd (cc)
le_ℤ_total (negsuc a) (negsuc b) h = ground arith

le_ℤ_trans : (a b c : ℤ) → le_ℤ a b ≡ true → le_ℤ b c ≡ true → le_ℤ a c ≡ true
le_ℤ_trans (pos a) (pos b) (pos c) h k = ground arith
le_ℤ_trans (pos a) (pos b) (negsuc c) h k = cc
le_ℤ_trans (pos a) (negsuc b) c h k = cc
le_ℤ_trans (negsuc a) (pos b) (pos c) h k = refl
le_ℤ_trans (negsuc a) (pos b) (negsuc c) h k = cc
le_ℤ_trans (negsuc a) (negsuc b) (pos c) h k = refl
le_ℤ_trans (negsuc a) (negsuc b) (negsuc c) h k = ground arith

-- Each element is at most the next one, the first at least `x`.
abbrev From : ℤ → List ℤ → Type 0
From x [] = Unit
From x (y ∷ ys) = (le_ℤ x y ≡ true) × From y ys

-- Each element is below the next one, and `x` below the first.
abbrev pub Above : ℤ → List ℤ → Type 0
Above x [] = Unit
Above x (y ∷ ys) = (le_ℤ y x ≡ false) × Above y ys

abbrev Sorted : List ℤ → Type 0
Sorted [] = Unit
Sorted (x ∷ xs) = From x xs

abbrev pub Ascending : List ℤ → Type 0
Ascending [] = Unit
Ascending (x ∷ xs) = Above x xs

insert_id-From : (a x : ℤ) (ys : List ℤ) → le_ℤ a x ≡ true → From a ys → From a (insert_id x ys)
insert_id-From a x [] h f = (h, tt)
insert_id-From a x (y ∷ ys) h f = elim (Bool-cases (le_ℤ x y)) [
  | inl e ↦ rw e (h, (e, f.1))
  | inr e ↦ rw e (f.0, insert_id-From y x ys (le_ℤ_total x y e) f.1)
]

insert_id-Sorted : (x : ℤ) (ys : List ℤ) → Sorted ys → Sorted (insert_id x ys)
insert_id-Sorted x [] s = tt
insert_id-Sorted x (y ∷ ys) s = elim (Bool-cases (le_ℤ x y)) [
  | inl e ↦ rw e (e, s)
  | inr e ↦ rw e (insert_id-From y x ys (le_ℤ_total x y e) s)
]

sort_ids-Sorted : (xs : List ℤ) → Sorted (sort_ids xs)
unfolding sort_ids
sort_ids-Sorted [] = tt
sort_ids-Sorted (x ∷ xs) = insert_id-Sorted x (sort_ids xs) (sort_ids-Sorted xs)

Above-weaken : (x y : ℤ) (ys : List ℤ) → le_ℤ x y ≡ true → Above y ys → Above x ys
Above-weaken x y [] h a = tt
Above-weaken x y (z ∷ zs) h a = (strict, a.1)
  where
    strict : le_ℤ z x ≡ false
    strict = elim (Bool-cases (le_ℤ z x)) [ inl e ↦ let q = le_ℤ_trans z x y e h in cc | inr e ↦ e ]

compact_after-Above : (x : ℤ) (ys : List ℤ) → From x ys → Above x (compact_after x ys)
compact_after-Above x [] f = tt
compact_after-Above x (y ∷ ys) f =
    let rest = compact_after-Above y ys f.1 in
    elim (Bool-cases (le_ℤ y x)) [
      | inl e ↦ rw (f.0, e) (Above-weaken x y (compact_after y ys) f.0 rest)
      | inr e ↦ rw (f.0, e) (e, rest)
    ]

compact-Ascending : (xs : List ℤ) → Sorted xs → Ascending (compact xs)
unfolding compact
compact-Ascending [] s = tt
compact-Ascending (x ∷ xs) s = compact_after-Above x xs s

-- A list in ascending order stays.
sort_ids-Ascending : (xs : List ℤ) → Ascending xs → sort_ids xs ≡ xs
unfolding sort_ids
sort_ids-Ascending [] s = refl
sort_ids-Ascending (x ∷ []) s = refl
sort_ids-Ascending (x ∷ y ∷ ys) s = rw (sort_ids-Ascending (y ∷ ys) s.1, le_ℤ_total y x s.0) refl

compact_after_id : (x : ℤ) (ys : List ℤ) → Above x ys → compact_after x ys ≡ ys
compact_after_id x [] s = refl
compact_after_id x (y ∷ ys) s =
    rw (le_ℤ_total y x s.0, s.0) (ap (λ l. y ∷ l) (compact_after_id y ys s.1))

compact_id : (xs : List ℤ) → Ascending xs → compact xs ≡ xs
unfolding compact
compact_id [] s = refl
compact_id (x ∷ xs) s = ap (λ l. x ∷ l) (compact_after_id x xs s)

eq_int_eq : (a b : ℤ) → eq_int a b ≡ true → a ≡ b
eq_int_eq (pos a) (pos b) h = ground arith
eq_int_eq (pos a) (negsuc b) h = cc
eq_int_eq (negsuc a) (pos b) h = cc
eq_int_eq (negsuc a) (negsuc b) h = ground arith

abbrev pub holds_id : ℤ → List ℤ → Bool
holds_id i [] = false
holds_id i (x ∷ xs) = eq_int x i || holds_id i xs

or_swap : (a b c : Bool) → (a || (b || c)) ≡ (b || (a || c))
or_swap true true c = refl
or_swap true false c = refl
or_swap false b c = refl

or_same : (a c : Bool) → (a || (a || c)) ≡ (a || c)
or_same true c = refl
or_same false c = refl

holds_id-insert_id :
    (i x : ℤ) (ys : List ℤ) → holds_id i (insert_id x ys) ≡ (eq_int x i || holds_id i ys)
holds_id-insert_id i x [] = refl
holds_id-insert_id i x (y ∷ ys) = elim (Bool-cases (le_ℤ x y)) [
  | inl e ↦ rw e refl
  | inr e ↦ rw e (
      ap (λ b. eq_int y i || b) (holds_id-insert_id i x ys)
      ∙ or_swap (eq_int y i) (eq_int x i) (holds_id i ys))
]

holds_id-sort_ids : (i : ℤ) (xs : List ℤ) → holds_id i (sort_ids xs) ≡ holds_id i xs
unfolding sort_ids
holds_id-sort_ids i [] = refl
holds_id-sort_ids i (x ∷ xs) =
    holds_id-insert_id i x (sort_ids xs) ∙ ap (λ b. eq_int x i || b) (holds_id-sort_ids i xs)

holds_id-compact_after :
    (i x : ℤ) (ys : List ℤ)
    → (eq_int x i || holds_id i (compact_after x ys)) ≡ (eq_int x i || holds_id i ys)
holds_id-compact_after i x [] = refl
holds_id-compact_after i x (y ∷ ys) = by_eq (eq_int x y) refl (holds_id-compact_after i y ys)
  where
    by_eq :
        (b : Bool)
        → eq_int x y ≡ b
        → (eq_int y i || holds_id i (compact_after y ys)) ≡ (eq_int y i || holds_id i ys)
        → (eq_int x i || holds_id i (if b then compact_after y ys else y ∷ compact_after y ys))
          ≡ (eq_int x i || holds_id i (y ∷ ys))
    by_eq true e ih = rw (eq_int_eq x y e) (ih ∙ sym (or_same (eq_int y i) (holds_id i ys)))
    by_eq false e ih = ap (λ b. eq_int x i || b) ih

holds_id-compact : (i : ℤ) (xs : List ℤ) → holds_id i (compact xs) ≡ holds_id i xs
unfolding compact
holds_id-compact i [] = refl
holds_id-compact i (x ∷ xs) = holds_id-compact_after i x xs

or_text_twice : (d s : String) → str_eq d "" ≡ false → or_text d (or_text d s) ≡ or_text d s
or_text_twice d s h = elim (Bool-cases (str_eq s "")) [
  | inl e ↦ rw (e, h) refl
  | inr e ↦ rw (e, e) refl
]

or_positive_twice :
    (d : ℕ) (z : ℤ) → or_positive (suc d) (or_positive (suc d) z) ≡ or_positive (suc d) z
or_positive_twice d (pos zero) = refl
or_positive_twice d (pos (suc n)) = refl
or_positive_twice d (negsuc n) = refl

or_empty_twice : (m : MetaMap) → or_empty (or_empty m) ≡ or_empty m
or_empty_twice none = refl
or_empty_twice (some m) = refl

web_defaults_twice : (wt : WebToolsSettings) → web_defaults (web_defaults wt) ≡ web_defaults wt
web_defaults_twice wt =
    rw
      (
        or_text_twice default_searxng_url wt.searxng_url refl,
        or_text_twice "fast" wt.reader_mode refl,
        or_text_twice "obscura" wt.obscura_path refl,
        or_positive_twice 1 wt.obscura_concurrency,
        or_positive_twice 14 wt.fetch_timeout_seconds,
        or_positive_twice 29 wt.obscura_timeout_seconds,
        or_positive_twice 19999 wt.max_chars,
      )
      refl

ids_twice : (xs : List ℤ) → compact (sort_ids (compact (sort_ids xs))) ≡ compact (sort_ids xs)
ids_twice xs =
    let ys = compact (sort_ids xs) in
    let up : Ascending ys = compact-Ascending (sort_ids xs) (sort_ids-Sorted xs) in
    ap compact (sort_ids-Ascending ys up) ∙ compact_id ys up

apply_defaults_twice :
    (rs : RuntimeSettings) → apply_defaults (apply_defaults rs) ≡ apply_defaults rs
unfolding apply_defaults
apply_defaults_twice rs =
    rw
      (
        or_text_twice "priority-daily" rs.rotation refl,
        or_positive_twice 2 rs.retry.max_keys_per_request,
        or_text_twice default_zen_user_agent rs.zen.user_agent refl,
        or_empty_twice rs.zen.model_meta,
        or_empty_twice rs.zai_meta,
        web_defaults_twice rs.web_tools,
        ids_twice rs.disabled_provider_ids,
      )
      refl

-- A document whose defaults are set: they change nothing more, and the ids are in ascending order, each
-- of them once.
pub record Canonical (rs : RuntimeSettings) : Type 0 where
  pub settled : apply_defaults rs ≡ rs
  pub ascending : Ascending rs.disabled_provider_ids

-- ApplyDefaults makes any document canonical: a second call changes nothing, and the ids of disabled
-- providers are in ascending order without repetition, and the same ids as before.
pub apply_defaults-Canonical :
    (rs : RuntimeSettings)
    → Canonical (apply_defaults rs)
      × ((i : ℤ)
          → holds_id i (apply_defaults rs).disabled_provider_ids
            ≡ holds_id i rs.disabled_provider_ids)
unfolding apply_defaults
apply_defaults-Canonical rs =
    let xs = sort_ids rs.disabled_provider_ids in
    (
      record {
        settled = apply_defaults_twice rs;
        ascending = compact-Ascending xs (sort_ids-Sorted rs.disabled_provider_ids);
      },
      λ i. holds_id-compact i xs ∙ holds_id-sort_ids i rs.disabled_provider_ids,
    )
