-- ===== src/Settings/Parts.antt =====
-- What the texts hold that Validate lets through: a model as "provider/model", a path.
use nano_llm_proxy.Prelude.{
  ℕ, ◌≤◌, ◌≡◌, ◌≢◌, ◌↔◌, ◌⊎◌, refl, sym, ap, ◌∙◌, inl, inr, true, false, not, List, [], ◌∷◌, ◌++◌,
  ◌==◌, String, arith, All, Bool-cases, codes, split_on, same_text, trim_space, is_control,
}
use nano_llm_proxy.Settings.Checks.{is_empty, two_parts, has_control}

abbrev pub slash : ℕ
slash = b'/'

abbrev pub NoSlash : List ℕ → Type 0
NoSlash s = All (λ c. (c == slash) ≡ false) s

-- Two texts that are not empty with one slash between them and no other.
abbrev pub ProviderModel : List ℕ → Type 0
ProviderModel s =
    (a : List ℕ) × (b : List ℕ) × (s ≡ a ++ slash ∷ b)
    × (NoSlash a × (NoSlash b × ((a ≢ []) × (b ≢ []))))

split_none : (s : List ℕ) → NoSlash s → split_on slash s ≡ s ∷ []
unfolding split_on
split_none [] n = refl
split_none (c ∷ s) n = rw (n.0, split_none s n.1) refl

split_first : (a b : List ℕ) → NoSlash a → split_on slash (a ++ slash ∷ b) ≡ a ∷ split_on slash b
unfolding split_on
split_first [] b n = refl
split_first (c ∷ a) b n = rw (n.0, split_first a b n.1) refl

abbrev AtSlash : List ℕ → Type 0
AtSlash s = (a : List ℕ) × (b : List ℕ) × (s ≡ a ++ slash ∷ b) × NoSlash a

first_slash : (s : List ℕ) → NoSlash s ⊎ AtSlash s
first_slash [] = inl tt
first_slash (c ∷ s) = elim (Bool-cases (c == slash)) [
  | inl e ↦ let q : c ≡ slash = ground arith in inr ([], s, ap (λ d. d ∷ s) q, tt)
  | inr e ↦ elim (first_slash s) [
    | inl n ↦ inl (e, n)
    | inr (a, b, q, n) ↦ inr (c ∷ a, b, ap (λ t. c ∷ t) q, (e, n))
  ]
]

is_empty_iff : (s : List ℕ) → (not (is_empty s) ≡ true) ↔ (s ≢ [])
is_empty_iff [] = (λ h. absurd (cc), λ n. absurd (n refl))
is_empty_iff (c ∷ s) = (λ h e. cc, λ n. refl)

abbrev Split : List ℕ → Type 0
Split d = (x : List ℕ) × (xs : List (List ℕ)) × (split_on slash d ≡ x ∷ xs)

Split-some : (d : List ℕ) → Split d
Split-some d = elim (first_slash d) [
  | inl n ↦ (d, [], split_none d n)
  | inr (a, b, q, n) ↦ (a, split_on slash b, ap (split_on slash) q ∙ split_first a b n)
]

two_and : (a b : List ℕ) → (two_parts (a ∷ b ∷ []) ≡ true) ↔ ((a ≢ []) × (b ≢ []))
two_and a b = (
  λ h. ((is_empty_iff a).0 (ground arith), (is_empty_iff b).0 (ground arith)),
  λ (x, y). ground (arith, (is_empty_iff a).1 x, (is_empty_iff b).1 y),
)

of_second :
    (s a b : List ℕ)
    → s ≡ a ++ slash ∷ b
    → NoSlash a
    → two_parts (a ∷ split_on slash b) ≡ true
    → NoSlash b ⊎ AtSlash b
    → ProviderModel s
of_second s a b q n h (inl m) =
    let (x, y) = (two_and a b).0 (ap (λ l. two_parts (a ∷ l)) (sym (split_none b m)) ∙ h) in
    (a, b, q, (n, (m, (x, y))))
of_second s a b q n h (inr (c, d, r, m)) =
    let (x, xs, e) = Split-some d in
    let three : split_on slash b ≡ c ∷ x ∷ xs =
      ap (split_on slash) r ∙ split_first c d m ∙ ap (λ l. c ∷ l) e in
    absurd (let w = rw three at h in cc)

of_first :
    (s : List ℕ) → two_parts (split_on slash s) ≡ true → NoSlash s ⊎ AtSlash s → ProviderModel s
of_first s h (inl n) = absurd (let w = rw (split_none s n) at h in cc)
of_first s h (inr (a, b, q, n)) =
    of_second s a b q n (ap two_parts (sym (ap (split_on slash) q ∙ split_first a b n)) ∙ h)
      (first_slash b)

-- The test on the parts of the text is true exactly for such a text.
pub two_parts-ProviderModel : (s : List ℕ) → (two_parts (split_on slash s) ≡ true) ↔ ProviderModel s
two_parts-ProviderModel s = (
  λ h. of_first s h (first_slash s),
  λ (a, b, q, (n, (m, xy))).
      ap two_parts (ap (split_on slash) q ∙ split_first a b n ∙ ap (λ l. a ∷ l) (split_none b m))
      ∙ (two_and a b).1 xy,
)

-- A code point that is no control character.
abbrev pub Printable : ℕ → Type 0
Printable c = ((32 ≤ c) × (c ≤ 126)) ⊎ (160 ≤ c)

-- A path that is not empty, has no blanks around it and no control characters.
abbrev pub GoodPath : String → Type 0
GoodPath p = (p ≢ "") × ((trim_space (codes p) ≡ codes p) × All Printable (codes p))

pub same_text_iff : (a b : List ℕ) → (same_text a b ≡ true) ↔ (b ≡ a)
same_text_iff [] [] = (λ h. refl, λ h. refl)
same_text_iff [] (d ∷ t) = (λ h. absurd (cc), λ h. absurd (cc))
same_text_iff (c ∷ s) [] = (λ h. absurd (cc), λ h. absurd (cc))
same_text_iff (c ∷ s) (d ∷ t) = elim (Bool-cases (c == d)) [
  | inl e ↦
      let q : c ≡ d = ground arith in
      (
        λ h. let r = (same_text_iff s t).0 (rw e at h) in cc,
        λ h. let r : t ≡ s = cc in rw e ((same_text_iff s t).1 r),
      )
  | inr e ↦ (
    λ h. absurd (let w = rw e at h in cc),
    λ h. absurd (let q : d ≡ c = cc in ground (arith, e, q)),
  )
]

printable : (c : ℕ) → is_control c ≡ false → Printable c
printable c h = ground arith

not_control : (c : ℕ) → Printable c → is_control c ≡ false
not_control c (inl (a, b)) = ground arith
not_control c (inr a) = ground arith

pub has_control_iff : (s : List ℕ) → (not (has_control s) ≡ true) ↔ All Printable s
has_control_iff [] = (λ h. tt, λ h. refl)
has_control_iff (c ∷ s) = elim (Bool-cases (is_control c)) [
  | inl e ↦
      (λ h. absurd (let w = rw e at h in cc), λ (p, ps). absurd (let w = not_control c p in cc))
  | inr e ↦ (
    λ h. (printable c e, (has_control_iff s).0 (rw e at h)),
    λ (p, ps). rw e ((has_control_iff s).1 ps),
  )
]
