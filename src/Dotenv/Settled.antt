-- ===== src/Dotenv/Settled.antt =====
-- What LoadDotEnv reads of a file that SetDotEnv has written, on the lines of the file.
use nano_llm_proxy.Prelude.{
  ◌≡◌, ◌≢◌, refl, sym, ap, ◌∙◌, inl, inr, Bool-cases, true, false, ◌||◌, Option, none, some, List,
  [], ◌∷◌, ◌==◌, trim_space, same_text, arith, All,
}
use nano_llm_proxy.Dotenv.{
  Chars, Line, skipped, malformed, assigned, starts, without_export, cut_eq, no_chars, assignment,
  parse_line, Env, get_var, put_new, put_var, load_after, load_lines, assigns, assigns_key,
  set_lines,
}

same_text_eq : (a b : Chars) → same_text a b ≡ true → a ≡ b
same_text_eq [] [] h = refl
same_text_eq [] (d ∷ t) h = absurd (cc)
same_text_eq (c ∷ s) [] h = absurd (cc)
same_text_eq (c ∷ s) (d ∷ t) h = elim (Bool-cases (c == d)) [
  | inl e ↦ let q : c ≡ d = ground arith in let r = same_text_eq s t (rw e at h) in cc
  | inr e ↦ absurd (let x = rw e at h in cc)
]

same_text_refl : (a : Chars) → same_text a a ≡ true
same_text_refl [] = refl
same_text_refl (c ∷ s) = let e : (c == c) ≡ true = ground arith in rw (e, same_text_refl s) refl

assignment-assigns :
    (o : Option (Chars × Chars)) (key k v : Chars)
    → assignment o ≡ assigned k v
    → assigns o key ≡ same_text k key
assignment-assigns none key k v e = absurd (cc)
assignment-assigns (some ([], w)) key k v e = absurd (cc)
assignment-assigns (some (c ∷ j, w)) key k v e = elim (Bool-cases (starts b'#' (trim_space w))) [
  | inl h ↦ absurd (let x = rw h at e in cc)
  | inr h ↦ elim (Bool-cases (no_chars (trim_space (c ∷ j)))) [
    | inl n ↦ absurd (let x = rw (h, n) at e in cc)
    | inr n ↦
        let x = rw (h, n) at e in let q : trim_space (c ∷ j) ≡ k = cc in ap (λ t. same_text t key) q
  ]
]

parse_line-assigns :
    (l key k v : Chars) → parse_line l ≡ assigned k v → assigns_key key l ≡ same_text k key
unfolding parse_line assigns_key
parse_line-assigns l key k v e =
    elim (Bool-cases (no_chars (trim_space l) || starts b'#' (trim_space l))) [
      | inl h ↦ absurd (let x = rw h at e in cc)
      | inr h ↦ assignment-assigns (cut_eq (without_export (trim_space l))) key k v (rw h at e)
    ]

module _ (key : Chars) where
  put_new_keeps :
      (o : Option Chars) (k v : Chars) (env : Env) (w : Chars)
      → get_var env k ≡ o
      → get_var env key ≡ some w
      → get_var (put_new o k v env) key ≡ some w
  unfolding get_var
  put_new_keeps none k v env w o g = elim (Bool-cases (same_text k key)) [
    | inl e ↦ let q = same_text_eq k key e in absurd (let x = rw q at o in cc)
    | inr e ↦ rw e g
  ]
  put_new_keeps (some old) k v env w o g = g

  put_new_absent :
      (o : Option Chars) (k v : Chars) (env : Env)
      → same_text k key ≡ false
      → get_var env key ≡ none
      → get_var (put_new o k v env) key ≡ none
  unfolding get_var
  put_new_absent none k v env e g = rw e g
  put_new_absent (some old) k v env e g = g

-- A run of lines loads and leaves the key as it is, or sets it to `w`.
abbrev pub Loads : Chars → Chars → Option Env → Type 0
Loads key w o = (env : Env) × ((o ≡ some env) × (get_var env key ≡ some w))

abbrev pub Parses : Chars → Type 0
Parses l = parse_line l ≢ malformed

module _ (key line value : Chars) where
  load_after-kept :
      (p : Line) (next : Env → Option Env) (env : Env) (w : Chars)
      → p ≢ malformed
      → get_var env key ≡ some w
      → ((e : Env) → get_var e key ≡ some w → Loads key w (next e))
      → Loads key w (load_after p next env)
  load_after-kept skipped next env w n g ih = ih env g
  load_after-kept malformed next env w n g ih = absurd (n refl)
  load_after-kept (assigned k v) next env w n g ih =
      ih (put_var k v env) (put_new_keeps key _ k v env w refl g)

  kept :
      (ls : List Chars) (env : Env) (w : Chars)
      → All Parses ls
      → get_var env key ≡ some w
      → Loads key w (load_lines (set_lines key line true ls) env)
  unfolding set_lines load_lines
  kept [] env w a g = (env, (refl, g))
  kept (l ∷ ls) env w a g = elim (Bool-cases (assigns_key key l)) [
    | inl e ↦ rw e (kept ls env w a.1 g)
    | inr e ↦ rw e (
        load_after-kept (parse_line l) (load_lines (set_lines key line true ls)) env w a.0 g
          (λ f h. kept ls f w a.1 h))
  ]

  load_after-settled :
      (p : Line) (next : Env → Option Env) (env : Env)
      → p ≢ malformed
      → ((k v : Chars) → p ≡ assigned k v → same_text k key ≡ false)
      → get_var env key ≡ none
      → ((e : Env) → get_var e key ≡ none → Loads key value (next e))
      → Loads key value (load_after p next env)
  load_after-settled skipped next env n d g ih = ih env g
  load_after-settled malformed next env n d g ih = absurd (n refl)
  load_after-settled (assigned k v) next env n d g ih =
      ih (put_var k v env) (put_new_absent key _ k v env (d k v refl) g)

  put_var-set :
      (env : Env) → get_var env key ≡ none → get_var (put_var key value env) key ≡ some value
  unfolding get_var
  put_var-set env g = rw (g, same_text_refl key) refl

  -- SetDotEnv settles the key: the written lines load, and a run whose environment does not have the
  -- key gets the value from them, whatever assignments of the key the file held, with "export" or
  -- without. Every line of the old file parses, and the new line is an assignment of the key and the
  -- value for LoadDotEnv.
  pub set_lines-Loads :
      (ls : List Chars) (env : Env)
      → parse_line line ≡ assigned key value
      → All Parses ls
      → get_var env key ≡ none
      → Loads key value (load_lines (set_lines key line false ls) env)
  unfolding set_lines load_lines
  set_lines-Loads [] env p a g =
      let h = put_var-set env g in rw p (put_var key value env, (refl, h))
  set_lines-Loads (l ∷ ls) env p a g = elim (Bool-cases (assigns_key key l)) [
    | inl e ↦ rw (e, p) (kept ls (put_var key value env) value a.1 (put_var-set env g))
    | inr e ↦ rw e (
        load_after-settled (parse_line l) (load_lines (set_lines key line false ls)) env a.0
          (λ k v q. sym (parse_line-assigns l key k v q) ∙ e) g
          (λ f h. set_lines-Loads ls f p a.1 h))
  ]
