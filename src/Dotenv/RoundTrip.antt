-- ===== src/Dotenv/RoundTrip.antt =====
-- The file that SetDotEnv writes, read by LoadDotEnv.
use nano_llm_proxy.Prelude.{
  ◌≡◌, refl, sym, ap, ◌∙◌, inl, inr, Bool, Bool-cases, true, false, Option, none, some, List, [],
  ◌∷◌, ◌++◌, ◌==◌, split_on, cons_first, All, subst, if_both, trim_left, trim_right, ℕ,
}
use nano_llm_proxy.Dotenv.{
  Chars, Line, skipped, malformed, assigned, no_chars, parse_line, Env, get_var, put_var,
  load_after, load_lines, load_dot_env, assigns_key, set_lines, drop_newlines, joined, lines_of,
  raw_of, set_dot_env,
}
use nano_llm_proxy.Dotenv.Settled.{Loads, Parses, set_lines-Loads}

-- There is no newline in the text.
abbrev pub OneLine : Chars → Type 0
OneLine = All (λ c. (c == b'\n') ≡ false)

split_on-line :
    (l rest : Chars) → OneLine l → split_on b'\n' (l ++ b'\n' ∷ rest) ≡ l ∷ split_on b'\n' rest
unfolding split_on
split_on-line [] rest h = refl
split_on-line (c ∷ s) rest h = rw (h.0, split_on-line s rest h.1) refl

split_on-joined : (ls : List Chars) → All OneLine ls → split_on b'\n' (joined ls) ≡ ls ++ [] ∷ []
unfolding split_on
split_on-joined [] h = refl
split_on-joined (l ∷ ls) h =
    split_on-line l (joined ls) h.0 ∙ ap (λ ks. l ∷ ks) (split_on-joined ls h.1)

cons_first-OneLine :
    (c : ℕ) (ls : List Chars)
    → (c == b'\n') ≡ false
    → All OneLine ls
    → All OneLine (cons_first c ls)
cons_first-OneLine c [] e h = ((e, tt), tt)
cons_first-OneLine c (l ∷ ls) e h = ((e, h.0), h.1)

split_on-OneLine : (text : Chars) → All OneLine (split_on b'\n' text)
unfolding split_on
split_on-OneLine [] = (tt, tt)
split_on-OneLine (c ∷ s) = elim (Bool-cases (c == b'\n')) [
  | inl e ↦ rw e (tt, split_on-OneLine s)
  | inr e ↦ rw e (cons_first-OneLine c (split_on b'\n' s) e (split_on-OneLine s))
]

set_lines-OneLine :
    (key line : Chars) (found : Bool) (ls : List Chars)
    → OneLine line
    → All OneLine ls
    → All OneLine (set_lines key line found ls)
unfolding set_lines
set_lines-OneLine key line true [] n h = tt
set_lines-OneLine key line false [] n h = (n, tt)
set_lines-OneLine key line true (l ∷ ls) n h =
    let rest = set_lines-OneLine key line true ls n h.1 in
    if_both (All OneLine) (assigns_key key l) _ _ rest (h.0, rest)
set_lines-OneLine key line false (l ∷ ls) n h =
    if_both (All OneLine) (assigns_key key l) _ _ (n, set_lines-OneLine key line true ls n h.1)
      (h.0, set_lines-OneLine key line false ls n h.1)

load_after_same :
    (p : Line) (f g : Env → Option Env) (env : Env)
    → ((e : Env) → f e ≡ g e)
    → load_after p f env ≡ load_after p g env
load_after_same skipped f g env h = h env
load_after_same malformed f g env h = refl
load_after_same (assigned k v) f g env h = h (put_var k v env)

load_lines-joined :
    (ls : List Chars) (env : Env) → load_lines (ls ++ [] ∷ []) env ≡ load_lines ls env
unfolding load_lines trim_left trim_right
load_lines-joined [] env = refl
load_lines-joined (l ∷ ls) env =
    load_after_same (parse_line l) (load_lines (ls ++ [] ∷ [])) (load_lines ls) env
      (load_lines-joined ls)

lines_of-OneLine : (text : Chars) → All OneLine (lines_of text)
lines_of-OneLine text = if_both (All OneLine) (no_chars text) _ _ tt (split_on-OneLine text)

-- A value that SetDotEnv writes is what LoadDotEnv reads: the written file loads, and an environment
-- that does not have the key gets the value from it, whatever assignments of the key the file held.
-- Every line of the old file parses, and "key=value" is one line that LoadDotEnv takes for an
-- assignment of that key and that value, so the value has no quotes or blanks around it.
pub load_dot_env-set_dot_env :
    (file : Option Chars) (key value : Chars) (env : Env)
    → OneLine (key ++ b'=' ∷ value)
    → parse_line (key ++ b'=' ∷ value) ≡ assigned key value
    → All Parses (lines_of (drop_newlines (raw_of file)))
    → get_var env key ≡ none
    → Loads key value (load_dot_env (some (set_dot_env file key value)) env)
unfolding load_dot_env set_dot_env
load_dot_env-set_dot_env file key value env one p a g =
    let line = key ++ b'=' ∷ value in
    let old = lines_of (drop_newlines (raw_of file)) in
    let ls = set_lines key line false old in
    let whole =
      split_on-joined ls (
        set_lines-OneLine key line false old one
          (lines_of-OneLine (drop_newlines (raw_of file)))) in
    subst (Loads key value) (sym (ap (λ ks. load_lines ks env) whole ∙ load_lines-joined ls env))
      (set_lines-Loads key line value old env p a g)
