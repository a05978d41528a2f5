-- ===== src/Dotenv.antt =====
-- internal/config/dotenv.go (LoadDotEnv and SetDotEnv): the .env file.
--
-- A text is its code points. The file is `none` if it does not exist. The environment is a list of its
-- variables; no text holds a NUL, so os.Setenv does not fail. TrimSpace takes a final \r as well. That a
-- file cannot be read or written is left out.
pub mod Settled
pub mod RoundTrip
mod Examples
use nano_llm_proxy.Prelude.{
  ℕ, Bool, true, false, not, ◌&&◌, ◌||◌, Option, none, some, List, [], ◌∷◌, ◌++◌, if◌then◌else◌,
  ◌==◌, String, codes, has_prefix, drop, length, trim_space, trim_left, trim_right, split_on,
  cons_first, same_text,
}

abbrev pub Chars : Type 0
Chars = List ℕ

pub data Line : Type 0 where
  skipped : Line
  malformed : Line
  assigned : Chars → Chars → Line

abbrev pub starts : ℕ → Chars → Bool
starts x [] = false
starts x (c ∷ s) = c == x

-- strings.TrimPrefix(line, "export ")
abbrev pub without_export : Chars → Chars
without_export t = if has_prefix t (codes "export ") then drop 7 t else t

abbrev pub cut_cons : ℕ → Option (Chars × Chars) → Option (Chars × Chars)
cut_cons c none = none
cut_cons c (some (k, v)) = some (c ∷ k, v)

-- what is before the first "=", and what is behind it
abbrev pub cut_eq : Chars → Option (Chars × Chars)
cut_eq [] = none
cut_eq (c ∷ s) = let rest = cut_eq s in if c == b'=' then some ([], s) else cut_cons c rest

abbrev pub last_of : ℕ → Chars → ℕ
last_of c [] = c
last_of c (d ∷ s) = last_of d s

abbrev pub but_last : ℕ → Chars → Chars
but_last c [] = []
but_last c (d ∷ s) = c ∷ but_last d s

-- one pair of quotes around the value
abbrev pub unquoted : Chars → Chars
unquoted [] = []
unquoted (c ∷ []) = c ∷ []
unquoted (c ∷ d ∷ s) =
    if (c == 34 && last_of d s == 34) || (c == 39 && last_of d s == 39)
    then but_last d s
    else c ∷ d ∷ s

abbrev pub no_chars : Chars → Bool
no_chars [] = true
no_chars (c ∷ s) = false

abbrev pub assignment : Option (Chars × Chars) → Line
assignment none = malformed
assignment (some ([], v)) = malformed
assignment (some (c ∷ k, v)) =
    if starts b'#' (trim_space v)
    then malformed
    else if no_chars (trim_space (c ∷ k))
    then malformed
    else assigned (trim_space (c ∷ k)) (unquoted (trim_space v))

unfoldable pub parse_line : Chars → Line
parse_line l =
    let t = trim_space l in
    if no_chars t || starts b'#' t then skipped else assignment (cut_eq (without_export t))

abbrev pub Env : Type 0
Env = List (Chars × Chars)

unfoldable pub get_var : Env → Chars → Option Chars
get_var [] k = none
get_var ((j, v) ∷ env) k = if same_text j k then some v else get_var env k

abbrev pub put_new : Option Chars → Chars → Chars → Env → Env
put_new none k v env = (k, v) ∷ env
put_new (some old) k v env = env

-- the real environment wins
abbrev pub put_var : Chars → Chars → Env → Env
put_var k v env = put_new (get_var env k) k v env

abbrev pub load_after : Line → (Env → Option Env) → Env → Option Env
load_after skipped next env = next env
load_after malformed next env = none
load_after (assigned k v) next env = next (put_var k v env)

-- none for a malformed line
unfoldable pub load_lines : List Chars → Env → Option Env
unfolding parse_line get_var
load_lines [] env = some env
load_lines (l ∷ ls) env = load_after (parse_line l) (load_lines ls) env

unfoldable pub load_dot_env : Option Chars → Env → Option Env
unfolding load_lines
load_dot_env none env = some env
load_dot_env (some raw) env = load_lines (split_on b'\n' raw) env

abbrev pub assigns : Option (Chars × Chars) → Chars → Bool
assigns none key = false
assigns (some (k, v)) key = same_text (trim_space k) key

-- the line is an assignment of the key
unfoldable pub assigns_key : Chars → Chars → Bool
assigns_key key l = assigns (cut_eq (without_export (trim_space l))) key

-- the lines with `line` in place of the first assignment of the key, and without the others; `found`
-- if it is placed already
unfoldable pub set_lines : Chars → Chars → Bool → List Chars → List Chars
unfolding assigns_key
set_lines key line found [] = if found then [] else line ∷ []
set_lines key line found (l ∷ ls) =
    let rest = set_lines key line true ls in
    let later = set_lines key line found ls in
    if assigns_key key l then if found then rest else line ∷ rest else l ∷ later

abbrev pub drop_newlines : Chars → Chars
drop_newlines [] = []
drop_newlines (c ∷ s) =
    let rest = drop_newlines s in if c == b'\n' && no_chars rest then [] else c ∷ rest

abbrev pub joined : List Chars → Chars
joined [] = []
joined (l ∷ ls) = l ++ b'\n' ∷ joined ls

abbrev pub lines_of : Chars → List Chars
lines_of text = if no_chars text then [] else split_on b'\n' text

abbrev pub raw_of : Option Chars → Chars
raw_of none = []
raw_of (some raw) = raw

-- what is written
unfoldable pub set_dot_env : Option Chars → Chars → Chars → Chars
unfolding set_lines
set_dot_env file key value =
    joined (set_lines key (key ++ b'=' ∷ value) false (lines_of (drop_newlines (raw_of file))))
