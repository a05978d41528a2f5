-- ===== src/Prelude/Texts.antt =====
-- strings.Contains and strings.ToLower, on the code points of a text.
use Prim.Native.Char.{code}
use Prim.Native.String.{String}
use Prim.Native.Nat.{ℕ, ◌+◌}
use mathlib.Core.Bool.{Bool, true, false, ◌&&◌, ◌||◌}
use mathlib.Core.List.{List, [], ◌∷◌, map}
use nano_llm_proxy.Prelude.Tests.{leb, ◌==◌, if◌then◌else◌}

abbrev pub codes : String → List ℕ
codes String.[] = []
codes (String.◌∷◌ c s) = code c ∷ codes s

-- The second text begins the first.
abbrev pub has_prefix : List ℕ → List ℕ → Bool
has_prefix s [] = true
has_prefix [] (d ∷ t) = false
has_prefix (c ∷ s) (d ∷ t) = (c == d) && has_prefix s t

unfoldable pub has_infix : List ℕ → List ℕ → Bool
has_infix [] t = has_prefix [] t
has_infix (c ∷ s) t = has_prefix (c ∷ s) t || has_infix s t

-- unicode.ToLower where the result is an ASCII letter: of the letters outside ASCII these are the
-- Kelvin sign and the dotted capital I. Any other code point stays, which changes nothing for a
-- search for an ASCII text.
abbrev pub to_lower : ℕ → ℕ
to_lower c =
    if leb 65 c && leb c 90 then c + 32 else if c == 8490 then 107 else if c == 304 then 105 else c

-- strings.Contains
unfoldable pub contains : String → String → Bool
unfolding has_infix
contains s t = has_infix (codes s) (codes t)

-- strings.Contains(strings.ToLower(s), t), for an ASCII `t`
unfoldable pub lower_contains : String → String → Bool
unfolding has_infix
lower_contains s t = has_infix (map to_lower (codes s)) (codes t)

-- unicode.IsSpace
abbrev pub is_space : ℕ → Bool
is_space c =
    (leb 9 c && leb c 13)
    || c == 32
    || c == 133
    || c == 160
    || c == 5760
    || (leb 8192 c && leb c 8202)
    || c == 8232
    || c == 8233
    || c == 8239
    || c == 8287
    || c == 12288

-- unicode.IsControl
abbrev pub is_control : ℕ → Bool
is_control c = leb c 31 || (leb 127 c && leb c 159)

unfoldable pub trim_left : List ℕ → List ℕ
trim_left [] = []
trim_left (c ∷ s) = let rest = trim_left s in if is_space c then rest else c ∷ s

unfoldable pub trim_right : List ℕ → List ℕ
trim_right [] = []
trim_right (c ∷ s) = trim_cons c (trim_right s)
  where
    trim_cons : ℕ → List ℕ → List ℕ
    trim_cons c [] = if is_space c then [] else c ∷ []
    trim_cons c (d ∷ t) = c ∷ d ∷ t

-- strings.TrimSpace
abbrev pub trim_space : List ℕ → List ℕ
trim_space s = trim_right (trim_left s)

abbrev pub cons_first : ℕ → List (List ℕ) → List (List ℕ)
cons_first c [] = (c ∷ []) ∷ []
cons_first c (s ∷ ss) = (c ∷ s) ∷ ss

-- strings.Split at one code point
unfoldable pub split_on : ℕ → List ℕ → List (List ℕ)
split_on sep [] = [] ∷ []
split_on sep (c ∷ s) =
    let rest = split_on sep s in if c == sep then [] ∷ rest else cons_first c rest

abbrev pub same_text : List ℕ → List ℕ → Bool
same_text [] [] = true
same_text [] (d ∷ t) = false
same_text (c ∷ s) [] = false
same_text (c ∷ s) (d ∷ t) = c == d && same_text s t
