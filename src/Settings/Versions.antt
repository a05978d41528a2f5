-- ===== src/Settings/Versions.antt =====
-- UAVersionOK: the floor for the user agent.
--
-- fmt.Sscanf with "%d.%d.%d" is written out: it gives the numbers that it scans until one fails.
use nano_llm_proxy.Prelude.{
  ℕ, zero, suc, ◌+◌, ◌-◌, ◌*◌, ◌^◌, Bool, true, false, not, ◌&&◌, ◌||◌, Option, none, some, List,
  [], ◌∷◌, if◌then◌else◌, ◌==◌, leb, ltb, drop, length, String, codes, has_prefix, is_space,
  split_on, ℤ, pos, negsuc,
}

-- SkipSpace; none at a newline
unfoldable pub skip_space : List ℕ → Option (List ℕ)
skip_space [] = some []
skip_space (c ∷ s) =
    let rest = skip_space s in
    if c == b'\n' then none else if is_space c then rest else some (c ∷ s)

abbrev is_digit : ℕ → Bool
is_digit c = leb b'0' c && leb c b'9'

-- the number of the leading digits behind `n`, with what follows them
unfoldable pub digits : ℕ → List ℕ → ℕ × List ℕ
digits n [] = (n, [])
digits n (c ∷ s) =
    let rest = digits (n * 10 + (c - b'0')) s in if is_digit c then rest else (n, c ∷ s)

-- An int of 64 bits; any other is an error.
abbrev fits : Bool → ℕ → Option ℤ
fits false n = if ltb n (2 ^ 63) then some (pos n) else none
fits true zero = some (pos 0)
fits true (suc n) = if ltb n (2 ^ 63) then some (negsuc n) else none

abbrev with_rest : Option ℤ → List ℕ → Option (ℤ × List ℕ)
with_rest none s = none
with_rest (some v) s = some (v, s)

abbrev scan_digits : Bool → List ℕ → Option (ℤ × List ℕ)
scan_digits minus [] = none
scan_digits minus (c ∷ s) =
    let (n, rest) = digits 0 (c ∷ s) in if is_digit c then with_rest (fits minus n) rest else none

abbrev scan_sign : List ℕ → Option (ℤ × List ℕ)
scan_sign [] = none
scan_sign (c ∷ s) =
    if c == b'-'
    then scan_digits true s
    else if c == b'+'
    then scan_digits false s
    else scan_digits false (c ∷ s)

abbrev scan_from : Option (List ℕ) → Option (ℤ × List ℕ)
scan_from none = none
scan_from (some s) = scan_sign s

-- %d
unfoldable pub scan_int : List ℕ → Option (ℤ × List ℕ)
unfolding skip_space digits
scan_int s = scan_from (skip_space s)

abbrev after_dot : List ℕ → Option (List ℕ)
after_dot [] = none
after_dot (c ∷ s) = if c == b'.' then some s else none

-- the next numbers, `k` at most, each but the first behind a dot
unfoldable pub scan_numbers : ℕ → List ℕ → List ℤ
unfolding scan_int
scan_numbers zero s = []
scan_numbers (suc k) s = elim (scan_int s) [
  | none ↦ []
  | some (v, rest) ↦ v ∷ elim (after_dot rest) [ none ↦ [] | some t ↦ scan_numbers k t ]
]

abbrev above : ℕ → ℤ → Bool
above n (pos v) = ltb n v
above n (negsuc v) = false

abbrev is_int : ℕ → ℤ → Bool
is_int n (pos v) = v == n
is_int n (negsuc v) = false

-- the third number, 0 if it is missing
abbrev patch_of : List ℤ → ℤ
patch_of [] = pos 0
patch_of (p ∷ ps) = p

abbrev not_negative : ℤ → Bool
not_negative (pos v) = true
not_negative (negsuc v) = false

unfoldable pub version_ok : List ℤ → Bool
version_ok [] = false
version_ok (maj ∷ []) = false
version_ok (maj ∷ minor ∷ ps) =
    if not (is_int 1 maj)
    then above 1 maj
    else if not (is_int 18 minor)
    then above 18 minor
    else not_negative (patch_of ps)

abbrev is_blank : List ℕ → Bool
is_blank [] = true
is_blank (c ∷ s) = false

-- the version among the parts between slashes
abbrev version_part : List (List ℕ) → Option (List ℕ)
version_part (v ∷ []) = some v
version_part (channel ∷ v ∷ client ∷ []) =
    if is_blank channel || is_blank client then none else some v
version_part _ = none

abbrev version_in : Option (List ℕ) → Bool
version_in none = false
version_in (some v) = version_ok (scan_numbers 3 v)

unfoldable pub ua_version_ok : String → Bool
unfolding version_ok scan_numbers
ua_version_ok ua =
    let s = codes ua in
    let prefix = codes "opencode/" in
    if has_prefix s prefix
    then version_in (version_part (split_on b'/' (drop (length prefix) s)))
    else false
