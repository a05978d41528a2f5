-- ===== src/Json.antt =====
-- Decoded JSON, as the gateway reads it: `any`, `map[string]any` and `[]any` of encoding/json. A key
-- that is missing reads as nil. A number is its integer part with the rest of it, which the program
-- only copies.
use nano_llm_proxy.Prelude.{
  ◌≡◌, refl, ap, ℕ, ℤ, pos, List, [], ◌∷◌, String, str_eq, if◌then◌else◌, Bool, Option, none, some,
}

mutual
  pub data Json : Type 0 where
    null : Json
    bool : Bool → Json
    num : ℤ → ℕ → Json
    str : String → Json
    arr : Items → Json
    obj : Fields → Json

  pub data Items : Type 0 where
    nil : Items
    cons : Json → Items → Items

  pub data Fields : Type 0 where
    end : Fields
    field : String → Json → Fields → Fields

abbrev pub get_field : Fields → String → Json
get_field end k = null
get_field (field j v fs) k = if str_eq j k then v else get_field fs k

abbrev pub elements : Items → List Json
elements nil = []
elements (cons v vs) = v ∷ elements vs

-- a []any that the code builds
abbrev pub to_items : List Json → Items
to_items [] = nil
to_items (v ∷ vs) = cons v (to_items vs)

pub elements-to_items : (vs : List Json) → elements (to_items vs) ≡ vs
elements-to_items [] = refl
elements-to_items (v ∷ vs) = ap (λ l. v ∷ l) (elements-to_items vs)

-- s, _ := v.(string)
abbrev pub as_string : Json → String
as_string (str s) = s
as_string _ = ""

-- m, ok := v.(map[string]any)
abbrev pub as_object : Json → Option Fields
as_object (obj fs) = some fs
as_object _ = none

-- m, _ := v.(map[string]any); a nil map has no keys
abbrev pub as_fields : Json → Fields
as_fields (obj fs) = fs
as_fields _ = end

-- a, ok := v.([]any); an array that is missing has no elements
abbrev pub as_array : Json → List Json
as_array (arr vs) = elements vs
as_array _ = []

-- t, ok := v.(float64)
abbrev pub as_number : Json → Option Json
as_number (num n rest) = some (num n rest)
as_number _ = none

-- toInt64; the integer part of the number is taken to fit into an int64
abbrev pub to_int64 : Json → ℤ
to_int64 (num n rest) = n
to_int64 _ = pos 0
