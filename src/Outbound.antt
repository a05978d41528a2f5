-- ===== src/Outbound.antt =====
-- internal/gateway/anthropic_outbound.go (chatToAnthropicBody): a chat request becomes an Anthropic
-- Messages request.
--
-- Here are the content blocks, Outbound/Requests has the conversation and the body. A body is a record
-- of its keys: a key that the code does not set is `none` or empty. json.Unmarshal of a call's
-- arguments is a parameter.
pub mod Requests
pub mod Blocks
pub mod Alternation
pub mod Contents
pub mod Kept
mod Examples
use Prim.Native.Char.{code}
use nano_llm_proxy.Prelude.{
  ℕ, zero, suc, ◌-◌, Bool, true, false, not, ◌&&◌, ◌||◌, Option, none, some, List, [], ◌∷◌, ◌++◌,
  map, reverse, take, length, ◌==◌, if◌then◌else◌, String, str_eq, str_append, contains, codes,
  has_prefix, ℤ, pos,
}
use nano_llm_proxy.Json.{
  Json, null, bool, num, str, arr, obj, Items, Fields, end, get_field, elements, as_string,
  as_object, as_fields, as_array, as_number, to_int64,
}

-- a content block of the Anthropic protocol
pub data ContentBlock : Type 0 where
  text_part : String → ContentBlock
  -- the media type and the data
  base64_image : String → String → ContentBlock
  url_image : String → ContentBlock
  tool_use_part : String → String → Json → ContentBlock
  tool_result : String → String → ContentBlock

pub record AnthropicMessage : Type 0 where
  pub role : String
  pub content : List ContentBlock

-- the text of a part that is a text
abbrev pub part_text : Option Fields → String
part_text none = ""
part_text (some p) =
    if str_eq (as_string (get_field p "type")) "text" then as_string (get_field p "text") else ""

pub parts_text : List Json → String
parts_text [] = ""
parts_text (p ∷ ps) = str_append (part_text (as_object p)) (parts_text ps)

pub chat_content_text : Json → String
unfolding parts_text
chat_content_text (str s) = s
chat_content_text (arr ps) = parts_text (elements ps)
chat_content_text _ = ""

-- a text up to its first ",", and what is behind it
abbrev pub cut_comma : String → Option (String × String)
cut_comma String.[] = none
cut_comma (String.◌∷◌ c s) =
    let rest = cut_comma s in
    if code c == b','
    then some ("", s)
    else elim rest [ none ↦ none | some (before, after) ↦ some (String.◌∷◌ c before, after) ]

-- strings.TrimPrefix(u, prefix), none if it has no such prefix
abbrev pub cut_prefix : String → String → Option String
cut_prefix s String.[] = some s
cut_prefix String.[] (String.◌∷◌ d t) = none
cut_prefix (String.◌∷◌ c s) (String.◌∷◌ d t) =
    let rest = cut_prefix s t in if code c == code d then rest else none

-- strings.TrimSuffix(s, suffix)
abbrev pub trim_suffix : String → String → String
trim_suffix String.[] suffix = String.[]
trim_suffix (String.◌∷◌ c s) suffix =
    let rest = String.◌∷◌ c (trim_suffix s suffix) in
    if str_eq (String.◌∷◌ c s) suffix then "" else rest

abbrev pub media_of : String → String
media_of meta =
    let media = trim_suffix meta ";base64" in
    if str_eq media "" then "application/octet-stream" else media

-- dataURLToBase64: the media type and the data
pub data_url_to_base64 : String → Option (String × String)
data_url_to_base64 u = elim (cut_prefix u "data:") [
  | none ↦ none
  | some rest ↦ elim (cut_comma rest) [
    | none ↦ none
    | some (meta, data_text) ↦
        if contains meta "base64" then some (media_of meta, data_text) else none
  ]
]

abbrev pub is_remote : String → Bool
is_remote u = has_prefix (codes u) (codes "http://") || has_prefix (codes u) (codes "https://")

pub image_blocks : String → List ContentBlock
unfolding data_url_to_base64
image_blocks u = elim (data_url_to_base64 u) [
  | some (media, data_text) ↦ base64_image media data_text ∷ []
  | none ↦ if is_remote u then url_image u ∷ [] else []
]

abbrev pub user_block : Option Fields → List ContentBlock
unfolding image_blocks
user_block none = []
user_block (some p) =
    let t = as_string (get_field p "type") in
    if str_eq t "text"
    then text_part (as_string (get_field p "text")) ∷ []
    else if str_eq t "image_url"
    then image_blocks (as_string (get_field (as_fields (get_field p "image_url")) "url"))
    else []

pub user_blocks_of : List Json → List ContentBlock
unfolding user_block
user_blocks_of [] = []
user_blocks_of (p ∷ ps) = user_block (as_object p) ++ user_blocks_of ps

abbrev pub text_blocks : String → List ContentBlock
text_blocks s = if str_eq s "" then [] else text_part s ∷ []

pub chat_user_blocks : Json → List ContentBlock
unfolding user_blocks_of
chat_user_blocks (str s) = text_blocks s
chat_user_blocks (arr ps) = user_blocks_of (elements ps)
chat_user_blocks _ = []

-- stopSequences
pub stop_sequences_of : Json → List Json
stop_sequences_of (str s) = if str_eq s "" then [] else str s ∷ []
stop_sequences_of (arr vs) = take 4 (elements vs)
stop_sequences_of _ = []

module _ (unmarshal : String → Option Json) where
  -- nothing, null, and what does not parse become an empty object
  abbrev pub input_of : Option Json → Json
  input_of none = obj end
  input_of (some null) = obj end
  input_of (some v) = v

  abbrev pub use_block : Option Fields → List ContentBlock
  use_block none = []
  use_block (some tc) =
      let fn = as_fields (get_field tc "function") in
      tool_use_part (as_string (get_field tc "id")) (as_string (get_field fn "name"))
        (input_of (unmarshal (as_string (get_field fn "arguments"))))
      ∷ []

  unfoldable pub tool_calls_to_use_blocks : List Json → List ContentBlock
  tool_calls_to_use_blocks [] = []
  tool_calls_to_use_blocks (tc ∷ tcs) = use_block (as_object tc) ++ tool_calls_to_use_blocks tcs
