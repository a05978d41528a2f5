-- ===== src/Inbound.antt =====
-- internal/gateway/anthropic.go (anthropicToChatBody): an Anthropic Messages request becomes a chat
-- request.
--
-- Here are the messages, Inbound/Bodies has the body. A body and a chat message are records of their
-- keys: a key that the code does not set is `none` or empty. json.Marshal is an argument.
pub mod Bodies
pub mod Contents
pub mod Kept
mod Examples
use nano_llm_proxy.Prelude.{
  Option, none, some, List, [], ◌∷◌, ◌++◌, map, if◌then◌else◌, String, str_eq, str_append, ◌||◌,
}
use nano_llm_proxy.Json.{
  Json, null, str, arr, obj, Fields, get_field, elements, as_string, as_object,
}
use nano_llm_proxy.Replies.{ToolCall, arguments_of}

-- a part of a message's content: a text as it came, or the URL of an image
pub data Part : Type 0 where
  text_part : Json → Part
  image_part : String → Part

pub record ToolResult : Type 0 where
  pub tool_call_id : String
  pub content : String

pub data ChatInput : Type 0 where
  -- the role, with a text or with parts
  spoken : String → String → ChatInput
  parted : String → List Part → ChatInput
  -- an assistant's text and calls
  called : String → List ToolCall → ChatInput
  tool : ToolResult → ChatInput

abbrev pub block_text : Option Fields → String
block_text none = ""
block_text (some bm) =
    if str_eq (as_string (get_field bm "type")) "text" then as_string (get_field bm "text") else ""

unfoldable pub concat_text_blocks : List Json → String
concat_text_blocks [] = ""
concat_text_blocks (b ∷ bs) = str_append (block_text (as_object b)) (concat_text_blocks bs)

-- concatTextBlocks, on the parts
unfoldable pub concat_parts : List Part → String
concat_parts [] = ""
concat_parts (text_part t ∷ ps) = str_append (as_string t) (concat_parts ps)
concat_parts (image_part u ∷ ps) = concat_parts ps

-- "" for what json.Marshal cannot write
abbrev pub marshalled : Option String → String
marshalled none = ""
marshalled (some s) = s

-- the URL of an image, none if its source is of no use
abbrev pub image_url : String → Option String
image_url u = if str_eq u "" then none else some u

unfoldable pub image_source : Option Fields → Option String
image_source none = none
image_source (some sm) =
    let media = as_string (get_field sm "media_type") in
    let data_text = as_string (get_field sm "data") in
    if str_eq (as_string (get_field sm "type")) "base64"
    then if str_eq media "" || str_eq data_text ""
      then none
      else image_url (str_append "data:" (str_append media (str_append ";base64," data_text)))
    else if str_eq (as_string (get_field sm "type")) "url"
    then image_url (as_string (get_field sm "url"))
    else none

abbrev pub anthropic_image_part : Json → Option String
anthropic_image_part source = image_source (as_object source)

-- the variables out, contentParts and toolCalls
pub record Flat : Type 0 where
  pub results : List ToolResult
  pub parts : List Part
  pub calls : List ToolCall

abbrev pub nothing_flat : Flat
nothing_flat = record { results = []; parts = []; calls = [] }

abbrev pub add_part : Part → Flat → Flat
add_part p f = record f { parts = f.parts ++ p ∷ [] }

abbrev pub add_image : Option String → Flat → Flat
add_image none f = f
add_image (some u) f = add_part (image_part u) f

module _ (marshal : Json → Option String) where
  unfoldable pub tool_result_text : Json → String
  unfolding concat_text_blocks
  tool_result_text (str s) = s
  tool_result_text (arr bs) = concat_text_blocks (elements bs)
  tool_result_text null = ""
  tool_result_text v = marshalled (marshal v)

  abbrev pub call_of : Fields → ToolCall
  call_of bm = record {
    id = as_string (get_field bm "id");
    name = as_string (get_field bm "name");
    arguments = arguments_of (marshal (get_field bm "input"));
  }

  abbrev pub result_of : Fields → ToolResult
  result_of bm = record {
    tool_call_id = as_string (get_field bm "tool_use_id");
    content = tool_result_text (get_field bm "content");
  }

  -- "thinking" and any other type are dropped
  unfoldable pub flatten_kind : String → Fields → Flat → Flat
  unfolding tool_result_text image_source
  flatten_kind bt bm f =
      if str_eq bt "text"
      then add_part (text_part (get_field bm "text")) f
      else if str_eq bt "image"
      then add_image (anthropic_image_part (get_field bm "source")) f
      else if str_eq bt "tool_use"
      then record f { calls = f.calls ++ call_of bm ∷ [] }
      else if str_eq bt "tool_result"
      then record f { results = f.results ++ result_of bm ∷ [] }
      else f

  abbrev pub flatten_block : Option Fields → Flat → Flat
  flatten_block none f = f
  flatten_block (some bm) f = flatten_kind (as_string (get_field bm "type")) bm f

  unfoldable pub flatten : List Json → Flat → Flat
  unfolding flatten_kind
  flatten [] f = f
  flatten (b ∷ bs) f = flatten bs (flatten_block (as_object b) f)

-- the calls come before the results, other parts come after them
unfoldable pub messages_of : String → List ToolCall → List Part → List ToolResult → List ChatInput
unfolding concat_parts
messages_of role [] [] results = map tool results
messages_of role [] (p ∷ ps) results = map tool results ++ parted role (p ∷ ps) ∷ []
messages_of role (c ∷ cs) ps results = called (concat_parts ps) (c ∷ cs) ∷ map tool results

abbrev pub flat_messages : String → Flat → List ChatInput
flat_messages role f = messages_of role f.calls f.parts f.results

module _ (marshal : Json → Option String) where
  abbrev pub convert_content : String → Json → List ChatInput
  convert_content role (str c) = if str_eq c "" then [] else spoken role c ∷ []
  convert_content role (arr bs) = flat_messages role (flatten marshal (elements bs) nothing_flat)
  convert_content role _ = []

  unfoldable pub convert_anthropic_message : Fields → List ChatInput
  unfolding messages_of flatten
  convert_anthropic_message am =
      convert_content (as_string (get_field am "role")) (get_field am "content")
