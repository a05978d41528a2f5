-- ===== src/Inbound/Bodies.antt =====
-- The body of anthropicToChatBody.
use nano_llm_proxy.Prelude.{
  Option, none, some, List, [], ◌∷◌, ◌++◌, if◌then◌else◌, String, str_eq, ℤ,
}
use nano_llm_proxy.Json.{
  Json, str, arr, Fields, get_field, elements, as_string, as_object, as_array, as_number, to_int64,
}
use nano_llm_proxy.Inbound.{ChatInput, spoken, concat_text_blocks, convert_anthropic_message}

pub record ChatTool : Type 0 where
  pub name : String
  pub description : String
  pub parameters : Json

-- a number that is missing is not set
pub record ChatBody : Type 0 where
  pub model : Json
  pub max_tokens : Option ℤ
  pub temperature : Option Json
  pub top_p : Option Json
  pub messages : List ChatInput
  pub tools : List ChatTool

abbrev pub system_messages : String → List ChatInput
system_messages s = if str_eq s "" then [] else spoken "system" s ∷ []

unfoldable pub system_of : Json → List ChatInput
unfolding concat_text_blocks
system_of (str s) = system_messages s
system_of (arr bs) = system_messages (concat_text_blocks (elements bs))
system_of _ = []

abbrev pub chat_tool : Option Fields → List ChatTool
chat_tool none = []
chat_tool (some tm) =
    record {
      name = as_string (get_field tm "name");
      description = as_string (get_field tm "description");
      parameters = get_field tm "input_schema";
    }
    ∷ []

unfoldable pub chat_tools : List Json → List ChatTool
chat_tools [] = []
chat_tools (t ∷ ts) = chat_tool (as_object t) ++ chat_tools ts

abbrev pub int_of : Option Json → Option ℤ
int_of none = none
int_of (some v) = some (to_int64 v)

module _ (marshal : Json → Option String) where
  abbrev pub converted : Option Fields → List ChatInput
  converted none = []
  converted (some am) = convert_anthropic_message marshal am

  unfoldable pub convert_messages : List Json → List ChatInput
  convert_messages [] = []
  convert_messages (m ∷ ms) = converted (as_object m) ++ convert_messages ms

  unfoldable pub anthropic_to_chat_body : Fields → ChatBody
  unfolding system_of chat_tools convert_messages
  anthropic_to_chat_body req = record {
    model = get_field req "model";
    max_tokens = int_of (as_number (get_field req "max_tokens"));
    temperature = as_number (get_field req "temperature");
    top_p = as_number (get_field req "top_p");
    messages =
        system_of (get_field req "system")
        ++ convert_messages (as_array (get_field req "messages"));
    tools = chat_tools (as_array (get_field req "tools"));
  }
