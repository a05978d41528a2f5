-- ===== src/Outbound/Requests.antt =====
-- The conversation, the tools and the body of chatToAnthropicBody.
use nano_llm_proxy.Prelude.{
  zero, suc, Bool, ◌||◌, Option, none, some, List, [], ◌∷◌, ◌++◌, if◌then◌else◌, String, str_eq,
  str_append, ℤ, pos, negsuc,
}
use nano_llm_proxy.Json.{
  Json, str, obj, Fields, get_field, as_string, as_object, as_fields, as_array, as_number, to_int64,
}
use nano_llm_proxy.Outbound.{
  ContentBlock, tool_result, AnthropicMessage, chat_content_text, chat_user_blocks, text_blocks,
  tool_calls_to_use_blocks, stop_sequences_of,
}

-- the variables system, msgs and pendingToolResults
pub record Conversation : Type 0 where
  pub system : String
  pub msgs : List AnthropicMessage
  pub pending : List ContentBlock

abbrev pub new_conversation : Conversation
new_conversation = record { system = ""; msgs = []; pending = [] }

-- flushToolResults, on the pending results
unfoldable pub flush_results : List ContentBlock → Conversation → Conversation
flush_results [] c = c
flush_results (b ∷ bs) c = record c {
  msgs = c.msgs ++ record { role = "user"; content = b ∷ bs } ∷ [];
  pending = [];
}

abbrev pub flush_tool_results : Conversation → Conversation
flush_tool_results c = flush_results c.pending c

-- addBlocks, on msgs: the last message takes the blocks if it has the role
unfoldable pub add_blocks :
    String → List ContentBlock → List AnthropicMessage → List AnthropicMessage
add_blocks role blocks [] = record { role = role; content = blocks } ∷ []
add_blocks role blocks (m ∷ []) =
    if str_eq m.role role
    then record m { content = m.content ++ blocks } ∷ []
    else m ∷ record { role = role; content = blocks } ∷ []
add_blocks role blocks (m ∷ m' ∷ ms) = m ∷ add_blocks role blocks (m' ∷ ms)

-- a message by its role, with what the code takes from it
pub data ChatMessage : Type 0 where
  system_message : String → ChatMessage
  user_message : List ContentBlock → ChatMessage
  assistant_message : List ContentBlock → ChatMessage
  tool_message : String → String → ChatMessage
  -- another role, or no map
  skipped_message : ChatMessage

add_system : String → String → String
add_system s system =
    if str_eq s ""
    then system
    else if str_eq system ""
    then s
    else str_append system (str_append "\n\n" s)

unfoldable pub add_assistant : List ContentBlock → Conversation → Conversation
unfolding add_blocks
add_assistant [] c = c
add_assistant (b ∷ bs) c = record c { msgs = add_blocks "assistant" (b ∷ bs) c.msgs }

unfoldable pub add_message : ChatMessage → Conversation → Conversation
unfolding flush_results add_blocks add_system add_assistant
add_message (system_message s) c =
    let f = flush_tool_results c in record f { system = add_system s f.system }
add_message (user_message blocks) c =
    let f = flush_tool_results c in record f { msgs = add_blocks "user" blocks f.msgs }
add_message (assistant_message blocks) c = add_assistant blocks (flush_tool_results c)
add_message (tool_message id text) c = record c { pending = c.pending ++ tool_result id text ∷ [] }
add_message skipped_message c = c

unfoldable pub add_messages : List ChatMessage → Conversation → Conversation
unfolding add_message
add_messages [] c = c
add_messages (m ∷ ms) c = add_messages ms (add_message m c)

-- the loop over the messages, and the last flush
unfoldable pub converse : List ChatMessage → Conversation
unfolding add_messages flush_results
converse ms = flush_tool_results (add_messages ms new_conversation)

pub record AnthropicTool : Type 0 where
  pub name : String
  pub description : String
  pub input_schema : Json

abbrev tool_of : Option Fields → List AnthropicTool
tool_of none = []
tool_of (some tm) =
    let fn = as_fields (get_field tm "function") in
    let name = as_string (get_field fn "name") in
    if str_eq name ""
    then []
    else record {
      name = name;
      description = as_string (get_field fn "description");
      input_schema = get_field fn "parameters";
    }
      ∷ []

pub anthropic_tools : List Json → List AnthropicTool
anthropic_tools [] = []
anthropic_tools (t ∷ ts) = tool_of (as_object t) ++ anthropic_tools ts

pub data ToolChoice : Type 0 where
  no_choice any_tool auto_tool : ToolChoice
  named_tool : String → ToolChoice

-- the tools and the choice that the body gets; "none" withdraws the tools
pub choose_tools : Json → List AnthropicTool → List AnthropicTool × ToolChoice
choose_tools choice [] = ([], no_choice)
choose_tools (str tc) (t ∷ ts) =
    if str_eq tc "required"
    then (t ∷ ts, any_tool)
    else if str_eq tc "auto"
    then (t ∷ ts, auto_tool)
    else if str_eq tc "none"
    then ([], no_choice)
    else (t ∷ ts, no_choice)
choose_tools (obj tc) (t ∷ ts) =
    let name = as_string (get_field (as_fields (get_field tc "function")) "name") in
    if str_eq name "" then (t ∷ ts, no_choice) else (t ∷ ts, named_tool name)
choose_tools _ (t ∷ ts) = (t ∷ ts, no_choice)

-- if mt == 0 { mt = other }
abbrev or_if_zero : ℤ → ℤ → ℤ
or_if_zero (pos zero) other = other
or_if_zero (pos (suc n)) other = pos (suc n)
or_if_zero (negsuc n) other = negsuc n

pub record AnthropicBody : Type 0 where
  pub model : Json
  pub stream : Bool
  pub max_tokens : ℤ
  pub temperature : Option Json
  pub top_p : Option Json
  pub stop_sequences : List Json
  pub system : String
  pub messages : List AnthropicMessage
  pub tools : List AnthropicTool
  pub tool_choice : ToolChoice

module _ (unmarshal : String → Option Json) where
  unfoldable pub chat_message : Option Fields → ChatMessage
  chat_message none = skipped_message
  chat_message (some mm) =
      let role = as_string (get_field mm "role") in
      let content = get_field mm "content" in
      if str_eq role "system" || str_eq role "developer"
      then system_message (chat_content_text content)
      else if str_eq role "user"
      then user_message (chat_user_blocks content)
      else if str_eq role "assistant"
      then assistant_message (
          text_blocks (as_string content)
          ++ tool_calls_to_use_blocks unmarshal (as_array (get_field mm "tool_calls")))
      else if str_eq role "tool"
      then tool_message (as_string (get_field mm "tool_call_id")) (chat_content_text content)
      else skipped_message

  unfoldable pub chat_messages : List Json → List ChatMessage
  unfolding chat_message
  chat_messages [] = []
  chat_messages (m ∷ ms) = chat_message (as_object m) ∷ chat_messages ms

  unfoldable pub chat_to_anthropic_body : Fields → Bool → AnthropicBody
  unfolding converse chat_messages anthropic_tools choose_tools
  chat_to_anthropic_body chat stream =
      let c = converse (chat_messages (as_array (get_field chat "messages"))) in
      let (tools, choice) =
        choose_tools (get_field chat "tool_choice")
          (anthropic_tools (as_array (get_field chat "tools"))) in
      record {
        model = get_field chat "model";
        stream = stream;
        max_tokens =
            or_if_zero (to_int64 (get_field chat "max_tokens"))
              (or_if_zero (to_int64 (get_field chat "max_completion_tokens")) (pos 8192));
        temperature = as_number (get_field chat "temperature");
        top_p = as_number (get_field chat "top_p");
        stop_sequences = stop_sequences_of (get_field chat "stop");
        system = c.system;
        messages = c.msgs;
        tools = tools;
        tool_choice = choice;
      }
