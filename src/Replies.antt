-- ===== src/Replies.antt =====
-- Whole answers between the two protocols: chatJSONToAnthropic of internal/gateway/anthropic.go,
-- anthropicJSONToChat of internal/gateway/anthropic_outbound.go, and the readers of the usage block of
-- internal/gateway/anthropic_handler.go and internal/gateway/sse.go.
--
-- An Anthropic message is its map. A chat completion is a record: of its keys the fields that never
-- vary are left out. json.Marshal and json.Unmarshal are arguments.
pub mod RoundTrip
mod Examples
use nano_llm_proxy.Prelude.{
  ℕ, Option, none, some, List, [], ◌∷◌, ◌++◌, if◌then◌else◌, String, str_eq, str_append, true, ℤ,
  pos, ◌+ℤ◌, wrap64,
}
use nano_llm_proxy.Json.{
  Json, null, num, str, arr, obj, Fields, end, field, get_field, to_items, as_string, as_object,
  as_fields, as_array, to_int64,
}
use nano_llm_proxy.Usage.{
  TokenUsage, ChatUsage, AnthropicUsage, no_usage, larger, add, add_cached, anthropic_usage,
  chat_usage,
}
use nano_llm_proxy.Stream.{stop_reason_from_chat}

abbrev int_at : Fields → String → ℤ
int_at u k = to_int64 (get_field u k)

-- c = max(c, toInt64(d["cached_tokens"])) if the details are a map
abbrev max_details : Option Fields → ℕ → ℕ
max_details none c = c
max_details (some d) c = larger (int_at d "cached_tokens") c

pub cached_from_usage_map : Fields → ℕ
cached_from_usage_map u =
    max_details (as_object (get_field u "input_tokens_details"))
      (max_details (as_object (get_field u "prompt_tokens_details")) 0)

chat_totals : Option Fields → TokenUsage
unfolding add add_cached cached_from_usage_map
chat_totals none = no_usage
chat_totals (some u) =
    let t = add no_usage (int_at u "prompt_tokens") (int_at u "completion_tokens") in
    add_cached (add t (int_at u "input_tokens") (int_at u "output_tokens"))
      (pos (cached_from_usage_map u))

pub usage_from_chat_json : Fields → TokenUsage
unfolding chat_totals
usage_from_chat_json chat = chat_totals (as_object (get_field chat "usage"))

anthropic_totals : Option Fields → TokenUsage
unfolding add add_cached
anthropic_totals none = no_usage
anthropic_totals (some u) =
    let read = int_at u "cache_read_input_tokens" in
    let total = int_at u "input_tokens" +ℤ read +ℤ int_at u "cache_creation_input_tokens" in
    let t = add no_usage (wrap64 total) (int_at u "output_tokens") in
    add_cached (add t (int_at u "prompt_tokens") (int_at u "completion_tokens")) read

unfoldable pub usage_from_anthropic_msg : Fields → TokenUsage
unfolding anthropic_totals
usage_from_anthropic_msg msg = anthropic_totals (as_object (get_field msg "usage"))

abbrev pub int_json : ℕ → Json
int_json n = num (pos n) 0

abbrev pub output_fields : Option ℕ → Fields
output_fields none = end
output_fields (some n) = field "output_tokens" (int_json n) end

abbrev pub usage_fields : AnthropicUsage → Fields
usage_fields u = field "input_tokens" (int_json u.input_tokens) (
    field "cache_read_input_tokens" (int_json u.cache_read_input_tokens) (
      field "cache_creation_input_tokens" (int_json u.cache_creation_input_tokens)
        (output_fields u.output_tokens)))

abbrev pub text_json : String → Json
text_json s = obj (field "type" (str "text") (field "text" (str s) end))

abbrev pub use_json : String → String → Json → Json
use_json id name input = obj (
    field "type" (str "tool_use")
      (field "id" (str id) (field "name" (str name) (field "input" input end))))

-- nothing, null, and what does not parse become an empty object
abbrev pub input_or_empty : Option Json → Json
input_or_empty none = obj end
input_or_empty (some null) = obj end
input_or_empty (some v) = v

abbrev pub text_content : String → List Json
text_content c = if str_eq c "" then [] else text_json c ∷ []

module _ (unmarshal : String → Option Json) where
  abbrev pub call_content : Option Fields → List Json
  call_content none = []
  call_content (some tcm) =
      let fn = as_fields (get_field tcm "function") in
      use_json (as_string (get_field tcm "id")) (as_string (get_field fn "name"))
        (input_or_empty (unmarshal (as_string (get_field fn "arguments"))))
      ∷ []

  unfoldable pub calls_content : List Json → List Json
  calls_content [] = []
  calls_content (tc ∷ tcs) = call_content (as_object tc) ++ calls_content tcs

  unfoldable pub message_content : Option Fields → List Json
  unfolding calls_content
  message_content none = []
  message_content (some msg) =
      text_content (as_string (get_field msg "content"))
      ++ calls_content (as_array (get_field msg "tool_calls"))

-- if content == nil
abbrev pub or_empty_text : List Json → List Json
or_empty_text [] = text_json "" ∷ []
or_empty_text (b ∷ bs) = b ∷ bs

abbrev pub stop_for : Json → String
stop_for (str s) = stop_reason_from_chat s
stop_for _ = "end_turn"

abbrev pub anthropic_message : Fields → String → List Json → String → Fields
anthropic_message chat model content stop = field "id" (get_field chat "id") (
    field "type" (str "message") (
      field "role" (str "assistant") (
        field "model" (str model) (
          field "content" (arr (to_items (or_empty_text content))) (
            field "stop_reason" (str stop) (
              field "stop_sequence" null (
                field "usage"
                  (obj (usage_fields (anthropic_usage (usage_from_chat_json chat) true))) end)))))))

module _ (unmarshal : String → Option Json) where
  -- none where the code panics: the choice is no map
  abbrev pub reply_to : Option Fields → Fields → String → Option Fields
  reply_to none chat model = none
  reply_to (some ch) chat model = some (
      anthropic_message chat model (message_content unmarshal (as_object (get_field ch "message")))
        (stop_for (get_field ch "finish_reason")))

  abbrev pub reply_first : List Json → Fields → String → Option Fields
  reply_first [] chat model = some (anthropic_message chat model [] "end_turn")
  reply_first (c ∷ cs) chat model = reply_to (as_object c) chat model

  unfoldable pub chat_json_to_anthropic : Fields → String → Option Fields
  unfolding stop_reason_from_chat usage_from_chat_json anthropic_usage message_content
  chat_json_to_anthropic chat model = reply_first (as_array (get_field chat "choices")) chat model

unfoldable pub stop_from_anthropic : String → String
stop_from_anthropic sr =
    if str_eq sr "max_tokens"
    then "length"
    else if str_eq sr "tool_use"
    then "tool_calls"
    else "stop"

pub record ToolCall : Type 0 where
  pub id : String
  pub name : String
  pub arguments : String

-- the variables content, reasoning and toolCalls
pub record MessageParts : Type 0 where
  pub content : String
  pub reasoning : String
  pub tool_calls : List ToolCall

abbrev pub nothing_told : MessageParts
nothing_told = record { content = ""; reasoning = ""; tool_calls = [] }

-- json.Marshal of a call's input, "{}" if that fails
abbrev pub arguments_of : Option String → String
arguments_of none = "{}"
arguments_of (some args) = args

module _ (marshal : Json → Option String) where
  abbrev pub tell_object : Fields → MessageParts → MessageParts
  tell_object bm t =
      let bt = as_string (get_field bm "type") in
      if str_eq bt "text"
      then record t { content = str_append t.content (as_string (get_field bm "text")) }
      else if str_eq bt "thinking"
      then record t { reasoning = str_append t.reasoning (as_string (get_field bm "thinking")) }
      else if str_eq bt "tool_use"
      then record t {
        tool_calls =
            t.tool_calls
            ++ record {
              id = as_string (get_field bm "id");
              name = as_string (get_field bm "name");
              arguments = arguments_of (marshal (get_field bm "input"));
            }
              ∷ [];
      }
      else t

  abbrev pub tell_block : Option Fields → MessageParts → MessageParts
  tell_block none t = t
  tell_block (some bm) t = tell_object bm t

  unfoldable pub tell_blocks : List Json → MessageParts → MessageParts
  tell_blocks [] t = t
  tell_blocks (b ∷ bs) t = tell_blocks bs (tell_block (as_object b) t)

-- a reasoning or a list of calls that is empty is not set
pub record ChatCompletion : Type 0 where
  pub id : Json
  pub model : String
  pub message : MessageParts
  pub finish_reason : String
  pub usage : ChatUsage

abbrev pub finish_for : String → String
finish_for sr = if str_eq sr "" then "stop" else stop_from_anthropic sr

module _ (marshal : Json → Option String) where
  unfoldable pub anthropic_json_to_chat : Fields → String → ChatCompletion
  unfolding stop_from_anthropic tell_blocks usage_from_anthropic_msg chat_usage
  anthropic_json_to_chat msg model = record {
    id = get_field msg "id";
    model = model;
    message = tell_blocks marshal (as_array (get_field msg "content")) nothing_told;
    finish_reason = finish_for (as_string (get_field msg "stop_reason"));
    usage = chat_usage (usage_from_anthropic_msg msg);
  }
