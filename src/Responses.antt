-- ===== src/Responses.antt =====
-- internal/gateway/responses.go (translateResponses): a Responses stream becomes chat chunks for a
-- streaming client, or one chat completion for any other.
--
-- `out` is what is written to a streaming client: chunks, and the line that closes the stream. The fields of a chunk that
-- never vary are left out. The decoding of a payload by encoding/json is an argument.
pub mod Events
pub mod Streamed
pub mod Whole
mod Examples
use nano_llm_proxy.Prelude.{
  ℕ, zero, suc, ◌+◌, Bool, true, false, ◌||◌, Option, none, some, List, [], ◌∷◌, ◌++◌, length,
  if◌then◌else◌, String, str_eq, str_append,
}
use nano_llm_proxy.Usage.{
  TokenUsage, ChatUsage, ResponsesUsage, no_usage, chat_usage, responses_into,
}
use nano_llm_proxy.Stream.{Bytes}
use nano_llm_proxy.Stream.Readers.{sse_lines}

pub record ChatToolCall : Type 0 where
  pub index : ℕ
  pub id : String
  pub name : String
  pub arguments : String

pub record ResponseInfo : Type 0 where
  pub id : String
  pub usage : Option ResponsesUsage

pub data StreamEvent : Type 0 where
  output_text_delta : String → StreamEvent
  -- the call id, the name and the arguments of a function call that is done
  function_call_done : String → String → String → StreamEvent
  -- response.completed and response.done, or (with true) response.incomplete
  response_ended : Bool → Option ResponseInfo → StreamEvent
  -- response.failed and error
  response_failed : StreamEvent
  other_event : StreamEvent

pub data ChatOutput : Type 0 where
  content_chunk : String → ChatOutput
  tool_call_chunk : ChatToolCall → ChatOutput
  finish_chunk : String → Option ChatUsage → ChatOutput
  done_line : ChatOutput

-- the variables of translateResponses, with what was written
pub record Translation : Type 0 where
  pub agg : String
  pub tool_calls : List ChatToolCall
  pub saw_tools : Bool
  pub id : String
  pub tu : TokenUsage
  pub incomplete : Bool
  pub out : List ChatOutput

abbrev pub new_translation : Translation
new_translation = record {
  agg = "";
  tool_calls = [];
  saw_tools = false;
  id = "";
  tu = no_usage;
  incomplete = false;
  out = [];
}

abbrev pub written : Translation → ChatOutput → Translation
written t o = record t { out = t.out ++ o ∷ [] }

pub write_finish : Translation → String → Option ChatUsage → Translation
write_finish t finish usage = written (written t (finish_chunk finish usage)) done_line

-- if ev.Response != nil { … }
response_info : Translation → Option ResponseInfo → Translation
response_info t none = t
response_info t (some r) = record t {
  tu = responses_into r.usage t.tu;
  id = if str_eq r.id "" then t.id else r.id;
}

pub translate_event : Bool → StreamEvent → Translation → Translation
unfolding write_finish response_info
translate_event true (output_text_delta s) t = written t (content_chunk s)
translate_event false (output_text_delta s) t = record t { agg = str_append t.agg s }
translate_event true (function_call_done id name arguments) t =
    written (record t { saw_tools = true })
      (tool_call_chunk
        (record { index = length t.tool_calls; id = id; name = name; arguments = arguments }))
translate_event false (function_call_done id name arguments) t = record t {
  saw_tools = true;
  tool_calls =
      t.tool_calls
      ++ record { index = length t.tool_calls; id = id; name = name; arguments = arguments } ∷ [];
}
translate_event wants_stream (response_ended incomplete response) t =
    response_info (record t { incomplete = incomplete }) response
translate_event true response_failed t = write_finish t "stop" none
translate_event false response_failed t = t
translate_event wants_stream other_event t = t

pub translate_decoded : Bool → Option StreamEvent → Translation → Translation
unfolding translate_event
translate_decoded wants_stream none t = t
translate_decoded wants_stream (some e) t = translate_event wants_stream e t

-- finishReason
abbrev pub finish_reason : Bool → String
finish_reason true = "length"
finish_reason false = "stop"

abbrev pub final_finish : Translation → String
final_finish t = if t.saw_tools then "tool_calls" else finish_reason t.incomplete

-- the chat.completion for a client that does not stream
pub record Completion : Type 0 where
  pub id : String
  pub content : String
  pub tool_calls : List ChatToolCall
  pub finish : String
  pub usage : ChatUsage

module _ (decode : Bytes → Option StreamEvent) where
  pub translated : Bool → List Bytes → Translation
  unfolding sse_lines translate_decoded
  translated wants_stream body =
      sse_lines body (λ payload. translate_decoded wants_stream (decode payload)) new_translation

  -- translateResponses for a streaming client
  pub translate_stream : List Bytes → Translation
  unfolding translated write_finish
  translate_stream body =
      let t = translated true body in write_finish t (final_finish t) (some (chat_usage t.tu))

  -- translateResponses for any other client
  pub translate_whole : List Bytes → Completion
  unfolding translated
  translate_whole body =
      let t = translated false body in
      record {
        id = t.id;
        content = t.agg;
        tool_calls = if t.saw_tools then t.tool_calls else [];
        finish = final_finish t;
        usage = chat_usage t.tu;
      }
