-- ===== src/ChatStream.antt =====
-- streamAnthropicSSEToChat of internal/gateway/anthropic_outbound.go, with anthropicUsageBlock.into of
-- internal/gateway/anthropic_native.go: a stream of Anthropic events becomes chat chunks.
--
-- `out` is what was written to the client: the chunks, and the line that closes the stream. The fields
-- of a chunk that never vary are left out. The decoding of a payload by encoding/json is an argument.
pub mod Calls
pub mod Hearing
pub mod Told
mod Examples
use nano_llm_proxy.Prelude.{
  ℕ, zero, suc, Option, none, some, List, [], ◌∷◌, ◌++◌, if◌then◌else◌, String, str_eq, ℤ, pos,
  negsuc, ◌+ℤ◌, wrap64, eq_ℤ,
}
use nano_llm_proxy.Usage.{TokenUsage, ChatUsage, no_usage, add, add_cached, or_other, chat_usage}
use nano_llm_proxy.Stream.{Bytes}
use nano_llm_proxy.Stream.Readers.{sse_lines}
use nano_llm_proxy.Replies.{stop_from_anthropic}

pub record AnthropicUsageBlock : Type 0 where
  pub input_tokens : ℤ
  pub output_tokens : ℤ
  pub cache_read_input_tokens : ℤ
  pub cache_creation_input_tokens : ℤ
  pub prompt_tokens : ℤ
  pub completion_tokens : ℤ

-- anthropicUsageBlock.into; `none` is nil
unfoldable pub usage_block_into : Option AnthropicUsageBlock → TokenUsage → TokenUsage
unfolding add add_cached
usage_block_into none t = t
usage_block_into (some u) t =
    let total =
      wrap64 (u.input_tokens +ℤ u.cache_read_input_tokens +ℤ u.cache_creation_input_tokens) in
    add_cached
      (add t (or_other u.prompt_tokens total) (or_other u.completion_tokens u.output_tokens))
      u.cache_read_input_tokens

pub record BlockJson : Type 0 where
  pub type : String
  pub id : String
  pub name : String

pub record DeltaJson : Type 0 where
  pub type : String
  pub text : String
  pub thinking : String
  pub partial_json : String
  pub stop_reason : Option String

-- an event as it is decoded; `message` is its usage, if there is a message
pub record EventJson : Type 0 where
  pub type : String
  pub index : ℤ
  pub content_block : Option BlockJson
  pub delta : Option DeltaJson
  pub message : Option (Option AnthropicUsageBlock)
  pub usage : Option AnthropicUsageBlock

pub data ChatChunk : Type 0 where
  role_chunk : ChatChunk
  content_chunk : String → ChatChunk
  reasoning_chunk : String → ChatChunk
  -- the call's index, its id and its name
  call_chunk : ℕ → String → String → ChatChunk
  arguments_chunk : ℕ → String → ChatChunk
  finish_chunk : String → ChatUsage → ChatChunk
  closing_line : ChatChunk

-- the variables of the function; toolChatIdx holds the newest entry of an index first
pub record ChatStream : Type 0 where
  pub tu : TokenUsage
  pub finish : String
  pub tool_chat_idx : List (ℤ × ℕ)
  pub next_tool : ℕ
  pub out : List ChatChunk

-- writeChunk
abbrev pub write_chunk : ChatStream → ChatChunk → ChatStream
write_chunk s c = record s { out = s.out ++ c ∷ [] }

abbrev pub chat_idx : ℤ → List (ℤ × ℕ) → Option ℕ
chat_idx i [] = none
chat_idx i ((j, k) ∷ m) = if eq_ℤ j i then some k else chat_idx i m

abbrev pub on_message_start : Option (Option AnthropicUsageBlock) → ChatStream → ChatStream
on_message_start none s = s
on_message_start (some u) s = record s { tu = usage_block_into u s.tu }

abbrev pub start_tool : ℤ → BlockJson → ChatStream → ChatStream
start_tool index b s =
    write_chunk
      (record s {
        next_tool = suc s.next_tool;
        tool_chat_idx = (index, s.next_tool) ∷ s.tool_chat_idx;
      })
      (call_chunk s.next_tool b.id b.name)

unfoldable pub block_start : ℤ → Option BlockJson → ChatStream → ChatStream
block_start index none s = s
block_start index (some b) s = if str_eq b.type "tool_use" then start_tool index b s else s

abbrev pub write_arguments : Option ℕ → String → ChatStream → ChatStream
write_arguments none args s = s
write_arguments (some i) args s = write_chunk s (arguments_chunk i args)

unfoldable pub block_delta : ℤ → Option DeltaJson → ChatStream → ChatStream
block_delta index none s = s
block_delta index (some d) s =
    if str_eq d.type "text_delta"
    then write_chunk s (content_chunk d.text)
    else if str_eq d.type "thinking_delta"
    then write_chunk s (reasoning_chunk d.thinking)
    else if str_eq d.type "input_json_delta"
    then write_arguments (chat_idx index s.tool_chat_idx) d.partial_json s
    else s

abbrev pub with_stop : Option String → ChatStream → ChatStream
with_stop none s = s
with_stop (some reason) s = record s { finish = stop_from_anthropic reason }

abbrev pub delta_reason : Option DeltaJson → Option String
delta_reason none = none
delta_reason (some d) = d.stop_reason

unfoldable pub on_message_delta : EventJson → ChatStream → ChatStream
unfolding stop_from_anthropic usage_block_into
on_message_delta ev s =
    let t = with_stop (delta_reason ev.delta) s in record t { tu = usage_block_into ev.usage t.tu }

-- what the callback makes of a payload; `none` does not parse
unfoldable pub on_event : Option EventJson → ChatStream → ChatStream
unfolding usage_block_into block_start block_delta on_message_delta
on_event none s = s
on_event (some ev) s =
    if str_eq ev.type "message_start"
    then on_message_start ev.message s
    else if str_eq ev.type "content_block_start"
    then block_start ev.index ev.content_block s
    else if str_eq ev.type "content_block_delta"
    then block_delta ev.index ev.delta s
    else if str_eq ev.type "message_delta"
    then on_message_delta ev s
    else s

abbrev pub new_stream : ChatStream
new_stream = record {
  tu = no_usage;
  finish = "stop";
  tool_chat_idx = [];
  next_tool = 0;
  out = role_chunk ∷ [];
}

-- the final chunk and the closing line
abbrev pub end_stream : ChatStream → List ChatChunk
end_stream s = s.out ++ finish_chunk s.finish (chat_usage s.tu) ∷ closing_line ∷ []

module _ (decode : Bytes → Option EventJson) where
  abbrev pub read_stream : List Bytes → ChatStream
  read_stream lines = sse_lines lines (λ payload s. on_event (decode payload) s) new_stream

  -- what is written, and the usage that is returned
  unfoldable pub stream_anthropic_sse_to_chat : List Bytes → List ChatChunk × TokenUsage
  unfolding on_event sse_lines chat_usage
  stream_anthropic_sse_to_chat lines = let s = read_stream lines in (end_stream s, s.tu)
