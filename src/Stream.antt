-- ===== src/Stream.antt =====
-- The anthropicStreamWriter of internal/gateway/anthropic.go: a chat stream or a Responses stream
-- becomes a stream of Anthropic events.
--
-- `out` is what was written to the client, one event each; Flush changes nothing. The fields of an
-- event that never vary are left out. `toolIdx` points into `pending` and has each index once, so
-- `pending` holds the index with its call.
pub mod Readers
pub mod Calls
pub mod Grammar
pub mod Streams
pub mod Content
pub mod Reading
pub mod Telling
mod Examples
use Prim.Native.String.{◌++◌ as str_append}
use nano_llm_proxy.Prelude.{
  ℕ, zero, suc, ◌+◌, Bool, true, false, not, ◌&&◌, ◌||◌, Option, none, some, List, [], ◌∷◌, ◌++◌,
  ltb, ◌==◌, if◌then◌else◌, String, str_eq, codes, has_prefix, drop, length, ℤ, pos, negsuc, eq_ℤ,
}
use nano_llm_proxy.Usage.{
  TokenUsage, UsageChunk, ResponsesUsage, AnthropicUsage, no_usage, anthropic_usage, chunk_into,
  responses_into,
}

abbrev pub Bytes : Type 0
Bytes = List ℕ

pub data Block : Type 0 where
  text_block : Block
  tool_use_block : String → String → Block

pub data Delta : Type 0 where
  text_delta : String → Delta
  input_json_delta : String → Delta

pub data Event : Type 0 where
  message_start : String → AnthropicUsage → Event
  content_block_start : ℕ → Block → Event
  content_block_delta : ℕ → Delta → Event
  content_block_stop : ℕ → Event
  message_delta : String → AnthropicUsage → Event
  message_stop : Event

pub record PendingToolCall : Type 0 where
  pub id : String
  pub name : String
  pub args : String

pub record StreamWriter : Type 0 where
  pub model : String
  pub block_idx : ℕ
  pub text_open : Bool
  pub flushed_hdr : Bool
  pub saw_tools : Bool
  pub tu : TokenUsage
  pub chat_finish : String
  pub pending : List (ℤ × PendingToolCall)
  pub out : List Event

abbrev pub new_writer : String → StreamWriter
new_writer model = record {
  model = model;
  block_idx = 0;
  text_open = false;
  flushed_hdr = false;
  saw_tools = false;
  tu = no_usage;
  chat_finish = "";
  pending = [];
  out = [];
}

-- fmt.Fprintf(a.w, …)
abbrev pub write : StreamWriter → Event → StreamWriter
write a e = record a { out = a.out ++ e ∷ [] }

unfoldable pub stop_reason_from_chat : String → String
stop_reason_from_chat fr =
    if str_eq fr "tool_calls"
    then "tool_use"
    else if str_eq fr "length"
    then "max_tokens"
    else "end_turn"

unfoldable pub start : StreamWriter → StreamWriter
start a =
    write (record a { flushed_hdr = true }) (message_start a.model (anthropic_usage no_usage true))

-- the flag is a.textOpen
unfoldable pub open_block : Bool → StreamWriter → StreamWriter
open_block true a = a
open_block false a =
    write (record a { text_open = true }) (content_block_start a.block_idx text_block)

abbrev pub open_text : StreamWriter → StreamWriter
open_text a = open_block a.text_open a

unfoldable pub text_delta_of : StreamWriter → String → StreamWriter
unfolding open_block
text_delta_of a s =
    if str_eq s "" then a else write (open_text a) (content_block_delta a.block_idx (text_delta s))

unfoldable pub close_block : Bool → StreamWriter → StreamWriter
close_block true a = record (write a (content_block_stop a.block_idx)) {
  text_open = false;
  block_idx = a.block_idx + 1;
}
close_block false a = a

abbrev pub close_text_block : StreamWriter → StreamWriter
close_text_block a = close_block a.text_open a

-- p.args += args, and the first id and name that are not empty
abbrev pub extend : PendingToolCall → String → String → String → PendingToolCall
extend p id name args = record {
  id = if str_eq p.id "" then id else p.id;
  name = if str_eq p.name "" then name else p.name;
  args = str_append p.args args;
}

unfoldable pub buffer_call :
    List (ℤ × PendingToolCall) → ℤ → String → String → String → List (ℤ × PendingToolCall)
buffer_call [] idx id name args = (idx, record { id = id; name = name; args = args }) ∷ []
buffer_call ((i, p) ∷ pending) idx id name args =
    let rest = buffer_call pending idx id name args in
    if eq_ℤ i idx then (i, extend p id name args) ∷ pending else (i, p) ∷ rest

unfoldable pub tool_use : StreamWriter → ℤ → String → String → String → StreamWriter
unfolding buffer_call
tool_use a idx id name args = record a {
  saw_tools = true;
  pending = buffer_call a.pending idx id name args;
}

-- the three events of a call, once the text block is closed
abbrev pub write_call : StreamWriter → PendingToolCall → StreamWriter
write_call a p =
    let started = write a (content_block_start a.block_idx (tool_use_block p.id p.name)) in
    let filled = write started (content_block_delta a.block_idx (input_json_delta p.args)) in
    record (write filled (content_block_stop a.block_idx)) { block_idx = a.block_idx + 1 }

unfoldable pub emit_tool_call : StreamWriter → PendingToolCall → StreamWriter
unfolding close_block
emit_tool_call a p = write_call (close_text_block a) p

unfoldable pub emit_tool_calls : StreamWriter → List (ℤ × PendingToolCall) → StreamWriter
unfolding emit_tool_call
emit_tool_calls a [] = a
emit_tool_calls a ((i, p) ∷ ps) = emit_tool_calls (emit_tool_call a p) ps

-- the stop reason: the upstream's, or that of the calls
abbrev pub stop_of : List (ℤ × PendingToolCall) → String → String
stop_of [] reason = stop_reason_from_chat reason
stop_of (p ∷ ps) reason = "tool_use"

unfoldable pub finish : StreamWriter → String → StreamWriter
unfolding close_block emit_tool_calls stop_reason_from_chat
finish a chat_finish =
    let b = if str_eq chat_finish "" then a else record a { chat_finish = chat_finish } in
    let c = emit_tool_calls (close_text_block b) b.pending in
    write (write c (message_delta (stop_of b.pending b.chat_finish) (anthropic_usage c.tu true)))
      message_stop
