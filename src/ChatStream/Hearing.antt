-- ===== src/ChatStream/Hearing.antt =====
-- What a chat client hears of a stream of Anthropic events.
use nano_llm_proxy.Prelude.{
  ℕ, Option, none, some, List, [], ◌∷◌, length, if◌then◌else◌, ◌==◌, String, str_eq, str_append, ℤ,
  eq_ℤ,
}
use nano_llm_proxy.Replies.{ToolCall}
use nano_llm_proxy.Stream.{Bytes}
use nano_llm_proxy.Stream.Readers.{payload_of}
use nano_llm_proxy.ChatStream.{
  BlockJson, DeltaJson, EventJson, ChatChunk, role_chunk, content_chunk, reasoning_chunk,
  call_chunk, arguments_chunk, finish_chunk, closing_line, delta_reason,
}

abbrev pub with_args : ToolCall → String → ToolCall
with_args c args = record c { arguments = str_append c.arguments args }

-- What a client of the chat protocol has; the newest call comes first.
pub record Heard : Type 0 where
  pub content : String
  pub reasoning : String
  pub calls : List ToolCall
  pub finish : String

abbrev pub nothing_heard : Heard
nothing_heard = record { content = ""; reasoning = ""; calls = []; finish = "" }

-- The call with the index `i` takes more arguments: as many calls are older.
abbrev pub extend_at : ℕ → String → List ToolCall → List ToolCall
extend_at i args [] = []
extend_at i args (c ∷ cs) =
    let rest = extend_at i args cs in if length cs == i then with_args c args ∷ cs else c ∷ rest

-- The call with the index `i` takes an id and a name, and keeps its arguments.
abbrev pub name_at : ℕ → String → String → List ToolCall → List ToolCall
name_at i id name [] = []
name_at i id name (c ∷ cs) =
    let rest = name_at i id name cs in
    if length cs == i then record c { id = id; name = name } ∷ cs else c ∷ rest

-- A new index, the next one, is a new call; a client merges what comes under an index it has.
abbrev pub call_at : ℕ → String → String → List ToolCall → List ToolCall
call_at i id name cs =
    if i == length cs
    then record { id = id; name = name; arguments = "" } ∷ cs
    else name_at i id name cs

abbrev pub hear_chunk : Heard → ChatChunk → Heard
hear_chunk h role_chunk = h
hear_chunk h (content_chunk s) = record h { content = str_append h.content s }
hear_chunk h (reasoning_chunk s) = record h { reasoning = str_append h.reasoning s }
hear_chunk h (call_chunk i id name) = record h { calls = call_at i id name h.calls }
hear_chunk h (arguments_chunk i args) = record h { calls = extend_at i args h.calls }
hear_chunk h (finish_chunk reason usage) = record h { finish = reason }
hear_chunk h closing_line = h

abbrev pub hear : Heard → List ChatChunk → Heard
hear h [] = h
hear h (c ∷ cs) = hear (hear_chunk h c) cs

-- What a client of the Anthropic protocol has: its tool blocks, the newest first, with their indices.
pub record Seen : Type 0 where
  pub content : String
  pub reasoning : String
  pub blocks : List (ℤ × ToolCall)
  pub finish : String

abbrev pub nothing_seen : Seen
nothing_seen = record { content = ""; reasoning = ""; blocks = []; finish = "stop" }

-- The newest block with the index takes more of its input.
abbrev pub extend_block : ℤ → String → List (ℤ × ToolCall) → List (ℤ × ToolCall)
extend_block i args [] = []
extend_block i args ((j, c) ∷ bs) =
    let rest = extend_block i args bs in
    if eq_ℤ j i then (j, with_args c args) ∷ bs else (j, c) ∷ rest

abbrev pub see_start : ℤ → Option BlockJson → Seen → Seen
see_start i none v = v
see_start i (some b) v =
    if str_eq b.type "tool_use"
    then record v { blocks = (i, record { id = b.id; name = b.name; arguments = "" }) ∷ v.blocks }
    else v

abbrev pub see_delta : ℤ → Option DeltaJson → Seen → Seen
see_delta i none v = v
see_delta i (some d) v =
    if str_eq d.type "text_delta"
    then record v { content = str_append v.content d.text }
    else if str_eq d.type "thinking_delta"
    then record v { reasoning = str_append v.reasoning d.thinking }
    else if str_eq d.type "input_json_delta"
    then record v { blocks = extend_block i d.partial_json v.blocks }
    else v

-- The reason to stop in the words of the chat protocol.
abbrev pub chat_reason : String → String
chat_reason reason =
    if str_eq reason "tool_use"
    then "tool_calls"
    else if str_eq reason "max_tokens"
    then "length"
    else "stop"

abbrev pub see_stop : Option String → Seen → Seen
see_stop none v = v
see_stop (some reason) v = record v { finish = chat_reason reason }

abbrev pub see : Option EventJson → Seen → Seen
see none v = v
see (some ev) v =
    if str_eq ev.type "message_start"
    then v
    else if str_eq ev.type "content_block_start"
    then see_start ev.index ev.content_block v
    else if str_eq ev.type "content_block_delta"
    then see_delta ev.index ev.delta v
    else if str_eq ev.type "message_delta"
    then see_stop (delta_reason ev.delta) v
    else v

abbrev pub see_line : (Bytes → Option EventJson) → Option Bytes → Seen → Seen
see_line decode none v = v
see_line decode (some payload) v = see (decode payload) v

abbrev pub see_all : (Bytes → Option EventJson) → List Bytes → Seen → Seen
see_all decode [] v = v
see_all decode (line ∷ lines) v = see_all decode lines (see_line decode (payload_of line) v)

abbrev pub blocks_calls : List (ℤ × ToolCall) → List ToolCall
blocks_calls [] = []
blocks_calls ((i, c) ∷ bs) = c ∷ blocks_calls bs

-- What a chat client should have heard before the end.
abbrev pub told : Seen → Heard
told v = record {
  content = v.content;
  reasoning = v.reasoning;
  calls = blocks_calls v.blocks;
  finish = "";
}

abbrev pub with_finish : Heard → String → Heard
with_finish h finish = record h { finish = finish }

-- What it should have heard at the end.
abbrev pub told_in_full : Seen → Heard
told_in_full v = with_finish (told v) v.finish
