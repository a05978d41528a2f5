-- ===== src/Stream/Readers.antt =====
-- The readers of internal/gateway/anthropic.go, streamChatSSEToAnthropic and
-- streamResponsesSSEToAnthropic, with sseLines of internal/gateway/sse.go.
--
-- The decoding of a payload by encoding/json is an argument of the readers, and a body is the list of
-- the lines that the scanner delivers.
use nano_llm_proxy.Prelude.{
  ℕ, suc, not, ◌||◌, Option, none, some, List, [], ◌∷◌, ◌++◌, ltb, if◌then◌else◌, String, str_eq,
  codes, has_prefix, drop, length, ℤ, negsuc,
}
use nano_llm_proxy.Usage.{UsageChunk, ResponsesUsage, chunk_into, responses_into}
use nano_llm_proxy.Stream.{Bytes, StreamWriter, text_delta_of, tool_use, finish}

-- "data: "
abbrev pub data_prefix : Bytes
data_prefix = codes "data: "

-- what sseLines makes of one line
unfoldable pub payload_of : Bytes → Option Bytes
payload_of line =
    let payload = drop 6 line in
    if ltb (length line) 6 || not (has_prefix line data_prefix)
    then none
    else if has_prefix payload (b'[' ∷ [])
    then none
    else some payload

unfoldable pub sse_lines {ℓ} : {S : Type ℓ} → List Bytes → (Bytes → S → S) → S → S
unfolding payload_of
sse_lines [] fn s = s
sse_lines (line ∷ lines) fn s =
    sse_lines lines fn (elim (payload_of line) [ none ↦ s | some payload ↦ fn payload s ])

-- a delta's tool call
pub record ToolDelta : Type 0 where
  pub index : ℤ
  pub id : String
  pub name : String
  pub arguments : String

-- the first choice of a chunk
pub record Choice : Type 0 where
  pub content : String
  pub tool_calls : List ToolDelta
  pub finish_reason : Option String

unfoldable pub tool_uses : StreamWriter → List ToolDelta → StreamWriter
unfolding tool_use
tool_uses a [] = a
tool_uses a (tc ∷ tcs) = tool_uses (tool_use a tc.index tc.id tc.name tc.arguments) tcs

abbrev pub finished : StreamWriter → Option String → StreamWriter
finished a none = a
finished a (some reason) = record a { chat_finish = reason }

unfoldable pub chat_choice : StreamWriter → Option Choice → StreamWriter
unfolding text_delta_of tool_uses
chat_choice a none = a
chat_choice a (some d) =
    finished (tool_uses (text_delta_of a d.content) d.tool_calls) d.finish_reason

unfoldable pub tap_usage : StreamWriter → Option UsageChunk → StreamWriter
tap_usage a none = a
tap_usage a (some u) = record a { tu = chunk_into u a.tu }

-- What encoding/json makes of a payload: the chunk's first choice, if it has one, and the usage. Each
-- is `none` if the payload does not fit.
pub record ChatJson : Type 0 where
  pub chunk : Bytes → Option (Option Choice)
  pub usage : Bytes → Option UsageChunk

unfoldable pub chat_chunk : Option (Option Choice) → Option UsageChunk → StreamWriter → StreamWriter
unfolding tap_usage chat_choice
chat_chunk none usage a = a
chat_chunk (some choice) usage a = chat_choice (tap_usage a usage) choice

module _ (json : ChatJson) where
  unfoldable pub chat_payload : Bytes → StreamWriter → StreamWriter
  unfolding chat_chunk
  chat_payload payload = chat_chunk (json.chunk payload) (json.usage payload)

  -- streamChatSSEToAnthropic
  unfoldable pub stream_chat : StreamWriter → List Bytes → StreamWriter
  unfolding sse_lines chat_payload finish
  stream_chat a body = finish (sse_lines body chat_payload a) ""

-- an event of the Responses API
pub data ResponsesEvent : Type 0 where
  output_text_delta : String → ResponsesEvent
  -- the id, the name, the arguments and the raw input of a function call that is done
  function_call_done : String → String → String → String → ResponsesEvent
  -- completed, incomplete or done, with a response
  response_ended : Option ResponsesUsage → ResponsesEvent
  other_event : ResponsesEvent

abbrev pub Call : Type 0
Call = String × String × String

abbrev pub ResponsesState : Type 0
ResponsesState = StreamWriter × List Call

unfoldable pub responses_event : ResponsesEvent → ResponsesState → ResponsesState
unfolding text_delta_of
responses_event (output_text_delta s) (a, calls) = (text_delta_of a s, calls)
responses_event (function_call_done id name args input) (a, calls) =
    (a, calls ++ (id, name, if str_eq args "" then input else args) ∷ [])
responses_event (response_ended usage) (a, calls) =
    (record a { tu = responses_into usage a.tu }, calls)
responses_event other_event (a, calls) = (a, calls)

-- a.toolUse(-1-i, …), from the i-th call on
unfoldable pub whole_calls : StreamWriter → ℕ → List Call → StreamWriter
unfolding tool_use
whole_calls a i [] = a
whole_calls a i ((id, name, args) ∷ calls) =
    whole_calls (tool_use a (negsuc i) id name args) (suc i) calls

unfoldable pub responses_decoded : Option ResponsesEvent → ResponsesState → ResponsesState
unfolding responses_event
responses_decoded none s = s
responses_decoded (some e) s = responses_event e s

module _ (decode : Bytes → Option ResponsesEvent) where
  unfoldable pub responses_payload : Bytes → ResponsesState → ResponsesState
  unfolding responses_decoded
  responses_payload payload = responses_decoded (decode payload)

  -- streamResponsesSSEToAnthropic
  unfoldable pub stream_responses : StreamWriter → List Bytes → StreamWriter
  unfolding sse_lines responses_payload whole_calls finish
  stream_responses a body =
      let (b, calls) = sse_lines body responses_payload (a, []) in
      finish (whole_calls b 0 calls) (elim calls [ [] ↦ "" | c ∷ cs ↦ "tool_calls" ])
