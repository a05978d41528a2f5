-- ===== src/Stream/Streams.antt =====
-- Every whole stream keeps to the grammar.
use nano_llm_proxy.Prelude.{
  ℕ, suc, ◌≡◌, inl, inr, Option, none, some, List, [], ◌∷◌, String, negsuc, Option-cases,
}
use nano_llm_proxy.Usage.{UsageChunk}
use nano_llm_proxy.Stream.{Bytes, StreamWriter, new_writer, start, tool_use}
use nano_llm_proxy.Stream.Readers.{
  tap_usage, payload_of, sse_lines, tool_uses, finished, chat_choice, chat_chunk, responses_decoded,
  chat_payload, ChatJson, stream_chat, ToolDelta, Choice, ResponsesEvent, output_text_delta,
  function_call_done, response_ended, other_event, ResponsesState, responses_event, whole_calls,
  responses_payload, stream_responses, Call,
}
use nano_llm_proxy.Stream.Grammar.{
  fresh, ended, follows, Begun, start-Begun, text_delta_of-Begun, finish-At,
}

tool_uses-Begun : (a : StreamWriter) (tcs : List ToolDelta) → Begun a → Begun (tool_uses a tcs)
unfolding tool_uses tool_use
tool_uses-Begun a [] at = at
tool_uses-Begun a (tc ∷ tcs) at =
    tool_uses-Begun (tool_use a tc.index tc.id tc.name tc.arguments) tcs at

whole_calls-Begun :
    (a : StreamWriter) (i : ℕ) (cs : List Call) → Begun a → Begun (whole_calls a i cs)
unfolding whole_calls tool_use
whole_calls-Begun a i [] at = at
whole_calls-Begun a i ((id, name, args) ∷ cs) at =
    whole_calls-Begun (tool_use a (negsuc i) id name args) (suc i) cs at

finished-Begun : (a : StreamWriter) (o : Option String) → Begun a → Begun (finished a o)
finished-Begun a none at = at
finished-Begun a (some r) at = at

chat_choice-Begun : (a : StreamWriter) (d : Option Choice) → Begun a → Begun (chat_choice a d)
unfolding chat_choice
chat_choice-Begun a none at = at
chat_choice-Begun a (some d) at =
    finished-Begun _ d.finish_reason
      (tool_uses-Begun _ d.tool_calls (text_delta_of-Begun a d.content at))

tap_usage-Begun : (a : StreamWriter) (u : Option UsageChunk) → Begun a → Begun (tap_usage a u)
unfolding tap_usage
tap_usage-Begun a none at = at
tap_usage-Begun a (some u) at = at

-- A property that each payload keeps holds after the body.
pub sse_lines_keep {ℓ κ} :
    {S : Type ℓ} (P : S → Type κ) (fn : Bytes → S → S)
    → ((payload : Bytes) (s : S) → P s → P (fn payload s))
    → (lines : List Bytes) (s : S) → P s
    → P (sse_lines lines fn s)
unfolding sse_lines
sse_lines_keep P fn keep [] s h = h
sse_lines_keep P fn keep (line ∷ lines) s h = elim (Option-cases (payload_of line)) [
  | inl e ↦ rw e (sse_lines_keep P fn keep lines s h)
  | inr (payload, e) ↦ rw e (sse_lines_keep P fn keep lines (fn payload s) (keep payload s h))
]

chat_chunk-Begun :
    (o : Option (Option Choice)) (u : Option UsageChunk) (a : StreamWriter)
    → Begun a
    → Begun (chat_chunk o u a)
unfolding chat_chunk
chat_chunk-Begun none u a at = at
chat_chunk-Begun (some d) u a at = chat_choice-Begun (tap_usage a u) d (tap_usage-Begun a u at)

responses_event-Begun :
    (e : ResponsesEvent) (s : ResponsesState) → Begun s.0 → Begun (responses_event e s).0
unfolding responses_event
responses_event-Begun (output_text_delta t) (a, calls) at = text_delta_of-Begun a t at
responses_event-Begun (function_call_done id name args input) (a, calls) at = at
responses_event-Begun (response_ended usage) (a, calls) at = at
responses_event-Begun other_event (a, calls) at = at

responses_decoded-Begun :
    (o : Option ResponsesEvent) (s : ResponsesState) → Begun s.0 → Begun (responses_decoded o s).0
unfolding responses_decoded
responses_decoded-Begun none s at = at
responses_decoded-Begun (some e) s at = responses_event-Begun e s at

-- A stream is a complete message of the protocol, whatever lines the upstream sends and whatever they
-- decode to, and wherever its stream breaks off: it starts with message_start; its blocks have the
-- indices 0, 1, 2 and so on, each is opened, filled with deltas of its kind and closed before the
-- next; one message_delta and message_stop end it. So for a chat stream, and for a Responses stream.
pub stream-follows :
    (model : String) (body : List Bytes) (json : ChatJson) (decode : Bytes → Option ResponsesEvent)
    → (follows (some fresh) (stream_chat json (start (new_writer model)) body).out ≡ some ended)
      × (follows (some fresh) (stream_responses decode (start (new_writer model)) body).out
          ≡ some ended)
unfolding stream_chat stream_responses chat_payload responses_payload
stream-follows model body json decode =
    let a = start (new_writer model) in
    let begun = start-Begun model in
    let chat =
      sse_lines_keep Begun (chat_payload json)
        (λ payload. chat_chunk-Begun (json.chunk payload) (json.usage payload)) body a begun in
    let responses =
      sse_lines_keep (λ (s : ResponsesState). Begun s.0) (responses_payload decode)
        (λ payload. responses_decoded-Begun (decode payload)) body (a, []) begun in
    let (b, calls) = sse_lines body (responses_payload decode) (a, []) in
    (
      finish-At (sse_lines body (chat_payload json) a) "" chat,
      finish-At (whole_calls b 0 calls) (elim calls [ [] ↦ "" | c ∷ cs ↦ "tool_calls" ])
          (whole_calls-Begun b 0 calls responses),
    )
