-- ===== src/ChatStream/Examples.antt =====
-- A stream with a text and two tool calls whose inputs arrive by turns.
use nano_llm_proxy.Prelude.{
  ◌≡◌, refl, Option, none, some, List, [], ◌∷◌, String, ℕ, pos, codes, ◌==◌, if◌then◌else◌,
}
use nano_llm_proxy.Stream.{Bytes}
use nano_llm_proxy.ChatStream.{
  EventJson, DeltaJson, role_chunk, content_chunk, call_chunk, arguments_chunk, finish_chunk,
  closing_line, stream_anthropic_sse_to_chat,
}
use nano_llm_proxy.ChatStream.Calls.{Follows, stream_anthropic_sse_to_chat-Follows}
use nano_llm_proxy.ChatStream.Hearing.{nothing_heard, hear, nothing_seen, see_all, told_in_full}
use nano_llm_proxy.ChatStream.Told.{stream_anthropic_sse_to_chat-told}

abbrev event : String → ℕ → EventJson
event type i = record {
  type = type;
  index = pos i;
  content_block = none;
  delta = none;
  message = none;
  usage = none;
}

abbrev tool_start : ℕ → String → EventJson
tool_start i id = record (event "content_block_start" i) {
  content_block = some (record { type = "tool_use"; id = id; name = "find" });
}

abbrev said : ℕ → DeltaJson → EventJson
said i d = record (event "content_block_delta" i) { delta = some d }

abbrev text_of : String → DeltaJson
text_of s = record {
  type = "text_delta";
  text = s;
  thinking = "";
  partial_json = "";
  stop_reason = none;
}

abbrev json_delta : String → DeltaJson
json_delta s = record {
  type = "input_json_delta";
  text = "";
  thinking = "";
  partial_json = s;
  stop_reason = none;
}

abbrev stop : EventJson
stop = record (event "message_delta" 0) {
  delta = some (record (text_of "") { type = ""; stop_reason = some "tool_use" });
}

-- A payload begins with a byte that names the event.
abbrev decode : Bytes → Option EventJson
decode [] = none
decode (c ∷ cs) =
    if c == b't'
    then some (said 0 (text_of "Let me see."))
    else if c == b'a'
    then some (tool_start 1 "c1")
    else if c == b'b'
    then some (tool_start 2 "c2")
    else if c == b'1'
    then some (said 1 (json_delta "{}"))
    else if c == b'2'
    then some (said 2 (json_delta "[]"))
    else if c == b's'
    then some stop
    else none

abbrev lines : List Bytes
lines =
    codes "data: t"
    ∷ codes "data: a"
    ∷ codes "data: b"
    ∷ codes "data: 2"
    ∷ codes "event: x"
    ∷ codes "data: 1"
    ∷ codes "data: s"
    ∷ []

stream-test :
    (stream_anthropic_sse_to_chat decode lines).0
    ≡ role_chunk
      ∷ content_chunk "Let me see."
      ∷ call_chunk 0 "c1" "find"
      ∷ call_chunk 1 "c2" "find"
      ∷ arguments_chunk 1 "[]"
      ∷ arguments_chunk 0 "{}"
      ∷ finish_chunk "tool_calls"
          (record { prompt_tokens = 0; completion_tokens = 0; total_tokens = 0; cached_tokens = 0 })
      ∷ closing_line
      ∷ []
unfolding stream_anthropic_sse_to_chat
stream-test = refl

stream_anthropic_sse_to_chat-Follows_example :
    Follows 0 (stream_anthropic_sse_to_chat decode lines).0
stream_anthropic_sse_to_chat-Follows_example = stream_anthropic_sse_to_chat-Follows decode lines

stream_anthropic_sse_to_chat-told_example :
    hear nothing_heard (stream_anthropic_sse_to_chat decode lines).0
    ≡ told_in_full (see_all decode lines nothing_seen)
stream_anthropic_sse_to_chat-told_example = stream_anthropic_sse_to_chat-told decode lines
