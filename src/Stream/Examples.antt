-- ===== src/Stream/Examples.antt =====
-- A chat stream with a text and a tool call in two fragments.
use nano_llm_proxy.Prelude.{
  ℕ, ◌≡◌, refl, true, Option, none, some, List, [], ◌∷◌, ◌++◌, String, codes, ℤ, pos, ◌==◌,
  if◌then◌else◌,
}
use nano_llm_proxy.Usage.{no_usage, anthropic_usage}
use nano_llm_proxy.Usage.Totals.{into_all}
use nano_llm_proxy.Stream.{Bytes, start, new_writer}
use nano_llm_proxy.Stream.Readers.{
  ChatJson, Choice, ToolDelta, ResponsesEvent, output_text_delta, stream_chat, stream_responses,
}
use nano_llm_proxy.Stream.Calls.{buffered, indices, first_seen, lookup_call, merged, of_index}
use nano_llm_proxy.Stream.Content.{
  said, called, filled, stopped, told, chunks_of, texts_in, deltas_in, usages_in, reason_in,
}
use nano_llm_proxy.Stream.Grammar.{follows, fresh, ended}
use nano_llm_proxy.Stream.Streams.{stream-follows}
use nano_llm_proxy.Stream.Telling.{calls_told, stop_told, stream_chat-told}

-- the payloads are single letters here
abbrev body : List Bytes
body =
    codes "data: a" ∷ codes ": ping" ∷ codes "data: b" ∷ codes "data: c" ∷ codes "data: [DONE]" ∷ []

abbrev fragment : String → String → String → ToolDelta
fragment id name arguments = record { index = pos 0; id = id; name = name; arguments = arguments }

abbrev choice : ℕ → Option (Option Choice)
choice c =
    if c == b'a'
    then some (some (record { content = "Hi"; tool_calls = []; finish_reason = none }))
    else if c == b'b'
    then some (
        some (record {
          content = "";
          tool_calls = fragment "t1" "look" "{\"a\"" ∷ [];
          finish_reason = none;
        }))
    else some (
        some (record {
          content = "";
          tool_calls = fragment "" "" ":1}" ∷ [];
          finish_reason = some "tool_calls";
        }))

abbrev chunk : Bytes → Option (Option Choice)
chunk [] = none
chunk (c ∷ cs) = choice c

abbrev json : ChatJson
json = record { chunk = chunk; usage = λ payload. none }

abbrev decode : Bytes → Option ResponsesEvent
decode payload = some (output_text_delta "Hi")

stream-follows_example :
    (follows (some fresh) (stream_chat json (start (new_writer "m")) body).out ≡ some ended)
    × (follows (some fresh) (stream_responses decode (start (new_writer "m")) body).out
        ≡ some ended)
stream-follows_example = stream-follows "m" body json decode

stream_chat-told_example :
    let cs = chunks_of json body in
    let calls = buffered [] (deltas_in cs) in
    (told (stream_chat json (start (new_writer "m")) body).out
      ≡ texts_in cs
        ++ (calls_told calls
            ++ stopped
                (stop_told calls (reason_in "" cs))
                (anthropic_usage (into_all (usages_in cs) no_usage) true)
              ∷ []))
    × (indices calls ≡ first_seen [] (deltas_in cs))
    × ((j : ℤ) → lookup_call j calls ≡ merged (of_index j (deltas_in cs)))
stream_chat-told_example = stream_chat-told "m" body json

whole_message :
    told (stream_chat json (start (new_writer "m")) body).out
    ≡ said "Hi"
      ∷ called "t1" "look"
      ∷ filled "{\"a\":1}"
      ∷ stopped "tool_use" (anthropic_usage no_usage true)
      ∷ []
unfolding stream_chat start
whole_message = refl
