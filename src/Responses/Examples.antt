-- ===== src/Responses/Examples.antt =====
-- A Responses stream with a text and two calls.
use nano_llm_proxy.Prelude.{
  ℕ, ◌≡◌, refl, true, Option, none, some, List, [], ◌∷◌, ◌++◌, codes, pos, length, ◌==◌,
  if◌then◌else◌,
}
use nano_llm_proxy.Usage.{no_usage, chat_usage}
use nano_llm_proxy.Stream.{Bytes, buffer_call}
use nano_llm_proxy.Stream.Calls.{buffered, lookup_call, merged}
use nano_llm_proxy.Responses.{
  StreamEvent, output_text_delta, function_call_done, response_ended, finish_chunk, done_line,
  translate_stream, translate_whole,
}
use nano_llm_proxy.Responses.Events.{events_of, usage_after, finish_of}
use nano_llm_proxy.Responses.Streamed.{
  outputs_of, translate_stream_out, tool_deltas, calls_in, streamed_calls_merge,
}
use nano_llm_proxy.Responses.Whole.{text_of, numbered, translate_whole_lem}

-- the payloads are single letters here
abbrev body : List Bytes
body = codes "data: t" ∷ codes "data: a" ∷ codes "data: b" ∷ codes "data: e" ∷ []

abbrev event : ℕ → Option StreamEvent
event c =
    if c == b't'
    then some (output_text_delta "Hi")
    else if c == b'a'
    then some (function_call_done "c1" "look" "{}")
    else if c == b'b'
    then some (function_call_done "c2" "read" "{}")
    else some (response_ended true none)

abbrev decode : Bytes → Option StreamEvent
decode [] = none
decode (c ∷ cs) = event c

translate_stream_out_example :
    let es = events_of decode body in
    (translate_stream decode body).out
    ≡ outputs_of es
      ++ finish_chunk (finish_of es) (some (chat_usage (usage_after no_usage es))) ∷ done_line ∷ []
translate_stream_out_example = translate_stream_out decode body

streamed_calls_merge_example :
    let ds = tool_deltas (translate_stream decode body).out in
    (length ds ≡ calls_in (events_of decode body))
    × (lookup_call (pos 0) (buffered [] ds) ≡ merged ds)
streamed_calls_merge_example = streamed_calls_merge decode body

translate_whole_lem_example :
    let es = events_of decode body in
    let completion = translate_whole decode body in
    (completion.content ≡ text_of es)
    × (completion.tool_calls ≡ numbered 0 es)
    × (completion.finish ≡ finish_of es)
    × (completion.usage ≡ chat_usage (usage_after no_usage es))
translate_whole_lem_example = translate_whole_lem decode body

-- The two calls arrive as one.
merged_call :
    buffered [] (tool_deltas (translate_stream decode body).out)
    ≡ (pos 0, record { id = "c1"; name = "look"; args = "{}{}" }) ∷ []
unfolding translate_stream buffer_call
merged_call = refl
