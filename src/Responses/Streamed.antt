-- ===== src/Responses/Streamed.antt =====
-- What a streaming client gets of a Responses stream.
use nano_llm_proxy.Prelude.{
  ℕ, suc, ◌≡◌, refl, sym, ap, ◌∙◌, true, Option, none, some, List, [], ◌∷◌, ◌++◌, append_assoc,
  append-nil, length, String, pos,
}
use nano_llm_proxy.Usage.{ChatUsage, chat_usage, no_usage}
use nano_llm_proxy.Stream.{Bytes}
use nano_llm_proxy.Stream.Readers.{ToolDelta}
use nano_llm_proxy.Stream.Calls.{buffered, lookup_call, lookup_call-new, merged, of_index}
use nano_llm_proxy.Responses.Events.{
  events_of, run_events, translated_events, usage_after, run_events-Ends, finish_of,
  final_finish_lem,
}
use nano_llm_proxy.Responses.{
  ChatToolCall, StreamEvent, output_text_delta, function_call_done, response_ended, response_failed,
  other_event, ChatOutput, content_chunk, tool_call_chunk, finish_chunk, done_line, Translation,
  new_translation, write_finish, response_info, translate_event, final_finish, translated,
  translate_stream,
}

-- What is written for one event, in order.
abbrev pub output_of : StreamEvent → List ChatOutput
output_of (output_text_delta s) = content_chunk s ∷ []
output_of (function_call_done id name arguments) =
    tool_call_chunk (record { index = 0; id = id; name = name; arguments = arguments }) ∷ []
output_of (response_ended incomplete response) = []
output_of response_failed = finish_chunk "stop" none ∷ done_line ∷ []
output_of other_event = []

abbrev pub outputs_of : List StreamEvent → List ChatOutput
outputs_of [] = []
outputs_of (e ∷ es) = output_of e ++ outputs_of es

-- what is written, while no call is kept
record Writes (e : StreamEvent) (t t' : Translation) : Type 0 where
  none_kept : t'.tool_calls ≡ []
  wrote : t'.out ≡ t.out ++ output_of e

stream_event-Writes :
    (e : StreamEvent) (t : Translation) → t.tool_calls ≡ [] → Writes e t (translate_event true e t)
unfolding translate_event write_finish response_info
stream_event-Writes (output_text_delta s) t h = record { none_kept = h; wrote = refl }
stream_event-Writes (function_call_done i n a) t h = record {
  none_kept = h;
  wrote =
      ap
        (λ (calls : List ChatToolCall).
          t.out
          ++ tool_call_chunk (record { index = length calls; id = i; name = n; arguments = a })
            ∷ [])
        h;
}
stream_event-Writes (response_ended c none) t h = record {
  none_kept = h;
  wrote = sym (append-nil t.out);
}
stream_event-Writes (response_ended c (some r)) t h = record {
  none_kept = h;
  wrote = sym (append-nil t.out);
}
stream_event-Writes response_failed t h = record {
  none_kept = h;
  wrote = append_assoc t.out (finish_chunk "stop" none ∷ []) (done_line ∷ []);
}
stream_event-Writes other_event t h = record { none_kept = h; wrote = sym (append-nil t.out) }

stream_events_out :
    (es : List StreamEvent) (t : Translation)
    → t.tool_calls ≡ []
    → (run_events true es t).out ≡ t.out ++ outputs_of es
unfolding run_events
stream_events_out [] t h = sym (append-nil t.out)
stream_events_out (e ∷ es) t h =
    let one = stream_event-Writes e t h in
    stream_events_out es (translate_event true e t) one.none_kept
    ∙ ap (λ l. l ++ outputs_of es) one.wrote
    ∙ append_assoc t.out (output_of e) (outputs_of es)

-- A streaming client gets one chunk for each text and each call, in order, and at the end the finish
-- reason with the usage and the closing line. A failure in the middle of the stream writes a finish chunk and
-- the closing line at its place too. Every call has the index 0.
pub translate_stream_out :
    (decode : Bytes → Option StreamEvent) (body : List Bytes)
    → let es = events_of decode body in
      (translate_stream decode body).out
      ≡ outputs_of es
        ++ finish_chunk (finish_of es) (some (chat_usage (usage_after no_usage es)))
          ∷ done_line
          ∷ []
unfolding translate_stream write_finish
translate_stream_out decode body =
    let es = events_of decode body in
    let t = translated decode true body in
    let e = translated_events decode true body in
    let ends = run_events-Ends true es new_translation in
    append_assoc t.out (finish_chunk (final_finish t) (some (chat_usage t.tu)) ∷ [])
      (done_line ∷ [])
    ∙ ap
        (λ (u : Translation).
          u.out ++ finish_chunk (final_finish u) (some (chat_usage u.tu)) ∷ done_line ∷ [])
        e
    ∙ ap
        (λ l.
          l
          ++ finish_chunk (final_finish (run_events true es new_translation))
              (some (chat_usage (run_events true es new_translation).tu))
            ∷ done_line
            ∷ [])
        (stream_events_out es new_translation refl)
    ∙ ap
        (λ f.
          outputs_of es
          ++ finish_chunk f (some (chat_usage (run_events true es new_translation).tu))
            ∷ done_line
            ∷ [])
        (final_finish_lem es (run_events true es new_translation) ends)
    ∙ ap (λ u. outputs_of es ++ finish_chunk (finish_of es) (some (chat_usage u)) ∷ done_line ∷ [])
        ends.tokens

-- The tool deltas that a client reads in the chunks.
abbrev pub tool_deltas : List ChatOutput → List ToolDelta
tool_deltas [] = []
tool_deltas (content_chunk s ∷ os) = tool_deltas os
tool_deltas (tool_call_chunk c ∷ os) =
    record { index = pos c.index; id = c.id; name = c.name; arguments = c.arguments }
    ∷ tool_deltas os
tool_deltas (finish_chunk f u ∷ os) = tool_deltas os
tool_deltas (done_line ∷ os) = tool_deltas os

abbrev pub calls_in : List StreamEvent → ℕ
calls_in [] = 0
calls_in (function_call_done i n a ∷ es) = suc (calls_in es)
calls_in (output_text_delta s ∷ es) = calls_in es
calls_in (response_ended b r ∷ es) = calls_in es
calls_in (response_failed ∷ es) = calls_in es
calls_in (other_event ∷ es) = calls_in es

abbrev final_outputs : List StreamEvent → ChatOutput → List ChatOutput
final_outputs es last = outputs_of es ++ last ∷ done_line ∷ []

of_index_zero :
    (es : List StreamEvent) (f : String) (u : Option ChatUsage)
    → of_index (pos 0) (tool_deltas (final_outputs es (finish_chunk f u)))
      ≡ tool_deltas (final_outputs es (finish_chunk f u))
of_index_zero [] f u = refl
of_index_zero (function_call_done i n a ∷ es) f u =
    ap (λ l. record { index = pos 0; id = i; name = n; arguments = a } ∷ l) (of_index_zero es f u)
of_index_zero (output_text_delta s ∷ es) f u = of_index_zero es f u
of_index_zero (response_ended b r ∷ es) f u = of_index_zero es f u
of_index_zero (response_failed ∷ es) f u = of_index_zero es f u
of_index_zero (other_event ∷ es) f u = of_index_zero es f u

length-tool_deltas :
    (es : List StreamEvent) (f : String) (u : Option ChatUsage)
    → length (tool_deltas (final_outputs es (finish_chunk f u))) ≡ calls_in es
length-tool_deltas [] f u = refl
length-tool_deltas (function_call_done i n a ∷ es) f u = ap suc (length-tool_deltas es f u)
length-tool_deltas (output_text_delta s ∷ es) f u = length-tool_deltas es f u
length-tool_deltas (response_ended b r ∷ es) f u = length-tool_deltas es f u
length-tool_deltas (response_failed ∷ es) f u = length-tool_deltas es f u
length-tool_deltas (other_event ∷ es) f u = length-tool_deltas es f u

-- All function calls of a streamed Responses stream reach the client as fragments of one call: the
-- client gets a fragment for each, and one that puts fragments together by their index, as the
-- gateway's own reader does, gets a single call with the first id and name and all arguments joined.
pub streamed_calls_merge :
    (decode : Bytes → Option StreamEvent) (body : List Bytes)
    → let ds = tool_deltas (translate_stream decode body).out in
      (length ds ≡ calls_in (events_of decode body))
      × (lookup_call (pos 0) (buffered [] ds) ≡ merged ds)
streamed_calls_merge decode body =
    let es = events_of decode body in
    let last = finish_chunk (finish_of es) (some (chat_usage (usage_after no_usage es))) in
    let out = ap tool_deltas (translate_stream_out decode body) in
    (
      ap length out ∙ length-tool_deltas es _ _,
      lookup_call-new (tool_deltas (translate_stream decode body).out) (pos 0)
          ∙ ap (λ ds. merged (of_index (pos 0) ds)) out
          ∙ ap merged
              (of_index_zero es (finish_of es) (some (chat_usage (usage_after no_usage es))))
          ∙ ap merged (sym out),
    )
