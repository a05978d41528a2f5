-- ===== src/Responses/Events.antt =====
-- A body as the list of its events, and what all clients' translations have in common.
use nano_llm_proxy.Prelude.{
  ◌≡◌, refl, ap, ◌∙◌, inl, inr, Bool, true, false, ◌||◌, Option, none, some, Option-cases, List, [],
  ◌∷◌, if◌then◌else◌, String, arith,
}
use nano_llm_proxy.Usage.{TokenUsage, responses_into}
use nano_llm_proxy.Stream.{Bytes}
use nano_llm_proxy.Stream.Readers.{payload_of, sse_lines}
use nano_llm_proxy.Responses.{
  StreamEvent, output_text_delta, function_call_done, response_ended, response_failed, other_event,
  Translation, new_translation, write_finish, response_info, translate_event, translate_decoded,
  final_finish, finish_reason, translated,
}

-- The events of a body: the payloads that decode.
abbrev event_onto : Option StreamEvent → List StreamEvent → List StreamEvent
event_onto none es = es
event_onto (some e) es = e ∷ es

abbrev line_onto : (Bytes → Option StreamEvent) → Option Bytes → List StreamEvent → List StreamEvent
line_onto decode none es = es
line_onto decode (some payload) es = event_onto (decode payload) es

abbrev pub events_of : (Bytes → Option StreamEvent) → List Bytes → List StreamEvent
events_of decode [] = []
events_of decode (line ∷ lines) = line_onto decode (payload_of line) (events_of decode lines)

-- all events on a translation
unfoldable pub run_events : Bool → List StreamEvent → Translation → Translation
unfolding translate_event
run_events wants_stream [] t = t
run_events wants_stream (e ∷ es) t = run_events wants_stream es (translate_event wants_stream e t)

module _ (decode : Bytes → Option StreamEvent) (wants_stream : Bool) where
  run_decoded :
      (o : Option StreamEvent) (es : List StreamEvent) (t : Translation)
      → run_events wants_stream es (translate_decoded wants_stream o t)
        ≡ run_events wants_stream (event_onto o es) t
  unfolding run_events translate_decoded
  run_decoded none es t = refl
  run_decoded (some e) es t = refl

  lines_events :
      (body : List Bytes) (t : Translation)
      → sse_lines body (λ payload. translate_decoded wants_stream (decode payload)) t
        ≡ run_events wants_stream (events_of decode body) t
  unfolding run_events sse_lines
  lines_events [] t = refl
  lines_events (line ∷ lines) t = elim (Option-cases (payload_of line)) [
    | inl e ↦ rw e (lines_events lines t)
    | inr (payload, e) ↦ rw e (
        lines_events lines (translate_decoded wants_stream (decode payload) t)
        ∙ run_decoded (decode payload) (events_of decode lines) t)
  ]

  pub translated_events :
      (body : List Bytes)
      → translated decode wants_stream body
        ≡ run_events wants_stream (events_of decode body) new_translation
  unfolding translated
  translated_events body = lines_events body new_translation

-- Whether there are calls, whether the last end was "incomplete", and the usage of all ends.
abbrev is_call : StreamEvent → Bool
is_call (function_call_done id name arguments) = true
is_call _ = false

abbrev pub has_calls : List StreamEvent → Bool
has_calls [] = false
has_calls (e ∷ es) = is_call e || has_calls es

abbrev ends_incomplete : StreamEvent → Bool → Bool
ends_incomplete (response_ended incomplete response) last = incomplete
ends_incomplete _ last = last

abbrev pub is_incomplete : Bool → List StreamEvent → Bool
is_incomplete last [] = last
is_incomplete last (e ∷ es) = is_incomplete (ends_incomplete e last) es

abbrev usage_onto : StreamEvent → TokenUsage → TokenUsage
usage_onto (response_ended incomplete (some r)) t = responses_into r.usage t
usage_onto _ t = t

abbrev pub usage_after : TokenUsage → List StreamEvent → TokenUsage
usage_after t [] = t
usage_after t (e ∷ es) = usage_after (usage_onto e t) es

-- One event, and all events, on the variables that both kinds of clients share.
record Steps (e : StreamEvent) (t t' : Translation) : Type 0 where
  saw : t'.saw_tools ≡ (is_call e || t.saw_tools)
  incomplete : t'.incomplete ≡ ends_incomplete e t.incomplete
  tokens : t'.tu ≡ usage_onto e t.tu

translate_event-Steps :
    (b : Bool) (e : StreamEvent) (t : Translation) → Steps e t (translate_event b e t)
unfolding translate_event write_finish response_info
translate_event-Steps true (output_text_delta s) t = record {
  saw = refl;
  incomplete = refl;
  tokens = refl;
}
translate_event-Steps false (output_text_delta s) t = record {
  saw = refl;
  incomplete = refl;
  tokens = refl;
}
translate_event-Steps true (function_call_done i n a) t = record {
  saw = refl;
  incomplete = refl;
  tokens = refl;
}
translate_event-Steps false (function_call_done i n a) t = record {
  saw = refl;
  incomplete = refl;
  tokens = refl;
}
translate_event-Steps b (response_ended c none) t = record {
  saw = refl;
  incomplete = refl;
  tokens = refl;
}
translate_event-Steps b (response_ended c (some r)) t = record {
  saw = refl;
  incomplete = refl;
  tokens = refl;
}
translate_event-Steps true response_failed t = record {
  saw = refl;
  incomplete = refl;
  tokens = refl;
}
translate_event-Steps false response_failed t = record {
  saw = refl;
  incomplete = refl;
  tokens = refl;
}
translate_event-Steps b other_event t = record { saw = refl; incomplete = refl; tokens = refl }

pub record Ends (es : List StreamEvent) (t t' : Translation) : Type 0 where
  pub saw : t'.saw_tools ≡ (has_calls es || t.saw_tools)
  pub incomplete : t'.incomplete ≡ is_incomplete t.incomplete es
  pub tokens : t'.tu ≡ usage_after t.tu es

pub run_events-Ends :
    (b : Bool) (es : List StreamEvent) (t : Translation) → Ends es t (run_events b es t)
unfolding run_events
run_events-Ends b [] t = record { saw = refl; incomplete = refl; tokens = refl }
run_events-Ends b (e ∷ es) t =
    let one = translate_event-Steps b e t in
    let rest = run_events-Ends b es (translate_event b e t) in
    record {
      saw = ground (arith, one.saw, rest.saw);
      incomplete = rest.incomplete ∙ ap (λ i. is_incomplete i es) one.incomplete;
      tokens = rest.tokens ∙ ap (λ u. usage_after u es) one.tokens;
    }

-- The reason to stop that the chat protocol has for these events.
abbrev pub finish_of : List StreamEvent → String
finish_of es =
    if has_calls es then "tool_calls" else if is_incomplete false es then "length" else "stop"

finish_reason_lem : (i : Bool) → finish_reason i ≡ (if i then "length" else "stop")
finish_reason_lem true = refl
finish_reason_lem false = refl

or_false : (b : Bool) → (b || false) ≡ b
or_false true = refl
or_false false = refl

pub final_finish_lem :
    (es : List StreamEvent) (t : Translation)
    → Ends es new_translation t
    → final_finish t ≡ finish_of es
final_finish_lem es t ends =
    ap (λ i. if t.saw_tools then "tool_calls" else finish_reason i) ends.incomplete
    ∙ ap (λ b. if b then "tool_calls" else finish_reason (is_incomplete false es))
        (ends.saw ∙ or_false (has_calls es))
    ∙ ap (λ r. if has_calls es then "tool_calls" else r)
        (finish_reason_lem (is_incomplete false es))
