-- ===== src/Responses/Whole.antt =====
-- What a client that does not stream gets of a Responses stream.
use text.Mathlib.TextLemmas.{
  append_assoc as str_append_assoc, append-nil as str_append-nil, nil-append as str_nil-append,
}
use nano_llm_proxy.Prelude.{
  ℕ, ◌+◌, ◌≡◌, refl, sym, ap, ◌∙◌, inl, inr, true, false, Bool-cases, Option, none, some, List, [],
  ◌∷◌, ◌++◌, append_assoc, append-nil, length, length-append, if◌then◌else◌, String, str_append,
  arith,
}
use nano_llm_proxy.Usage.{chat_usage, no_usage}
use nano_llm_proxy.Stream.{Bytes}
use nano_llm_proxy.Responses.Events.{
  events_of, run_events, translated_events, has_calls, usage_after, run_events-Ends, finish_of,
  final_finish_lem,
}
use nano_llm_proxy.Responses.{
  ChatToolCall, StreamEvent, output_text_delta, function_call_done, response_ended, response_failed,
  other_event, Translation, new_translation, response_info, translate_event, final_finish,
  translated, translate_whole,
}

-- The texts joined, and the calls numbered from `n` on.
abbrev pub text_of : List StreamEvent → String
text_of [] = ""
text_of (output_text_delta s ∷ es) = str_append s (text_of es)
text_of (function_call_done i n a ∷ es) = text_of es
text_of (response_ended b r ∷ es) = text_of es
text_of (response_failed ∷ es) = text_of es
text_of (other_event ∷ es) = text_of es

abbrev pub numbered : ℕ → List StreamEvent → List ChatToolCall
numbered n [] = []
numbered n (function_call_done i name a ∷ es) =
    record { index = n; id = i; name = name; arguments = a } ∷ numbered (n + 1) es
numbered n (output_text_delta s ∷ es) = numbered n es
numbered n (response_ended b r ∷ es) = numbered n es
numbered n (response_failed ∷ es) = numbered n es
numbered n (other_event ∷ es) = numbered n es

length-snoc {ℓ} : {A : Type ℓ} (xs : List A) (x : A) → length (xs ++ x ∷ []) ≡ length xs + 1
length-snoc xs x = length-append xs (x ∷ [])

whole_text :
    (es : List StreamEvent) (t : Translation)
    → (run_events false es t).agg ≡ str_append t.agg (text_of es)
unfolding run_events translate_event response_info
whole_text [] t = sym (str_append-nil t.agg)
whole_text (output_text_delta s ∷ es) t =
    whole_text es (record t { agg = str_append t.agg s }) ∙ str_append_assoc t.agg s (text_of es)
whole_text (function_call_done i n a ∷ es) t = whole_text es _
whole_text (response_ended b none ∷ es) t = whole_text es (record t { incomplete = b })
whole_text (response_ended b (some r) ∷ es) t = whole_text es _
whole_text (response_failed ∷ es) t = whole_text es t
whole_text (other_event ∷ es) t = whole_text es t

whole_calls_lem :
    (es : List StreamEvent) (t : Translation)
    → (run_events false es t).tool_calls ≡ t.tool_calls ++ numbered (length t.tool_calls) es
unfolding run_events translate_event response_info
whole_calls_lem [] t = sym (append-nil t.tool_calls)
whole_calls_lem (output_text_delta s ∷ es) t =
    whole_calls_lem es (record t { agg = str_append t.agg s })
whole_calls_lem (function_call_done i n a ∷ es) t =
    let call : ChatToolCall = record {
      index = length t.tool_calls;
      id = i;
      name = n;
      arguments = a;
    } in
    whole_calls_lem es (record t { saw_tools = true; tool_calls = t.tool_calls ++ call ∷ [] })
    ∙ ap (λ k. (t.tool_calls ++ call ∷ []) ++ numbered k es) (length-snoc t.tool_calls call)
    ∙ append_assoc t.tool_calls (call ∷ []) (numbered (length t.tool_calls + 1) es)
whole_calls_lem (response_ended b none ∷ es) t = whole_calls_lem es (record t { incomplete = b })
whole_calls_lem (response_ended b (some r) ∷ es) t = whole_calls_lem es _
whole_calls_lem (response_failed ∷ es) t = whole_calls_lem es t
whole_calls_lem (other_event ∷ es) t = whole_calls_lem es t

no_calls : (es : List StreamEvent) (n : ℕ) → has_calls es ≡ false → numbered n es ≡ []
no_calls [] n h = refl
no_calls (output_text_delta s ∷ es) n h = no_calls es n h
no_calls (function_call_done i name a ∷ es) n h = cc
no_calls (response_ended b r ∷ es) n h = no_calls es n h
no_calls (response_failed ∷ es) n h = no_calls es n h
no_calls (other_event ∷ es) n h = no_calls es n h

-- A client that does not stream gets one completion with all texts joined, the function calls numbered
-- from 0 in their order, the finish reason ("tool_calls" if there are calls, "length" if the last end
-- was incomplete, "stop" otherwise) and the usage that the ends of the response report.
pub translate_whole_lem :
    (decode : Bytes → Option StreamEvent) (body : List Bytes)
    → let es = events_of decode body in
      let completion = translate_whole decode body in
      (completion.content ≡ text_of es)
      × (completion.tool_calls ≡ numbered 0 es)
      × (completion.finish ≡ finish_of es)
      × (completion.usage ≡ chat_usage (usage_after no_usage es))
unfolding translate_whole
translate_whole_lem decode body =
    let es = events_of decode body in
    let t = translated decode false body in
    let u = run_events false es new_translation in
    let e : t ≡ u = translated_events decode false body in
    let ends = run_events-Ends false es new_translation in
    let calls = whole_calls_lem es new_translation in
    let text = whole_text es new_translation in
    let finish = final_finish_lem es u ends in
    (
      ap (λ (x : Translation). x.agg) e ∙ text ∙ str_nil-append (text_of es),
      ap (λ (x : Translation). if x.saw_tools then x.tool_calls else []) e
          ∙ elim (Bool-cases (has_calls es)) [
            | inl h ↦ ground (arith, h, ends.saw, calls)
            | inr h ↦ ground (arith, h, ends.saw, calls, no_calls es 0 h)
          ],
      ap (λ (x : Translation). final_finish x) e ∙ finish,
      ap (λ (x : Translation). chat_usage x.tu) e ∙ ap chat_usage ends.tokens,
    )
