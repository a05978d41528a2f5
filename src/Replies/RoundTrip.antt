-- ===== src/Replies/RoundTrip.antt =====
-- An answer that is translated to the Anthropic protocol and back.
use nano_llm_proxy.Prelude.{
  ℕ, ◌+◌, ◌-◌, ◌^◌, ◌≤◌, ◌<◌, ◌≡◌, refl, sym, ap, ◌∙◌, inl, inr, Bool-cases, Option, none, some,
  List, [], ◌∷◌, ◌++◌, append-nil, append_assoc, if◌then◌else◌, String, str_eq, arith, eq_iff, pos,
  wrap64-pos, true,
}
use text.Mathlib.TextLemmas.{nil-append}
use nano_llm_proxy.Json.{
  Json, null, str, obj, Fields, get_field, as_string, as_object, as_fields, as_array,
  elements-to_items, to_items,
}
use nano_llm_proxy.Usage.{TokenUsage, add, add_cached, anthropic_usage, chat_usage, larger}
use nano_llm_proxy.Stream.{stop_reason_from_chat}
use nano_llm_proxy.Replies.{
  usage_from_chat_json, usage_from_anthropic_msg, anthropic_totals, usage_fields, input_or_empty,
  text_content, call_content, calls_content, message_content, or_empty_text, stop_for,
  anthropic_message, reply_first, chat_json_to_anthropic, stop_from_anthropic, ToolCall,
  MessageParts, nothing_told, arguments_of, tell_blocks, ChatCompletion, finish_for,
  anthropic_json_to_chat,
}

-- The reasons that both protocols name stay; any other becomes "stop".
abbrev pub kept_reason : Json → String
kept_reason (str s) = if str_eq s "tool_calls" then s else if str_eq s "length" then s else "stop"
kept_reason _ = "stop"

finish_for-stop_for : (v : Json) → finish_for (stop_for v) ≡ kept_reason v
unfolding stop_reason_from_chat stop_from_anthropic
finish_for-stop_for (str s) = elim (Bool-cases (str_eq s "tool_calls")) [
  | inl e ↦ rw e (sym ((eq_iff s "tool_calls").0 e))
  | inr e ↦ elim (Bool-cases (str_eq s "length")) [
    | inl l ↦ rw (e, l) (sym ((eq_iff s "length").0 l))
    | inr l ↦ rw (e, l) refl
  ]
]
finish_for-stop_for null = refl
finish_for-stop_for (Json.bool b) = refl
finish_for-stop_for (Json.num n r) = refl
finish_for-stop_for (Json.arr vs) = refl
finish_for-stop_for (obj fs) = refl

larger_once : (v : ℕ) → larger (pos v) 0 ≡ v
larger_once v = ground arith

larger_twice : (v : ℕ) → larger (pos 0) (larger (pos v) 0) ≡ v
larger_twice v = ground arith

-- The total comes back from a block that the program itself wrote.
totals-usage_fields :
    (t : TokenUsage)
    → t.cached ≤ t.input
    → t.input < 2 ^ 63
    → anthropic_totals (some (usage_fields (anthropic_usage t true))) ≡ t
unfolding anthropic_totals add add_cached anthropic_usage
totals-usage_fields t h w =
    let total : t.input - t.cached + t.cached + 0 ≡ t.input = omega arith in
    rw
      (
        total,
        wrap64-pos t.input w,
        larger_twice t.input,
        larger_twice t.output,
        larger_once t.cached,
      )
      refl

module _ (unmarshal : String → Option Json) (marshal : Json → Option String) where
  -- A call keeps its id and its name; its arguments are read and written again.
  abbrev pub kept_call : Option Fields → List ToolCall
  kept_call none = []
  kept_call (some tc) =
      let fn = as_fields (get_field tc "function") in
      record {
        id = as_string (get_field tc "id");
        name = as_string (get_field fn "name");
        arguments =
            arguments_of
              (marshal (input_or_empty (unmarshal (as_string (get_field fn "arguments")))));
      }
      ∷ []

  unfoldable pub kept_calls : List Json → List ToolCall
  kept_calls [] = []
  kept_calls (tc ∷ tcs) = kept_call (as_object tc) ++ kept_calls tcs

  unfoldable pub kept_message : Fields → MessageParts
  unfolding kept_calls
  kept_message msg = record {
    content = as_string (get_field msg "content");
    reasoning = "";
    tool_calls = kept_calls (as_array (get_field msg "tool_calls"));
  }

  abbrev with_calls : MessageParts → List ToolCall → MessageParts
  with_calls t l = record t { tool_calls = l }

  told_call :
      (o : Option Fields) (vs : List Json) (t : MessageParts)
      → tell_blocks marshal (call_content unmarshal o ++ vs) t
        ≡ tell_blocks marshal vs (record t { tool_calls = t.tool_calls ++ kept_call o })
  unfolding tell_blocks
  told_call none vs t =
      ap (λ l. tell_blocks marshal vs (record t { tool_calls = l })) (sym (append-nil t.tool_calls))
  told_call (some tc) vs t = refl

  tell_blocks-calls_content :
      (tcs : List Json) (t : MessageParts)
      → tell_blocks marshal (calls_content unmarshal tcs) t
        ≡ record t { tool_calls = t.tool_calls ++ kept_calls tcs }
  unfolding calls_content kept_calls tell_blocks
  tell_blocks-calls_content [] t = ap (with_calls t) (sym (append-nil t.tool_calls))
  tell_blocks-calls_content (tc ∷ tcs) t =
      told_call (as_object tc) (calls_content unmarshal tcs) t
      ∙ tell_blocks-calls_content tcs
          (record t { tool_calls = t.tool_calls ++ kept_call (as_object tc) })
      ∙ ap (with_calls t) (append_assoc t.tool_calls (kept_call (as_object tc)) (kept_calls tcs))

  tell_blocks-or_empty_text :
      (bs : List Json)
      → tell_blocks marshal (or_empty_text bs) nothing_told ≡ tell_blocks marshal bs nothing_told
  unfolding tell_blocks
  tell_blocks-or_empty_text [] = refl
  tell_blocks-or_empty_text (b ∷ bs) = refl

  tell_blocks-text_content :
      (c : String) (vs : List Json)
      → tell_blocks marshal (text_content c ++ vs) nothing_told
        ≡ tell_blocks marshal vs (record nothing_told { content = c })
  unfolding tell_blocks
  tell_blocks-text_content c vs = elim (Bool-cases (str_eq c "")) [
    | inl e ↦ rw (e, (eq_iff c "").0 e) refl
    | inr e ↦
        rw e (ap (λ s. tell_blocks marshal vs (record nothing_told { content = s })) (nil-append c))
  ]

  tell_blocks-message_content :
      (msg : Fields)
      → tell_blocks marshal (message_content unmarshal (some msg)) nothing_told ≡ kept_message msg
  unfolding message_content kept_message
  tell_blocks-message_content msg =
      let c = as_string (get_field msg "content") in
      tell_blocks-text_content c (calls_content unmarshal (as_array (get_field msg "tool_calls")))
      ∙ tell_blocks-calls_content (as_array (get_field msg "tool_calls"))
          (record nothing_told { content = c })

  told_reply :
      (bs : List Json)
      → tell_blocks marshal (as_array (Json.arr (to_items (or_empty_text bs)))) nothing_told
        ≡ tell_blocks marshal bs nothing_told
  told_reply bs =
      ap (λ l. tell_blocks marshal l nothing_told) (elements-to_items (or_empty_text bs))
      ∙ tell_blocks-or_empty_text bs

  abbrev pub back : Option Fields → String → Option ChatCompletion
  back none model = none
  back (some msg) model = some (anthropic_json_to_chat marshal msg model)

  -- The completion that comes back from the answer that was sent on.
  abbrev pub there_and_back : Fields → String → String → Option ChatCompletion
  there_and_back chat model model' = back (chat_json_to_anthropic unmarshal chat model) model'

  abbrev pub completion : Json → String → MessageParts → String → TokenUsage → ChatCompletion
  completion id model message reason tu = record {
    id = id;
    model = model;
    message = message;
    finish_reason = reason;
    usage = chat_usage tu;
  }

  abbrev pub kept_completion : Fields → String → Fields → Fields → ChatCompletion
  kept_completion chat model ch msg =
      completion (get_field chat "id") model (kept_message msg)
        (kept_reason (get_field ch "finish_reason")) (usage_from_chat_json chat)

  abbrev pub Whole : Fields → Fields → Fields → Type 0
  Whole chat ch msg =
      ((cs : List Json) × (as_array (get_field chat "choices") ≡ obj ch ∷ cs))
      × (get_field ch "message" ≡ obj msg)

  sent_on : Fields → String → Fields → Fields → Fields
  sent_on chat model ch msg =
      anthropic_message chat model (message_content unmarshal (some msg))
        (stop_for (get_field ch "finish_reason"))

  chat_json_to_anthropic-Whole :
      (chat : Fields) (model : String) (ch msg : Fields)
      → Whole chat ch msg
      → chat_json_to_anthropic unmarshal chat model ≡ some (sent_on chat model ch msg)
  unfolding chat_json_to_anthropic sent_on
  chat_json_to_anthropic-Whole chat model ch msg ((cs, e), m) =
      ap (λ l. reply_first unmarshal l chat model) e
      ∙ ap
          (λ v. some (
            anthropic_message chat model (message_content unmarshal (as_object v))
              (stop_for (get_field ch "finish_reason"))))
          m

  usage_from_anthropic_msg-sent_on :
      (chat : Fields) (model : String) (ch msg : Fields)
      → (usage_from_chat_json chat).cached ≤ (usage_from_chat_json chat).input
      → (usage_from_chat_json chat).input < 2 ^ 63
      → usage_from_anthropic_msg (sent_on chat model ch msg) ≡ usage_from_chat_json chat
  unfolding usage_from_anthropic_msg sent_on
  usage_from_anthropic_msg-sent_on chat model ch msg h w =
      totals-usage_fields (usage_from_chat_json chat) h w

  anthropic_json_to_chat-sent_on :
      (chat : Fields) (model model' : String) (ch msg : Fields)
      → (usage_from_chat_json chat).cached ≤ (usage_from_chat_json chat).input
      → (usage_from_chat_json chat).input < 2 ^ 63
      → anthropic_json_to_chat marshal (sent_on chat model ch msg) model'
        ≡ kept_completion chat model' ch msg
  unfolding anthropic_json_to_chat sent_on
  anthropic_json_to_chat-sent_on chat model model' ch msg h w =
      let id = get_field chat "id" in
      let bs = message_content unmarshal (some msg) in
      let reason = get_field ch "finish_reason" in
      let usage = usage_from_anthropic_msg (sent_on chat model ch msg) in
      ap (λ t. completion id model' t (finish_for (stop_for reason)) usage)
        (told_reply bs ∙ tell_blocks-message_content msg)
      ∙ ap (λ r. completion id model' (kept_message msg) r usage) (finish_for-stop_for reason)
      ∙ ap (λ u. completion id model' (kept_message msg) (kept_reason reason) u)
          (usage_from_anthropic_msg-sent_on chat model ch msg h w)

  -- A chat completion that is translated to the Anthropic protocol and back keeps its id, its text,
  -- every tool call with its id and its name in order, and its usage: the call's arguments are read
  -- and written again, and a reason to stop that is not "tool_calls" or "length" is "stop". The first
  -- choice and its message are maps, the cache hits are part of the prompt, and the prompt's count is
  -- below 2 ^ 63.
  pub there_and_back_lem :
      (chat : Fields) (model model' : String) (ch msg : Fields)
      → Whole chat ch msg
      → (usage_from_chat_json chat).cached ≤ (usage_from_chat_json chat).input
      → (usage_from_chat_json chat).input < 2 ^ 63
      → there_and_back chat model model' ≡ some (kept_completion chat model' ch msg)
  there_and_back_lem chat model model' ch msg whole h w =
      ap (λ o. back o model') (chat_json_to_anthropic-Whole chat model ch msg whole)
      ∙ ap some (anthropic_json_to_chat-sent_on chat model model' ch msg h w)
