-- ===== src/Stream/Telling.antt =====
-- What a whole chat stream tells the client.
use nano_llm_proxy.Prelude.{
  ◌≡◌, refl, sym, ap, ◌∙◌, true, List, [], ◌∷◌, ◌++◌, append_assoc, append-nil, String, ℤ, str_eq,
  eq_iff, if◌then◌else◌, inl, inr, Bool-cases,
}
use nano_llm_proxy.Usage.{no_usage, anthropic_usage}
use nano_llm_proxy.Usage.Totals.{into_all}
use nano_llm_proxy.Stream.{
  Bytes, tool_use_block, input_json_delta, content_block_start, content_block_delta,
  content_block_stop, message_delta, message_stop, PendingToolCall, StreamWriter, new_writer, write,
  start, close_text_block, write_call, emit_tool_call, emit_tool_calls, finish, stop_of,
  stop_reason_from_chat,
}
use nano_llm_proxy.Stream.Readers.{sse_lines, chat_payload, ChatJson, stream_chat}
use nano_llm_proxy.Stream.Calls.{
  Pending, buffered, lookup_call, lookup_call-new, merged, of_index, indices, indices-buffered,
  first_seen,
}
use nano_llm_proxy.Stream.Content.{
  Told, called, filled, stopped, told, told_by, told-append, chunks_of, texts_in, deltas_in,
  usages_in, reason_in,
}
use nano_llm_proxy.Stream.Reading.{close_block-Keeps, told-close_block, sse_lines-Reads}

-- The calls as the client sees them.
abbrev pub calls_told : Pending → List Told
calls_told [] = []
calls_told ((i, p) ∷ ps) = called p.id p.name ∷ filled p.args ∷ calls_told ps

-- The stop reason that a client is told: "tool_use" if there are calls or the finish reason says so,
-- "max_tokens" if it says "length", and "end_turn" otherwise.
abbrev pub stop_told : Pending → String → String
stop_told [] reason =
    if str_eq reason "length"
    then "max_tokens"
    else if str_eq reason "tool_calls"
    then "tool_use"
    else "end_turn"
stop_told (p ∷ ps) reason = "tool_use"

stop_of-stop_told : (ps : Pending) (reason : String) → stop_of ps reason ≡ stop_told ps reason
unfolding stop_reason_from_chat
stop_of-stop_told [] reason = elim (Bool-cases (str_eq reason "tool_calls")) [
  | inl e ↦ let q = (eq_iff reason "tool_calls").0 e in rw q refl
  | inr e ↦ rw e refl
]
stop_of-stop_told (p ∷ ps) reason = refl

told-write_call :
    (a : StreamWriter) (p : PendingToolCall)
    → told (write_call a p).out ≡ told a.out ++ called p.id p.name ∷ filled p.args ∷ []
told-write_call a p =
    let started = write a (content_block_start a.block_idx (tool_use_block p.id p.name)) in
    let filled_in = write started (content_block_delta a.block_idx (input_json_delta p.args)) in
    told-append filled_in.out (content_block_stop a.block_idx)
    ∙ append-nil (told filled_in.out)
    ∙ told-append started.out (content_block_delta a.block_idx (input_json_delta p.args))
    ∙ ap (λ l. l ++ filled p.args ∷ [])
        (told-append a.out (content_block_start a.block_idx (tool_use_block p.id p.name)))
    ∙ append_assoc (told a.out) (called p.id p.name ∷ []) (filled p.args ∷ [])

told-emit_tool_calls :
    (a : StreamWriter) (ps : Pending)
    → told (emit_tool_calls a ps).out ≡ told a.out ++ calls_told ps
unfolding emit_tool_calls emit_tool_call
told-emit_tool_calls a [] = sym (append-nil (told a.out))
told-emit_tool_calls a ((i, p) ∷ ps) =
    told-emit_tool_calls (emit_tool_call a p) ps
    ∙ ap (λ l. l ++ calls_told ps)
        (told-write_call (close_text_block a) p
          ∙ ap (λ l. l ++ called p.id p.name ∷ filled p.args ∷ []) (told-close_block a.text_open a))
    ∙ append_assoc (told a.out) (called p.id p.name ∷ filled p.args ∷ []) (calls_told ps)

emit_tool_calls_tu : (a : StreamWriter) (ps : Pending) → (emit_tool_calls a ps).tu ≡ a.tu
unfolding emit_tool_calls emit_tool_call
emit_tool_calls_tu a [] = refl
emit_tool_calls_tu a ((i, p) ∷ ps) =
    emit_tool_calls_tu (emit_tool_call a p) ps ∙ (close_block-Keeps a.text_open a).tu

told-finish :
    (a : StreamWriter)
    → told (finish a "").out
      ≡ told a.out
        ++ (calls_told a.pending
            ++ stopped (stop_of a.pending a.chat_finish) (anthropic_usage a.tu true) ∷ [])
unfolding finish
told-finish a =
    let c = emit_tool_calls (close_text_block a) a.pending in
    let last = message_delta (stop_of a.pending a.chat_finish) (anthropic_usage c.tu true) in
    let tokens =
      emit_tool_calls_tu (close_text_block a) a.pending ∙ (close_block-Keeps a.text_open a).tu in
    told-append (c.out ++ last ∷ []) message_stop
    ∙ append-nil (told (c.out ++ last ∷ []))
    ∙ told-append c.out last
    ∙ ap (λ l. l ++ told_by last)
        (told-emit_tool_calls (close_text_block a) a.pending
          ∙ ap (λ l. l ++ calls_told a.pending) (told-close_block a.text_open a))
    ∙ append_assoc (told a.out) (calls_told a.pending) (told_by last)
    ∙ ap
        (λ t.
          told a.out
          ++ (calls_told a.pending
              ++ stopped (stop_of a.pending a.chat_finish) (anthropic_usage t true) ∷ []))
        tokens

-- A chat stream tells the client exactly what its chunks hold: the texts that are not empty, in their
-- order; then each tool call once, with all its fragments, wherever in the stream these came; then the
-- stop reason, "tool_use" if there are calls or the last finish reason is "tool_calls", "max_tokens" if
-- there are no calls and it is "length", and "end_turn" otherwise, and the usage gathered from all
-- chunks. The calls stand in the order in which their indices are
-- first seen, and the call of an index has the first id and the first name that are not empty and the
-- arguments of all its fragments joined.
pub stream_chat-told :
    (model : String) (body : List Bytes) (json : ChatJson)
    → let cs = chunks_of json body in
      let calls = buffered [] (deltas_in cs) in
      (told (stream_chat json (start (new_writer model)) body).out
        ≡ texts_in cs
          ++ (calls_told calls
              ++ stopped
                  (stop_told calls (reason_in "" cs))
                  (anthropic_usage (into_all (usages_in cs) no_usage) true)
                ∷ []))
      × (indices calls ≡ first_seen [] (deltas_in cs))
      × ((j : ℤ) → lookup_call j calls ≡ merged (of_index j (deltas_in cs)))
unfolding stream_chat start
stream_chat-told model body json =
    let a = start (new_writer model) in
    let b = sse_lines body (chat_payload json) a in
    let r = sse_lines-Reads json body a in
    let cs = chunks_of json body in
    (
      told-finish b
          ∙ ap
              (λ l.
                l
                ++ (calls_told b.pending
                    ++ stopped (stop_of b.pending b.chat_finish) (anthropic_usage b.tu true) ∷ []))
              r.shown
          ∙ ap
              (λ p.
                texts_in cs
                ++ (calls_told p
                    ++ stopped (stop_of p b.chat_finish) (anthropic_usage b.tu true) ∷ []))
              r.calls
          ∙ ap
              (λ f.
                texts_in cs
                ++ (calls_told (buffered [] (deltas_in cs))
                    ++ stopped (stop_of (buffered [] (deltas_in cs)) f) (anthropic_usage b.tu true)
                      ∷ []))
              r.reason
          ∙ ap
              (λ t.
                texts_in cs
                ++ (calls_told (buffered [] (deltas_in cs))
                    ++ stopped (stop_of (buffered [] (deltas_in cs)) (reason_in "" cs))
                        (anthropic_usage t true)
                      ∷ []))
              r.tokens
          ∙ ap
              (λ s.
                texts_in cs
                ++ (calls_told (buffered [] (deltas_in cs))
                    ++ stopped s (anthropic_usage (into_all (usages_in cs) no_usage) true) ∷ []))
              (stop_of-stop_told (buffered [] (deltas_in cs)) (reason_in "" cs)),
      indices-buffered [] (deltas_in cs),
      lookup_call-new (deltas_in cs),
    )
