-- ===== src/Outbound/Blocks.antt =====
-- The conversation keeps every content block and their order.
use nano_llm_proxy.Prelude.{
  ◌≡◌, refl, sym, ap, ◌∙◌, inl, inr, Bool, Bool-cases, Option, List, [], ◌∷◌, ◌++◌, append_assoc,
  append-nil, String, str_eq,
}
use nano_llm_proxy.Json.{Json, Fields, get_field, as_array}
use nano_llm_proxy.Outbound.{ContentBlock, tool_result, AnthropicMessage}
use nano_llm_proxy.Outbound.Requests.{
  Conversation, new_conversation, flush_results, flush_tool_results, add_blocks, ChatMessage,
  system_message, user_message, assistant_message, tool_message, skipped_message, add_message,
  add_messages, add_assistant, converse, chat_messages, chat_to_anthropic_body,
}

abbrev pub all_blocks : List AnthropicMessage → List ContentBlock
all_blocks [] = []
all_blocks (m ∷ ms) = m.content ++ all_blocks ms

-- The blocks that a chat message asks for.
abbrev pub blocks_of : ChatMessage → List ContentBlock
blocks_of (system_message s) = []
blocks_of (user_message blocks) = blocks
blocks_of (assistant_message blocks) = blocks
blocks_of (tool_message id text) = tool_result id text ∷ []
blocks_of skipped_message = []

abbrev pub blocks_in : List ChatMessage → List ContentBlock
blocks_in [] = []
blocks_in (m ∷ ms) = blocks_of m ++ blocks_in ms

all_blocks-append :
    (ms ns : List AnthropicMessage) → all_blocks (ms ++ ns) ≡ all_blocks ms ++ all_blocks ns
all_blocks-append [] ns = refl
all_blocks-append (m ∷ ms) ns =
    ap (λ l. m.content ++ l) (all_blocks-append ms ns)
    ∙ sym (append_assoc m.content (all_blocks ms) (all_blocks ns))

all_blocks-add_blocks :
    (role : String) (bs : List ContentBlock) (ms : List AnthropicMessage)
    → all_blocks (add_blocks role bs ms) ≡ all_blocks ms ++ bs
unfolding add_blocks
all_blocks-add_blocks role bs [] = append-nil bs
all_blocks-add_blocks role bs (m ∷ []) = elim (Bool-cases (str_eq m.role role)) [
  | inl e ↦ rw e (append-nil (m.content ++ bs) ∙ ap (λ l. l ++ bs) (sym (append-nil m.content)))
  | inr e ↦
      rw e
        (ap (λ l. m.content ++ l) (append-nil bs) ∙ ap (λ l. l ++ bs) (sym (append-nil m.content)))
]
all_blocks-add_blocks role bs (m ∷ m' ∷ ms) =
    ap (λ l. m.content ++ l) (all_blocks-add_blocks role bs (m' ∷ ms))
    ∙ sym (append_assoc m.content (all_blocks (m' ∷ ms)) bs)

-- What the conversation holds, sent or pending.
abbrev held : Conversation → List ContentBlock
held c = all_blocks c.msgs ++ c.pending

record Flushed (c f : Conversation) : Type 0 where
  sent : all_blocks f.msgs ≡ held c
  none_left : f.pending ≡ []

flush_results-Flushed :
    (c : Conversation) (p : List ContentBlock) → c.pending ≡ p → Flushed c (flush_results p c)
unfolding flush_results
flush_results-Flushed c [] e = record {
  sent = sym (append-nil (all_blocks c.msgs)) ∙ ap (λ l. all_blocks c.msgs ++ l) (sym e);
  none_left = e;
}
flush_results-Flushed c (b ∷ bs) e = record {
  sent =
      all_blocks-append c.msgs (record { role = "user"; content = b ∷ bs } ∷ [])
      ∙ ap (λ l. all_blocks c.msgs ++ l) (append-nil (b ∷ bs) ∙ sym e);
  none_left = refl;
}

held-add_assistant :
    (bs : List ContentBlock) (c f : Conversation)
    → Flushed c f
    → held (add_assistant bs f) ≡ held c ++ bs
unfolding add_assistant
held-add_assistant [] c f fl =
    ap (λ l. all_blocks f.msgs ++ l) fl.none_left
    ∙ append-nil (all_blocks f.msgs)
    ∙ fl.sent
    ∙ sym (append-nil (held c))
held-add_assistant (b ∷ bs) c f fl =
    ap (λ l. all_blocks (add_blocks "assistant" (b ∷ bs) f.msgs) ++ l) fl.none_left
    ∙ append-nil (all_blocks (add_blocks "assistant" (b ∷ bs) f.msgs))
    ∙ all_blocks-add_blocks "assistant" (b ∷ bs) f.msgs
    ∙ ap (λ l. l ++ b ∷ bs) fl.sent

held-add_message :
    (m : ChatMessage) (c : Conversation) → held (add_message m c) ≡ held c ++ blocks_of m
unfolding add_message
held-add_message (system_message s) c =
    let f = flush_tool_results c in
    let fl = flush_results-Flushed c c.pending refl in
    ap (λ l. all_blocks f.msgs ++ l) fl.none_left
    ∙ append-nil (all_blocks f.msgs)
    ∙ fl.sent
    ∙ sym (append-nil (held c))
held-add_message (user_message bs) c =
    let f = flush_tool_results c in
    let fl = flush_results-Flushed c c.pending refl in
    ap (λ l. all_blocks (add_blocks "user" bs f.msgs) ++ l) fl.none_left
    ∙ append-nil (all_blocks (add_blocks "user" bs f.msgs))
    ∙ all_blocks-add_blocks "user" bs f.msgs
    ∙ ap (λ l. l ++ bs) fl.sent
held-add_message (assistant_message bs) c =
    held-add_assistant bs c (flush_tool_results c) (flush_results-Flushed c c.pending refl)
held-add_message (tool_message id text) c =
    sym (append_assoc (all_blocks c.msgs) c.pending (tool_result id text ∷ []))
held-add_message skipped_message c = sym (append-nil (held c))

held-add_messages :
    (ms : List ChatMessage) (c : Conversation) → held (add_messages ms c) ≡ held c ++ blocks_in ms
unfolding add_messages
held-add_messages [] c = sym (append-nil (held c))
held-add_messages (m ∷ ms) c =
    held-add_messages ms (add_message m c)
    ∙ ap (λ l. l ++ blocks_in ms) (held-add_message m c)
    ∙ append_assoc (held c) (blocks_of m) (blocks_in ms)

-- The blocks of the Anthropic messages, taken together, are those of the chat messages in their order,
-- however the messages of one role were merged and the tool results grouped.
pub chat_to_anthropic_body-blocks :
    (unmarshal : String → Option Json) (chat : Fields) (stream : Bool)
    → all_blocks (chat_to_anthropic_body unmarshal chat stream).messages
      ≡ blocks_in (chat_messages unmarshal (as_array (get_field chat "messages")))
unfolding chat_to_anthropic_body converse
chat_to_anthropic_body-blocks unmarshal chat stream =
    let ms = chat_messages unmarshal (as_array (get_field chat "messages")) in
    let c = add_messages ms new_conversation in
    (flush_results-Flushed c c.pending refl).sent ∙ held-add_messages ms new_conversation
