-- ===== src/Outbound/Alternation.antt =====
-- The roles of the messages alternate, as the Anthropic protocol asks for.
use nano_llm_proxy.Prelude.{
  ◌≡◌, refl, sym, subst, ap, inl, inr, Bool, true, false, Bool-cases, Option, List, [], ◌∷◌, ◌++◌,
  String, str_eq, eq_iff, arith, ◌⊎◌, All,
}
use nano_llm_proxy.Json.{Json, Fields, get_field, as_array}
use nano_llm_proxy.Outbound.{ContentBlock, tool_result, AnthropicMessage}
use nano_llm_proxy.Outbound.Requests.{
  Conversation, new_conversation, flush_results, flush_tool_results, add_blocks, ChatMessage,
  system_message, user_message, assistant_message, tool_message, skipped_message, add_message,
  add_messages, add_assistant, converse, chat_messages, chat_to_anthropic_body,
}

-- No message has the role of the one before it.
abbrev pub Differs : AnthropicMessage → List AnthropicMessage → Type 0
Differs m [] = Unit
Differs m (m' ∷ ms) = str_eq m.role m'.role ≡ false

abbrev pub Alternates : List AnthropicMessage → Type 0
Alternates [] = Unit
Alternates (m ∷ ms) = Differs m ms × Alternates ms

-- Every message has one of the two roles of the protocol.
abbrev pub Roles : AnthropicMessage → Type 0
Roles m = (m.role ≡ "user") ⊎ (m.role ≡ "assistant")

append-Roles :
    (ms : List AnthropicMessage) (m : AnthropicMessage)
    → All Roles ms
    → Roles m
    → All Roles (ms ++ m ∷ [])
append-Roles [] m a r = (r, tt)
append-Roles (x ∷ ms) m a r = (a.0, append-Roles ms m a.1 r)

-- The role of the last message, `role` if there is none.
abbrev last_or : String → List AnthropicMessage → String
last_or role [] = role
last_or role (m ∷ ms) = last_or m.role ms

-- Whether a tool message may come after the messages so far.
abbrev after : Bool → ChatMessage → Bool
after ok (system_message s) = false
after ok (user_message blocks) = false
after ok (assistant_message []) = false
after ok (assistant_message (b ∷ bs)) = true
after ok (tool_message id text) = ok
after ok skipped_message = ok

abbrev Admits : Bool → ChatMessage → Type 0
Admits ok (tool_message id text) = ok ≡ true
Admits ok _ = Unit

-- Each tool message follows an assistant message with content, with at most tool messages and messages
-- that are skipped between the two.
abbrev pub AnswersCalls : Bool → List ChatMessage → Type 0
AnswersCalls ok [] = Unit
AnswersCalls ok (m ∷ ms) = Admits ok m × AnswersCalls (after ok m) ms

Differs-append :
    (x m : AnthropicMessage) (ms : List AnthropicMessage)
    → Differs x ms
    → str_eq (last_or x.role ms) m.role ≡ false
    → Differs x (ms ++ m ∷ [])
Differs-append x m [] d e = e
Differs-append x m (y ∷ ms) d e = d

append-Alternates :
    (role : String) (ms : List AnthropicMessage) (m : AnthropicMessage)
    → Alternates ms
    → str_eq (last_or role ms) m.role ≡ false
    → Alternates (ms ++ m ∷ [])
append-Alternates role [] m a e = (tt, tt)
append-Alternates role (x ∷ ms) m a e =
    (Differs-append x m ms a.0 e, append-Alternates x.role ms m a.1 e)

module _ (role : String) (bs : List ContentBlock) where
  Differs-add_blocks :
      (x m : AnthropicMessage) (ms : List AnthropicMessage)
      → Differs x (m ∷ ms)
      → Differs x (add_blocks role bs (m ∷ ms))
  unfolding add_blocks
  Differs-add_blocks x m [] d = elim (Bool-cases (str_eq m.role role)) [
    | inl e ↦ rw e d
    | inr e ↦ rw e d
  ]
  Differs-add_blocks x m (m' ∷ ms) d = d

  add_blocks-Alternates :
      (ms : List AnthropicMessage) → Alternates ms → Alternates (add_blocks role bs ms)
  unfolding add_blocks
  add_blocks-Alternates [] a = (tt, tt)
  add_blocks-Alternates (m ∷ []) a = elim (Bool-cases (str_eq m.role role)) [
    | inl e ↦ rw e (tt, tt)
    | inr e ↦ rw e (e, (tt, tt))
  ]
  add_blocks-Alternates (m ∷ m' ∷ ms) a =
      (Differs-add_blocks m m' ms a.0, add_blocks-Alternates (m' ∷ ms) a.1)

  add_blocks-Roles :
      (ms : List AnthropicMessage)
      → (role ≡ "user") ⊎ (role ≡ "assistant")
      → All Roles ms
      → All Roles (add_blocks role bs ms)
  unfolding add_blocks
  add_blocks-Roles [] r a = (r, tt)
  add_blocks-Roles (m ∷ []) r a = elim (Bool-cases (str_eq m.role role)) [
    | inl e ↦ rw e (a.0, tt)
    | inr e ↦ rw e (a.0, (r, tt))
  ]
  add_blocks-Roles (m ∷ m' ∷ ms) r a = (a.0, add_blocks-Roles (m' ∷ ms) r a.1)

  last_or-add_blocks :
      (r : String) (ms : List AnthropicMessage) → last_or r (add_blocks role bs ms) ≡ role
  unfolding add_blocks
  last_or-add_blocks r [] = refl
  last_or-add_blocks r (m ∷ []) = ground (arith, eq_iff m.role role)
  last_or-add_blocks r (m ∷ m' ∷ ms) = last_or-add_blocks m.role (m' ∷ ms)

last_or-append :
    (r : String) (ms : List AnthropicMessage) (m : AnthropicMessage)
    → last_or r (ms ++ m ∷ []) ≡ m.role
last_or-append r [] m = refl
last_or-append r (x ∷ ms) m = last_or-append x.role ms m

abbrev user_last : Conversation → Bool
user_last c = str_eq (last_or "" c.msgs) "user"

abbrev Pends : List ContentBlock → Bool → Type 0
Pends [] b = Unit
Pends (p ∷ ps) b = b ≡ false

-- Results are pending, or may come, only after a message that is not a user's.
record Ready (ok : Bool) (c : Conversation) : Type 0 where
  roles : Alternates c.msgs
  known : All Roles c.msgs
  waiting : Pends c.pending (user_last c)
  open_call : ok ≡ true → user_last c ≡ false

record Sent (f : Conversation) : Type 0 where
  sent_roles : Alternates f.msgs
  sent_known : All Roles f.msgs
  nothing : f.pending ≡ []

flush_results-Sent :
    (c : Conversation) (ps : List ContentBlock)
    → c.pending ≡ ps
    → Alternates c.msgs
    → All Roles c.msgs
    → Pends ps (user_last c)
    → Sent (flush_results ps c)
unfolding flush_results
flush_results-Sent c [] e a k w = record { sent_roles = a; sent_known = k; nothing = e }
flush_results-Sent c (p ∷ ps) e a k w = record {
  sent_roles = append-Alternates "" c.msgs (record { role = "user"; content = p ∷ ps }) a w;
  sent_known = append-Roles c.msgs (record { role = "user"; content = p ∷ ps }) k (inl refl);
  nothing = refl;
}

flush-Sent : (ok : Bool) (c : Conversation) → Ready ok c → Sent (flush_tool_results c)
flush-Sent ok c r = flush_results-Sent c c.pending refl r.roles r.known r.waiting

Sent-Ready : (f : Conversation) → Sent f → Ready false f
Sent-Ready f s = record {
  roles = s.sent_roles;
  known = s.sent_known;
  waiting = subst (λ ps. Pends ps (user_last f)) (sym s.nothing) tt;
  open_call = λ h. cc;
}

add_assistant-Ready :
    (bs : List ContentBlock) (f : Conversation)
    → Sent f
    → Ready (after false (assistant_message bs)) (add_assistant bs f)
unfolding add_assistant
add_assistant-Ready [] f s = Sent-Ready f s
add_assistant-Ready (b ∷ bs) f s =
    let last = last_or-add_blocks "assistant" (b ∷ bs) "" f.msgs in
    record {
      roles = add_blocks-Alternates "assistant" (b ∷ bs) f.msgs s.sent_roles;
      known = add_blocks-Roles "assistant" (b ∷ bs) f.msgs (inr refl) s.sent_known;
      waiting =
          subst
            (λ ps. Pends ps (str_eq (last_or "" (add_blocks "assistant" (b ∷ bs) f.msgs)) "user"))
            (sym s.nothing) tt;
      open_call = λ h. ap (λ r. str_eq r "user") last;
    }

Pends-append :
    (ps : List ContentBlock) (p : ContentBlock) (b : Bool) → b ≡ false → Pends (ps ++ p ∷ []) b
Pends-append [] p b e = e
Pends-append (x ∷ ps) p b e = e

add_message-Ready :
    (ok : Bool) (m : ChatMessage) (c : Conversation)
    → Ready ok c
    → Admits ok m
    → Ready (after ok m) (add_message m c)
unfolding add_message
add_message-Ready ok (system_message s) c r d =
    let i = Sent-Ready (flush_tool_results c) (flush-Sent ok c r) in
    record { roles = i.roles; known = i.known; waiting = i.waiting; open_call = i.open_call }
add_message-Ready ok (user_message bs) c r d =
    let s = flush-Sent ok c r in
    let f = flush_tool_results c in
    record {
      roles = add_blocks-Alternates "user" bs f.msgs s.sent_roles;
      known = add_blocks-Roles "user" bs f.msgs (inl refl) s.sent_known;
      waiting =
          subst (λ ps. Pends ps (str_eq (last_or "" (add_blocks "user" bs f.msgs)) "user"))
            (sym s.nothing) tt;
      open_call = λ h. cc;
    }
add_message-Ready ok (assistant_message []) c r d =
    add_assistant-Ready [] (flush_tool_results c) (flush-Sent ok c r)
add_message-Ready ok (assistant_message (b ∷ bs)) c r d =
    add_assistant-Ready (b ∷ bs) (flush_tool_results c) (flush-Sent ok c r)
add_message-Ready ok (tool_message id text) c r d = record {
  roles = r.roles;
  known = r.known;
  waiting = Pends-append c.pending (tool_result id text) (user_last c) (r.open_call d);
  open_call = r.open_call;
}
add_message-Ready ok skipped_message c r d = r

add_messages-Ready :
    (ok : Bool) (ms : List ChatMessage) (c : Conversation)
    → Ready ok c
    → AnswersCalls ok ms
    → Sent (flush_tool_results (add_messages ms c))
unfolding add_messages
add_messages-Ready ok [] c r d = flush-Sent ok c r
add_messages-Ready ok (m ∷ ms) c r d =
    add_messages-Ready (after ok m) ms (add_message m c) (add_message-Ready ok m c r d.0) d.1

-- The messages of the translated request have the roles "user" and "assistant" only, in turn, whichever
-- comes first, if each tool message
-- of the chat follows an assistant message with content, with at most further tool messages and
-- messages of other roles than system, developer, user and assistant in between.
pub chat_to_anthropic_body-Alternates :
    (unmarshal : String → Option Json) (chat : Fields) (stream : Bool)
    → AnswersCalls false (chat_messages unmarshal (as_array (get_field chat "messages")))
    → let messages = (chat_to_anthropic_body unmarshal chat stream).messages in
      All Roles messages × Alternates messages
unfolding chat_to_anthropic_body converse
chat_to_anthropic_body-Alternates unmarshal chat stream answers =
    let sent =
      add_messages-Ready false (chat_messages unmarshal (as_array (get_field chat "messages")))
        new_conversation (record { roles = tt; known = tt; waiting = tt; open_call = λ h. cc })
        answers in
    (sent.sent_known, sent.sent_roles)
