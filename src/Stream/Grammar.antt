-- ===== src/Stream/Grammar.antt =====
-- The events of a stream are in the order that the Anthropic protocol asks for.
use nano_llm_proxy.Prelude.{
  ℕ, ◌+◌, ◌≡◌, refl, sym, ap, ◌∙◌, inl, inr, Bool, true, false, Bool-cases, Option, none, some,
  List, [], ◌∷◌, ◌++◌, ◌==◌, if◌then◌else◌, String, str_eq, arith, ℤ,
}
use nano_llm_proxy.Stream.{
  Block, text_block, tool_use_block, text_delta, input_json_delta, Event, message_start,
  content_block_start, content_block_delta, content_block_stop, message_delta, message_stop,
  PendingToolCall, StreamWriter, new_writer, write, start, open_block, open_text, text_delta_of,
  close_block, close_text_block, write_call, emit_tool_call, emit_tool_calls, finish,
}

-- Where a client is in a message: before it, between two blocks with the next index, inside a text
-- block or a tool block, after the last block, or at the end.
pub data Phase : Type 0 where
  fresh : Phase
  between : ℕ → Phase
  in_text : ℕ → Phase
  in_tool : ℕ → Phase
  closing : Phase
  ended : Phase

abbrev pub inside : Block → ℕ → Phase
inside text_block n = in_text n
inside (tool_use_block id name) n = in_tool n

-- An event that the protocol allows here, with where it leads.
abbrev pub advance : Phase → Event → Option Phase
advance fresh (message_start model usage) = some (between 0)
advance (between n) (content_block_start i b) = if i == n then some (inside b n) else none
advance (between n) (message_delta reason usage) = some closing
advance (in_text n) (content_block_delta i (text_delta s)) =
    if i == n then some (in_text n) else none
advance (in_text n) (content_block_stop i) = if i == n then some (between (n + 1)) else none
advance (in_tool n) (content_block_delta i (input_json_delta s)) =
    if i == n then some (in_tool n) else none
advance (in_tool n) (content_block_stop i) = if i == n then some (between (n + 1)) else none
advance closing message_stop = some ended
advance _ _ = none

abbrev pub then_advance : Option Phase → Event → Option Phase
then_advance none e = none
then_advance (some p) e = advance p e

abbrev pub follows : Option Phase → List Event → Option Phase
follows p [] = p
follows p (e ∷ es) = follows (then_advance p e) es

follows-append :
    (p : Option Phase) (xs : List Event) (e : Event)
    → follows p (xs ++ e ∷ []) ≡ then_advance (follows p xs) e
follows-append p [] e = refl
follows-append p (x ∷ xs) e = follows-append (then_advance p x) xs e

-- What was written leads to the phase.
abbrev pub At : Phase → StreamWriter → Type 0
At p a = follows (some fresh) a.out ≡ some p

write-At :
    (a : StreamWriter) (p q : Phase) (e : Event) → At p a → advance p e ≡ some q → At q (write a e)
write-At a p q e at step =
    follows-append (some fresh) a.out e ∙ ap (λ o. then_advance o e) at ∙ step

same {ℓ} : {A : Type ℓ} (n : ℕ) (x y : A) → (if n == n then x else y) ≡ x
same n x y = ground arith

abbrev pub phase_of : Bool → ℕ → Phase
phase_of true n = in_text n
phase_of false n = between n

-- The message has begun and its blocks are not closed yet.
abbrev pub Begun : StreamWriter → Type 0
Begun a = At (phase_of a.text_open a.block_idx) a

pub start-Begun : (model : String) → Begun (start (new_writer model))
unfolding start
start-Begun model = refl

module _ (a : StreamWriter) where
  open_block-At :
      (b : Bool) → At (phase_of b a.block_idx) a → At (in_text a.block_idx) (open_block b a)
  unfolding open_block
  open_block-At true at = at
  open_block-At false at = write-At a (between a.block_idx) _ _ at (same a.block_idx _ _)

  open_block_flag : (b : Bool) → a.text_open ≡ b → (open_block b a).text_open ≡ true
  unfolding open_block
  open_block_flag true e = e
  open_block_flag false e = refl

  open_block_idx : (b : Bool) → (open_block b a).block_idx ≡ a.block_idx
  unfolding open_block
  open_block_idx true = refl
  open_block_idx false = refl

  pub text_delta_of-Begun : (s : String) → Begun a → Begun (text_delta_of a s)
  unfolding text_delta_of
  text_delta_of-Begun s at = elim (Bool-cases (str_eq s "")) [
    | inl e ↦ rw e at
    | inr e ↦ rw e (
        write-At (open_text a) (in_text a.block_idx) (in_text a.block_idx) _
          (open_block-At a.text_open at) (same a.block_idx _ _)
        ∙ ap some (
            ap (λ n. phase_of true n) (sym (open_block_idx a.text_open))
            ∙ ap (λ b. phase_of b (open_text a).block_idx)
                (sym (open_block_flag a.text_open refl))))
  ]

  -- After `close_text_block` the client is between two blocks.
  close_block-At :
      (b : Bool)
      → At (phase_of b a.block_idx) a
      → At (between (close_block b a).block_idx) (close_block b a)
  unfolding close_block
  close_block-At true at = write-At a (in_text a.block_idx) _ _ at (same a.block_idx _ _)
  close_block-At false at = at

  close_block_flag : (b : Bool) → a.text_open ≡ b → (close_block b a).text_open ≡ false
  unfolding close_block
  close_block_flag true e = refl
  close_block_flag false e = e

-- Between two blocks, with the next index.
record Idle (a : StreamWriter) : Type 0 where
  at : At (between a.block_idx) a
  flag : a.text_open ≡ false

close_text_block-Idle : (a : StreamWriter) → Begun a → Idle (close_text_block a)
close_text_block-Idle a at = record {
  at = close_block-At a a.text_open at;
  flag = close_block_flag a a.text_open refl;
}

Idle-Begun : (a : StreamWriter) → Idle a → Begun a
Idle-Begun a i = i.at ∙ ap (λ b. some (phase_of b a.block_idx)) (sym i.flag)

write_call-Idle : (a : StreamWriter) (p : PendingToolCall) → Idle a → Idle (write_call a p)
write_call-Idle a p i =
    let n = a.block_idx in
    let started = write a (content_block_start n (tool_use_block p.id p.name)) in
    let filled = write started (content_block_delta n (input_json_delta p.args)) in
    let at_start = write-At a (between n) (in_tool n) _ i.at (same n _ _) in
    let at_delta = write-At started (in_tool n) (in_tool n) _ at_start (same n _ _) in
    record {
      at = write-At filled (in_tool n) (between (n + 1)) _ at_delta (same n _ _);
      flag = i.flag;
    }

emit_tool_calls-Idle :
    (a : StreamWriter) (ps : List (ℤ × PendingToolCall)) → Idle a → Idle (emit_tool_calls a ps)
unfolding emit_tool_calls emit_tool_call
emit_tool_calls-Idle a [] i = i
emit_tool_calls-Idle a ((j, p) ∷ ps) i =
    emit_tool_calls-Idle (emit_tool_call a p) ps
      (write_call-Idle (close_text_block a) p (close_text_block-Idle a (Idle-Begun a i)))

pub finish-At : (a : StreamWriter) (reason : String) → Begun a → At ended (finish a reason)
unfolding finish
finish-At a reason at =
    let b = if str_eq reason "" then a else record a { chat_finish = reason } in
    let begun : Begun b = ground (arith, at) in
    let idle =
      emit_tool_calls-Idle (close_text_block b) b.pending (close_text_block-Idle b begun) in
    let c = emit_tool_calls (close_text_block b) b.pending in
    write-At (write c _) closing ended message_stop
      (write-At c (between c.block_idx) closing _ idle.at refl) refl
