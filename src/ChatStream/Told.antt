-- ===== src/ChatStream/Told.antt =====
-- The chunks tell what the events say.
use nano_llm_proxy.Prelude.{
  ℕ, suc, ◌<◌, ◌≡◌, refl, sym, ap, ◌∙◌, inl, inr, Bool-cases, Option, none, some, List, [], ◌∷◌,
  ◌++◌, length, ◌==◌, String, arith, ℤ, eq_ℤ, if_related, Option-cases, true, false, eq_iff, str_eq,
}
use nano_llm_proxy.Usage.{TokenUsage}
use nano_llm_proxy.Replies.{ToolCall, stop_from_anthropic}
use nano_llm_proxy.Stream.{Bytes}
use nano_llm_proxy.Stream.Readers.{sse_lines, payload_of}
use nano_llm_proxy.ChatStream.{
  AnthropicUsageBlock, usage_block_into, BlockJson, DeltaJson, EventJson, ChatChunk, content_chunk,
  reasoning_chunk, call_chunk, arguments_chunk, ChatStream, write_chunk, chat_idx, on_message_start,
  start_tool, block_start, write_arguments, block_delta, with_stop, delta_reason, on_message_delta,
  on_event, new_stream, end_stream, read_stream, stream_anthropic_sse_to_chat,
}
use nano_llm_proxy.ChatStream.Hearing.{
  Heard, nothing_heard, extend_at, call_at, chat_reason, hear_chunk, hear, Seen, nothing_seen,
  extend_block, see_start, see_delta, see_stop, see, see_all, blocks_calls, told, with_finish,
  told_in_full,
}

abbrev positions : List (ℤ × ToolCall) → List (ℤ × ℕ)
positions [] = []
positions ((i, c) ∷ bs) = (i, length bs) ∷ positions bs

length-blocks_calls : (bs : List (ℤ × ToolCall)) → length (blocks_calls bs) ≡ length bs
length-blocks_calls [] = refl
length-blocks_calls ((i, c) ∷ bs) = ap suc (length-blocks_calls bs)

hear-append :
    (h : Heard) (cs : List ChatChunk) (c : ChatChunk)
    → hear h (cs ++ c ∷ []) ≡ hear_chunk (hear h cs) c
hear-append h [] c = refl
hear-append h (d ∷ cs) c = hear-append (hear_chunk h d) cs c

hear_after : (h : Heard) (cs ds : List ChatChunk) → hear h (cs ++ ds) ≡ hear (hear h cs) ds
hear_after h [] ds = refl
hear_after h (c ∷ cs) ds = hear_after (hear_chunk h c) cs ds

-- The state of the function after what was seen.
record Tells (s : ChatStream) (v : Seen) : Type 0 where
  heard : hear nothing_heard s.out ≡ told v
  idx : s.tool_chat_idx ≡ positions v.blocks
  next : s.next_tool ≡ length v.blocks
  finish : s.finish ≡ v.finish

chat_idx-bound :
    (bs : List (ℤ × ToolCall)) (i : ℤ) (k : ℕ) → chat_idx i (positions bs) ≡ some k → k < length bs
chat_idx-bound [] i k e = cc
chat_idx-bound ((j, c) ∷ bs) i k e = elim (Bool-cases (eq_ℤ j i)) [
  | inl t ↦ let q : length bs ≡ k = cc in omega arith
  | inr t ↦ let l = chat_idx-bound bs i k (rw t at e) in omega arith
]

extend_block-none :
    (bs : List (ℤ × ToolCall)) (i : ℤ) (args : String)
    → chat_idx i (positions bs) ≡ none
    → extend_block i args bs ≡ bs
extend_block-none [] i args e = refl
extend_block-none ((j, c) ∷ bs) i args e = elim (Bool-cases (eq_ℤ j i)) [
  | inl t ↦ cc
  | inr t ↦ rw t (ap (λ l. (j, c) ∷ l) (extend_block-none bs i args (rw t at e)))
]

extend_block-some :
    (bs : List (ℤ × ToolCall)) (i : ℤ) (args : String) (k : ℕ)
    → chat_idx i (positions bs) ≡ some k
    → extend_at k args (blocks_calls bs) ≡ blocks_calls (extend_block i args bs)
extend_block-some [] i args k e = cc
extend_block-some ((j, c) ∷ bs) i args k e = elim (Bool-cases (eq_ℤ j i)) [
  | inl t ↦
      let q : length bs ≡ k = cc in
      let u : (length (blocks_calls bs) == k) ≡ true = ground (arith, length-blocks_calls bs) in
      rw (t, u) refl
  | inr t ↦
      let e' = rw t at e in
      let l = chat_idx-bound bs i k e' in
      let u : (length (blocks_calls bs) == k) ≡ false = ground (arith, length-blocks_calls bs) in
      rw (t, u) (ap (λ l. c ∷ l) (extend_block-some bs i args k e'))
]

abbrev with_calls : Seen → List ToolCall → Heard
with_calls v cs = record (told v) { calls = cs }

-- A chunk that a client hears as the change from `v` to `v'`.
write_chunk-Tells :
    (s : ChatStream) (c : ChatChunk) (v v' : Seen)
    → Tells s v
    → hear_chunk (told v) c ≡ told v'
    → v'.blocks ≡ v.blocks
    → v'.finish ≡ v.finish
    → Tells (write_chunk s c) v'
write_chunk-Tells s c v v' t e b f = record {
  heard = hear-append nothing_heard s.out c ∙ ap (λ h. hear_chunk h c) t.heard ∙ e;
  idx = t.idx ∙ ap positions (sym b);
  next = t.next ∙ ap length (sym b);
  finish = t.finish ∙ sym f;
}

next_call :
    (k : ℕ) (id name : String) (cs : List ToolCall)
    → k ≡ length cs
    → call_at k id name cs ≡ record { id = id; name = name; arguments = "" } ∷ cs
next_call k id name cs e = ground (arith, e)

start_tool-Tells :
    (i : ℤ) (b : BlockJson) (s : ChatStream) (v : Seen)
    → Tells s v
    → Tells
        (start_tool i b s)
        (record v { blocks = (i, record { id = b.id; name = b.name; arguments = "" }) ∷ v.blocks })
start_tool-Tells i b s v t =
    let c = call_chunk s.next_tool b.id b.name in
    record {
      heard =
          hear-append nothing_heard s.out c
          ∙ ap (λ h. hear_chunk h c) t.heard
          ∙ ap (with_calls v) (
              next_call s.next_tool b.id b.name (blocks_calls v.blocks)
                (t.next ∙ sym (length-blocks_calls v.blocks)));
      idx = rw (t.idx, t.next) refl;
      next = ap suc t.next;
      finish = t.finish;
    }

block_start-Tells :
    (i : ℤ) (o : Option BlockJson) (s : ChatStream) (v : Seen)
    → Tells s v
    → Tells (block_start i o s) (see_start i o v)
unfolding block_start
block_start-Tells i none s v t = t
block_start-Tells i (some b) s v t = if_related Tells _ _ _ _ _ (start_tool-Tells i b s v t) t

positions-extend_block :
    (i : ℤ) (args : String) (bs : List (ℤ × ToolCall))
    → (positions (extend_block i args bs) ≡ positions bs)
      × (length (extend_block i args bs) ≡ length bs)
positions-extend_block i args [] = (refl, refl)
positions-extend_block i args ((j, c) ∷ bs) =
    let (p, l) = positions-extend_block i args bs in
    elim (Bool-cases (eq_ℤ j i)) [ inl t ↦ rw t (refl, refl) | inr t ↦ rw (t, l, p) (refl, refl) ]

write_arguments-Tells :
    (i : ℤ) (args : String) (s : ChatStream) (v : Seen)
    → Tells s v
    → (o : Option ℕ) → chat_idx i (positions v.blocks) ≡ o
    → Tells (write_arguments o args s) (record v { blocks = extend_block i args v.blocks })
write_arguments-Tells i args s v t none e = rw (extend_block-none v.blocks i args e) t
write_arguments-Tells i args s v t (some k) e =
    let c = arguments_chunk k args in
    record {
      heard =
          hear-append nothing_heard s.out c
          ∙ ap (λ h. hear_chunk h c) t.heard
          ∙ ap (with_calls v) (extend_block-some v.blocks i args k e);
      idx = t.idx ∙ sym (positions-extend_block i args v.blocks).0;
      next = t.next ∙ sym (positions-extend_block i args v.blocks).1;
      finish = t.finish;
    }

block_delta-Tells :
    (i : ℤ) (o : Option DeltaJson) (s : ChatStream) (v : Seen)
    → Tells s v
    → Tells (block_delta i o s) (see_delta i o v)
unfolding block_delta
block_delta-Tells i none s v t = t
block_delta-Tells i (some d) s v t =
    if_related Tells _ _ _ _ _ (write_chunk-Tells s (content_chunk d.text) v _ t refl refl refl) (
      if_related Tells _ _ _ _ _
        (write_chunk-Tells s (reasoning_chunk d.thinking) v _ t refl refl refl)
        (if_related Tells _ _ _ _ _
          (write_arguments-Tells i d.partial_json s v t (chat_idx i s.tool_chat_idx)
            (ap (chat_idx i) (sym t.idx)))
          t))

Tells-usage :
    (s : ChatStream) (v : Seen) (tu : TokenUsage) → Tells s v → Tells (record s { tu = tu }) v
Tells-usage s v tu t = record { heard = t.heard; idx = t.idx; next = t.next; finish = t.finish }

on_message_start-Tells :
    (o : Option (Option AnthropicUsageBlock)) (s : ChatStream) (v : Seen)
    → Tells s v
    → Tells (on_message_start o s) v
on_message_start-Tells none s v t = t
on_message_start-Tells (some u) s v t = Tells-usage s v (usage_block_into u s.tu) t

stop_from_anthropic-chat_reason : (r : String) → stop_from_anthropic r ≡ chat_reason r
unfolding stop_from_anthropic
stop_from_anthropic-chat_reason r = elim (Bool-cases (str_eq r "tool_use")) [
  | inl e ↦ let q = (eq_iff r "tool_use").0 e in rw q refl
  | inr e ↦ rw e refl
]

with_stop-Tells :
    (r : Option String) (s : ChatStream) (v : Seen)
    → Tells s v
    → Tells (with_stop r s) (see_stop r v)
with_stop-Tells none s v t = t
with_stop-Tells (some r) s v t = record {
  heard = t.heard;
  idx = t.idx;
  next = t.next;
  finish = stop_from_anthropic-chat_reason r;
}

on_message_delta-Tells :
    (ev : EventJson) (s : ChatStream) (v : Seen)
    → Tells s v
    → Tells (on_message_delta ev s) (see_stop (delta_reason ev.delta) v)
unfolding on_message_delta
on_message_delta-Tells ev s v t =
    let r = delta_reason ev.delta in
    Tells-usage (with_stop r s) (see_stop r v) (usage_block_into ev.usage (with_stop r s).tu)
      (with_stop-Tells r s v t)

on_event-Tells :
    (o : Option EventJson) (s : ChatStream) (v : Seen) → Tells s v → Tells (on_event o s) (see o v)
unfolding on_event
on_event-Tells none s v t = t
on_event-Tells (some ev) s v t =
    if_related Tells _ _ _ _ _ (on_message_start-Tells ev.message s v t) (
      if_related Tells _ _ _ _ _ (block_start-Tells ev.index ev.content_block s v t) (
        if_related Tells _ _ _ _ _ (block_delta-Tells ev.index ev.delta s v t)
          (if_related Tells _ _ _ _ _ (on_message_delta-Tells ev s v t) t)))

module _ (decode : Bytes → Option EventJson) where
  sse_lines-Tells :
      (lines : List Bytes) (s : ChatStream) (v : Seen)
      → Tells s v
      → Tells
          (sse_lines lines (λ payload s. on_event (decode payload) s) s)
          (see_all decode lines v)
  unfolding sse_lines
  sse_lines-Tells [] s v t = t
  sse_lines-Tells (line ∷ lines) s v t = elim (Option-cases (payload_of line)) [
    | inl e ↦ rw e (sse_lines-Tells lines s v t)
    | inr (payload, e) ↦ rw e (
        sse_lines-Tells lines (on_event (decode payload) s) (see (decode payload) v)
          (on_event-Tells (decode payload) s v t))
  ]

  end_stream-told :
      (s : ChatStream) (v : Seen) → Tells s v → hear nothing_heard (end_stream s) ≡ told_in_full v
  end_stream-told s v t =
      hear_after nothing_heard s.out _
      ∙ ap (λ h. with_finish h s.finish) t.heard
      ∙ ap (with_finish (told v)) t.finish

  -- A client that hears the chunks gets what a client of the Anthropic protocol sees in the events: the
  -- text, the thinking, each tool call under an index of its own, with its id, its name and all its
  -- arguments, in order, and the reason to stop: "tool_calls" for "tool_use", "length" for
  -- "max_tokens" and "stop" for the others or none.
  pub stream_anthropic_sse_to_chat-told :
      (lines : List Bytes)
      → hear nothing_heard (stream_anthropic_sse_to_chat decode lines).0
        ≡ told_in_full (see_all decode lines nothing_seen)
  unfolding stream_anthropic_sse_to_chat
  stream_anthropic_sse_to_chat-told lines =
      let start : Tells new_stream nothing_seen = record {
        heard = refl;
        idx = refl;
        next = refl;
        finish = refl;
      } in
      end_stream-told (read_stream decode lines) (see_all decode lines nothing_seen)
        (sse_lines-Tells lines new_stream nothing_seen start)
