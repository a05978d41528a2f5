-- ===== src/ChatStream/Calls.antt =====
-- The tool calls of the chunks that a stream of Anthropic events becomes.
use nano_llm_proxy.Prelude.{
  ℕ, suc, ◌<◌, ◌≡◌, refl, inl, inr, Bool-cases, Option, none, some, List, [], ◌∷◌, ◌++◌, String,
  arith, ℤ, eq_ℤ, All, All-map, if_both,
}
use nano_llm_proxy.Usage.{TokenUsage}
use nano_llm_proxy.Stream.{Bytes}
use nano_llm_proxy.Replies.{stop_from_anthropic}
use nano_llm_proxy.Stream.Streams.{sse_lines_keep}
use nano_llm_proxy.ChatStream.{
  AnthropicUsageBlock, usage_block_into, BlockJson, DeltaJson, EventJson, ChatChunk, content_chunk,
  reasoning_chunk, call_chunk, arguments_chunk, ChatStream, write_chunk, chat_idx, on_message_start,
  start_tool, block_start, write_arguments, block_delta, with_stop, delta_reason, on_message_delta,
  on_event, new_stream, read_stream, stream_anthropic_sse_to_chat,
}

-- What `n` opened calls allow to come next: a call takes the next index, and arguments belong to a
-- call that is open.
abbrev pub Fits : ℕ → ChatChunk → Type 0
Fits n (call_chunk i id name) = i ≡ n
Fits n (arguments_chunk i args) = i < n
Fits n _ = Unit

abbrev pub after : ℕ → ChatChunk → ℕ
after n (call_chunk i id name) = suc n
after n _ = n

abbrev pub Follows : ℕ → List ChatChunk → Type 0
Follows n [] = Unit
Follows n (c ∷ cs) = Fits n c × Follows (after n c) cs

abbrev opened : ℕ → List ChatChunk → ℕ
opened n [] = n
opened n (c ∷ cs) = opened (after n c) cs

Follows-append :
    (n : ℕ) (cs ds : List ChatChunk)
    → Follows n cs
    → Follows (opened n cs) ds
    → Follows n (cs ++ ds)
Follows-append n [] ds f g = g
Follows-append n (c ∷ cs) ds f g = (f.0, Follows-append (after n c) cs ds f.1 g)

opened-append : (n : ℕ) (cs ds : List ChatChunk) → opened n (cs ++ ds) ≡ opened (opened n cs) ds
opened-append n [] ds = refl
opened-append n (c ∷ cs) ds = opened-append (after n c) cs ds

abbrev Known : ℕ → List (ℤ × ℕ) → Type 0
Known n = All (λ e. e.1 < n)

record Sound (s : ChatStream) : Type 0 where
  follows : Follows 0 s.out
  count : opened 0 s.out ≡ s.next_tool
  known : Known s.next_tool s.tool_chat_idx

write_chunk-Sound :
    (s : ChatStream) (c : ChatChunk)
    → Sound s
    → Fits s.next_tool c
    → after s.next_tool c ≡ s.next_tool
    → Sound (write_chunk s c)
write_chunk-Sound s c h f e = record {
  follows = Follows-append 0 s.out (c ∷ []) h.follows (rw h.count (f, tt));
  count = rw (opened-append 0 s.out (c ∷ []), h.count) e;
  known = h.known;
}

start_tool-Sound :
    (index : ℤ) (b : BlockJson) (s : ChatStream) → Sound s → Sound (start_tool index b s)
start_tool-Sound index b s h =
    let c = call_chunk s.next_tool b.id b.name in
    record {
      follows = Follows-append 0 s.out (c ∷ []) h.follows (rw h.count (refl, tt));
      count = rw (opened-append 0 s.out (c ∷ []), h.count) refl;
      known = (
        omega arith,
        All-map (λ e. e.1 < s.next_tool) (λ e. e.1 < suc s.next_tool) s.tool_chat_idx
            (λ e l. omega arith) h.known,
      );
    }

chat_idx-Known :
    (n : ℕ) (m : List (ℤ × ℕ)) (i : ℤ) (k : ℕ) → Known n m → chat_idx i m ≡ some k → k < n
chat_idx-Known n [] i k h e = cc
chat_idx-Known n ((j, k') ∷ m) i k h e = elim (Bool-cases (eq_ℤ j i)) [
  | inl t ↦ let q : k' ≡ k = cc in rw q at h.0
  | inr t ↦ chat_idx-Known n m i k h.1 (rw t at e)
]

block_start-Sound :
    (index : ℤ) (o : Option BlockJson) (s : ChatStream) → Sound s → Sound (block_start index o s)
unfolding block_start
block_start-Sound index none s h = h
block_start-Sound index (some b) s h = if_both Sound _ _ _ (start_tool-Sound index b s h) h

write_arguments-Sound :
    (o : Option ℕ) (args : String) (s : ChatStream)
    → Sound s
    → ((k : ℕ) → o ≡ some k → k < s.next_tool)
    → Sound (write_arguments o args s)
write_arguments-Sound none args s h l = h
write_arguments-Sound (some i) args s h l =
    write_chunk-Sound s (arguments_chunk i args) h (l i refl) refl

block_delta-Sound :
    (index : ℤ) (o : Option DeltaJson) (s : ChatStream) → Sound s → Sound (block_delta index o s)
unfolding block_delta
block_delta-Sound index none s h = h
block_delta-Sound index (some d) s h =
    if_both Sound _ _ _ (write_chunk-Sound s (content_chunk d.text) h tt refl) (
      if_both Sound _ _ _ (write_chunk-Sound s (reasoning_chunk d.thinking) h tt refl) (
        if_both Sound _ _ _
          (write_arguments-Sound (chat_idx index s.tool_chat_idx) d.partial_json s h
            (λ k q. chat_idx-Known s.next_tool s.tool_chat_idx index k h.known q))
          h))

-- What the invariant is about stays.
Sound-keep :
    (s : ChatStream) (tu : TokenUsage) (finish : String)
    → Sound s
    → Sound (record s { tu = tu; finish = finish })
Sound-keep s tu finish h = record { follows = h.follows; count = h.count; known = h.known }

on_message_start-Sound :
    (o : Option (Option AnthropicUsageBlock)) (s : ChatStream)
    → Sound s
    → Sound (on_message_start o s)
on_message_start-Sound none s h = h
on_message_start-Sound (some u) s h = Sound-keep s (usage_block_into u s.tu) s.finish h

with_stop-Sound : (r : Option String) (s : ChatStream) → Sound s → Sound (with_stop r s)
with_stop-Sound none s h = h
with_stop-Sound (some r) s h = Sound-keep s s.tu (stop_from_anthropic r) h

on_message_delta-Sound : (ev : EventJson) (s : ChatStream) → Sound s → Sound (on_message_delta ev s)
unfolding on_message_delta
on_message_delta-Sound ev s h =
    let t = with_stop (delta_reason ev.delta) s in
    Sound-keep t (usage_block_into ev.usage t.tu) t.finish
      (with_stop-Sound (delta_reason ev.delta) s h)

on_event-Sound : (o : Option EventJson) (s : ChatStream) → Sound s → Sound (on_event o s)
unfolding on_event
on_event-Sound none s h = h
on_event-Sound (some ev) s h = if_both Sound _ _ _ (on_message_start-Sound ev.message s h) (
    if_both Sound _ _ _ (block_start-Sound ev.index ev.content_block s h) (
      if_both Sound _ _ _ (block_delta-Sound ev.index ev.delta s h)
        (if_both Sound _ _ _ (on_message_delta-Sound ev s h) h)))

-- Whatever an upstream sends, the calls of the chunks have the indices 0, 1, 2, … in the order in
-- which they are opened, and every fragment of arguments has the index of a call that an earlier chunk
-- opened.
pub stream_anthropic_sse_to_chat-Follows :
    (decode : Bytes → Option EventJson) (lines : List Bytes)
    → Follows 0 (stream_anthropic_sse_to_chat decode lines).0
unfolding stream_anthropic_sse_to_chat
stream_anthropic_sse_to_chat-Follows decode lines =
    let fn : Bytes → ChatStream → ChatStream = λ payload s. on_event (decode payload) s in
    let start : Sound new_stream = record { follows = (tt, tt); count = refl; known = tt } in
    let s = read_stream decode lines in
    let h =
      sse_lines_keep Sound fn (λ payload s. on_event-Sound (decode payload) s) lines new_stream
        start in
    Follows-append 0 s.out _ h.follows (tt, (tt, tt))
