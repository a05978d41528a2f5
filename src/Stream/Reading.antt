-- ===== src/Stream/Reading.antt =====
-- A chat stream tells the client what its chunks hold.
use nano_llm_proxy.Prelude.{
  ◌≡◌, refl, sym, ap, ◌∙◌, inl, inr, Bool, true, false, Bool-cases, Option, none, some,
  Option-cases, List, [], ◌∷◌, ◌++◌, append_assoc, append-nil, if◌then◌else◌, String, str_eq,
}
use nano_llm_proxy.Usage.{UsageChunk, TokenUsage, chunk_into}
use nano_llm_proxy.Usage.Totals.{into_all}
use nano_llm_proxy.Stream.{
  buffer_call, Bytes, StreamWriter, open_block, open_text, text_delta_of, close_block, tool_use,
}
use nano_llm_proxy.Stream.Readers.{
  tap_usage, payload_of, sse_lines, tool_uses, finished, chat_choice, chat_chunk, chat_payload,
  ChatJson, ToolDelta, Choice,
}
use nano_llm_proxy.Stream.Calls.{Pending, buffered}
use nano_llm_proxy.Stream.Content.{
  said, told, told-append, Chunk, chunk_onto, chunks_of, choice_text, texts_in, choice_deltas,
  deltas_in, usage_list, usages_in, choice_reason, reason_in,
}

-- What an operation leaves alone.
pub record Keeps (a b : StreamWriter) : Type 0 where
  pub pending : b.pending ≡ a.pending
  pub tu : b.tu ≡ a.tu
  pub chat_finish : b.chat_finish ≡ a.chat_finish

told-open_block : (b : Bool) (a : StreamWriter) → told (open_block b a).out ≡ told a.out
unfolding open_block
told-open_block true a = refl
told-open_block false a = told-append a.out _ ∙ append-nil (told a.out)

pub told-close_block : (b : Bool) (a : StreamWriter) → told (close_block b a).out ≡ told a.out
unfolding close_block
told-close_block true a = told-append a.out _ ∙ append-nil (told a.out)
told-close_block false a = refl

told-text_delta_of :
    (a : StreamWriter) (s : String)
    → told (text_delta_of a s).out ≡ told a.out ++ (if str_eq s "" then [] else said s ∷ [])
unfolding text_delta_of
told-text_delta_of a s = elim (Bool-cases (str_eq s "")) [
  | inl e ↦ rw e (sym (append-nil (told a.out)))
  | inr e ↦
      rw e (
        told-append (open_text a).out _
        ∙ ap (λ l. l ++ said s ∷ []) (told-open_block a.text_open a))
]

open_block-Keeps : (b : Bool) (a : StreamWriter) → Keeps a (open_block b a)
unfolding open_block
open_block-Keeps true a = record { pending = refl; tu = refl; chat_finish = refl }
open_block-Keeps false a = record { pending = refl; tu = refl; chat_finish = refl }

pub close_block-Keeps : (b : Bool) (a : StreamWriter) → Keeps a (close_block b a)
unfolding close_block
close_block-Keeps true a = record { pending = refl; tu = refl; chat_finish = refl }
close_block-Keeps false a = record { pending = refl; tu = refl; chat_finish = refl }

text_delta_of-Keeps : (a : StreamWriter) (s : String) → Keeps a (text_delta_of a s)
unfolding text_delta_of
text_delta_of-Keeps a s =
    let k = open_block-Keeps a.text_open a in
    elim (Bool-cases (str_eq s "")) [
      | inl e ↦ rw e (record { pending = refl; tu = refl; chat_finish = refl })
      | inr e ↦ rw e (record { pending = k.pending; tu = k.tu; chat_finish = k.chat_finish })
    ]

-- the calls of a choice
record Buffers (a : StreamWriter) (ds : List ToolDelta) (b : StreamWriter) : Type 0 where
  out : b.out ≡ a.out
  pending : b.pending ≡ buffered a.pending ds
  tu : b.tu ≡ a.tu
  chat_finish : b.chat_finish ≡ a.chat_finish

tool_uses-Buffers : (a : StreamWriter) (ds : List ToolDelta) → Buffers a ds (tool_uses a ds)
unfolding tool_uses tool_use
tool_uses-Buffers a [] = record { out = refl; pending = refl; tu = refl; chat_finish = refl }
tool_uses-Buffers a (d ∷ ds) =
    let b = tool_uses-Buffers (tool_use a d.index d.id d.name d.arguments) ds in
    record { out = b.out; pending = b.pending; tu = b.tu; chat_finish = b.chat_finish }

-- The writer after a chunk, against the writer before it.
record ReadsOne (a : StreamWriter) (d : Option Choice) (u : Option UsageChunk) (b : StreamWriter)
    : Type 0 where
  shown : told b.out ≡ told a.out ++ choice_text d
  calls : b.pending ≡ buffered a.pending (choice_deltas d)
  tokens : b.tu ≡ into_all (usage_list u) a.tu
  reason : b.chat_finish ≡ choice_reason d a.chat_finish

finished_reason :
    (a : StreamWriter) (o : Option String)
    → (finished a o).chat_finish ≡ elim o [ none ↦ a.chat_finish | some reason ↦ reason ]
finished_reason a none = refl
finished_reason a (some r) = refl

record Finishes (a : StreamWriter) (b : StreamWriter) : Type 0 where
  out : b.out ≡ a.out
  pending : b.pending ≡ a.pending
  tu : b.tu ≡ a.tu

finished-Finishes : (a : StreamWriter) (o : Option String) → Finishes a (finished a o)
finished-Finishes a none = record { out = refl; pending = refl; tu = refl }
finished-Finishes a (some r) = record { out = refl; pending = refl; tu = refl }

chat_choice-ReadsOne : (d : Option Choice) (a : StreamWriter) → ReadsOne a d none (chat_choice a d)
unfolding chat_choice into_all
chat_choice-ReadsOne none a = record {
  shown = sym (append-nil (told a.out));
  calls = refl;
  tokens = refl;
  reason = refl;
}
chat_choice-ReadsOne (some d) a =
    let t = text_delta_of a d.content in
    let v = tool_uses t d.tool_calls in
    let text = text_delta_of-Keeps a d.content in
    let tools = tool_uses-Buffers t d.tool_calls in
    let fin = finished-Finishes v d.finish_reason in
    record {
      shown = ap told (fin.out ∙ tools.out) ∙ told-text_delta_of a d.content;
      calls = fin.pending ∙ tools.pending ∙ ap (λ p. buffered p d.tool_calls) text.pending;
      tokens = fin.tu ∙ tools.tu ∙ text.tu;
      reason =
          finished_reason v d.finish_reason
          ∙ ap (λ r. choice_reason (some d) r) (tools.chat_finish ∙ text.chat_finish);
    }

chat_chunk-ReadsOne :
    (d : Option Choice) (u : Option UsageChunk) (a : StreamWriter)
    → ReadsOne a d u (chat_chunk (some d) u a)
unfolding chat_chunk tap_usage chunk_into into_all
chat_chunk-ReadsOne d none a = chat_choice-ReadsOne d a
chat_chunk-ReadsOne d (some u) a =
    let r = chat_choice-ReadsOne d (record a { tu = chunk_into u a.tu }) in
    record { shown = r.shown; calls = r.calls; tokens = r.tokens; reason = r.reason }

-- The writer after the chunks, against the writer before them.
pub record Reads (a : StreamWriter) (cs : List Chunk) (b : StreamWriter) : Type 0 where
  pub shown : told b.out ≡ told a.out ++ texts_in cs
  pub calls : b.pending ≡ buffered a.pending (deltas_in cs)
  pub tokens : b.tu ≡ into_all (usages_in cs) a.tu
  pub reason : b.chat_finish ≡ reason_in a.chat_finish cs

Reads-nil : (a : StreamWriter) → Reads a [] a
unfolding into_all
Reads-nil a = record {
  shown = sym (append-nil (told a.out));
  calls = refl;
  tokens = refl;
  reason = refl;
}

buffered-append :
    (p : Pending) (ds es : List ToolDelta) → buffered p (ds ++ es) ≡ buffered (buffered p ds) es
buffered-append p [] es = refl
buffered-append p (d ∷ ds) es =
    buffered-append (buffer_call p d.index d.id d.name d.arguments) ds es

into_all-append :
    (u : Option UsageChunk) (us : List UsageChunk) (t : TokenUsage)
    → into_all (usage_list u ++ us) t ≡ into_all us (into_all (usage_list u) t)
unfolding into_all
into_all-append none us t = refl
into_all-append (some u) us t = refl

Reads-cons :
    (a b e : StreamWriter) (d : Option Choice) (u : Option UsageChunk) (cs : List Chunk)
    → ReadsOne a d u b
    → Reads b cs e
    → Reads a ((d, u) ∷ cs) e
Reads-cons a b e d u cs one rest = record {
  shown =
      rest.shown
      ∙ ap (λ l. l ++ texts_in cs) one.shown
      ∙ append_assoc (told a.out) (choice_text d) (texts_in cs);
  calls =
      rest.calls
      ∙ ap (λ p. buffered p (deltas_in cs)) one.calls
      ∙ sym (buffered-append a.pending (choice_deltas d) (deltas_in cs));
  tokens =
      rest.tokens
      ∙ ap (into_all (usages_in cs)) one.tokens
      ∙ sym (into_all-append u (usages_in cs) a.tu);
  reason = rest.reason ∙ ap (λ r. reason_in r cs) one.reason;
}

module _ (json : ChatJson) where
  decoded-Reads :
      (o : Option (Option Choice)) (u : Option UsageChunk) (cs : List Chunk) (a b : StreamWriter)
      → Reads (chat_chunk o u a) cs b
      → Reads a (chunk_onto o u cs) b
  unfolding chat_chunk
  decoded-Reads none u cs a b r = r
  decoded-Reads (some d) u cs a b r =
      Reads-cons a (chat_chunk (some d) u a) b d u cs (chat_chunk-ReadsOne d u a) r

  pub sse_lines-Reads :
      (body : List Bytes) (a : StreamWriter)
      → Reads a (chunks_of json body) (sse_lines body (chat_payload json) a)
  unfolding sse_lines chat_chunk chat_payload
  sse_lines-Reads [] a = Reads-nil a
  sse_lines-Reads (line ∷ lines) a = elim (Option-cases (payload_of line)) [
    | inl e ↦ rw e (sse_lines-Reads lines a)
    | inr (payload, e) ↦ rw e (
        decoded-Reads (json.chunk payload) (json.usage payload) (chunks_of json lines) a _
          (sse_lines-Reads lines (chat_payload json payload a)))
  ]
