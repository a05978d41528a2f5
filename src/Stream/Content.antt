-- ===== src/Stream/Content.antt =====
-- What a stream tells the client, and what the chunks of a body hold.
use nano_llm_proxy.Prelude.{
  ◌≡◌, sym, ap, ◌∙◌, Option, none, some, List, [], ◌∷◌, ◌++◌, append_assoc, append-nil,
  if◌then◌else◌, String, str_eq,
}
use nano_llm_proxy.Usage.{UsageChunk, AnthropicUsage}
use nano_llm_proxy.Stream.{
  Bytes, text_block, tool_use_block, text_delta, input_json_delta, Event, message_start,
  content_block_start, content_block_delta, content_block_stop, message_delta, message_stop,
}
use nano_llm_proxy.Stream.Readers.{payload_of, ChatJson, ToolDelta, Choice}

-- What a client takes from the events: a piece of text, a call with its id and name, the call's
-- arguments, and at the end the reason and the usage.
pub data Told : Type 0 where
  said : String → Told
  called : String → String → Told
  filled : String → Told
  stopped : String → AnthropicUsage → Told

abbrev pub told_by : Event → List Told
told_by (message_start model usage) = []
told_by (content_block_start i text_block) = []
told_by (content_block_start i (tool_use_block id name)) = called id name ∷ []
told_by (content_block_delta i (text_delta s)) = said s ∷ []
told_by (content_block_delta i (input_json_delta s)) = filled s ∷ []
told_by (content_block_stop i) = []
told_by (message_delta reason usage) = stopped reason usage ∷ []
told_by message_stop = []

abbrev pub told : List Event → List Told
told [] = []
told (e ∷ es) = told_by e ++ told es

pub told-append : (es : List Event) (e : Event) → told (es ++ e ∷ []) ≡ told es ++ told_by e
told-append [] e = append-nil (told_by e)
told-append (x ∷ es) e =
    ap (λ l. told_by x ++ l) (told-append es e)
    ∙ sym (append_assoc (told_by x) (told es) (told_by e))

-- The chunks of a body: the payloads that decode, with their usage.
abbrev pub Chunk : Type 0
Chunk = Option Choice × Option UsageChunk

abbrev pub chunk_onto : Option (Option Choice) → Option UsageChunk → List Chunk → List Chunk
chunk_onto none usage cs = cs
chunk_onto (some choice) usage cs = (choice, usage) ∷ cs

abbrev pub payload_onto : ChatJson → Option Bytes → List Chunk → List Chunk
payload_onto json none cs = cs
payload_onto json (some payload) cs = chunk_onto (json.chunk payload) (json.usage payload) cs

abbrev pub chunks_of : ChatJson → List Bytes → List Chunk
chunks_of json [] = []
chunks_of json (line ∷ lines) = payload_onto json (payload_of line) (chunks_of json lines)

-- The texts, the tool deltas, the usages and the last finish reason of chunks.
abbrev pub choice_text : Option Choice → List Told
choice_text none = []
choice_text (some d) = if str_eq d.content "" then [] else said d.content ∷ []

abbrev pub texts_in : List Chunk → List Told
texts_in [] = []
texts_in ((d, u) ∷ cs) = choice_text d ++ texts_in cs

abbrev pub choice_deltas : Option Choice → List ToolDelta
choice_deltas none = []
choice_deltas (some d) = d.tool_calls

abbrev pub deltas_in : List Chunk → List ToolDelta
deltas_in [] = []
deltas_in ((d, u) ∷ cs) = choice_deltas d ++ deltas_in cs

abbrev pub usage_list : Option UsageChunk → List UsageChunk
usage_list none = []
usage_list (some u) = u ∷ []

abbrev pub usages_in : List Chunk → List UsageChunk
usages_in [] = []
usages_in ((d, u) ∷ cs) = usage_list u ++ usages_in cs

abbrev pub choice_reason : Option Choice → String → String
choice_reason none last = last
choice_reason (some d) last = elim d.finish_reason [ none ↦ last | some reason ↦ reason ]

abbrev pub reason_in : String → List Chunk → String
reason_in last [] = last
reason_in last ((d, u) ∷ cs) = reason_in (choice_reason d last) cs
