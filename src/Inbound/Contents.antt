-- ===== src/Inbound/Contents.antt =====
-- What chat messages and the messages of an Anthropic request hold: calls, results and text.
use text.Mathlib.TextLemmas.{append_assoc as str_append_assoc, nil-append as str_nil-append}
use nano_llm_proxy.Prelude.{
  ◌≡◌, refl, sym, ap, ◌∙◌, Option, none, some, List, [], ◌∷◌, ◌++◌, append_assoc, map,
  if◌then◌else◌, String, str_eq, str_append,
}
use nano_llm_proxy.Json.{
  Json, str, arr, Fields, get_field, elements, as_string, as_object, as_array,
}
use nano_llm_proxy.Replies.{ToolCall}
use nano_llm_proxy.Inbound.{
  ToolResult, ChatInput, spoken, parted, called, tool, concat_text_blocks, concat_parts, call_of,
  result_of,
}

-- The calls, the results and the text of chat messages.
abbrev pub calls_of : ChatInput → List ToolCall
calls_of (called text calls) = calls
calls_of _ = []

abbrev pub results_of : ChatInput → List ToolResult
results_of (tool r) = r ∷ []
results_of _ = []

abbrev pub text_of : ChatInput → String
text_of (spoken role text) = text
text_of (parted role parts) = concat_parts parts
text_of (called text calls) = text
text_of (tool r) = ""

abbrev pub calls_in : List ChatInput → List ToolCall
calls_in [] = []
calls_in (m ∷ ms) = calls_of m ++ calls_in ms

abbrev pub results_in : List ChatInput → List ToolResult
results_in [] = []
results_in (m ∷ ms) = results_of m ++ results_in ms

abbrev pub text_in : List ChatInput → String
text_in [] = ""
text_in (m ∷ ms) = str_append (text_of m) (text_in ms)

-- The calls, the results and the text that a message's content holds, and those of all messages.
module _ (marshal : Json → Option String) where
  abbrev pub kind_calls : String → Fields → List ToolCall
  kind_calls bt bm = if str_eq bt "tool_use" then call_of marshal bm ∷ [] else []

  abbrev pub kind_results : String → Fields → List ToolResult
  kind_results bt bm = if str_eq bt "tool_result" then result_of marshal bm ∷ [] else []

  abbrev pub block_calls : Option Fields → List ToolCall
  block_calls none = []
  block_calls (some bm) = kind_calls (as_string (get_field bm "type")) bm

  abbrev pub block_results : Option Fields → List ToolResult
  block_results none = []
  block_results (some bm) = kind_results (as_string (get_field bm "type")) bm

  abbrev pub blocks_calls : List Json → List ToolCall
  blocks_calls [] = []
  blocks_calls (b ∷ bs) = block_calls (as_object b) ++ blocks_calls bs

  abbrev pub blocks_results : List Json → List ToolResult
  blocks_results [] = []
  blocks_results (b ∷ bs) = block_results (as_object b) ++ blocks_results bs

  abbrev pub message_calls : Option Fields → List ToolCall
  message_calls none = []
  message_calls (some am) = blocks_calls (as_array (get_field am "content"))

  abbrev pub message_results : Option Fields → List ToolResult
  message_results none = []
  message_results (some am) = blocks_results (as_array (get_field am "content"))

  abbrev pub all_calls : List Json → List ToolCall
  all_calls [] = []
  all_calls (m ∷ ms) = message_calls (as_object m) ++ all_calls ms

  abbrev pub all_results : List Json → List ToolResult
  all_results [] = []
  all_results (m ∷ ms) = message_results (as_object m) ++ all_results ms

abbrev pub content_text : Json → String
content_text (str s) = s
content_text (arr bs) = concat_text_blocks (elements bs)
content_text _ = ""

abbrev pub message_text : Option Fields → String
message_text none = ""
message_text (some am) = content_text (get_field am "content")

abbrev pub all_text : List Json → String
all_text [] = ""
all_text (m ∷ ms) = str_append (message_text (as_object m)) (all_text ms)

-- `ms` holds just these calls, results and text.
pub record Holds (ms : List ChatInput) (calls : List ToolCall) (results : List ToolResult)
    (text : String) : Type 0 where
  pub same_calls : calls_in ms ≡ calls
  pub same_results : results_in ms ≡ results
  pub same_text : text_in ms ≡ text

pub Holds-as :
    {ms : List ChatInput} {cs ds : List ToolCall} {rs qs : List ToolResult} {s t : String}
    → Holds ms cs rs s
    → cs ≡ ds
    → rs ≡ qs
    → s ≡ t
    → Holds ms ds qs t
Holds-as h c r e = record {
  same_calls = h.same_calls ∙ c;
  same_results = h.same_results ∙ r;
  same_text = h.same_text ∙ e;
}

pub Holds-append :
    (ms ns : List ChatInput) (cs ds : List ToolCall) (rs qs : List ToolResult) (s t : String)
    → Holds ms cs rs s
    → Holds ns ds qs t
    → Holds (ms ++ ns) (cs ++ ds) (rs ++ qs) (str_append s t)
Holds-append ms ns cs ds rs qs s t h k = record {
  same_calls =
      calls-append ms ∙ ap (λ l. l ++ calls_in ns) h.same_calls ∙ ap (λ l. cs ++ l) k.same_calls;
  same_results =
      results-append ms
      ∙ ap (λ l. l ++ results_in ns) h.same_results
      ∙ ap (λ l. rs ++ l) k.same_results;
  same_text =
      text-append ms
      ∙ ap (λ l. str_append l (text_in ns)) h.same_text
      ∙ ap (λ l. str_append s l) k.same_text;
}
  where
    calls-append : (ms : List ChatInput) → calls_in (ms ++ ns) ≡ calls_in ms ++ calls_in ns
    calls-append [] = refl
    calls-append (m ∷ ms) =
        ap (λ l. calls_of m ++ l) (calls-append ms)
        ∙ sym (append_assoc (calls_of m) (calls_in ms) (calls_in ns))

    results-append : (ms : List ChatInput) → results_in (ms ++ ns) ≡ results_in ms ++ results_in ns
    results-append [] = refl
    results-append (m ∷ ms) =
        ap (λ l. results_of m ++ l) (results-append ms)
        ∙ sym (append_assoc (results_of m) (results_in ms) (results_in ns))

    text-append : (ms : List ChatInput) → text_in (ms ++ ns) ≡ str_append (text_in ms) (text_in ns)
    text-append [] = sym (str_nil-append (text_in ns))
    text-append (m ∷ ms) =
        ap (λ l. str_append (text_of m) l) (text-append ms)
        ∙ sym (str_append_assoc (text_of m) (text_in ms) (text_in ns))

pub Holds-tools : (rs : List ToolResult) → Holds (map tool rs) [] rs ""
Holds-tools [] = record { same_calls = refl; same_results = refl; same_text = refl }
Holds-tools (r ∷ rs) = record {
  same_calls = (Holds-tools rs).same_calls;
  same_results = ap (λ l. r ∷ l) (Holds-tools rs).same_results;
  same_text = str_nil-append (text_in (map tool rs)) ∙ (Holds-tools rs).same_text;
}
