-- ===== src/Outbound/Contents.antt =====
-- What the blocks of Anthropic messages and the messages of a chat request hold: tool calls, tool
-- results and text.
use text.Mathlib.TextLemmas.{append_assoc as str_append_assoc, nil-append as str_nil-append}
use nano_llm_proxy.Prelude.{
  ◌≡◌, refl, sym, ap, ◌∙◌, Option, none, some, List, [], ◌∷◌, ◌++◌, append_assoc, if◌then◌else◌,
  String, str_eq, str_append,
}
use nano_llm_proxy.Json.{
  Json, null, str, arr, obj, end, Fields, get_field, elements, as_string, as_object, as_fields,
  as_array,
}
use nano_llm_proxy.Outbound.{ContentBlock, text_part, tool_use_part, tool_result}

-- The id, the name and the input of a call.
abbrev pub Use : Type 0
Use = String × (String × Json)

abbrev pub uses_of : ContentBlock → List Use
uses_of (tool_use_part id name input) = (id, (name, input)) ∷ []
uses_of _ = []

-- The id and the text of a result.
abbrev pub results_of : ContentBlock → List (String × String)
results_of (tool_result id text) = (id, text) ∷ []
results_of _ = []

abbrev pub text_of : ContentBlock → String
text_of (text_part s) = s
text_of _ = ""

abbrev pub uses_in : List ContentBlock → List Use
uses_in [] = []
uses_in (b ∷ bs) = uses_of b ++ uses_in bs

abbrev pub results_in : List ContentBlock → List (String × String)
results_in [] = []
results_in (b ∷ bs) = results_of b ++ results_in bs

abbrev pub text_in : List ContentBlock → String
text_in [] = ""
text_in (b ∷ bs) = str_append (text_of b) (text_in bs)

-- The text of a message's content: itself, or that of its parts of type "text".
abbrev pub typed_text : Option Fields → String
typed_text none = ""
typed_text (some p) =
    if str_eq (as_string (get_field p "type")) "text" then as_string (get_field p "text") else ""

abbrev pub texts_of : List Json → String
texts_of [] = ""
texts_of (p ∷ ps) = str_append (typed_text (as_object p)) (texts_of ps)

abbrev pub content_text : Json → String
content_text (str s) = s
content_text (arr ps) = texts_of (elements ps)
content_text _ = ""

-- What the arguments of a call say; an empty object if nothing.
abbrev pub arguments_of : Option Json → Json
arguments_of none = obj end
arguments_of (some null) = obj end
arguments_of (some v) = v

abbrev pub role_of : Fields → String
role_of m = as_string (get_field m "role")

module _ (unmarshal : String → Option Json) where
  abbrev pub call_uses : Option Fields → List Use
  call_uses none = []
  call_uses (some call) =
      let fn = as_fields (get_field call "function") in
      (
        as_string (get_field call "id"),
        (
          as_string (get_field fn "name"),
          arguments_of (unmarshal (as_string (get_field fn "arguments"))),
        ),
      )
      ∷ []

  abbrev pub calls_uses : List Json → List Use
  calls_uses [] = []
  calls_uses (call ∷ calls) = call_uses (as_object call) ++ calls_uses calls

  abbrev pub message_uses : Option Fields → List Use
  message_uses none = []
  message_uses (some m) =
      if str_eq (role_of m) "assistant"
      then calls_uses (as_array (get_field m "tool_calls"))
      else []

  abbrev pub all_uses : List Json → List Use
  all_uses [] = []
  all_uses (m ∷ ms) = message_uses (as_object m) ++ all_uses ms

abbrev pub message_results : Option Fields → List (String × String)
message_results none = []
message_results (some m) =
    if str_eq (role_of m) "tool"
    then (as_string (get_field m "tool_call_id"), content_text (get_field m "content")) ∷ []
    else []

abbrev pub all_results : List Json → List (String × String)
all_results [] = []
all_results (m ∷ ms) = message_results (as_object m) ++ all_results ms

-- The text of an assistant's message counts only if its content is a text.
abbrev pub message_text : Option Fields → String
message_text none = ""
message_text (some m) =
    if str_eq (role_of m) "user"
    then content_text (get_field m "content")
    else if str_eq (role_of m) "assistant"
    then as_string (get_field m "content")
    else ""

abbrev pub all_text : List Json → String
all_text [] = ""
all_text (m ∷ ms) = str_append (message_text (as_object m)) (all_text ms)

-- The blocks hold just these calls, results and text.
pub record Holds (bs : List ContentBlock) (uses : List Use) (results : List (String × String))
    (text : String) : Type 0 where
  pub same_uses : uses_in bs ≡ uses
  pub same_results : results_in bs ≡ results
  pub same_text : text_in bs ≡ text

pub Holds-append :
    (bs ds : List ContentBlock) (us vs : List Use) (rs qs : List (String × String)) (s t : String)
    → Holds bs us rs s
    → Holds ds vs qs t
    → Holds (bs ++ ds) (us ++ vs) (rs ++ qs) (str_append s t)
Holds-append bs ds us vs rs qs s t h k = record {
  same_uses =
      uses-append bs ∙ ap (λ l. l ++ uses_in ds) h.same_uses ∙ ap (λ l. us ++ l) k.same_uses;
  same_results =
      results-append bs
      ∙ ap (λ l. l ++ results_in ds) h.same_results
      ∙ ap (λ l. rs ++ l) k.same_results;
  same_text =
      text-append bs
      ∙ ap (λ l. str_append l (text_in ds)) h.same_text
      ∙ ap (λ l. str_append s l) k.same_text;
}
  where
    uses-append : (bs : List ContentBlock) → uses_in (bs ++ ds) ≡ uses_in bs ++ uses_in ds
    uses-append [] = refl
    uses-append (b ∷ bs) =
        ap (λ l. uses_of b ++ l) (uses-append bs)
        ∙ sym (append_assoc (uses_of b) (uses_in bs) (uses_in ds))

    results-append :
        (bs : List ContentBlock) → results_in (bs ++ ds) ≡ results_in bs ++ results_in ds
    results-append [] = refl
    results-append (b ∷ bs) =
        ap (λ l. results_of b ++ l) (results-append bs)
        ∙ sym (append_assoc (results_of b) (results_in bs) (results_in ds))

    text-append :
        (bs : List ContentBlock) → text_in (bs ++ ds) ≡ str_append (text_in bs) (text_in ds)
    text-append [] = sym (str_nil-append (text_in ds))
    text-append (b ∷ bs) =
        ap (λ l. str_append (text_of b) l) (text-append bs)
        ∙ sym (str_append_assoc (text_of b) (text_in bs) (text_in ds))
