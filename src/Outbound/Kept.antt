-- ===== src/Outbound/Kept.antt =====
-- What the translation of a chat request keeps of its messages.
use text.Mathlib.TextLemmas.{append-nil as str_append-nil}
use nano_llm_proxy.Prelude.{
  ◌≡◌, refl, ap, ◌∙◌, inl, inr, Bool, Bool-cases, Option, none, some, Option-cases, List, [], ◌∷◌,
  ◌++◌, String, str_eq, str_append, eq_iff,
}
use nano_llm_proxy.Json.{
  Json, null, str, arr, obj, Fields, get_field, elements, as_string, as_object, as_array, as_fields,
}
use nano_llm_proxy.Outbound.{
  parts_text, chat_content_text, data_url_to_base64, is_remote, image_blocks, user_block,
  user_blocks_of, text_blocks, chat_user_blocks, input_of, use_block, tool_calls_to_use_blocks,
}
use nano_llm_proxy.Outbound.Requests.{chat_message, chat_messages, chat_to_anthropic_body}
use nano_llm_proxy.Outbound.Blocks.{all_blocks, blocks_of, blocks_in, chat_to_anthropic_body-blocks}
use nano_llm_proxy.Outbound.Contents.{
  typed_text, texts_of, content_text, arguments_of, role_of, call_uses, calls_uses, message_uses,
  all_uses, message_results, all_results, message_text, all_text, uses_in, results_in, text_in,
  Holds, Holds-append,
}

Holds-none : Holds [] [] [] ""
Holds-none = record { same_uses = refl; same_results = refl; same_text = refl }

Holds-text : (s : String) → Holds (text_blocks s) [] [] s
Holds-text s = elim (Bool-cases (str_eq s "")) [
  | inl e ↦ rw ((eq_iff s "").0 e) Holds-none
  | inr e ↦ rw e (record { same_uses = refl; same_results = refl; same_text = str_append-nil s })
]

image_blocks-Holds : (u : String) → Holds (image_blocks u) [] [] ""
unfolding image_blocks
image_blocks-Holds u = elim (Option-cases (data_url_to_base64 u)) [
  | inr ((media, data_text), e) ↦
      rw (image_blocks, e) (record { same_uses = refl; same_results = refl; same_text = refl })
  | inl e ↦ elim (Bool-cases (is_remote u)) [
    | inl r ↦
        rw (image_blocks, e, r) (record { same_uses = refl; same_results = refl; same_text = refl })
    | inr r ↦ rw (image_blocks, e, r) Holds-none
  ]
]

user_block-Holds : (o : Option Fields) → Holds (user_block o) [] [] (typed_text o)
unfolding user_block
user_block-Holds none = Holds-none
user_block-Holds (some p) =
    let t = as_string (get_field p "type") in
    let s = as_string (get_field p "text") in
    elim (Bool-cases (str_eq t "text")) [
      | inl e ↦
          rw e (record { same_uses = refl; same_results = refl; same_text = str_append-nil s })
      | inr e ↦ elim (Bool-cases (str_eq t "image_url")) [
        | inl i ↦
            rw (e, i)
              (image_blocks-Holds
                (as_string (get_field (as_fields (get_field p "image_url")) "url")))
        | inr i ↦ rw (e, i) Holds-none
      ]
    ]

user_blocks_of-Holds : (ps : List Json) → Holds (user_blocks_of ps) [] [] (texts_of ps)
unfolding user_blocks_of
user_blocks_of-Holds [] = Holds-none
user_blocks_of-Holds (p ∷ ps) =
    Holds-append (user_block (as_object p)) (user_blocks_of ps) [] [] [] []
      (typed_text (as_object p)) (texts_of ps) (user_block-Holds (as_object p))
      (user_blocks_of-Holds ps)

chat_user_blocks-Holds : (v : Json) → Holds (chat_user_blocks v) [] [] (content_text v)
unfolding chat_user_blocks
chat_user_blocks-Holds (str s) = Holds-text s
chat_user_blocks-Holds (arr ps) = user_blocks_of-Holds (elements ps)
chat_user_blocks-Holds null = Holds-none
chat_user_blocks-Holds (Json.bool b) = Holds-none
chat_user_blocks-Holds (Json.num n r) = Holds-none
chat_user_blocks-Holds (obj fs) = Holds-none

parts_text-texts_of : (ps : List Json) → parts_text ps ≡ texts_of ps
unfolding parts_text
parts_text-texts_of [] = refl
parts_text-texts_of (p ∷ ps) =
    ap (λ l. str_append (typed_text (as_object p)) l) (parts_text-texts_of ps)

chat_content_text-content_text : (v : Json) → chat_content_text v ≡ content_text v
unfolding chat_content_text
chat_content_text-content_text (str s) = refl
chat_content_text-content_text (arr ps) = parts_text-texts_of (elements ps)
chat_content_text-content_text null = refl
chat_content_text-content_text (Json.bool b) = refl
chat_content_text-content_text (Json.num n r) = refl
chat_content_text-content_text (obj fs) = refl

module _ (unmarshal : String → Option Json) where
  input_of-arguments_of : (o : Option Json) → input_of unmarshal o ≡ arguments_of o
  input_of-arguments_of none = refl
  input_of-arguments_of (some null) = refl
  input_of-arguments_of (some (str s)) = refl
  input_of-arguments_of (some (arr ps)) = refl
  input_of-arguments_of (some (Json.bool b)) = refl
  input_of-arguments_of (some (Json.num n r)) = refl
  input_of-arguments_of (some (obj fs)) = refl

  use_block-Holds :
      (o : Option Fields) → Holds (use_block unmarshal o) (call_uses unmarshal o) [] ""
  use_block-Holds none = Holds-none
  use_block-Holds (some call) =
      let fn = as_fields (get_field call "function") in
      record {
        same_uses =
            ap (λ v. (as_string (get_field call "id"), (as_string (get_field fn "name"), v)) ∷ [])
              (input_of-arguments_of (unmarshal (as_string (get_field fn "arguments"))));
        same_results = refl;
        same_text = refl;
      }

  calls-Holds :
      (calls : List Json)
      → Holds (tool_calls_to_use_blocks unmarshal calls) (calls_uses unmarshal calls) [] ""
  unfolding tool_calls_to_use_blocks
  calls-Holds [] = Holds-none
  calls-Holds (call ∷ calls) =
      let o = as_object call in
      Holds-append (use_block unmarshal o) (tool_calls_to_use_blocks unmarshal calls)
        (call_uses unmarshal o) (calls_uses unmarshal calls) [] [] "" "" (use_block-Holds o)
        (calls-Holds calls)

  assistant-Holds :
      (s : String) (calls : List Json)
      → Holds
          (text_blocks s ++ tool_calls_to_use_blocks unmarshal calls)
          (calls_uses unmarshal calls)
          []
          s
  assistant-Holds s calls =
      let h =
        Holds-append (text_blocks s) (tool_calls_to_use_blocks unmarshal calls) []
          (calls_uses unmarshal calls) [] [] s "" (Holds-text s) (calls-Holds calls) in
      record {
        same_uses = h.same_uses;
        same_results = h.same_results;
        same_text = h.same_text ∙ str_append-nil s;
      }

  chat_message-Holds :
      (o : Option Fields)
      → Holds
          (blocks_of (chat_message unmarshal o))
          (message_uses unmarshal o)
          (message_results o)
          (message_text o)
  unfolding chat_message
  chat_message-Holds none = Holds-none
  chat_message-Holds (some m) =
      let role = role_of m in
      let content = get_field m "content" in
      elim (Bool-cases (str_eq role "system")) [
        | inl e ↦ let q = (eq_iff role "system").0 e in rw q Holds-none
        | inr s ↦ elim (Bool-cases (str_eq role "developer")) [
          | inl e ↦ let q = (eq_iff role "developer").0 e in rw q Holds-none
          | inr d ↦ elim (Bool-cases (str_eq role "user")) [
            | inl e ↦ let q = (eq_iff role "user").0 e in rw q (chat_user_blocks-Holds content)
            | inr u ↦ elim (Bool-cases (str_eq role "assistant")) [
              | inl e ↦
                  let q = (eq_iff role "assistant").0 e in
                  rw q (assistant-Holds (as_string content) (as_array (get_field m "tool_calls")))
              | inr a ↦ elim (Bool-cases (str_eq role "tool")) [
                | inl e ↦
                    let q = (eq_iff role "tool").0 e in
                    rw q (record {
                      same_uses = refl;
                      same_results =
                          ap (λ t. (as_string (get_field m "tool_call_id"), t) ∷ [])
                            (chat_content_text-content_text content);
                      same_text = refl;
                    })
                | inr t ↦ rw (s, d, u, a, t) Holds-none
              ]
            ]
          ]
        ]
      ]

  chat_messages-Holds :
      (ms : List Json)
      → Holds
          (blocks_in (chat_messages unmarshal ms))
          (all_uses unmarshal ms)
          (all_results ms)
          (all_text ms)
  unfolding chat_messages
  chat_messages-Holds [] = Holds-none
  chat_messages-Holds (m ∷ ms) =
      let o = as_object m in
      Holds-append (blocks_of (chat_message unmarshal o)) (blocks_in (chat_messages unmarshal ms))
        (message_uses unmarshal o) (all_uses unmarshal ms) (message_results o) (all_results ms)
        (message_text o) (all_text ms) (chat_message-Holds o) (chat_messages-Holds ms)

  -- The messages of the translated request hold, each in its order and no others: the tool calls of all
  -- assistant messages, with their ids, names and parsed arguments; the results of all tool messages,
  -- with their ids and texts; and the text of the user's and the assistant's messages, of the latter
  -- only where their content is a text. This is so however messages of one role are merged and tool
  -- results grouped.
  pub chat_to_anthropic_body-Holds :
      (chat : Fields) (stream : Bool)
      → let ms = as_array (get_field chat "messages") in
        Holds
          (all_blocks (chat_to_anthropic_body unmarshal chat stream).messages)
          (all_uses unmarshal ms)
          (all_results ms)
          (all_text ms)
  chat_to_anthropic_body-Holds chat stream =
      let ms = as_array (get_field chat "messages") in
      let same = chat_to_anthropic_body-blocks unmarshal chat stream in
      let h = chat_messages-Holds ms in
      record {
        same_uses = ap uses_in same ∙ h.same_uses;
        same_results = ap results_in same ∙ h.same_results;
        same_text = ap text_in same ∙ h.same_text;
      }
