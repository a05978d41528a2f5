-- ===== src/Inbound/Examples.antt =====
-- A question, a call of a tool with an image beside it, and the result with a further question.
use nano_llm_proxy.Prelude.{◌≡◌, refl, Option, some, [], ◌∷◌, String, str_append}
use nano_llm_proxy.Json.{Json, str, arr, obj, nil, cons, Fields, end, field, get_field, as_array}
use nano_llm_proxy.Inbound.{text_part, spoken, parted, called, tool, convert_anthropic_message}
use nano_llm_proxy.Inbound.Bodies.{anthropic_to_chat_body}
use nano_llm_proxy.Inbound.Contents.{Holds, all_calls, all_results, all_text, content_text}
use nano_llm_proxy.Inbound.Kept.{anthropic_to_chat_body-Holds}

abbrev marshal : Json → Option String
marshal v = some "{}"

abbrev text_block : String → Json
text_block s = obj (field "type" (str "text") (field "text" (str s) end))

abbrev image_block : Json
image_block = obj (
    field "type" (str "image")
      (field "source" (obj (field "type" (str "url") (field "url" (str "http://x") end))) end))

abbrev use_block : Json
use_block = obj (
    field "type" (str "tool_use")
      (field "id" (str "c1") (field "name" (str "look") (field "input" (obj end) end))))

abbrev result_block : Json
result_block = obj (
    field "type" (str "tool_result")
      (field "tool_use_id" (str "c1") (field "content" (arr (cons (text_block "3") nil)) end)))

abbrev message : String → Json → Json
message role content = obj (field "role" (str role) (field "content" content end))

abbrev req : Fields
req = field "system" (str "Be brief.") (
    field "messages"
      (arr (
        cons (message "user" (str "How many?")) (
          cons
            (message "assistant"
              (arr (cons (text_block "I look.") (cons image_block (cons use_block nil)))))
            (cons (message "user" (arr (cons (text_block "And now?") (cons result_block nil))))
              nil))))
      end)

-- The image beside the call is lost; the result comes before the text that stood before it.
messages-test :
    (anthropic_to_chat_body marshal req).messages
    ≡ spoken "system" "Be brief."
      ∷ spoken "user" "How many?"
      ∷ called "I look." (record { id = "c1"; name = "look"; arguments = "{}" } ∷ [])
      ∷ tool (record { tool_call_id = "c1"; content = "3" })
      ∷ parted "user" (text_part (str "And now?") ∷ [])
      ∷ []
unfolding anthropic_to_chat_body convert_anthropic_message
messages-test = refl

anthropic_to_chat_body-Holds_example :
    (let ms = as_array (get_field req "messages") in
      Holds
        (anthropic_to_chat_body marshal req).messages
        (all_calls marshal ms)
        (all_results marshal ms)
        (str_append (content_text (get_field req "system")) (all_text ms)))
anthropic_to_chat_body-Holds_example = anthropic_to_chat_body-Holds marshal req
