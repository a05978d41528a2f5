-- ===== src/Outbound/Examples.antt =====
-- A question, a tool call with its result, and a second question.
use nano_llm_proxy.Prelude.{◌≡◌, refl, false, Option, none, List, [], ◌∷◌, String, map, All}
use nano_llm_proxy.Json.{Json, str, arr, obj, nil, cons, Fields, end, field, get_field, as_array}
use nano_llm_proxy.Outbound.{AnthropicMessage, tool_calls_to_use_blocks}
use nano_llm_proxy.Outbound.Requests.{
  chat_messages, chat_to_anthropic_body, converse, user_message, tool_message,
}
use nano_llm_proxy.Outbound.Blocks.{all_blocks}
use nano_llm_proxy.Outbound.Contents.{Holds, all_uses, all_results, all_text}
use nano_llm_proxy.Outbound.Kept.{chat_to_anthropic_body-Holds}
use nano_llm_proxy.Outbound.Alternation.{Roles, Alternates, chat_to_anthropic_body-Alternates}

abbrev unmarshal : String → Option Json
unmarshal s = none

abbrev said_by : String → String → Json
said_by role text = obj (field "role" (str role) (field "content" (str text) end))

abbrev calling : Json
calling = obj (
    field "role" (str "assistant") (
      field "tool_calls"
        (arr (
          cons
            (obj
              (field "id" (str "c1") (field "function" (obj (field "name" (str "look") end)) end)))
            nil))
        end))

abbrev result : Json
result =
    obj
      (field "role" (str "tool") (field "tool_call_id" (str "c1") (field "content" (str "3") end)))

abbrev chat : Fields
chat =
    field "messages"
      (arr (
        cons (said_by "user" "How many?")
          (cons calling (cons result (cons (said_by "user" "And now?") nil)))))
      end

chat_to_anthropic_body-Holds_example :
    let ms = as_array (get_field chat "messages") in
    Holds
      (all_blocks (chat_to_anthropic_body unmarshal chat false).messages)
      (all_uses unmarshal ms)
      (all_results ms)
      (all_text ms)
chat_to_anthropic_body-Holds_example = chat_to_anthropic_body-Holds unmarshal chat false

chat_to_anthropic_body-Alternates_example :
    let messages = (chat_to_anthropic_body unmarshal chat false).messages in
    All Roles messages × Alternates messages
unfolding chat_messages tool_calls_to_use_blocks
chat_to_anthropic_body-Alternates_example =
    chat_to_anthropic_body-Alternates unmarshal chat false (tt, (tt, (refl, (tt, tt))))

abbrev roles : List AnthropicMessage → List String
roles = map (λ (m : AnthropicMessage). m.role)

three_messages :
    roles (chat_to_anthropic_body unmarshal chat false).messages
    ≡ "user" ∷ "assistant" ∷ "user" ∷ []
unfolding chat_to_anthropic_body tool_calls_to_use_blocks
three_messages = refl

-- A result right after a user's message makes two user messages in a row.
two_users :
    roles (converse (user_message [] ∷ tool_message "c1" "3" ∷ [])).msgs ≡ "user" ∷ "user" ∷ []
unfolding converse
two_users = refl
