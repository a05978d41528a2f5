-- ===== src/Replies/Examples.antt =====
-- An answer with a text, a tool call and cache hits.
use nano_llm_proxy.Prelude.{◌≡◌, refl, Option, some, [], String, pos, arith}
use nano_llm_proxy.Json.{Json, num, str, arr, obj, nil, cons, Fields, end, field}
use nano_llm_proxy.Replies.{usage_from_chat_json}
use nano_llm_proxy.Replies.RoundTrip.{there_and_back, there_and_back_lem, kept_completion}

abbrev input : Json
input = obj (field "q" (str "weather") end)

abbrev unmarshal : String → Option Json
unmarshal s = some input

abbrev marshal : Json → Option String
marshal v = some "{\"q\":\"weather\"}"

abbrev find_call : Json
find_call = obj (
    field "id" (str "c1") (
      field "function"
        (obj (field "name" (str "find") (field "arguments" (str "{ \"q\": \"weather\" }") end)))
        end))

abbrev message : Fields
message = field "content" (str "Let me see.") (field "tool_calls" (arr (cons find_call nil)) end)

abbrev choice : Fields
choice = field "message" (obj message) (field "finish_reason" (str "tool_calls") end)

abbrev usage : Fields
usage = field "prompt_tokens" (num (pos 1000) 0) (
    field "completion_tokens" (num (pos 15) 0)
      (field "prompt_tokens_details" (obj (field "cached_tokens" (num (pos 900) 0) end)) end))

abbrev chat : Fields
chat =
    field "id" (str "x")
      (field "choices" (arr (cons (obj choice) nil)) (field "usage" (obj usage) end))

usage_from_chat_json-test :
    usage_from_chat_json chat ≡ record { input = 1000; output = 15; cached = 900 }
unfolding usage_from_chat_json
usage_from_chat_json-test = refl

there_and_back_lem_example :
    there_and_back unmarshal marshal chat "glm" "glm"
    ≡ some (kept_completion unmarshal marshal chat "glm" choice message)
unfolding usage_from_chat_json
there_and_back_lem_example =
    there_and_back_lem unmarshal marshal chat "glm" "glm" choice message (([], refl), refl)
      (omega arith) (omega arith)
