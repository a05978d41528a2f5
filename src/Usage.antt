-- ===== src/Usage.antt =====
-- internal/gateway/usage.go, and the usage blocks of internal/gateway/sse.go: how the token counts of
-- a request are gathered, and the buffer of usage events.
--
-- The counts that an upstream reports are any integers. A total starts at 0 and only grows, so it is a
-- natural number. An event's content plays no part. Each method of the buffer holds the mutex for its
-- whole body.
pub mod Totals
pub mod Buffer
mod Examples
use nano_llm_proxy.Prelude.{
  ℕ, zero, suc, ◌+◌, ◌-◌, Option, none, some, List, [], ◌∷◌, ◌++◌, ltb, leb, if◌then◌else◌, Bool,
  true, false, drop, length, ℤ, pos, negsuc,
}

pub record TokenUsage : Type 0 where
  -- the total prompt, with the cache hits
  pub input : ℕ
  pub output : ℕ
  pub cached : ℕ

-- tokenUsage{}
abbrev pub no_usage : TokenUsage
no_usage = record { input = 0; output = 0; cached = 0 }

-- if v > t { t = v }
abbrev pub larger : ℤ → ℕ → ℕ
larger (pos v) t = if ltb t v then v else t
larger (negsuc v) t = t

unfoldable pub add : TokenUsage → ℤ → ℤ → TokenUsage
add t input output = record t { input = larger input t.input; output = larger output t.output }

unfoldable pub add_cached : TokenUsage → ℤ → TokenUsage
add_cached t cached = record t { cached = larger cached t.cached }

-- the block of a /v1/messages response; `-` stops at 0, as the code does
pub record AnthropicUsage : Type 0 where
  pub input_tokens : ℕ
  pub cache_read_input_tokens : ℕ
  pub cache_creation_input_tokens : ℕ
  pub output_tokens : Option ℕ

unfoldable pub anthropic_usage : TokenUsage → Bool → AnthropicUsage
anthropic_usage t with_output = record {
  input_tokens = t.input - t.cached;
  cache_read_input_tokens = t.cached;
  cache_creation_input_tokens = 0;
  output_tokens = if with_output then some t.output else none;
}

pub record ChatUsage : Type 0 where
  pub prompt_tokens : ℕ
  pub completion_tokens : ℕ
  pub total_tokens : ℕ
  pub cached_tokens : ℕ

unfoldable pub chat_usage : TokenUsage → ChatUsage
chat_usage t = record {
  prompt_tokens = t.input;
  completion_tokens = t.output;
  total_tokens = t.input + t.output;
  cached_tokens = t.cached;
}

-- the usage block of the Responses API; `none` for details that are missing
pub record ResponsesUsage : Type 0 where
  pub input_tokens : ℤ
  pub output_tokens : ℤ
  pub input_details : Option ℤ

pub record ChunkUsage : Type 0 where
  pub prompt_tokens : ℤ
  pub completion_tokens : ℤ
  pub input_tokens : ℤ
  pub output_tokens : ℤ
  pub prompt_details : Option ℤ
  pub input_details : Option ℤ

-- `response` is the usage of the response, if there is a response with one
pub record UsageChunk : Type 0 where
  pub usage : Option ChunkUsage
  pub response : Option ResponsesUsage

-- if d != nil { t.addCached(…) }
add_details : TokenUsage → Option ℤ → TokenUsage
unfolding add_cached
add_details t none = t
add_details t (some cached) = add_cached t cached

-- responsesUsage.into; `none` is nil
pub responses_into : Option ResponsesUsage → TokenUsage → TokenUsage
unfolding add add_details
responses_into none t = t
responses_into (some u) t = add_details (add t u.input_tokens u.output_tokens) u.input_details

-- if in == 0 { in = other }
abbrev pub or_other : ℤ → ℤ → ℤ
or_other (pos zero) other = other
or_other (pos (suc n)) other = pos (suc n)
or_other (negsuc n) other = negsuc n

usage_into : Option ChunkUsage → TokenUsage → TokenUsage
unfolding add add_details
usage_into none t = t
usage_into (some u) t =
    let input = or_other u.prompt_tokens u.input_tokens in
    let output = or_other u.completion_tokens u.output_tokens in
    add_details (add_details (add t input output) u.prompt_details) u.input_details

-- usageChunk.into
unfoldable pub chunk_into : UsageChunk → TokenUsage → TokenUsage
unfolding responses_into usage_into
chunk_into u t = usage_into u.usage (responses_into u.response t)

abbrev pub usage_buffer_max : ℕ
usage_buffer_max = 4096

module _ {ℓ} {A : Type ℓ} where
  -- usageBuffer.add: at the bound the oldest event goes
  pub buffer_add : List A → A → List A
  buffer_add events e =
      if leb usage_buffer_max (length events) then drop 1 events ++ e ∷ [] else events ++ e ∷ []

  -- usageBuffer.drain: what was in the buffer, and the empty buffer
  pub buffer_drain : List A → List A × List A
  buffer_drain events = (events, [])
