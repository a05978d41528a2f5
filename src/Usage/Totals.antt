-- ===== src/Usage/Totals.antt =====
-- The totals of a request are the largest counts that its chunks report.
use nano_llm_proxy.Prelude.{
  ℕ, ◌≡◌, refl, sym, ap, ◌∙◌, max, Option, none, some, List, [], ◌∷◌, ◌++◌, append-nil, ltb,
  if◌then◌else◌, ℤ, zero, suc, pos, negsuc, arith,
}
use nano_llm_proxy.Usage.{
  TokenUsage, larger, add, add_cached, ResponsesUsage, ChunkUsage, UsageChunk, chunk_into,
  responses_into, usage_into, add_details, or_other,
}

-- usageChunk.into on the chunks of a stream, in order
unfoldable pub into_all : List UsageChunk → TokenUsage → TokenUsage
unfolding chunk_into
into_all [] t = t
into_all (u ∷ us) t = into_all us (chunk_into u t)

-- The largest of the counts and of `least`.
abbrev pub maximum : List ℤ → ℕ → ℕ
maximum [] least = least
maximum (pos n ∷ ns) least = maximum ns (max least n)
maximum (negsuc n ∷ ns) least = maximum ns least

abbrev counts : Option ℤ → List ℤ
counts none = []
counts (some n) = n ∷ []

abbrev response_inputs : Option ResponsesUsage → List ℤ
response_inputs none = []
response_inputs (some r) = r.input_tokens ∷ []

abbrev response_outputs : Option ResponsesUsage → List ℤ
response_outputs none = []
response_outputs (some r) = r.output_tokens ∷ []

abbrev response_cached : Option ResponsesUsage → List ℤ
response_cached none = []
response_cached (some r) = counts r.input_details

-- The first of the spellings whose count is not zero, zero if there is none.
abbrev first_spelling : List ℤ → ℤ
first_spelling [] = pos 0
first_spelling (pos zero ∷ vs) = first_spelling vs
first_spelling (pos (suc n) ∷ vs) = pos (suc n)
first_spelling (negsuc n ∷ vs) = negsuc n

or_other-first_spelling : (v w : ℤ) → or_other v w ≡ first_spelling (v ∷ w ∷ [])
or_other-first_spelling (pos zero) (pos zero) = refl
or_other-first_spelling (pos zero) (pos (suc n)) = refl
or_other-first_spelling (pos zero) (negsuc n) = refl
or_other-first_spelling (pos (suc m)) w = refl
or_other-first_spelling (negsuc m) w = refl

abbrev usage_inputs : Option ChunkUsage → List ℤ
usage_inputs none = []
usage_inputs (some c) = first_spelling (c.prompt_tokens ∷ c.input_tokens ∷ []) ∷ []

abbrev usage_outputs : Option ChunkUsage → List ℤ
usage_outputs none = []
usage_outputs (some c) = first_spelling (c.completion_tokens ∷ c.output_tokens ∷ []) ∷ []

abbrev usage_cached : Option ChunkUsage → List ℤ
usage_cached none = []
usage_cached (some c) = counts c.prompt_details ++ counts c.input_details

-- The counts that a chunk reports: of the prompt, of the output and of cache hits.
abbrev pub inputs_of : UsageChunk → List ℤ
inputs_of u = response_inputs u.response ++ usage_inputs u.usage

abbrev pub outputs_of : UsageChunk → List ℤ
outputs_of u = response_outputs u.response ++ usage_outputs u.usage

abbrev pub cached_of : UsageChunk → List ℤ
cached_of u = response_cached u.response ++ usage_cached u.usage

abbrev pub each : (UsageChunk → List ℤ) → List UsageChunk → List ℤ
each f [] = []
each f (u ∷ us) = f u ++ each f us

larger_max : (v : ℤ) (ns : List ℤ) (t : ℕ) → maximum (v ∷ ns) t ≡ maximum ns (larger v t)
larger_max (pos n) ns t = let e : max t n ≡ (if ltb t n then n else t) = ground arith in rw e refl
larger_max (negsuc n) ns t = refl

maximum-append : (ms ns : List ℤ) (t : ℕ) → maximum (ms ++ ns) t ≡ maximum ns (maximum ms t)
maximum-append [] ns t = refl
maximum-append (pos m ∷ ms) ns t = maximum-append ms ns (max t m)
maximum-append (negsuc m ∷ ms) ns t = maximum-append ms ns t

-- The three totals after `u` are the largest of what it reports.
record Gathers (u : UsageChunk) (t t' : TokenUsage) : Type 0 where
  input : t'.input ≡ maximum (inputs_of u) t.input
  output : t'.output ≡ maximum (outputs_of u) t.output
  cached : t'.cached ≡ maximum (cached_of u) t.cached

detail_cached :
    (d : Option ℤ) (t : TokenUsage) → (add_details t d).cached ≡ maximum (counts d) t.cached
unfolding add_details add_cached
detail_cached none t = refl
detail_cached (some v) t = sym (larger_max v [] t.cached)

detail_input : (d : Option ℤ) (t : TokenUsage) → (add_details t d).input ≡ t.input
unfolding add_details add_cached
detail_input none t = refl
detail_input (some v) t = refl

detail_output : (d : Option ℤ) (t : TokenUsage) → (add_details t d).output ≡ t.output
unfolding add_details add_cached
detail_output none t = refl
detail_output (some v) t = refl

abbrev just_usage : Option ChunkUsage → UsageChunk
just_usage c = record { usage = c; response = none }

abbrev just_response : Option ResponsesUsage → UsageChunk
just_response r = record { usage = none; response = r }

responses_into-Gathers :
    (r : Option ResponsesUsage) (t : TokenUsage) → Gathers (just_response r) t (responses_into r t)
unfolding responses_into add
responses_into-Gathers none t = record { input = refl; output = refl; cached = refl }
responses_into-Gathers (some r) t =
    let t' = add t r.input_tokens r.output_tokens in
    record {
      input = detail_input r.input_details t' ∙ sym (larger_max r.input_tokens [] t.input);
      output = detail_output r.input_details t' ∙ sym (larger_max r.output_tokens [] t.output);
      cached =
          detail_cached r.input_details t'
          ∙ ap (λ ns. maximum ns t.cached) (sym (append-nil (counts r.input_details)));
    }

usage_into-Gathers :
    (c : Option ChunkUsage) (t : TokenUsage) → Gathers (just_usage c) t (usage_into c t)
unfolding usage_into add
usage_into-Gathers none t = record { input = refl; output = refl; cached = refl }
usage_into-Gathers (some c) t =
    let input = or_other c.prompt_tokens c.input_tokens in
    let output = or_other c.completion_tokens c.output_tokens in
    let t' = add t input output in
    let t'' = add_details t' c.prompt_details in
    record {
      input =
          detail_input c.input_details t''
          ∙ detail_input c.prompt_details t'
          ∙ sym (larger_max input [] t.input)
          ∙ ap (λ v. maximum (v ∷ []) t.input)
              (or_other-first_spelling c.prompt_tokens c.input_tokens);
      output =
          detail_output c.input_details t''
          ∙ detail_output c.prompt_details t'
          ∙ sym (larger_max output [] t.output)
          ∙ ap (λ v. maximum (v ∷ []) t.output)
              (or_other-first_spelling c.completion_tokens c.output_tokens);
      cached =
          detail_cached c.input_details t''
          ∙ ap (maximum (counts c.input_details)) (detail_cached c.prompt_details t')
          ∙ sym (maximum-append (counts c.prompt_details) (counts c.input_details) t.cached);
    }

-- first the response's counts, then the chunk's own
maximum_both :
    (ms ns : List ℤ) (t t' t'' : ℕ)
    → t' ≡ maximum (ms ++ []) t
    → t'' ≡ maximum ns t'
    → t'' ≡ maximum (ms ++ ns) t
maximum_both ms ns t t' t'' first second =
    second
    ∙ ap (maximum ns) (first ∙ ap (λ l. maximum l t) (append-nil ms))
    ∙ sym (maximum-append ms ns t)

chunk_into-Gathers : (u : UsageChunk) (t : TokenUsage) → Gathers u t (chunk_into u t)
unfolding chunk_into
chunk_into-Gathers u t =
    let r = responses_into-Gathers u.response t in
    let c = usage_into-Gathers u.usage (responses_into u.response t) in
    record {
      input =
          maximum_both (response_inputs u.response) (usage_inputs u.usage) t.input _ _ r.input
            c.input;
      output =
          maximum_both (response_outputs u.response) (usage_outputs u.usage) t.output _ _ r.output
            c.output;
      cached =
          maximum_both (response_cached u.response) (usage_cached u.usage) t.cached _ _ r.cached
            c.cached;
    }

-- The token counts of a request are the largest that its chunks report, whatever their order and
-- however often they are repeated. Where a chunk has a usage of its own, its count of the prompt is
-- that of "prompt_tokens" if it is not zero and that of "input_tokens" otherwise, and likewise for the
-- output; its cache hits count under either kind of details. The usage inside a "response" counts too.
pub into_all-maximum :
    (us : List UsageChunk) (t : TokenUsage)
    → ((into_all us t).input ≡ maximum (each inputs_of us) t.input)
      × ((into_all us t).output ≡ maximum (each outputs_of us) t.output)
      × ((into_all us t).cached ≡ maximum (each cached_of us) t.cached)
unfolding into_all
into_all-maximum [] t = (refl, refl, refl)
into_all-maximum (u ∷ us) t =
    let g = chunk_into-Gathers u t in
    let rest = into_all-maximum us (chunk_into u t) in
    (
      rest.0
          ∙ ap (maximum (each inputs_of us)) g.input
          ∙ sym (maximum-append (inputs_of u) (each inputs_of us) t.input),
      rest.1
          ∙ ap (maximum (each outputs_of us)) g.output
          ∙ sym (maximum-append (outputs_of u) (each outputs_of us) t.output),
      rest.2
          ∙ ap (maximum (each cached_of us)) g.cached
          ∙ sym (maximum-append (cached_of u) (each cached_of us) t.cached),
    )
