-- ===== src/Usage/Examples.antt =====
-- A stream that repeats its usage, and a buffer with one event.
use nano_llm_proxy.Prelude.{ℕ, ◌≡◌, refl, none, some, List, [], ◌∷◌, ◌++◌, arith, pos, negsuc}
use nano_llm_proxy.Usage.{UsageChunk, no_usage, usage_buffer_max, buffer_drain}
use nano_llm_proxy.Usage.Totals.{
  into_all, maximum, each, inputs_of, outputs_of, cached_of, into_all-maximum,
}
use nano_llm_proxy.Usage.Buffer.{add_all, newest, buffer_drain-newest}

abbrev report : ℕ → ℕ → UsageChunk
report input output = record {
  usage = some (record {
    prompt_tokens = pos 0;
    completion_tokens = pos output;
    input_tokens = pos input;
    output_tokens = negsuc 0;
    prompt_details = none;
    input_details = some (pos 2);
  });
  response = none;
}

abbrev reports : List UsageChunk
reports = report 7 1 ∷ report 7 5 ∷ report 3 4 ∷ []

into_all-maximum_example :
    ((into_all reports no_usage).input ≡ maximum (each inputs_of reports) 0)
    × ((into_all reports no_usage).output ≡ maximum (each outputs_of reports) 0)
    × ((into_all reports no_usage).cached ≡ maximum (each cached_of reports) 0)
into_all-maximum_example = into_all-maximum reports no_usage

largest : into_all reports no_usage ≡ record { input = 7; output = 5; cached = 2 }
unfolding into_all
largest = refl

abbrev events : List ℕ
events = 1 ∷ 2 ∷ []

buffer_drain-newest_example :
    buffer_drain (add_all events (3 ∷ [])) ≡ (newest usage_buffer_max (events ++ 3 ∷ []), [])
buffer_drain-newest_example = buffer_drain-newest events (3 ∷ []) (omega arith)
