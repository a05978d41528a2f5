-- ===== src/Stream/Calls.antt =====
-- The fragments of a tool call are put together by its index.
use text.Mathlib.TextLemmas.{append_assoc as str_append_assoc, append-nil as str_append-nil}
use nano_llm_proxy.Prelude.{
  ◌≡◌, refl, sym, ap, ◌∙◌, inl, inr, Bool, false, Bool-cases, ◌||◌, Option, none, some, List, [],
  ◌∷◌, ◌++◌, map, if◌then◌else◌, keep_if, String, str_eq, str_append, eq_iff, arith, ℤ, eq_ℤ,
  eq_ℤ_iff,
}
use nano_llm_proxy.Stream.{PendingToolCall, extend, buffer_call}
use nano_llm_proxy.Stream.Readers.{ToolDelta}

abbrev pub Pending : Type 0
Pending = List (ℤ × PendingToolCall)

pub lookup_call : ℤ → Pending → Option PendingToolCall
lookup_call j [] = none
lookup_call j ((i, p) ∷ pending) = if eq_ℤ i j then some p else lookup_call j pending

-- What the fragments of one call amount to: the first id and the first name that are not empty, and
-- all arguments joined.
abbrev pub first_text : List String → String
first_text [] = ""
first_text (s ∷ ss) = if str_eq s "" then first_text ss else s

abbrev pub joined : List String → String
joined [] = ""
joined (s ∷ ss) = str_append s (joined ss)

abbrev pub call_of : List ToolDelta → PendingToolCall
call_of ds = record {
  id = first_text (map (λ (d : ToolDelta). d.id) ds);
  name = first_text (map (λ (d : ToolDelta). d.name) ds);
  args = joined (map (λ (d : ToolDelta). d.arguments) ds);
}

abbrev pub merged : List ToolDelta → Option PendingToolCall
merged [] = none
merged (d ∷ ds) = some (call_of (d ∷ ds))

abbrev pub of_index : ℤ → List ToolDelta → List ToolDelta
of_index j = keep_if (λ d. eq_ℤ d.index j)

-- The fragments come on top of a call that is there already.
abbrev onto : Option PendingToolCall → List ToolDelta → Option PendingToolCall
onto none ds = merged ds
onto (some p) ds = some (record {
  id = first_text (p.id ∷ map (λ (d : ToolDelta). d.id) ds);
  name = first_text (p.name ∷ map (λ (d : ToolDelta). d.name) ds);
  args = str_append p.args (joined (map (λ (d : ToolDelta). d.arguments) ds));
})

abbrev extended : Option PendingToolCall → ToolDelta → PendingToolCall
extended none d = record { id = d.id; name = d.name; args = d.arguments }
extended (some p) d = extend p d.id d.name d.arguments

lookup_call-buffer_call :
    (pending : Pending) (d : ToolDelta) (j : ℤ)
    → lookup_call j (buffer_call pending d.index d.id d.name d.arguments) ≡ (
        if eq_ℤ d.index j then some (extended (lookup_call j pending) d) else lookup_call j pending)
unfolding lookup_call buffer_call
lookup_call-buffer_call [] d j = refl
lookup_call-buffer_call ((i, p) ∷ pending) d j = ground (
  arith,
  lookup_call-buffer_call pending d j,
  eq_ℤ_iff i d.index,
  eq_ℤ_iff i j,
  eq_ℤ_iff d.index j,
)

-- The pending calls after fragments.
abbrev pub buffered : Pending → List ToolDelta → Pending
buffered pending [] = pending
buffered pending (d ∷ ds) = buffered (buffer_call pending d.index d.id d.name d.arguments) ds

onto_cons :
    (o : Option PendingToolCall) (d : ToolDelta) (ds : List ToolDelta)
    → onto (some (extended o d)) ds ≡ onto o (d ∷ ds)
onto_cons none d ds = refl
onto_cons (some p) d ds =
    let rest = joined (map (λ (e : ToolDelta). e.arguments) ds) in
    ground (arith, str_append_assoc p.args d.arguments rest)

onto_nil : (o : Option PendingToolCall) → onto o [] ≡ o
onto_nil none = refl
onto_nil (some p) = ground (arith, eq_iff p.id "", eq_iff p.name "", str_append-nil p.args)

lookup_call-buffered :
    (pending : Pending) (ds : List ToolDelta) (j : ℤ)
    → lookup_call j (buffered pending ds) ≡ onto (lookup_call j pending) (of_index j ds)
lookup_call-buffered pending [] j = sym (onto_nil (lookup_call j pending))
lookup_call-buffered pending (d ∷ ds) j =
    lookup_call-buffered (buffer_call pending d.index d.id d.name d.arguments) ds j
    ∙ ap (λ o. onto o (of_index j ds)) (lookup_call-buffer_call pending d j)
    ∙ elim (Bool-cases (eq_ℤ d.index j)) [
      | inl e ↦ rw e (onto_cons (lookup_call j pending) d (of_index j ds))
      | inr e ↦ rw e refl
    ]

pub lookup_call-new :
    (ds : List ToolDelta) (j : ℤ) → lookup_call j (buffered [] ds) ≡ merged (of_index j ds)
unfolding lookup_call
lookup_call-new ds j = lookup_call-buffered [] ds j

-- The indices in the order in which they are first seen.
abbrev pub has_index : ℤ → List ℤ → Bool
has_index j [] = false
has_index j (i ∷ is) = eq_ℤ i j || has_index j is

abbrev pub first_seen : List ℤ → List ToolDelta → List ℤ
first_seen seen [] = seen
first_seen seen (d ∷ ds) =
    first_seen (if has_index d.index seen then seen else seen ++ d.index ∷ []) ds

abbrev pub indices : Pending → List ℤ
indices = map (λ (ip : ℤ × PendingToolCall). ip.0)

indices-buffer_call :
    (pending : Pending) (idx : ℤ) (id name args : String)
    → indices (buffer_call pending idx id name args)
      ≡ (if has_index idx (indices pending) then indices pending else indices pending ++ idx ∷ [])
unfolding buffer_call
indices-buffer_call [] idx id name args = refl
indices-buffer_call ((i, p) ∷ pending) idx id name args =
    ground (arith, indices-buffer_call pending idx id name args)

pub indices-buffered :
    (pending : Pending) (ds : List ToolDelta)
    → indices (buffered pending ds) ≡ first_seen (indices pending) ds
indices-buffered pending [] = refl
indices-buffered pending (d ∷ ds) =
    indices-buffered (buffer_call pending d.index d.id d.name d.arguments) ds
    ∙ ap (λ is. first_seen is ds) (indices-buffer_call pending d.index d.id d.name d.arguments)
