-- ===== src/Usage/Buffer.antt =====
-- The buffer of usage events keeps the newest.
use nano_llm_proxy.Prelude.{
  ℕ, suc, ◌-◌, ◌≤◌, ◌<◌, ◌≡◌, refl, sym, ap, ◌∙◌, inl, inr, List, [], ◌∷◌, ◌++◌, append_assoc,
  append-nil, leb, Bool-cases, arith, length, length-append, drop,
}
use nano_llm_proxy.Usage.{buffer_add, buffer_drain, usage_buffer_max}

module _ {ℓ} {A : Type ℓ} where
  pub add_all : List A → List A → List A
  unfolding buffer_add
  add_all events [] = events
  add_all events (e ∷ es) = add_all (buffer_add events e) es

  -- The last `n` of a list.
  abbrev pub newest : ℕ → List A → List A
  newest n xs = drop (length xs - n) xs

module _ {ℓ} {A : Type ℓ} where
  newest_all : (n : ℕ) (xs : List A) → length xs ≤ n → newest n xs ≡ xs
  newest_all n xs h = let e : length xs - n ≡ 0 = omega arith in rw e refl

  newest_tail : (n : ℕ) (xs : List A) → suc n ≤ length xs → newest n (drop 1 xs) ≡ newest n xs
  newest_tail n [] h = absurd (omega arith)
  newest_tail n (x ∷ xs) h =
      let e : suc (length xs) - n ≡ suc (length xs - n) = omega arith in rw e refl

  -- A full list that loses its oldest element for a new one.
  newest_full :
      (n : ℕ) (events es : List A) (e : A)
      → 0 < n
      → n ≤ length events
      → newest n ((drop 1 events ++ e ∷ []) ++ es) ≡ newest n (events ++ e ∷ es)
  newest_full n [] es e some full = absurd (omega arith)
  newest_full n (x ∷ xs) es e some full =
      ap (newest n) (append_assoc xs (e ∷ []) es)
      ∙ newest_tail n (x ∷ (xs ++ e ∷ es)) (omega (arith, length-append xs (e ∷ es)))

  newest-add :
      (events es : List A) (e : A)
      → newest usage_buffer_max (buffer_add events e ++ es)
        ≡ newest usage_buffer_max (events ++ e ∷ es)
  unfolding buffer_add
  newest-add events es e = elim (Bool-cases (leb usage_buffer_max (length events))) [
    | inl full ↦
        rw full (newest_full usage_buffer_max events es e (omega arith) (ground (arith, full)))
    | inr room ↦ rw room (ap (newest usage_buffer_max) (append_assoc events (e ∷ []) es))
  ]

  length-buffer_add :
      (events : List A) (e : A)
      → length events ≤ usage_buffer_max
      → length (buffer_add events e) ≤ usage_buffer_max
  unfolding buffer_add
  length-buffer_add [] e h = omega arith
  length-buffer_add (x ∷ xs) e h =
      ground (arith, length-append xs (e ∷ []), length-append (x ∷ xs) (e ∷ []))

  -- Whatever is added to a buffer within its bound, it holds the newest 4096 of the events that it
  -- held and of those added, in their order, and draining it returns these and empties it.
  pub buffer_drain-newest :
      (events es : List A)
      → length events ≤ usage_buffer_max
      → buffer_drain (add_all events es) ≡ (newest usage_buffer_max (events ++ es), [])
  unfolding add_all buffer_drain
  buffer_drain-newest events [] h =
      ap (λ l. (l, []))
        (sym (newest_all usage_buffer_max events h)
          ∙ ap (newest usage_buffer_max) (sym (append-nil events)))
  buffer_drain-newest events (e ∷ es) h =
      buffer_drain-newest (buffer_add events e) es (length-buffer_add events e h)
      ∙ ap (λ l. (l, [])) (newest-add events es e)
