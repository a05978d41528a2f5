-- ===== src/Inbound/Kept.antt =====
-- What the translation of an Anthropic request keeps of its messages.
use text.Mathlib.TextLemmas.{
  append_assoc as str_append_assoc, append-nil as str_append-nil, nil-append as str_nil-append,
}
use nano_llm_proxy.Prelude.{
  ◌≡◌, refl, sym, ap, ◌∙◌, inl, inr, Bool-cases, Option, none, some, List, [], ◌∷◌, ◌++◌,
  append-nil, append_assoc, map, if◌then◌else◌, String, str_eq, str_append, eq_iff,
}
use nano_llm_proxy.Json.{
  Json, null, str, arr, obj, Fields, get_field, elements, as_string, as_object, as_array,
}
use nano_llm_proxy.Replies.{ToolCall}
use nano_llm_proxy.Inbound.{
  Part, text_part, image_part, ToolResult, spoken, parted, tool, block_text, concat_text_blocks,
  concat_parts, Flat, nothing_flat, add_image, anthropic_image_part, flatten_kind, flatten_block,
  flatten, messages_of, flat_messages, convert_content, convert_anthropic_message,
}
use nano_llm_proxy.Inbound.Bodies.{system_of, converted, convert_messages, anthropic_to_chat_body}
use nano_llm_proxy.Inbound.Contents.{
  kind_calls, kind_results, block_calls, block_results, blocks_calls, blocks_results, message_calls,
  message_results, all_calls, all_results, content_text, message_text, all_text, Holds, Holds-as,
  Holds-append, Holds-tools,
}

-- `g` is `f` with these calls, results and text behind its own.
record Grown (f g : Flat) (calls : List ToolCall) (results : List ToolResult) (text : String)
    : Type 0 where
  more_calls : g.calls ≡ f.calls ++ calls
  more_results : g.results ≡ f.results ++ results
  more_text : concat_parts g.parts ≡ str_append (concat_parts f.parts) text

Grown-refl : (f : Flat) → Grown f f [] [] ""
Grown-refl f = record {
  more_calls = sym (append-nil f.calls);
  more_results = sym (append-nil f.results);
  more_text = sym (str_append-nil (concat_parts f.parts));
}

Grown-trans :
    (f g h : Flat) (cs ds : List ToolCall) (rs qs : List ToolResult) (s t : String)
    → Grown f g cs rs s
    → Grown g h ds qs t
    → Grown f h (cs ++ ds) (rs ++ qs) (str_append s t)
Grown-trans f g h cs ds rs qs s t a b = record {
  more_calls = b.more_calls ∙ ap (λ l. l ++ ds) a.more_calls ∙ append_assoc f.calls cs ds;
  more_results = b.more_results ∙ ap (λ l. l ++ qs) a.more_results ∙ append_assoc f.results rs qs;
  more_text =
      b.more_text
      ∙ ap (λ l. str_append l t) a.more_text
      ∙ str_append_assoc (concat_parts f.parts) s t;
}

concat_parts-text :
    (ps : List Part) (t : Json)
    → concat_parts (ps ++ text_part t ∷ []) ≡ str_append (concat_parts ps) (as_string t)
unfolding concat_parts
concat_parts-text [] t = str_append-nil (as_string t) ∙ sym (str_nil-append (as_string t))
concat_parts-text (text_part u ∷ ps) t =
    ap (λ l. str_append (as_string u) l) (concat_parts-text ps t)
    ∙ sym (str_append_assoc (as_string u) (concat_parts ps) (as_string t))
concat_parts-text (image_part u ∷ ps) t = concat_parts-text ps t

concat_parts-image :
    (ps : List Part) (u : String)
    → concat_parts (ps ++ image_part u ∷ []) ≡ str_append (concat_parts ps) ""
unfolding concat_parts
concat_parts-image [] u = refl
concat_parts-image (text_part t ∷ ps) u =
    ap (λ l. str_append (as_string t) l) (concat_parts-image ps u)
    ∙ sym (str_append_assoc (as_string t) (concat_parts ps) "")
concat_parts-image (image_part v ∷ ps) u = concat_parts-image ps u

add_image-Grown : (o : Option String) (f : Flat) → Grown f (add_image o f) [] [] ""
add_image-Grown none f = Grown-refl f
add_image-Grown (some u) f = record {
  more_calls = sym (append-nil f.calls);
  more_results = sym (append-nil f.results);
  more_text = concat_parts-image f.parts u;
}

abbrev kind_text : String → Fields → String
kind_text bt bm = if str_eq bt "text" then as_string (get_field bm "text") else ""

module _ (marshal : Json → Option String) where
  flatten_kind-Grown :
      (bt : String) (bm : Fields) (f : Flat)
      → Grown f
          (flatten_kind marshal bt bm f)
          (kind_calls marshal bt bm)
          (kind_results marshal bt bm)
          (kind_text bt bm)
  unfolding flatten_kind
  flatten_kind-Grown bt bm f = elim (Bool-cases (str_eq bt "text")) [
    | inl e ↦ rw ((eq_iff bt "text").0 e) (record {
      more_calls = sym (append-nil f.calls);
      more_results = sym (append-nil f.results);
      more_text = concat_parts-text f.parts (get_field bm "text");
    })
    | inr e ↦ elim (Bool-cases (str_eq bt "image")) [
      | inl i ↦
          rw ((eq_iff bt "image").0 i)
            (add_image-Grown (anthropic_image_part (get_field bm "source")) f)
      | inr i ↦ elim (Bool-cases (str_eq bt "tool_use")) [
        | inl u ↦ rw ((eq_iff bt "tool_use").0 u) (record {
          more_calls = refl;
          more_results = sym (append-nil f.results);
          more_text = sym (str_append-nil (concat_parts f.parts));
        })
        | inr u ↦ elim (Bool-cases (str_eq bt "tool_result")) [
          | inl r ↦ rw ((eq_iff bt "tool_result").0 r) (record {
            more_calls = sym (append-nil f.calls);
            more_results = refl;
            more_text = sym (str_append-nil (concat_parts f.parts));
          })
          | inr r ↦ rw (e, i, u, r) (Grown-refl f)
        ]
      ]
    ]
  ]

  flatten_block-Grown :
      (o : Option Fields) (f : Flat)
      → Grown f
          (flatten_block marshal o f)
          (block_calls marshal o)
          (block_results marshal o)
          (block_text o)
  flatten_block-Grown none f = Grown-refl f
  flatten_block-Grown (some bm) f = flatten_kind-Grown (as_string (get_field bm "type")) bm f

  flatten-Grown :
      (bs : List Json) (f : Flat)
      → Grown f
          (flatten marshal bs f)
          (blocks_calls marshal bs)
          (blocks_results marshal bs)
          (concat_text_blocks bs)
  unfolding flatten concat_text_blocks
  flatten-Grown [] f = Grown-refl f
  flatten-Grown (b ∷ bs) f =
      let o = as_object b in
      let g = flatten_block marshal o f in
      Grown-trans f g (flatten marshal bs g) (block_calls marshal o) (blocks_calls marshal bs)
        (block_results marshal o) (blocks_results marshal bs) (block_text o) (concat_text_blocks bs)
        (flatten_block-Grown o f) (flatten-Grown bs g)

messages_of-Holds :
    (role : String) (cs : List ToolCall) (ps : List Part) (rs : List ToolResult)
    → Holds (messages_of role cs ps rs) cs rs (concat_parts ps)
unfolding messages_of
messages_of-Holds role [] [] rs = Holds-tools rs
messages_of-Holds role [] (p ∷ ps) rs =
    let t = concat_parts (p ∷ ps) in
    let last : Holds (parted role (p ∷ ps) ∷ []) [] [] t = record {
      same_calls = refl;
      same_results = refl;
      same_text = str_append-nil t;
    } in
    Holds-as
      (Holds-append (map tool rs) (parted role (p ∷ ps) ∷ []) [] [] rs [] "" t (Holds-tools rs)
        last)
      refl (append-nil rs) (str_nil-append t)
messages_of-Holds role (c ∷ cs) ps rs = record {
  same_calls = ap (λ l. c ∷ cs ++ l) (Holds-tools rs).same_calls ∙ append-nil (c ∷ cs);
  same_results = (Holds-tools rs).same_results;
  same_text =
      ap (λ l. str_append (concat_parts ps) l) (Holds-tools rs).same_text
      ∙ str_append-nil (concat_parts ps);
}

Holds-none : Holds [] [] [] ""
Holds-none = record { same_calls = refl; same_results = refl; same_text = refl }

Holds-spoken : (role s : String) → Holds (if str_eq s "" then [] else spoken role s ∷ []) [] [] s
Holds-spoken role s = elim (Bool-cases (str_eq s "")) [
  | inl e ↦ rw ((eq_iff s "").0 e) Holds-none
  | inr e ↦ rw e (record { same_calls = refl; same_results = refl; same_text = str_append-nil s })
]

system_of-Holds : (v : Json) → Holds (system_of v) [] [] (content_text v)
unfolding system_of
system_of-Holds (str s) = Holds-spoken "system" s
system_of-Holds (arr bs) = Holds-spoken "system" (concat_text_blocks (elements bs))
system_of-Holds null = Holds-none
system_of-Holds (Json.bool b) = Holds-none
system_of-Holds (Json.num n r) = Holds-none
system_of-Holds (obj fs) = Holds-none

module _ (marshal : Json → Option String) where
  flat_messages-Holds :
      (role : String) (bs : List Json)
      → Holds
          (flat_messages role (flatten marshal bs nothing_flat))
          (blocks_calls marshal bs)
          (blocks_results marshal bs)
          (concat_text_blocks bs)
  unfolding concat_parts
  flat_messages-Holds role bs =
      let g = flatten marshal bs nothing_flat in
      let w = flatten-Grown marshal bs nothing_flat in
      Holds-as (messages_of-Holds role g.calls g.parts g.results) w.more_calls w.more_results
        (w.more_text ∙ str_nil-append (concat_text_blocks bs))

  convert_content-Holds :
      (role : String) (v : Json)
      → Holds
          (convert_content marshal role v)
          (blocks_calls marshal (as_array v))
          (blocks_results marshal (as_array v))
          (content_text v)
  convert_content-Holds role (str s) = Holds-spoken role s
  convert_content-Holds role (arr bs) = flat_messages-Holds role (elements bs)
  convert_content-Holds role null = Holds-none
  convert_content-Holds role (Json.bool b) = Holds-none
  convert_content-Holds role (Json.num n r) = Holds-none
  convert_content-Holds role (obj fs) = Holds-none

  converted-Holds :
      (o : Option Fields)
      → Holds
          (converted marshal o)
          (message_calls marshal o)
          (message_results marshal o)
          (message_text o)
  unfolding convert_anthropic_message
  converted-Holds none = Holds-none
  converted-Holds (some am) =
      convert_content-Holds (as_string (get_field am "role")) (get_field am "content")

  convert_messages-Holds :
      (ms : List Json)
      → Holds
          (convert_messages marshal ms)
          (all_calls marshal ms)
          (all_results marshal ms)
          (all_text ms)
  unfolding convert_messages
  convert_messages-Holds [] = Holds-none
  convert_messages-Holds (m ∷ ms) =
      let o = as_object m in
      Holds-append (converted marshal o) (convert_messages marshal ms) (message_calls marshal o)
        (all_calls marshal ms) (message_results marshal o) (all_results marshal ms) (message_text o)
        (all_text ms) (converted-Holds o) (convert_messages-Holds ms)

  -- The chat messages of an Anthropic request hold all its tool calls, all its tool results and all its
  -- text, the system text first, each in its order, and no others: whatever the roles are, and however
  -- the blocks of a message are mixed.
  pub anthropic_to_chat_body-Holds :
      (req : Fields)
      → (let ms = as_array (get_field req "messages") in
          Holds
            (anthropic_to_chat_body marshal req).messages
            (all_calls marshal ms)
            (all_results marshal ms)
            (str_append (content_text (get_field req "system")) (all_text ms)))
  unfolding anthropic_to_chat_body
  anthropic_to_chat_body-Holds req =
      let ms = as_array (get_field req "messages") in
      let sys = get_field req "system" in
      Holds-append (system_of sys) (convert_messages marshal ms) [] (all_calls marshal ms) []
        (all_results marshal ms) (content_text sys) (all_text ms) (system_of-Holds sys)
        (convert_messages-Holds ms)
