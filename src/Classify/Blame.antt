-- ===== src/Classify/Blame.antt =====
-- What it is for an answer to blame the key, and that the code's tests on its body say so.
use nano_llm_proxy.Prelude.{
  ℕ, ◌≡◌, ◌↔◌, ◌⊎◌, refl, inl, inr, Bool, true, false, ◌||◌, Option, none, some, List, [], ◌∷◌,
  String, str_eq, eq_iff, arith, contains, lower_contains, Bool-cases,
}
use nano_llm_proxy.Classify.{
  ErrorBody, Answer, key_expired_code, says_key_expired, key_error_phrases, any_phrase,
  says_key_is_wrong,
}

-- The text has one of the phrases, in letters of either case.
pub data Mentions (body : String) : List String → Type 0 where
  here : {p : String} {ps : List String} → lower_contains body p ≡ true → Mentions body (p ∷ ps)
  there : {p : String} {ps : List String} → Mentions body ps → Mentions body (p ∷ ps)

-- What providers write about a key that they do not know.
abbrev pub wrong_key_phrases : List String
wrong_key_phrases =
    "incorrect api key" ∷ "invalid api key" ∷ "invalid_api_key" ∷ "api key is invalid"
    ∷ "api key not valid" ∷ "invalid x-api-key" ∷ "invalid authentication" ∷ "invalid credential"
    ∷ "invalid_token" ∷ "authentication token is invalid" ∷ []

-- The answer says that the key itself is bad.
pub data BlamesKey (a : Answer) : Type 0 where
  expired :
      (e : ErrorBody)
      → (a.status ≡ 401) ⊎ (a.status ≡ 403)
      → a.error ≡ some e
      → (e.code ≡ "api_key_expired") ⊎ (e.type ≡ "api_key_expired")
      → BlamesKey a
  auth_401 :
      a.status ≡ 401
      → (contains a.body "AuthError" ≡ true) ⊎ Mentions a.body wrong_key_phrases
      → BlamesKey a
  auth_403 :
      a.status ≡ 403
      → contains a.body "FreeTierError" ≡ false
      → (contains a.body "AuthError" ≡ true) ⊎ (contains a.body "auth" ≡ true)
      → BlamesKey a

any_phrase-Mentions :
    (body : String) (ps : List String) → any_phrase body ps ≡ true → Mentions body ps
unfolding any_phrase
any_phrase-Mentions body [] h = absurd (cc)
any_phrase-Mentions body (p ∷ ps) h = elim (Bool-cases (lower_contains body p)) [
  | inl e ↦ here e
  | inr e ↦ there (any_phrase-Mentions body ps (rw e at h))
]

Mentions-any_phrase :
    (body : String) (ps : List String) → Mentions body ps → any_phrase body ps ≡ true
unfolding any_phrase
Mentions-any_phrase body [] m = elim m [ ]
Mentions-any_phrase body (p ∷ ps) (here h) = rw h refl
Mentions-any_phrase body (p ∷ ps) (there m) = ground (arith, Mentions-any_phrase body ps m)

pub says_key_is_wrong-Mentions :
    (body : String) → (says_key_is_wrong body ≡ true) ↔ Mentions body wrong_key_phrases
unfolding says_key_is_wrong key_error_phrases
says_key_is_wrong-Mentions body =
    (any_phrase-Mentions body wrong_key_phrases, Mentions-any_phrase body wrong_key_phrases)

or_true : (a b : Bool) → ((a || b) ≡ true) ↔ ((a ≡ true) ⊎ (b ≡ true))
or_true true b = (λ h. inl refl, λ x. refl)
or_true false b = (λ h. inr h, λ x. elim x [ inl q ↦ absurd (cc) | inr q ↦ q ])

expired_status :
    (status : ℕ) (e : ErrorBody)
    → says_key_expired status (some e) ≡ true
    → (status ≡ 401) ⊎ (status ≡ 403)
unfolding says_key_expired
expired_status status e h = ground arith

expired_code :
    (status : ℕ) (e : ErrorBody)
    → says_key_expired status (some e) ≡ true
    → (str_eq e.code "api_key_expired" || str_eq e.type "api_key_expired") ≡ true
unfolding says_key_expired key_expired_code
expired_code status e h = ground arith

expired_none : (status : ℕ) → says_key_expired status none ≡ false
unfolding says_key_expired
expired_none status = ground arith

texts_eq : (s t u : String) → ((s ≡ u) ⊎ (t ≡ u)) ↔ ((str_eq s u || str_eq t u) ≡ true)
texts_eq s t u = (
  λ x. (or_true _ _).1 (elim x [ inl q ↦ inl ((eq_iff s u).1 q) | inr q ↦ inr ((eq_iff t u).1 q) ]),
  λ h. elim ((or_true _ _).0 h) [ inl q ↦ inl ((eq_iff s u).0 q) | inr q ↦ inr ((eq_iff t u).0 q) ],
)

pub blames_of_expired :
    (a : Answer) (o : Option ErrorBody)
    → a.error ≡ o
    → says_key_expired a.status o ≡ true
    → BlamesKey a
blames_of_expired a none e h = absurd (let q = expired_none a.status in cc)
blames_of_expired a (some b) e h =
    expired b (expired_status a.status b h) e
      ((texts_eq b.code b.type "api_key_expired").1 (expired_code a.status b h))

says_of :
    (status : ℕ) (e : ErrorBody)
    → (status ≡ 401) ⊎ (status ≡ 403)
    → (str_eq e.code "api_key_expired" || str_eq e.type "api_key_expired") ≡ true
    → says_key_expired status (some e) ≡ true
unfolding says_key_expired key_expired_code
says_of status e (inl q) h = ground arith
says_of status e (inr q) h = ground arith

pub expired_of_blames :
    (a : Answer) (e : ErrorBody)
    → (a.status ≡ 401) ⊎ (a.status ≡ 403)
    → a.error ≡ some e
    → (e.code ≡ "api_key_expired") ⊎ (e.type ≡ "api_key_expired")
    → says_key_expired a.status a.error ≡ true
expired_of_blames a e st said code =
    rw said (says_of a.status e st ((texts_eq e.code e.type "api_key_expired").0 code))

-- The test that `classify` makes of a 401 and of a 403.
pub auth_401_iff :
    (a : Answer)
    → ((contains a.body "AuthError" || says_key_is_wrong a.body) ≡ true)
      ↔ ((contains a.body "AuthError" ≡ true) ⊎ Mentions a.body wrong_key_phrases)
auth_401_iff a =
    let m = says_key_is_wrong-Mentions a.body in
    let o = or_true (contains a.body "AuthError") (says_key_is_wrong a.body) in
    (
      λ h. elim (o.0 h) [ inl q ↦ inl q | inr q ↦ inr (m.0 q) ],
      λ x. o.1 (elim x [ inl q ↦ inl q | inr q ↦ inr (m.1 q) ]),
    )

pub auth_403_iff :
    (a : Answer)
    → ((contains a.body "AuthError" || contains a.body "auth") ≡ true)
      ↔ ((contains a.body "AuthError" ≡ true) ⊎ (contains a.body "auth" ≡ true))
auth_403_iff a = or_true (contains a.body "AuthError") (contains a.body "auth")
