-- ===== src/WebTools/Reading.antt =====
-- internal/webtools/reader.go, escalate.go and webtools.go: how web_read fetches a page.
--
-- A text is its bytes. The network, the browser, the converter of HTML and the parser of URLs are
-- arguments. `contacts` lists the URLs that were handed to the client and to the browser, and the
-- addresses that were dialled. A failure is a constructor in place of its message. The seam for tests that turns the guard off is left out.
use nano_llm_proxy.Prelude.{
  ℕ, zero, suc, ◌-◌, Bool, true, false, ◌&&◌, ◌||◌, Option, none, some, List, [], ◌∷◌, ◌++◌,
  if◌then◌else◌, ◌==◌, ltb, leb, take, length, String, str_eq, codes, contains, has_prefix,
  trim_space, ℤ, pos, negsuc,
}
use nano_llm_proxy.WebTools.{Refusal, WebUrl, Addr, check_dialed_ip, url_allowed}

abbrev pub Text : Type 0
Text = List ℕ

-- what client.Do and the reading of the body give
pub data HttpAnswer : Type 0 where
  no_answer : HttpAnswer
  -- the status of a body that cannot be read
  unread : ℕ → HttpAnswer
  -- the status, the media type of the header and the body
  answered : ℕ → String → Text → HttpAnswer

pub record NativeOutcome : Type 0 where
  pub http_status : ℕ
  pub transport_err : Bool
  pub unsupported : Bool
  pub extraction_failed : Bool
  pub raw_len : ℕ
  pub text_len : ℕ
  pub blocked : Option Refusal

abbrev pub new_outcome : NativeOutcome
new_outcome = record {
  http_status = 0;
  transport_err = false;
  unsupported = false;
  extraction_failed = false;
  raw_len = 0;
  text_len = 0;
  blocked = none;
}

pub record FetchOutcome : Type 0 where
  pub outcome : NativeOutcome
  pub body : Text
  pub title : Text
  pub ok : Bool

abbrev pub fetch_failed : NativeOutcome → FetchOutcome
fetch_failed o = record { outcome = o; body = []; title = []; ok = false }

abbrev pub no_text : Text → Bool
no_text [] = true
no_text (c ∷ s) = false

abbrev pub titled : Text → Text → Text
titled title text = if no_text title then text else codes "# " ++ title ++ codes "\n\n" ++ text

-- htmlToMarkdown's text and title, none for an error
abbrev pub html_body : Option (Text × Text) → NativeOutcome → FetchOutcome
html_body none o = fetch_failed (record o { extraction_failed = true })
html_body (some (text, title)) o =
    if no_text text then fetch_failed (record o { extraction_failed = true }) else record {
      outcome = record o { text_len = length text };
      body = titled title text;
      title = title;
      ok = true;
    }

abbrev pub plain_body : Text → NativeOutcome → FetchOutcome
plain_body text o = record {
  outcome = record o { text_len = length text };
  body = text;
  title = [];
  ok = true;
}

abbrev pub json_body : Text → Text
json_body body = codes "```json\n" ++ trim_space body ++ codes "\n```"

module _ (html : Text → Option (Text × Text)) where
  abbrev pub body_of : String → Text → NativeOutcome → FetchOutcome
  body_of media body o =
      if contains media "html"
      then html_body (html body) o
      else if contains media "json"
      then plain_body (json_body body) o
      else if str_eq media "" || has_prefix (codes media) (codes "text/")
      then plain_body (trim_space body) o
      else fetch_failed (record o { unsupported = true })

  abbrev pub answer_outcome : HttpAnswer → FetchOutcome
  answer_outcome no_answer = fetch_failed (record new_outcome { transport_err = true })
  answer_outcome (unread status) =
      fetch_failed (record new_outcome { transport_err = true; http_status = status })
  answer_outcome (answered status media body) =
      let o : NativeOutcome = record new_outcome { http_status = status; raw_len = length body } in
      if leb 400 status then fetch_failed o else body_of media body o

pub data Contact : Type 0 where
  requested : String → Contact
  dialled : Option Addr → Contact
  browsed : String → Contact

-- How a request of client.Do gets its connection: an old one, or the addresses that it tries in their
-- order, each with whether anything listens there. `none` is an address that does not parse.
pub data Request : Type 0 where
  reused : Request
  dials : List (Option Addr × Bool) → Request

abbrev pub after_dial : Option Addr → Bool → Bool × List Contact → Bool × List Contact
after_dial a true rest = (true, dialled a ∷ [])
after_dial a false (ok, cs) = (ok, dialled a ∷ cs)

-- what the Control hook says, and then the next address
abbrev pub checked : Option Refusal → Option Addr → Bool → Bool × List Contact → Bool × List Contact
checked (some r) a up rest = rest
checked none a up rest = after_dial a up rest

-- DialContext of the guarded transport
unfoldable pub dial_all : List (Option Addr × Bool) → Bool × List Contact
unfolding check_dialed_ip
dial_all [] = (false, [])
dial_all ((a, up) ∷ ips) = checked (check_dialed_ip a) a up (dial_all ips)

abbrev pub connect : Request → Bool × List Contact
connect reused = (true, [])
connect (dials ips) = dial_all ips

abbrev pub then_follow : Bool × List Contact → Bool × List Contact → Bool × List Contact
then_follow (true, cs) (ok, ds) = (ok, cs ++ ds)
then_follow (false, cs) rest = (false, cs)

-- client.Do: the request and those of its redirects; CheckRedirect refuses one with `left` requests
-- made already
unfoldable pub follow : ℕ → List Request → Bool × List Contact
unfolding dial_all
follow left [] = (true, [])
follow zero (r ∷ rs) = (false, [])
follow (suc left) (r ∷ rs) = then_follow (connect r) (follow left rs)

abbrev pub max_requests : ℕ
max_requests = 5

-- the content, and how many bytes of it are cut off
pub record Clamped : Type 0 where
  pub content : Text
  pub more : ℕ

unfoldable pub truncated : Text → ℤ → Clamped
truncated s (negsuc n) = record { content = s; more = 0 }
truncated s (pos n) =
    if n == 0 || leb (length s) n
    then record { content = s; more = 0 }
    else record { content = take n s; more = length s - n }

-- 20 KiB of HTML with little text is a page for a browser
abbrev pub needs_browser : Option Refusal → Bool → NativeOutcome → Bool
needs_browser (some r) explicit_render o = false
needs_browser none explicit_render o =
    if explicit_render
    then true
    else if o.transport_err || leb 400 o.http_status
    then true
    else if o.unsupported
    then true
    else ltb 20480 o.raw_len && ltb o.text_len 500

unfoldable pub escalate_to_render : String → Bool → NativeOutcome → Bool
escalate_to_render mode explicit_render o =
    if str_eq mode "render" then false else needs_browser o.blocked explicit_render o

pub data Method : Type 0 where
  by_native : Method
  by_render : Method

pub data ReadResult : Type 0 where
  read_ok : Clamped → Method → ReadResult
  -- readFailure of the outcome
  read_failed : NativeOutcome → ReadResult

pub record Reading : Type 0 where
  pub contacts : List Contact
  pub result : ReadResult

pub record WebConfig : Type 0 where
  pub reader_mode : String
  pub max_chars : ℤ

-- what the program calls: URLs, the network, the browser and the converter
pub record Network : Type 0 where
  pub parse_url : String → Option WebUrl
  -- the first request for a URL, and those of the redirects
  pub first : String → Request
  pub redirects : String → List Request
  -- what the last of them is answered, if all get through
  pub get : String → HttpAnswer
  pub browse : String → Option Text
  pub html : Text → Option (Text × Text)

module _ (world : Network) where
  abbrev pub guarded_fetch : Option Refusal → String → FetchOutcome × List Contact
  guarded_fetch (some r) raw_url = (fetch_failed (record new_outcome { blocked = some r }), [])
  guarded_fetch none raw_url =
      let (ok, cs) = follow max_requests (world.first raw_url ∷ world.redirects raw_url) in
      (
        answer_outcome world.html (if ok then world.get raw_url else no_answer),
        requested raw_url ∷ cs,
      )

  -- a URL that does not parse is no block but an error of the transport
  abbrev pub fetch_parsed : Option WebUrl → String → FetchOutcome × List Contact
  fetch_parsed none raw_url = (fetch_failed (record new_outcome { transport_err = true }), [])
  fetch_parsed (some u) raw_url = guarded_fetch (url_allowed (some u)) raw_url

  unfoldable pub fetch_native : String → FetchOutcome × List Contact
  unfolding url_allowed follow
  fetch_native raw_url = fetch_parsed (world.parse_url raw_url) raw_url

  abbrev pub native_result : FetchOutcome → ℤ → ReadResult
  native_result f max_chars =
      if f.ok then read_ok (truncated f.body max_chars) by_native else read_failed f.outcome

  abbrev pub rendered : Text → ℤ → ReadResult
  rendered md max_chars = read_ok (truncated (trim_space md) max_chars) by_render

  abbrev pub render_or_native : Option Text → String → ℤ → Reading
  render_or_native (some md) raw_url max_chars = record {
    contacts = browsed raw_url ∷ [];
    result = rendered md max_chars;
  }
  render_or_native none raw_url max_chars =
      let (f, cs) = fetch_native raw_url in
      record { contacts = browsed raw_url ∷ cs; result = native_result f max_chars }

  -- readRenderFirst, and readFast with an explicit request
  unfoldable pub read_render_first : String → ℤ → Reading
  unfolding fetch_native truncated
  read_render_first raw_url max_chars = render_or_native (world.browse raw_url) raw_url max_chars

  abbrev pub or_native : Option Text → FetchOutcome → ℤ → ReadResult
  or_native none f max_chars = read_failed f.outcome
  or_native (some md) f max_chars = rendered md max_chars

  -- readFast without an explicit request
  unfoldable pub read_native_first : String → FetchOutcome × List Contact → String → ℤ → Reading
  unfolding escalate_to_render truncated
  read_native_first mode (f, cs) raw_url max_chars =
      if f.ok
      then record { contacts = cs; result = native_result f max_chars }
      else if escalate_to_render mode false f.outcome
      then record {
        contacts = cs ++ browsed raw_url ∷ [];
        result = or_native (world.browse raw_url) f max_chars;
      }
      else record { contacts = cs; result = read_failed f.outcome }

  abbrev pub or_default_chars : ℤ → WebConfig → ℤ
  or_default_chars (negsuc n) cfg = cfg.max_chars
  or_default_chars (pos n) cfg = if n == 0 then cfg.max_chars else pos n

  -- Read
  unfoldable pub web_read : WebConfig → String → Bool → ℤ → Reading
  unfolding read_render_first read_native_first fetch_native
  web_read cfg raw_url render max_chars =
      let n = or_default_chars max_chars cfg in
      if str_eq cfg.reader_mode "render"
      then read_render_first raw_url n
      else if render
      then read_render_first raw_url n
      else read_native_first cfg.reader_mode (fetch_native raw_url) raw_url n
