-- ===== src/WebTools/Examples.antt =====
-- A loopback URL, and a host name that the dialer refuses.
use nano_llm_proxy.Prelude.{
  ◌≡◌, refl, arith, true, false, Option, none, some, [], ◌∷◌, String, str_eq, if◌then◌else◌, ◌+◌,
  ◌*◌, ◌^◌, pos, codes, contains, trim_left, trim_right,
}
use nano_llm_proxy.WebTools.{Addr, WebUrl, v4, v6, blocked_private, ip_is_blocked}
use nano_llm_proxy.WebTools.Reading.{
  no_answer, answered, requested, dialled, browsed, Request, dials, new_outcome, read_failed,
  read_ok, by_render, WebConfig, Network, web_read,
}
use nano_llm_proxy.WebTools.Ranges.{in_blocked_range, ip_is_blocked-in_blocked_range}

abbrev loopback : String
loopback = "http://127.0.0.1/"

abbrev url_of : String → Option WebUrl
url_of s = some (record {
  scheme = "http";
  host = "h";
  has_user = false;
  literal = if str_eq s loopback then some (v4 (127 * 2 ^ 24 + 1)) else none;
})

abbrev local : Addr
local = v4 (127 * 2 ^ 24 + 1)

-- A host behind a public address, one that the name server points at the machine itself, and one that
-- sends the client there.
abbrev page : String
page = "http://page/"

abbrev rebinds : String
rebinds = "http://rebinds/"

abbrev moves : String
moves = "http://moves/"

abbrev at_web : Request
at_web = dials ((some (v4 (8 * 2 ^ 24 + 8)), true) ∷ [])

-- One page answers, the browser shows a page.
abbrev world : Network
world = record {
  parse_url = url_of;
  first = λ s. if str_eq s rebinds then dials ((some local, true) ∷ []) else at_web;
  redirects = λ s. if str_eq s moves then dials ((some local, true) ∷ []) ∷ [] else [];
  get = λ s. if str_eq s page then answered 200 "text/plain" (codes "page") else no_answer;
  browse = λ s. some (codes "hi");
  html = λ b. none;
}

abbrev fast : WebConfig
fast = record { reader_mode = "fast"; max_chars = pos 20000 }

refused-test : web_read world fast loopback false (pos 0) ≡ record {
  contacts = [];
  result = read_failed (record new_outcome { blocked = some blocked_private });
}
unfolding web_read
refused-test = refl

-- With the flag the browser gets the URL that the check refuses.
unchecked-test : web_read world fast loopback true (pos 0) ≡ record {
  contacts = browsed loopback ∷ [];
  result = read_ok (record { content = codes "hi"; more = 0 }) by_render;
}
unfolding web_read trim_left trim_right
unchecked-test = refl

-- A host whose address the dialer refuses fails like any other, and goes to the browser.
rebound-test :
    (web_read world fast rebinds false (pos 0)).contacts ≡ requested rebinds ∷ browsed rebinds ∷ []
unfolding web_read
rebound-test = refl

-- The redirect is not followed, and the browser gets the URL.
moved-test :
    (web_read world fast moves false (pos 0)).contacts
    ≡ requested moves ∷ dialled (some (v4 (8 * 2 ^ 24 + 8))) ∷ browsed moves ∷ []
unfolding web_read
moved-test = refl

page-test :
    (web_read world fast page false (pos 0)).contacts
    ≡ requested page ∷ dialled (some (v4 (8 * 2 ^ 24 + 8))) ∷ []
unfolding web_read contains
page-test = refl

ip_is_blocked-in_blocked_range_example :
    ip_is_blocked (v6 (65535 * 2 ^ 32 + 127 * 2 ^ 24 + 1) false)
    ≡ in_blocked_range (v6 (65535 * 2 ^ 32 + 127 * 2 ^ 24 + 1) false)
ip_is_blocked-in_blocked_range_example =
    ip_is_blocked-in_blocked_range (v6 (65535 * 2 ^ 32 + 127 * 2 ^ 24 + 1) false) (omega arith)
