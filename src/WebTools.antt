-- ===== src/WebTools.antt =====
-- internal/webtools/ssrf.go: the addresses that a fetch for a user must not reach.
--
-- An IPv4 address is a number of 32 bits, an IPv6 address one of 128 bits, with whether it has a zone.
-- url.Parse and the parsers of netip are arguments.
pub mod Reading
pub mod Ranges
pub mod Refusals
mod Examples
use nano_llm_proxy.Prelude.{
  ℕ, ◌+◌, ◌*◌, ◌^◌, ◌/◌, ◌%◌, Bool, true, false, not, ◌&&◌, ◌||◌, Option, none, some, if◌then◌else◌,
  ◌==◌, String, str_eq,
}

pub data Addr : Type 0 where
  v4 : ℕ → Addr
  v6 : ℕ → Bool → Addr

-- byte `i` of an IPv4 address, from the left
abbrev byte0 : ℕ → ℕ
byte0 n = n / 2 ^ 24

abbrev byte1 : ℕ → ℕ
byte1 n = n / 2 ^ 16 % 256

abbrev byte2 : ℕ → ℕ
byte2 n = n / 2 ^ 8 % 256

-- the first 16 bits of an IPv6 address
abbrev group0 : ℕ → ℕ
group0 n = n / 2 ^ 112

-- ::ffff:0:0/96
unfoldable pub is_4in6 : ℕ → Bool
is_4in6 n = n / 2 ^ 32 == 65535

unfoldable pub unmap : Addr → Addr
unfolding is_4in6
unmap (v4 n) = v4 n
unmap (v6 n zone) = if is_4in6 n then v4 (n % 2 ^ 32) else v6 n zone

unfoldable pub is_loopback : Addr → Bool
is_loopback (v4 n) = byte0 n == 127
is_loopback (v6 n zone) = n == 1

-- 172.16.0.0/12 has the first four bits of its second byte fixed
unfoldable pub is_private : Addr → Bool
is_private (v4 n) =
    byte0 n == 10 || (byte0 n == 172 && byte1 n / 16 == 1) || (byte0 n == 192 && byte1 n == 168)
is_private (v6 n zone) = group0 n / 2 ^ 9 == 126

unfoldable pub is_link_local_unicast : Addr → Bool
is_link_local_unicast (v4 n) = byte0 n == 169 && byte1 n == 254
is_link_local_unicast (v6 n zone) = group0 n / 2 ^ 6 == 1018

unfoldable pub is_link_local_multicast : Addr → Bool
is_link_local_multicast (v4 n) = byte0 n == 224 && byte1 n == 0 && byte2 n == 0
is_link_local_multicast (v6 n zone) = group0 n / 2 ^ 8 == 255 && group0 n % 16 == 2

unfoldable pub is_unspecified : Addr → Bool
is_unspecified (v4 n) = n == 0
is_unspecified (v6 n zone) = n == 0 && not zone

unfoldable pub is_multicast : Addr → Bool
is_multicast (v4 n) = byte0 n / 16 == 14
is_multicast (v6 n zone) = group0 n / 2 ^ 8 == 255

-- fc00::/7; a prefix contains no address with a zone
unfoldable pub is_ula : Addr → Bool
is_ula (v4 n) = false
is_ula (v6 n zone) = not zone && n / 2 ^ 121 == 126

abbrev pub is_refused : Addr → Bool
is_refused ip =
    is_loopback ip
    || is_private ip
    || is_link_local_unicast ip
    || is_link_local_multicast ip
    || is_unspecified ip
    || is_multicast ip
    || is_ula ip

unfoldable pub ip_is_blocked : Addr → Bool
unfolding unmap is_loopback is_private is_link_local_unicast is_link_local_multicast is_unspecified
    is_multicast is_ula
ip_is_blocked ip = is_refused (unmap ip)

-- a problem with a URL or an address
pub data Refusal : Type 0 where
  invalid_url : Refusal
  bad_scheme : String → Refusal
  no_host : Refusal
  has_credentials : Refusal
  blocked_private : Refusal

-- the parts of a URL, and the address if the host name is one
pub record WebUrl : Type 0 where
  pub scheme : String
  pub host : String
  pub has_user : Bool
  pub literal : Option Addr

-- checkDialedIP; none for an address that does not parse
unfoldable pub check_dialed_ip : Option Addr → Option Refusal
unfolding ip_is_blocked
check_dialed_ip none = some blocked_private
check_dialed_ip (some ip) = if ip_is_blocked ip then some blocked_private else none

abbrev pub literal_blocked : Option Addr → Bool
literal_blocked none = false
literal_blocked (some ip) = ip_is_blocked ip

-- URLAllowed, of the URL that was parsed
unfoldable pub url_allowed : Option WebUrl → Option Refusal
unfolding ip_is_blocked
url_allowed none = some invalid_url
url_allowed (some u) =
    if not (str_eq u.scheme "http") && not (str_eq u.scheme "https")
    then some (bad_scheme u.scheme)
    else if str_eq u.host ""
    then some no_host
    else if u.has_user
    then some has_credentials
    else if literal_blocked u.literal
    then some blocked_private
    else none
