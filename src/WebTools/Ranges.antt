-- ===== src/WebTools/Ranges.antt =====
-- The blocked addresses as ranges.
use nano_llm_proxy.Prelude.{
  ℕ, ◌+◌, ◌*◌, ◌^◌, ◌%◌, ◌<◌, ◌≡◌, sym, ◌∙◌, inl, inr, Bool, not, ◌&&◌, ◌||◌, ◌==◌, arith,
  if◌then◌else◌, ltb, leb, Bool-cases,
}
use nano_llm_proxy.WebTools.{
  Addr, v4, v6, is_4in6, unmap, is_loopback, is_private, is_link_local_unicast,
  is_link_local_multicast, is_unspecified, is_multicast, is_ula, is_refused, ip_is_blocked,
}

-- from `lo`, `size` addresses
abbrev pub in_range : ℕ → ℕ → ℕ → Bool
in_range lo size n = leb lo n && ltb n (lo + size)

-- a.b.0.0
abbrev pub at : ℕ → ℕ → ℕ
at a b = a * 2 ^ 24 + b * 2 ^ 16

abbrev pub blocked_v4 : ℕ → Bool
blocked_v4 n =
    n == 0
    || in_range (at 10 0) (2 ^ 24) n
    || in_range (at 127 0) (2 ^ 24) n
    || in_range (at 169 254) (2 ^ 16) n
    || in_range (at 172 16) (2 ^ 20) n
    || in_range (at 192 168) (2 ^ 16) n
    || in_range (at 224 0) (2 ^ 28) n

byte_range : (n : ℕ) → n < 2 ^ 32 → is_refused (v4 n) ≡ blocked_v4 n
unfolding is_loopback is_private is_link_local_unicast is_link_local_multicast is_unspecified
    is_multicast is_ula
byte_range n h = ground arith

abbrev pub blocked_v6 : ℕ → Bool → Bool
blocked_v6 n zone =
    (n == 0 && not zone)
    || n == 1
    || in_range (126 * 2 ^ 121) (2 ^ 121) n
    || in_range (1018 * 2 ^ 118) (2 ^ 118) n
    || in_range (255 * 2 ^ 120) (2 ^ 120) n

abbrev pub mapped : ℕ
mapped = 65535 * 2 ^ 32

abbrev pub in_blocked_range : Addr → Bool
in_blocked_range (v4 n) = blocked_v4 n
in_blocked_range (v6 n zone) =
    if in_range mapped (2 ^ 32) n then blocked_v4 (n % 2 ^ 32) else blocked_v6 n zone

-- An address has 32 or 128 bits.
abbrev pub IsAddr : Addr → Type 0
IsAddr (v4 n) = n < 2 ^ 32
IsAddr (v6 n zone) = n < 2 ^ 128

group_range : (n : ℕ) (zone : Bool) → n < 2 ^ 128 → is_refused (v6 n zone) ≡ blocked_v6 n zone
unfolding is_loopback is_private is_link_local_unicast is_link_local_multicast is_unspecified
    is_multicast is_ula
group_range n zone h = ground arith

mapped_range : (n : ℕ) → n < 2 ^ 128 → is_4in6 n ≡ in_range mapped (2 ^ 32) n
unfolding is_4in6
mapped_range n h = ground arith

-- The guard blocks exactly these addresses. Of IPv4: 0.0.0.0, 10.0.0.0/8, 127.0.0.0/8, 169.254.0.0/16,
-- 172.16.0.0/12, 192.168.0.0/16 and 224.0.0.0/4. Of IPv6: ::, ::1, fc00::/7, fe80::/10 and ff00::/8,
-- and in ::ffff:0:0/96 the addresses whose IPv4 address is blocked. The numbers have 32 and 128 bits.
pub ip_is_blocked-in_blocked_range :
    (ip : Addr) → IsAddr ip → ip_is_blocked ip ≡ in_blocked_range ip
unfolding ip_is_blocked unmap
ip_is_blocked-in_blocked_range (v4 n) h = byte_range n h
ip_is_blocked-in_blocked_range (v6 n zone) h = elim (Bool-cases (is_4in6 n)) [
  | inl e ↦
      let m : n % 2 ^ 32 < 2 ^ 32 = omega arith in
      let f = mapped_range n h in rw (e, sym f ∙ e) (byte_range (n % 2 ^ 32) m)
  | inr e ↦ let f = mapped_range n h in rw (e, sym f ∙ e) (group_range n zone h)
]
