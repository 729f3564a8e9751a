-- ===== src/Ssrf/Ipv6.antt =====
-- The IPv6 ranges of lib/security/ssrf.ts, and IPv4 addresses inside IPv6 ones.
use growth_sent.Prelude.{ℕ, ◌≡◌, true, ◌||◌, arith}
use growth_sent.Ssrf.{Bytes, is_blocked_ipv4, is_blocked_bytes, is_mapped, is_nat64, twelve_zeros}

this_network : (a b c : ℕ) → a ≡ 0 → is_blocked_ipv4 a b c ≡ true
unfolding is_blocked_ipv4
this_network a b c h = ground arith

-- An address in one of the three IPv6 forms that carry an IPv4 address (mapped, compatible, and
-- behind the well-known NAT64 prefix) is blocked exactly when the IPv4 address is.
pub embedded-is_blocked :
    (x : Bytes)
    → (is_mapped x || twelve_zeros x || is_nat64 x) ≡ true
    → is_blocked_bytes x ≡ is_blocked_ipv4 x.b12 x.b13 x.b14
unfolding is_blocked_bytes
embedded-is_blocked x h = ground (arith, this_network x.b12 x.b13 x.b14)
