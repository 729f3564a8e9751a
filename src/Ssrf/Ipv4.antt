-- ===== src/Ssrf/Ipv4.antt =====
-- The IPv4 ranges of lib/security/ssrf.ts as blocks of addresses.
use growth_sent.Prelude.{
  ℕ, ◌+◌, ◌*◌, ◌/◌, ◌^◌, ◌-◌, ◌<◌, ◌≡◌, refl, Bool, ◌||◌, ◌&&◌, List, [], ◌∷◌, any, ◌==◌, leb,
  arith,
}
use growth_sent.Ssrf.{is_blocked_ipv4}

abbrev pub number : ℕ → ℕ → ℕ → ℕ → ℕ
number a b c d = a * 2 ^ 24 + b * 2 ^ 16 + c * 2 ^ 8 + d

-- Is the address in the block of the addresses that share its first `length` bits with `base`?
abbrev pub in_block : ℕ → ℕ × ℕ → Bool
in_block address (base, length) = address / 2 ^ (32 - length) == base / 2 ^ (32 - length)

-- The blocks that the crawler never opens, with the lengths of their prefixes.
abbrev pub blocks : List (ℕ × ℕ)
blocks =
    (number 0 0 0 0, 8)
    ∷ (number 10 0 0 0, 8)
    ∷ (number 127 0 0 0, 8)
    ∷ (number 100 64 0 0, 10)
    ∷ (number 169 254 0 0, 16)
    ∷ (number 172 16 0 0, 12)
    ∷ (number 192 168 0 0, 16)
    ∷ (number 192 0 0 0, 16)
    ∷ (number 192 31 196 0, 24)
    ∷ (number 192 52 193 0, 24)
    ∷ (number 192 88 99 0, 24)
    ∷ (number 192 175 48 0, 24)
    ∷ (number 198 18 0 0, 15)
    ∷ (number 198 51 100 0, 24)
    ∷ (number 203 0 113 0, 24)
    ∷ (number 224 0 0 0, 3)
    ∷ []

module _ (a b c d : ℕ) (ha : a < 256) (hb : b < 256) (hc : c < 256) (hd : d < 256) where
  zero_block : in_block (number a b c d) (number 0 0 0 0, 8) ≡ (a == 0)
  zero_block = ground arith

  ten_block : in_block (number a b c d) (number 10 0 0 0, 8) ≡ (a == 10)
  ten_block = ground arith

  loopback_block : in_block (number a b c d) (number 127 0 0 0, 8) ≡ (a == 127)
  loopback_block = ground arith

  shared_block :
      in_block (number a b c d) (number 100 64 0 0, 10) ≡ (a == 100 && leb 64 b && leb b 127)
  shared_block = ground arith

  link_local_block : in_block (number a b c d) (number 169 254 0 0, 16) ≡ (a == 169 && b == 254)
  link_local_block = ground arith

  private_172_block :
      in_block (number a b c d) (number 172 16 0 0, 12) ≡ (a == 172 && leb 16 b && leb b 31)
  private_172_block = ground arith

  private_192_block : in_block (number a b c d) (number 192 168 0 0, 16) ≡ (a == 192 && b == 168)
  private_192_block = ground arith

  ietf_block : in_block (number a b c d) (number 192 0 0 0, 16) ≡ (a == 192 && b == 0)
  ietf_block = ground arith

  as112_v4_block :
      in_block (number a b c d) (number 192 31 196 0, 24) ≡ (a == 192 && b == 31 && c == 196)
  as112_v4_block = ground arith

  amt_block :
      in_block (number a b c d) (number 192 52 193 0, 24) ≡ (a == 192 && b == 52 && c == 193)
  amt_block = ground arith

  relay_block :
      in_block (number a b c d) (number 192 88 99 0, 24) ≡ (a == 192 && b == 88 && c == 99)
  relay_block = ground arith

  as112_block :
      in_block (number a b c d) (number 192 175 48 0, 24) ≡ (a == 192 && b == 175 && c == 48)
  as112_block = ground arith

  benchmark_block :
      in_block (number a b c d) (number 198 18 0 0, 15) ≡ (a == 198 && (b == 18 || b == 19))
  benchmark_block = ground arith

  test_net_2_block :
      in_block (number a b c d) (number 198 51 100 0, 24) ≡ (a == 198 && b == 51 && c == 100)
  test_net_2_block = ground arith

  test_net_3_block :
      in_block (number a b c d) (number 203 0 113 0, 24) ≡ (a == 203 && b == 0 && c == 113)
  test_net_3_block = ground arith

  multicast_block : in_block (number a b c d) (number 224 0 0 0, 3) ≡ (leb 224 a)
  multicast_block = ground arith

  -- Of the addresses written as four bytes, exactly those in one of the sixteen blocks are blocked.
  pub is_blocked_ipv4-blocks : is_blocked_ipv4 a b c ≡ any (in_block (number a b c d)) blocks
  unfolding is_blocked_ipv4
  is_blocked_ipv4-blocks =
      rw
        (
          zero_block, ten_block, loopback_block, shared_block, link_local_block, private_172_block,
          private_192_block, ietf_block, as112_v4_block, amt_block, relay_block, as112_block,
          benchmark_block, test_net_2_block, test_net_3_block, multicast_block,
        )
        refl
