-- ===== src/Ssrf.antt =====
-- lib/security/ssrf.ts: which addresses and URLs the crawler may open. A text is the list of its
-- code points; the dotted quads of an address are read by Node, which is a parameter.
pub mod Ipv4
pub mod Ipv6
pub mod Address
pub mod Validate
pub mod Allowed
mod Tests
use growth_sent.Prelude.{
  ℕ, ◌-◌, ◌/◌, ◌%◌, ◌*◌, ◌+◌, Bool, true, false, not, ◌&&◌, ◌||◌, Option, none, some, List, [], ◌∷◌,
  ltb, leb, ◌==◌, if◌then◌else◌, all, any, length,
}

-- A row of tests that each return true.
abbrev pub one_of : List Bool → Bool
one_of [] = false
one_of (t ∷ ts) = t || one_of ts

unfoldable pub is_blocked_ipv4 : ℕ → ℕ → ℕ → Bool
is_blocked_ipv4 a b c = one_of (
    (a == 0)
    ∷ (a == 10)
    ∷ (a == 127)
    ∷ (a == 100 && leb 64 b && leb b 127)
    ∷ (a == 169 && b == 254)
    ∷ (a == 172 && leb 16 b && leb b 31)
    ∷ (a == 192 && b == 168)
    ∷ (a == 192 && b == 0)
    ∷ (a == 192 && b == 31 && c == 196)
    ∷ (a == 192 && b == 52 && c == 193)
    ∷ (a == 192 && b == 88 && c == 99)
    ∷ (a == 192 && b == 175 && c == 48)
    ∷ (a == 198 && (b == 18 || b == 19))
    ∷ (a == 198 && b == 51 && c == 100)
    ∷ (a == 203 && b == 0 && c == 113)
    ∷ (leb 224 a)
    ∷ [])

abbrev pub is_zero : ℕ → Bool
is_zero b = b == 0

-- The sixteen bytes of an address.
pub record Bytes : Type 0 where
  pub b0 : ℕ
  pub b1 : ℕ
  pub b2 : ℕ
  pub b3 : ℕ
  pub b4 : ℕ
  pub b5 : ℕ
  pub b6 : ℕ
  pub b7 : ℕ
  pub b8 : ℕ
  pub b9 : ℕ
  pub b10 : ℕ
  pub b11 : ℕ
  pub b12 : ℕ
  pub b13 : ℕ
  pub b14 : ℕ
  pub b15 : ℕ

-- The first ten and the first twelve bytes, and bytes 4 to 11, are zero.
abbrev pub ten_zeros : Bytes → Bool
ten_zeros x = all is_zero (x.b0 ∷ x.b1 ∷ x.b2 ∷ x.b3 ∷ x.b4 ∷ x.b5 ∷ x.b6 ∷ x.b7 ∷ x.b8 ∷ x.b9 ∷ [])

abbrev pub twelve_zeros : Bytes → Bool
twelve_zeros x = ten_zeros x && x.b10 == 0 && x.b11 == 0

abbrev pub middle_zeros : Bytes → Bool
middle_zeros x = all is_zero (x.b4 ∷ x.b5 ∷ x.b6 ∷ x.b7 ∷ x.b8 ∷ x.b9 ∷ x.b10 ∷ x.b11 ∷ [])

abbrev pub starts : Bytes → ℕ → ℕ → ℕ → ℕ → Bool
starts x p q r s = x.b0 == p && x.b1 == q && x.b2 == r && x.b3 == s

abbrev pub is_mapped : Bytes → Bool
is_mapped x = ten_zeros x && x.b10 == 0xff && x.b11 == 0xff

abbrev pub is_nat64 : Bytes → Bool
is_nat64 x = starts x 0x00 0x64 0xff 0x9b && middle_zeros x

-- The checks of `isBlockedIpv6` once the bytes are known. `& 0xfe` drops the lowest bit.
unfoldable pub is_blocked_bytes : Bytes → Bool
is_blocked_bytes x = one_of (
    (twelve_zeros x && x.b12 == 0 && x.b13 == 0 && x.b14 == 0 && (x.b15 == 0 || x.b15 == 1))
    ∷ (x.b0 / 2 * 2 == 0xfc || x.b0 == 0xfe || x.b0 == 0xff)
    ∷ starts x 0x20 0x01 0x0d 0xb8
    ∷ starts x 0x20 0x01 0x00 0x00
    ∷ (x.b0 == 0x20 && x.b1 == 0x02)
    ∷ starts x 0x01 0x00 0x00 0x00
    ∷ ((is_mapped x || twelve_zeros x || is_nat64 x) && is_blocked_ipv4 x.b12 x.b13 x.b14)
    ∷ [])
