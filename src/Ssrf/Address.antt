-- ===== src/Ssrf/Address.antt =====
-- Reading an IPv6 address in lib/security/ssrf.ts.
use growth_sent.Prelude.{
  lower, ℕ, zero, suc, ◌+◌, ◌*◌, ◌/◌, ◌%◌, ◌-◌, Bool, false, ◌||◌, ◌&&◌, not, Option, none, some,
  List, [], ◌∷◌, ◌++◌, map, ◌==◌, leb, ltb, if◌then◌else◌, length,
}
use growth_sent.Ssrf.{Bytes}

abbrev pub Text : Type 0
Text = List ℕ

abbrev pub contains : ℕ → Text → Bool
contains c [] = false
contains c (x ∷ s) = x == c || contains c s

abbrev push : ℕ → List Text → List Text
push c [] = (c ∷ []) ∷ []
push c (part ∷ parts) = (c ∷ part) ∷ parts

-- `s.split(sep)`: never empty.
unfoldable pub split_on : ℕ → Text → List Text
split_on sep [] = [] ∷ []
split_on sep (c ∷ s) = let rest = split_on sep s in if c == sep then [] ∷ rest else push c rest

-- What stands before and behind the first "::", if there is one.
pub cut_double : Text → Option (Text × Text)
cut_double [] = none
cut_double (c ∷ []) = none
cut_double (c ∷ e ∷ s) =
    let later = cut_double (e ∷ s) in
    if c == b':' && e == b':'
    then some ([], s)
    else elim later [ none ↦ none | some (left, right) ↦ some (c ∷ left, right) ]

-- The text up to and with the last colon, and the text behind it.
pub cut_last_colon : Text → Text × Text
cut_last_colon [] = ([], [])
cut_last_colon (c ∷ s) =
    let (head, tail) = cut_last_colon s in
    if contains b':' s then (c ∷ head, tail) else if c == b':' then (c ∷ [], s) else ([], c ∷ s)

pub hex_digit : ℕ → ℕ
hex_digit n = if ltb n 10 then n + b'0' else n - 10 + b'a'

-- `toString(16)` of a number below 65536.
pub to_hex : ℕ → Text
unfolding hex_digit
to_hex n =
    let last = hex_digit (n % 16) ∷ [] in
    let two = hex_digit (n / 16 % 16) ∷ last in
    let three = hex_digit (n / 256 % 16) ∷ two in
    if ltb n 16
    then last
    else if ltb n 256
    then two
    else if ltb n 4096
    then three
    else hex_digit (n / 4096 % 16) ∷ three

pub hex_value : ℕ → Option ℕ
hex_value c =
    if leb b'0' c && leb c b'9'
    then some (c - b'0')
    else if leb b'a' c && leb c b'f'
    then some (c - b'a' + 10)
    else none

-- `/^[0-9a-f]{1,4}$/` and `parseInt(group, 16)`.
parse_digits : ℕ → ℕ → Text → Option ℕ
unfolding hex_value
parse_digits room value [] = some value
parse_digits zero value (c ∷ s) = none
parse_digits (suc room) value (c ∷ s) = elim (hex_value c) [
  | none ↦ none
  | some v ↦ parse_digits room (value * 16 + v) s
]

pub parse_group : Text → Option ℕ
unfolding parse_digits
parse_group [] = none
parse_group s = parse_digits 4 0 s

pub parse_groups : List Text → Option (List ℕ)
unfolding parse_group
parse_groups [] = some []
parse_groups (g ∷ gs) = elim (parse_group g) [
  | none ↦ none
  | some v ↦ elim (parse_groups gs) [ none ↦ none | some vs ↦ some (v ∷ vs) ]
]

pub zeros : ℕ → List Text
zeros zero = []
zeros (suc n) = (b'0' ∷ []) ∷ zeros n

groups_of : Text → List Text
unfolding split_on
groups_of [] = []
groups_of s = split_on b':' s

-- The eight groups of a normalised text.
pub expand : Text → Option (List Text)
unfolding cut_double groups_of zeros
expand s = elim (cut_double s) [
  | none ↦ if length (groups_of s) == 8 then some (groups_of s) else none
  | some (left, right) ↦
      let used = length (groups_of left) + length (groups_of right) in
      if leb 8 used then none else some (groups_of left ++ zeros (8 - used) ++ groups_of right)
]

abbrev pub to_bytes : List ℕ → Option Bytes
to_bytes (g0 ∷ g1 ∷ g2 ∷ g3 ∷ g4 ∷ g5 ∷ g6 ∷ g7 ∷ []) = some (record {
  b0 = g0 / 256;
  b1 = g0 % 256;
  b2 = g1 / 256;
  b3 = g1 % 256;
  b4 = g2 / 256;
  b5 = g2 % 256;
  b6 = g3 / 256;
  b7 = g3 % 256;
  b8 = g4 / 256;
  b9 = g4 % 256;
  b10 = g5 / 256;
  b11 = g5 % 256;
  b12 = g6 / 256;
  b13 = g6 % 256;
  b14 = g7 / 256;
  b15 = g7 % 256;
})
to_bytes _ = none

-- `net.isIPv4` with the four numbers of the address.
module _ (ipv4_parts : Text → Option (ℕ × ℕ × ℕ × ℕ)) where
  pub without_quad : Text → Option Text
  unfolding cut_last_colon to_hex
  without_quad s =
      if not (contains b'.' s)
      then some s
      else let (head, quad) = cut_last_colon s in
        elim (ipv4_parts quad) [
          | none ↦ none
          | some (a, b, c, d) ↦ some (head ++ (to_hex (a * 256 + b) ++ b':' ∷ to_hex (c * 256 + d)))
        ]

  unfoldable pub ipv6_to_bytes : Text → Option Bytes
  unfolding without_quad expand parse_groups
  ipv6_to_bytes ip = elim (without_quad (map lower ip)) [
    | none ↦ none
    | some s ↦ elim (expand s) [
      | none ↦ none
      | some groups ↦ elim (parse_groups groups) [ none ↦ none | some values ↦ to_bytes values ]
    ]
  ]
