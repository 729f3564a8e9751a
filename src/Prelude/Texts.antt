-- ===== src/Prelude/Texts.antt =====
-- The code points of a text, and document keys told apart by one of them.
use Prim.Native.Char.{Char, char, code, nul, IsLt}
use Prim.Native.Nat.{ℕ, zero, suc, ◌+◌, ◌/◌, ◌%◌, compare, Ordering}
use Prim.Native.String
use Prim.Native.String.{String, ◌++◌ as ◌<>◌}
use growth_sent.Prelude.Lists.{any}
use growth_sent.Prelude.Tests.{ltb, leb, ◌==◌, if◌then◌else◌}
use mathlib.Core.Bool.{Bool, true, false, ◌&&◌, ◌||◌}
use mathlib.Core.Path.{◌≡◌, refl, ap}
use mathlib.Core.Option.{Option, none, some}
use mathlib.Core.List.{List, [], ◌∷◌, ◌++◌, map}
use text.Mathlib.Text.{◌==◌ as ◌===◌}
use text.Mathlib.TextLemmas.{nil-append, cons-append}

abbrev pub codes : String → List ℕ
codes String.[] = []
codes (String.◌∷◌ c s) = code c ∷ codes s

abbrev pub get_elem? : List ℕ → ℕ → Option ℕ
get_elem? [] i = none
get_elem? (x ∷ xs) zero = some x
get_elem? (x ∷ xs) (suc i) = get_elem? xs i

pub codes-append : (s t : String) → codes (String.◌++◌ s t) ≡ codes s ++ codes t
codes-append String.[] t = rw nil-append refl
codes-append (String.◌∷◌ c s) t = rw cons-append (ap (◌∷◌ (code c)) (codes-append s t))

abbrev digit : ℕ → String
digit n =
    if n == 0
    then "0"
    else if n == 1
    then "1"
    else if n == 2
    then "2"
    else if n == 3
    then "3"
    else if n == 4
    then "4"
    else if n == 5
    then "5"
    else if n == 6
    then "6"
    else if n == 7
    then "7"
    else if n == 8
    then "8"
    else "9"

-- A number as JavaScript prints it; a number has at most as many digits as its value plus one.
decimal_fuel : ℕ → ℕ → String
decimal_fuel zero n = ""
decimal_fuel (suc fuel) n =
    let rest = String.◌++◌ (decimal_fuel fuel (n / 10)) (digit (n % 10)) in
    if ltb n 10 then digit n else rest

unfoldable pub decimal : ℕ → String
unfolding decimal_fuel
decimal n = decimal_fuel (suc n) n

decimal_test : decimal 4070 ≡ "4070"
unfolding decimal
decimal_test = refl

abbrev pub is_prefix : List ℕ → List ℕ → Bool
is_prefix [] s = true
is_prefix (x ∷ p) [] = false
is_prefix (x ∷ p) (y ∷ s) = x == y && is_prefix p s

abbrev pub occurs_in : List ℕ → List ℕ → Bool
occurs_in p [] = is_prefix p []
occurs_in p (y ∷ s) = is_prefix p (y ∷ s) || occurs_in p s

-- `text.startsWith(prefix)`
abbrev pub starts_with : String → String → Bool
starts_with text prefix = is_prefix (codes prefix) (codes text)

-- `text.includes(part)`
abbrev pub includes : String → String → Bool
includes text part = occurs_in (codes part) (codes text)

-- `toLowerCase` of the ASCII letters.
abbrev pub lower : ℕ → ℕ
lower c = if leb b'A' c && leb c b'Z' then c + 32 else c

-- `text.toLowerCase().includes(part)`
abbrev pub includes_in_lower_case : String → String → Bool
includes_in_lower_case text part = occurs_in (codes part) (map lower (codes text))

-- `text.length`: a code point beyond the first 65536 has two units.
abbrev units : List ℕ → ℕ
units [] = 0
units (c ∷ s) = (if ltb c 65536 then 1 else 2) + units s

unfoldable pub text_length : String → ℕ
text_length text = units (codes text)

-- `parts.join(separator)`
abbrev pub join : String → List String → String
join separator [] = ""
join separator (part ∷ []) = part
join separator (part ∷ next ∷ parts) =
    let rest = join separator (next ∷ parts) in String.◌++◌ part (String.◌++◌ separator rest)

-- Equality of texts given by their code points.
abbrev pub same_text : List ℕ → List ℕ → Bool
same_text [] [] = true
same_text (x ∷ s) (y ∷ t) = x == y && same_text s t
same_text _ _ = false

-- Does an optional field have this text?
abbrev pub is_text : Option String → String → Bool
is_text none s = false
is_text (some field) s = field === s

abbrev pub is_empty : List ℕ → Bool
is_empty [] = true
is_empty _ = false

-- The blanks that `trim` takes off.
abbrev pub is_blank : ℕ → Bool
is_blank c =
    (leb 9 c && leb c 13)
    || any (λ blank. c == blank) (32 ∷ 160 ∷ 5760 ∷ 8232 ∷ 8233 ∷ 8239 ∷ 8287 ∷ 12288 ∷ 65279 ∷ [])
    || (leb 8192 c && leb c 8202)

abbrev trim_start : List ℕ → List ℕ
trim_start [] = []
trim_start (c ∷ s) = let rest = trim_start s in if is_blank c then rest else c ∷ s

-- A blank stays exactly where something follows it.
abbrev trim_end : List ℕ → List ℕ
trim_end [] = []
trim_end (c ∷ s) = let rest = trim_end s in if is_blank c && is_empty rest then [] else c ∷ rest

abbrev pub trim : List ℕ → List ℕ
trim s = trim_end (trim_start s)

-- `IsScalar n` of three comparisons of `n`: below the surrogates, or between them and the end.
abbrev Both : Ordering → Ordering → Type 0
Both Ordering.lt below = IsLt below
Both Ordering.eq _ = ⊥
Both Ordering.gt _ = ⊥

abbrev Scalar : Ordering → Ordering → Ordering → Type 0
Scalar Ordering.lt _ _ = Unit
Scalar Ordering.eq above below = Both above below
Scalar Ordering.gt above below = Both above below

both_is : (above below : Ordering) → Dec (Both above below)
both_is Ordering.lt Ordering.lt = yes tt
both_is Ordering.lt Ordering.eq = no (λ p. p)
both_is Ordering.lt Ordering.gt = no (λ p. p)
both_is Ordering.eq below = no (λ p. p)
both_is Ordering.gt below = no (λ p. p)

scalar_is : (low above below : Ordering) → Dec (Scalar low above below)
unfolding both_is
scalar_is Ordering.lt above below = yes tt
scalar_is Ordering.eq above below = both_is above below
scalar_is Ordering.gt above below = both_is above below

-- The character with this code point; there is none for a surrogate.
char_of : ℕ → Char
unfolding scalar_is
char_of n = elim (scalar_is (compare n 55296) (compare 57343 n) (compare n 1114112)) [
  | yes scalar ↦ char n scalar
  | no _ ↦ nul
]

-- The text with these code points.
unfoldable pub from_codes : List ℕ → String
unfolding char_of
from_codes [] = ""
from_codes (c ∷ s) = String.◌∷◌ (char_of c) (from_codes s)

-- `text.toLowerCase()`, for the ASCII letters.
unfoldable pub to_lower_case : String → String
unfolding from_codes
to_lower_case text = from_codes (map lower (codes text))

to_lower_case_test : to_lower_case "Ab0Z" ≡ "ab0z"
unfolding to_lower_case from_codes
to_lower_case_test = refl
