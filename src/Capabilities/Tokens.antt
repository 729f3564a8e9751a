-- ===== src/Capabilities/Tokens.antt =====
-- Which bearer capability lib/security/access-token.ts accepts.
use growth_sent.Prelude.{
  ℕ, ◌+◌, true, false, ◌&&◌, not, some, List, [], ◌∷◌, String, ◌≡◌, refl, ◌===◌, ◌==◌, arith, codes,
  all, length, same_text, map, lower, ap, ap₂, ◌<◌, ◌*◌, ◌-◌, sym, ◌∙◌, &&-both, ==→≡, eq_iff,
  Bool-cases, inl, inr,
}
use growth_sent.Capabilities.{
  is_lower_hex, is_hex, nibble, from_hex, Sha256, hash_opaque_access_token,
  verify_opaque_access_token,
}

nibble-lower :
    (a b : ℕ) → is_lower_hex a ≡ true → is_hex b ≡ true → nibble a ≡ nibble b → lower b ≡ a
nibble-lower a b h k e = ground arith

nibble_bounds : (a : ℕ) → is_hex a ≡ true → nibble a < 16
nibble_bounds a h = ground arith

is_hex_lower : (a : ℕ) → is_lower_hex a ≡ true → is_hex a ≡ true
is_hex_lower a h = ground arith

pair-lower :
    (a b c d : ℕ)
    → is_lower_hex a ≡ true
    → is_lower_hex b ≡ true
    → is_hex c ≡ true
    → is_hex d ≡ true
    → nibble a * 16 + nibble b ≡ nibble c * 16 + nibble d
    → (lower c ≡ a) × (lower d ≡ b)
pair-lower a b c d ha hb hc hd e =
    let la = nibble_bounds a (is_hex_lower a ha) in
    let lb = nibble_bounds b (is_hex_lower b hb) in
    let lc = nibble_bounds c hc in
    let ld = nibble_bounds d hd in
    (
      nibble-lower a c ha hc (omega (arith, e, la, lb, lc, ld)),
      nibble-lower b d hb hd (omega (arith, e, la, lb, lc, ld)),
    )

from_hex-pair :
    (a b : ℕ) (s : List ℕ)
    → is_hex a ≡ true
    → is_hex b ≡ true
    → from_hex (a ∷ b ∷ s) ≡ (nibble a * 16 + nibble b) ∷ from_hex s
unfolding from_hex
from_hex-pair a b s ha hb = rw (ha, hb) refl

-- Two texts of digits, the first in lower case, decode alike only if they are the same up to case.
from_hex-lower :
    (s t : List ℕ)
    → all is_lower_hex s ≡ true
    → all is_hex t ≡ true
    → length s ≡ length t
    → (k : ℕ) × (length s ≡ k + k)
    → same_text (from_hex s) (from_hex t) ≡ true
    → map lower t ≡ s
unfolding from_hex
from_hex-lower [] [] h k e p same = refl
from_hex-lower [] (b ∷ t) h k e p same = absurd (omega (arith, e))
from_hex-lower (a ∷ s) [] h k e p same = absurd (omega (arith, e))
from_hex-lower (a ∷ []) (b ∷ t) h k e (n, p) same = absurd (omega (arith, p))
from_hex-lower (a ∷ b ∷ s) (c ∷ []) h k e p same = absurd (omega (arith, e))
from_hex-lower (a ∷ b ∷ s) (c ∷ d ∷ t) h k e (n, p) same =
    let (ha, hs') = &&-both (is_lower_hex a) (is_lower_hex b && all is_lower_hex s) h in
    let (hb, hs) = &&-both (is_lower_hex b) (all is_lower_hex s) hs' in
    let (kc, kt') = &&-both (is_hex c) (is_hex d && all is_hex t) k in
    let (kd, kt) = &&-both (is_hex d) (all is_hex t) kt' in
    let (first, others) =
      &&-both (nibble a * 16 + nibble b == nibble c * 16 + nibble d)
        (same_text (from_hex s) (from_hex t))
        (sym (
            ap₂ same_text (from_hex-pair a b s (is_hex_lower a ha) (is_hex_lower b hb))
              (from_hex-pair c d t kc kd))
          ∙ same) in
    let (lc, ld) = pair-lower a b c d ha hb kc kd (==→≡ _ _ first) in
    ap₂ ◌∷◌ lc
      (ap₂ ◌∷◌ ld (from_hex-lower s t hs kt (omega (arith, e)) (n - 1, omega (arith, p)) others))

same_text_refl : (s : List ℕ) → same_text s s ≡ true
same_text_refl [] = refl
same_text_refl (c ∷ s) = ground (arith, same_text_refl s)

is_hex-all : (s : List ℕ) → all is_lower_hex s ≡ true → all is_hex s ≡ true
is_hex-all [] h = refl
is_hex-all (c ∷ s) h = ground (arith, is_hex-all s)

module _ (h : Sha256) where
  -- A capability that is not empty is accepted against the digest that was stored for it.
  pub verify-hash :
      (token : String)
      → (token === "") ≡ false
      → verify_opaque_access_token h (some token) (some (hash_opaque_access_token h token)) ≡ true
  unfolding verify_opaque_access_token hash_opaque_access_token
  verify-hash token given =
      let digest = h.digest token in
      let filled : (digest === "") ≡ false = elim (Bool-cases (digest === "")) [
        | inr some_text ↦ some_text
        | inl empty ↦ absurd (
            omega (
              arith,
              sym (h.digest-length token) ∙ ap (λ s. length (codes s)) ((eq_iff digest "").0 empty),
            ))
      ] in
      ground (
        arith,
        filled,
        h.digest-length token,
        is_hex-all (codes digest) (h.digest-all token),
        same_text_refl (from_hex (codes digest)),
      )

  -- A capability is accepted only if the stored digest is its own, up to the case of the digits.
  pub verify-digest :
      (token stored : String)
      → verify_opaque_access_token h (some token) (some stored) ≡ true
      → map lower (codes stored) ≡ codes (hash_opaque_access_token h token)
  unfolding verify_opaque_access_token hash_opaque_access_token
  verify-digest token stored e =
      let given = not (token === "") && not (stored === "") in
      let long = length (codes stored) == 64 in
      let (checked, same) = &&-both (given && (long && all is_hex (codes stored))) _ e in
      let (_, digits) = &&-both given (long && all is_hex (codes stored)) checked in
      let (full, hex) = &&-both long (all is_hex (codes stored)) digits in
      from_hex-lower (codes (h.digest token)) (codes stored) (h.digest-all token) hex
        (h.digest-length token ∙ sym (==→≡ (length (codes stored)) 64 full))
        (32, h.digest-length token) same
