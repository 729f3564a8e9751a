-- ===== src/Sitemaps/Listed.antt =====
-- lib/crawler/sitemap.ts: the addresses that the distinct ones of a list still list.
use growth_sent.Prelude.{
  ℕ, zero, suc, ◌≡◌, refl, Bool, true, false, List, [], ◌∷◌, if-elim, All, All-map, any, take,
  arith, same_text, Bool-cases, inl, inr,
}
use growth_sent.Ssrf.Address.{Text}
use growth_sent.Robots.{distinct, without}

-- Is an address among others?
abbrev pub lists : List Text → Text → Bool
lists urls url = any (same_text url) urls

same_text_refl : (s : Text) → same_text s s ≡ true
same_text_refl [] = refl
same_text_refl (c ∷ s) = ground (arith, same_text_refl s)

same_text_left : (a b c : Text) → same_text a b ≡ true → same_text c b ≡ same_text c a
same_text_left [] [] c e = refl
same_text_left (x ∷ a) (y ∷ b) [] e = refl
same_text_left (x ∷ a) (y ∷ b) (z ∷ c) e = ground (arith, same_text_left a b c)
same_text_left [] (y ∷ b) c e = absurd (ground arith)
same_text_left (x ∷ a) [] c e = absurd (ground arith)

without-lists :
    (x : Text) (ys : List Text) (url : Text)
    → same_text url x ≡ false
    → lists ys url ≡ true
    → lists (without x ys) url ≡ true
without-lists x [] url other h = h
without-lists x (y ∷ ys) url other h =
    if-elim (λ r. lists r url ≡ true) (same_text x y)
      (λ same. without-lists x ys url other (ground (arith, same_text_left x y url same)))
      (λ differs. ground (arith, without-lists x ys url other))

distinct-lists :
    (xs : List Text) (url : Text) → lists xs url ≡ true → lists (distinct xs) url ≡ true
distinct-lists [] url h = h
distinct-lists (x ∷ xs) url h = elim (Bool-cases (same_text url x)) [
  | inl same ↦ ground arith
  | inr other ↦
      let later = without-lists x (distinct xs) url other (distinct-lists xs url (ground arith)) in
      ground (arith, later)
]

-- The first addresses of a list are listed among its distinct ones.
pub take_listed : (n : ℕ) (xs : List Text) → All (λ url. lists (distinct xs) url ≡ true) (take n xs)
take_listed n xs = All-map (λ url h. distinct-lists xs url h) (take n xs) (taken n xs)
  where
    taken : (n : ℕ) (xs : List Text) → All (λ url. lists xs url ≡ true) (take n xs)
    taken n [] = tt
    taken zero (x ∷ xs) = tt
    taken (suc n) (x ∷ xs) = (
      ground (arith, same_text_refl x),
      All-map (λ url (h : lists xs url ≡ true). ground arith) (take n xs) (taken n xs),
    )
