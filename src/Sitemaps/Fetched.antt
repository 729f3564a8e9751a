-- ===== src/Sitemaps/Fetched.antt =====
-- lib/crawler/sitemap.ts: exactly which addresses are fetched, and with which status codes.
use growth_sent.Prelude.{
  ℕ, suc, ◌≡◌, refl, sym, ap, ◌∙◌, Bool, true, List, [], ◌∷◌, ◌++◌, if◌then◌else◌, if-elim, map,
  ◌≤◌, length, All, arith, Bool-cases, inl, inr,
}
use growth_sent.Ssrf.Address.{Text}
use growth_sent.Fetcher.{FetchResult}
use growth_sent.Sitemaps.{
  Found, has_body, visit_candidate, visit_candidates, visit_child, visit_children,
}
use growth_sent.Sitemaps.Missing.{document, document-fetched}

pub append_nil {ℓ} : {A : Type ℓ} (xs : List A) → xs ++ [] ≡ xs
append_nil [] = refl
append_nil (x ∷ xs) = ap (◌∷◌ x) (append_nil xs)

append_assoc {ℓ} : {A : Type ℓ} (xs ys zs : List A) → (xs ++ ys) ++ zs ≡ xs ++ (ys ++ zs)
append_assoc [] ys zs = refl
append_assoc (x ∷ xs) ys zs = ap (◌∷◌ x) (append_assoc xs ys zs)

-- The addresses that pass a test, in their order.
abbrev pub keep : (Text → Bool) → List Text → List Text
keep p [] = []
keep p (url ∷ urls) = let rest = keep p urls in if p url then url ∷ rest else rest

pub keep-All : (p : Text → Bool) (urls : List Text) → All (λ url. p url ≡ true) (keep p urls)
keep-All p [] = tt
keep-All p (url ∷ urls) =
    if-elim (All (λ url. p url ≡ true)) (p url) (λ passed. (passed, keep-All p urls))
      (λ barred. keep-All p urls)

pub keep-All_of :
    (P : Text → Type 0) (p : Text → Bool) (urls : List Text) → All P urls → All P (keep p urls)
keep-All_of P p [] h = tt
keep-All_of P p (url ∷ urls) (here, h) =
    if-elim (All P) (p url) (λ passed. (here, keep-All_of P p urls h))
      (λ barred. keep-All_of P p urls h)

pub length-keep : (p : Text → Bool) (urls : List Text) → length (keep p urls) ≤ length urls
length-keep p [] = omega arith
length-keep p (url ∷ urls) =
    if-elim (λ (r : List Text). length r ≤ suc (length urls)) (p url)
      (λ passed. omega (arith, length-keep p urls)) (λ barred. omega (arith, length-keep p urls))

-- A list that grows by one item, or stays, at each address.
grown :
    {A : Type 0} (p : Text → Bool) (item : Text → A) (url : Text) (urls : List Text)
    (before after last : List A)
    → after ≡ before ++ (if p url then item url ∷ [] else [])
    → last ≡ after ++ map item (keep p urls)
    → last ≡ before ++ map item (keep p (url ∷ urls))
grown p item url urls before after last one rest = elim (Bool-cases (p url)) [
  | inl passed ↦
      rest
      ∙ ap (λ xs. xs ++ map item (keep p urls)) one
      ∙ rw passed (append_assoc before (item url ∷ []) (map item (keep p urls)))
  | inr barred ↦
      rest
      ∙ ap (λ xs. xs ++ map item (keep p urls)) one
      ∙ rw barred (ap (λ xs. xs ++ map item (keep p urls)) (append_nil before))
]

map_same : (urls : List Text) → map (λ url. url) urls ≡ urls
map_same [] = refl
map_same (url ∷ urls) = ap (◌∷◌ url) (map_same urls)

module _ (fetch_url : Text → FetchResult) (in_scope : Text → Bool) where
  abbrev pub status : Text → ℕ
  status url = (fetch_url url).status_code

  candidate_grows :
      (url : Text) (f : Found)
      → ((visit_candidate fetch_url in_scope url f).fetched
          ≡ f.fetched ++ (if in_scope url then url ∷ [] else []))
        × ((visit_candidate fetch_url in_scope url f).candidate_status_codes
            ≡ f.candidate_status_codes ++ (if in_scope url then status url ∷ [] else []))
  unfolding visit_candidate
  candidate_grows url f = elim (Bool-cases (in_scope url)) [
    | inr outside ↦
        rw outside (sym (append_nil f.fetched), sym (append_nil f.candidate_status_codes))
    | inl inside ↦ rw inside (
        if-elim
          (λ (g : Found).
            (g.fetched ≡ f.fetched ++ (url ∷ []))
            × (g.candidate_status_codes ≡ f.candidate_status_codes ++ (status url ∷ [])))
          (has_body (fetch_url url)) {x = document fetch_url in_scope url f}
          (λ found. document-fetched fetch_url in_scope url f) (λ empty. (refl, refl)))
  ]

  mapped_candidates :
      (urls : List Text) (f : Found)
      → ((visit_candidates fetch_url in_scope urls f).fetched
          ≡ f.fetched ++ map (λ url. url) (keep in_scope urls))
        × ((visit_candidates fetch_url in_scope urls f).candidate_status_codes
            ≡ f.candidate_status_codes ++ map status (keep in_scope urls))
  unfolding visit_candidates
  mapped_candidates [] f = (sym (append_nil f.fetched), sym (append_nil f.candidate_status_codes))
  mapped_candidates (url ∷ urls) f =
      let (one, codes) = candidate_grows url f in
      let (rest, later) = mapped_candidates urls (visit_candidate fetch_url in_scope url f) in
      (
        grown in_scope (λ url. url) url urls f.fetched _ _ one rest,
        grown in_scope status url urls f.candidate_status_codes _ _ codes later,
      )

  -- The candidates in scope are fetched, and their codes are noted.
  pub candidates-fetched :
      (urls : List Text) (f : Found)
      → ((visit_candidates fetch_url in_scope urls f).fetched ≡ f.fetched ++ keep in_scope urls)
        × ((visit_candidates fetch_url in_scope urls f).candidate_status_codes
            ≡ f.candidate_status_codes ++ map status (keep in_scope urls))
  candidates-fetched urls f =
      let (one, codes) = mapped_candidates urls f in
      (one ∙ ap (◌++◌ f.fetched) (map_same (keep in_scope urls)), codes)

  child_grows :
      (url : Text) (f : Found)
      → ((visit_child fetch_url in_scope url f).fetched
          ≡ f.fetched ++ (if in_scope url then url ∷ [] else []))
        × ((visit_child fetch_url in_scope url f).sitemap_index_urls ≡ f.sitemap_index_urls)
  unfolding visit_child
  child_grows url f = elim (Bool-cases (in_scope url)) [
    | inr outside ↦ rw outside (sym (append_nil f.fetched), refl)
    | inl inside ↦ rw inside (
        if-elim
          (λ (g : Found).
            (g.fetched ≡ f.fetched ++ (url ∷ [])) × (g.sitemap_index_urls ≡ f.sitemap_index_urls))
          (has_body (fetch_url url)) (λ found. (refl, refl)) (λ empty. (refl, refl)))
  ]

  mapped_children :
      (urls : List Text) (f : Found)
      → ((visit_children fetch_url in_scope urls f).fetched
          ≡ f.fetched ++ map (λ url. url) (keep in_scope urls))
        × ((visit_children fetch_url in_scope urls f).sitemap_index_urls ≡ f.sitemap_index_urls)
  unfolding visit_children
  mapped_children [] f = (sym (append_nil f.fetched), refl)
  mapped_children (url ∷ urls) f =
      let (one, index) = child_grows url f in
      let (rest, same) = mapped_children urls (visit_child fetch_url in_scope url f) in
      (grown in_scope (λ url. url) url urls f.fetched _ _ one rest, same ∙ index)

  -- So are the child sitemaps in scope.
  pub children-fetched :
      (urls : List Text) (f : Found)
      → ((visit_children fetch_url in_scope urls f).fetched ≡ f.fetched ++ keep in_scope urls)
        × ((visit_children fetch_url in_scope urls f).sitemap_index_urls ≡ f.sitemap_index_urls)
  children-fetched urls f =
      let (one, index) = mapped_children urls f in
      (one ∙ ap (◌++◌ f.fetched) (map_same (keep in_scope urls)), index)
