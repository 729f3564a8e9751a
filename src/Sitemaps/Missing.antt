-- ===== src/Sitemaps/Missing.antt =====
-- lib/crawler/sitemap.ts: what is found while every candidate is missing.
use growth_sent.Prelude.{
  ℕ, ◌≡◌, refl, sym, ap, subst, ◌∙◌, Bool, true, false, &&-both, List, [], ◌∷◌, ◌++◌, ◌==◌, if-elim,
  all, take, arith,
}
use growth_sent.Ssrf.Address.{Text}
use growth_sent.Fetcher.{FetchResult}
use growth_sent.Sitemaps.{
  Found, nothing_found, sort_locations, has_body, note_fetch, visit_candidate, visit_candidates,
  visit_child, visit_children, visit_sitemaps,
}
use growth_sent.Sitemaps.Locations.{locations}

abbrev pub is_missing : ℕ → Bool
is_missing code = code == 404

all-append :
    (p : ℕ → Bool) (xs ys : List ℕ)
    → all p (xs ++ ys) ≡ true
    → (all p xs ≡ true) × (all p ys ≡ true)
all-append p [] ys h = (refl, h)
all-append p (x ∷ xs) ys h =
    let (here, later) = &&-both (p x) (all p (xs ++ ys)) h in
    let (left, right) = all-append p xs ys later in (grind arith, right)

-- Sorting the locations of a document leaves the fetches as they are.
sort-fetched :
    (xml : Text) (urls : List Text) (f : Found)
    → ((sort_locations xml urls f).fetched ≡ f.fetched)
      × ((sort_locations xml urls f).candidate_status_codes ≡ f.candidate_status_codes)
sort-fetched xml [] f = (refl, refl)
sort-fetched xml (url ∷ urls) f =
    let (one, two) = sort-fetched xml urls _ in (one ∙ ground arith, two ∙ ground arith)

module _ (fetch_url : Text → FetchResult) (in_scope : Text → Bool) where
  -- A candidate that brought a document.
  abbrev pub document : Text → Found → Found
  document url f =
      sort_locations (fetch_url url).body (locations (fetch_url url).body)
        (record (note_fetch fetch_url in_scope url f) { found_any = true })

  pub document-fetched :
      (url : Text) (f : Found)
      → ((document url f).fetched ≡ f.fetched ++ (url ∷ []))
        × ((document url f).candidate_status_codes
            ≡ f.candidate_status_codes ++ ((fetch_url url).status_code ∷ []))
  document-fetched url f =
      sort-fetched (fetch_url url).body (locations (fetch_url url).body)
        (record (note_fetch fetch_url in_scope url f) { found_any = true })

  -- While every status so far is 404, nothing was found.
  abbrev pub IsEmptyHanded : Found → Type 0
  IsEmptyHanded f =
      all is_missing f.candidate_status_codes ≡ true
      → (f.found_any ≡ false) × (f.discovered_urls ≡ []) × (f.sitemap_index_urls ≡ [])

  visit_candidate-IsEmptyHanded :
      (url : Text) (f : Found)
      → IsEmptyHanded f
      → IsEmptyHanded (visit_candidate fetch_url in_scope url f)
  unfolding visit_candidate
  visit_candidate-IsEmptyHanded url f empty_handed =
      let code = (fetch_url url).status_code in
      if-elim IsEmptyHanded (in_scope url)
        (λ inside.
          if-elim IsEmptyHanded (has_body (fetch_url url)) {x = document url f}
            (λ found missing.
              let same = (document-fetched url f).1 in
              let (before, here) =
                all-append is_missing f.candidate_status_codes (code ∷ [])
                  (ap (all is_missing) (sym same) ∙ missing) in
              absurd (ground arith))
            (λ empty missing.
              empty_handed (all-append is_missing f.candidate_status_codes (code ∷ []) missing).0))
        (λ outside. empty_handed)

  visit_candidates-IsEmptyHanded :
      (urls : List Text) (f : Found)
      → IsEmptyHanded f
      → IsEmptyHanded (visit_candidates fetch_url in_scope urls f)
  unfolding visit_candidates
  visit_candidates-IsEmptyHanded [] f e = e
  visit_candidates-IsEmptyHanded (url ∷ urls) f e =
      visit_candidates-IsEmptyHanded urls _ (visit_candidate-IsEmptyHanded url f e)

  pub children-codes :
      (urls : List Text) (f : Found)
      → (visit_children fetch_url in_scope urls f).candidate_status_codes ≡ f.candidate_status_codes
  unfolding visit_children visit_child
  children-codes [] f = refl
  children-codes (url ∷ urls) f = children-codes urls _ ∙ ground arith

  pub visit_sitemaps-IsEmptyHanded :
      (candidates : List Text) → IsEmptyHanded (visit_sitemaps fetch_url in_scope candidates)
  unfolding visit_sitemaps visit_children
  visit_sitemaps-IsEmptyHanded candidates missing =
      let f = visit_candidates fetch_url in_scope candidates nothing_found in
      let (none_found, no_urls, no_index) =
        visit_candidates-IsEmptyHanded candidates nothing_found (λ e. (refl, refl, refl))
          (ap (all is_missing) (sym (children-codes (take 3 f.sitemap_index_urls) f)) ∙ missing) in
      subst
        (λ index.
          let g = visit_children fetch_url in_scope (take 3 index) f in
          (g.found_any ≡ false) × (g.discovered_urls ≡ []) × (g.sitemap_index_urls ≡ []))
        (sym no_index) (none_found, no_urls, no_index)
