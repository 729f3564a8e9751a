-- ===== src/Sitemaps/Scope.antt =====
-- lib/crawler/sitemap.ts: what is fetched, and when a sitemap is confirmed to be missing.
use growth_sent.Prelude.{
  ℕ, ◌≤◌, ◌≡◌, refl, sym, ap, subst, ◌∙◌, Bool, true, false, ◌&&◌, not, Option, some, List, [], ◌∷◌,
  ◌++◌, ◌==◌, all, All, All-append, length, length-take, take, map, codes, arith,
}
use growth_sent.Ssrf.Address.{Text}
use growth_sent.Robots.{distinct}
use growth_sent.Fetcher.{FetchResult}
use growth_sent.Domains.{Url, origin_of}
use growth_sent.Sitemaps.{
  Found, nothing_found, visit_candidates, visit_sitemaps, parse_result, candidate_urls,
  SitemapParseResult, is_sitemap_url_within_audited_scope, fetch_and_parse_sitemap,
}
use growth_sent.Sitemaps.Missing.{visit_sitemaps-IsEmptyHanded, children-codes}
use growth_sent.Sitemaps.Fetched.{
  keep, keep-All, keep-All_of, length-keep, status, candidates-fetched, children-fetched,
}
use growth_sent.Sitemaps.Listed.{lists, take_listed}

abbrev pub is_nil {ℓ} : {A : Type ℓ} → List A → Bool
is_nil [] = true
is_nil _ = false

-- The two standard places of a sitemap, or each of the addresses that were given.
abbrev pub places : Url → List Text → List Text
places origin [] =
    (origin_of origin ++ codes "sitemap.xml") ∷ (origin_of origin ++ codes "sitemap_index.xml") ∷ []
places origin (url ∷ urls) = distinct (url ∷ urls)

all-status :
    (code_of : Text → ℕ) (urls : List Text)
    → all (λ code. code == 404) (map code_of urls) ≡ all (λ url. code_of url == 404) urls
all-status code_of [] = refl
all-status code_of (url ∷ urls) = ap (◌&&◌ (code_of url == 404)) (all-status code_of urls)

-- The conclusion that a sitemap is missing, from the codes of the addresses that were tried.
confirmed_lem :
    (code_of : Text → ℕ) (custom urls : List Text) (f : Found)
    → f.candidate_status_codes ≡ map code_of urls
    → (parse_result custom f).missing_confirmed
      ≡ (is_nil custom && not (is_nil urls) && all (λ url. code_of url == 404) urls)
confirmed_lem code_of (url ∷ given) urls f same = refl
confirmed_lem code_of [] [] f same = rw same refl
confirmed_lem code_of [] (url ∷ urls) f same = rw same (all-status code_of (url ∷ urls))

module _ (fetch_url : Text → FetchResult) (in_scope : Text → Bool) (origin : Url)
    (custom : List Text) where
  -- The places that are in scope.
  abbrev pub tried : List Text
  tried = keep in_scope (places origin custom)

  -- What a result says with what was fetched: `children` are the child sitemaps.
  pub record IsParsed (result : SitemapParseResult × List Text) : Type 0 where
    pub children : List Text
    pub fetched : result.1 ≡ tried ++ children
    pub few : length children ≤ 3
    pub listed : All (λ url. lists result.0.sitemap_index_urls url ≡ true) children
    pub scoped : All (λ url. in_scope url ≡ true) result.1
    pub missing : result.0.missing_confirmed ≡ (
        is_nil custom
        && not (is_nil tried)
        && all (λ url. (fetch_url url).status_code == 404) tried)
    pub nothing :
        result.0.missing_confirmed ≡ true
        → (result.0.exists ≡ false) × (result.0.urls ≡ []) × (result.0.sitemap_index_urls ≡ [])

  abbrev candidates : List Text
  candidates = candidate_urls origin custom

  candidates-places : candidates ≡ places origin custom
  candidates-places = elim custom [ [] ↦ refl | url ∷ urls ↦ refl ]

  abbrev tried_found : Found
  tried_found = visit_candidates fetch_url in_scope candidates nothing_found

  abbrev children_of : List Text
  children_of = keep in_scope (take 3 tried_found.sitemap_index_urls)

  abbrev found : Found
  found = visit_sitemaps fetch_url in_scope candidates

  tried_fetched : tried_found.fetched ≡ tried
  tried_fetched =
      (candidates-fetched fetch_url in_scope candidates nothing_found).0
      ∙ ap (keep in_scope) candidates-places

  found_fetched : found.fetched ≡ tried ++ children_of
  unfolding visit_sitemaps
  found_fetched =
      (children-fetched fetch_url in_scope (take 3 tried_found.sitemap_index_urls) tried_found).0
      ∙ ap (λ xs. xs ++ children_of) tried_fetched

  found_index : found.sitemap_index_urls ≡ tried_found.sitemap_index_urls
  unfolding visit_sitemaps
  found_index =
      (children-fetched fetch_url in_scope (take 3 tried_found.sitemap_index_urls) tried_found).1

  found_codes : found.candidate_status_codes ≡ map (status fetch_url in_scope) tried
  unfolding visit_sitemaps
  found_codes =
      children-codes fetch_url in_scope (take 3 tried_found.sitemap_index_urls) tried_found
      ∙ (candidates-fetched fetch_url in_scope candidates nothing_found).1
      ∙ ap (λ urls. map (status fetch_url in_scope) (keep in_scope urls)) candidates-places

  found-IsParsed : IsParsed (parse_result custom found, found.fetched)
  found-IsParsed = record {
    children = children_of;
    fetched = found_fetched;
    few = omega (
      arith,
      length-keep in_scope (take 3 tried_found.sitemap_index_urls),
      length-take 3 tried_found.sitemap_index_urls,
    );
    listed =
        subst (λ index. All (λ url. lists (distinct index) url ≡ true) children_of)
          (sym found_index)
          (keep-All_of (λ url. lists (distinct tried_found.sitemap_index_urls) url ≡ true) in_scope
            (take 3 tried_found.sitemap_index_urls) (take_listed 3 tried_found.sitemap_index_urls));
    scoped = subst (All (λ url. in_scope url ≡ true)) (sym found_fetched) (
        All-append (λ url. in_scope url ≡ true) tried children_of
          (keep-All in_scope (places origin custom))
          (keep-All in_scope (take 3 tried_found.sitemap_index_urls)));
    missing = confirmed_lem (status fetch_url in_scope) custom tried found found_codes;
    nothing = λ missing.
        let (none_found, no_urls, no_index) =
          visit_sitemaps-IsEmptyHanded fetch_url in_scope candidates (grind arith) in
        (none_found, ap distinct no_urls, ap distinct no_index);
  }

-- The addresses that are fetched for a sitemap are, in this order, the standard places, or the
-- addresses that were given, as far as they are in the scope of the audited site, and at most three
-- child sitemaps, all in scope and listed in the result. A sitemap is confirmed to be missing
-- exactly if no address was given, a standard place is in scope, and each that is returned status
-- 404; then none exists, and no page and no child sitemap was found.
pub fetch_and_parse-IsParsed :
    (fetch_url : Text → FetchResult) (parse_url : Text → Option Url)
    (get_domain : Text → Option Text) (origin_url : Text) (custom_sitemap_urls : List Text)
    (origin : Url)
    → parse_url origin_url ≡ some origin
    → (result : SitemapParseResult × List Text) × (fetch_and_parse_sitemap parse_url get_domain
          fetch_url origin_url custom_sitemap_urls
        ≡ some result)
      × IsParsed fetch_url
          (is_sitemap_url_within_audited_scope parse_url get_domain origin_url)
          origin
          custom_sitemap_urls
          result
unfolding fetch_and_parse_sitemap
fetch_and_parse-IsParsed fetch_url parse_url get_domain origin_url custom origin parsed =
    let in_scope = is_sitemap_url_within_audited_scope parse_url get_domain origin_url in
    (_, rw (fetch_and_parse_sitemap, parsed) refl, found-IsParsed fetch_url in_scope origin custom)
