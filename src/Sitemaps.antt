-- ===== src/Sitemaps.antt =====
-- lib/crawler/sitemap.ts: the sitemaps of a site. `fetchUrl`, the URL parser and the public suffix
-- list are parameters; the addresses that were fetched are part of the state.
mod Locations
pub mod Missing
pub mod Fetched
pub mod Listed
pub mod Scope
mod Tests
use growth_sent.Prelude.{
  ℕ, Bool, true, false, not, ◌&&◌, ◌||◌, Option, none, some, List, [], ◌∷◌, ◌++◌, ◌==◌,
  if◌then◌else◌, codes, all, take, is_empty, occurs_in,
}
use growth_sent.Ssrf.Address.{Text}
use growth_sent.Ssrf.Validate.{ends_with}
use growth_sent.Robots.{distinct}
use growth_sent.Fetcher.{FetchResult}
use growth_sent.Domains.{Url, origin_of, is_url_within_crawl_origin_scope}
use growth_sent.Sitemaps.Locations.{locations}

pub data SitemapError : Type 0 where
  sitemap_outside_scope child_outside_scope : SitemapError
  child_returned : ℕ → SitemapError

pub record SitemapParseResult : Type 0 where
  pub exists : Bool
  pub accessible : Bool
  pub status_code : ℕ
  pub missing_confirmed : Bool
  pub urls : List Text
  pub sitemap_index_urls : List Text
  pub errors : List SitemapError

-- The variables of `fetchAndParseSitemap`, and the addresses that were fetched.
pub record Found : Type 0 where
  pub discovered_urls : List Text
  pub sitemap_index_urls : List Text
  pub errors : List SitemapError
  pub found_any : Bool
  pub last_status_code : ℕ
  pub candidate_status_codes : List ℕ
  pub fetched : List Text

abbrev pub nothing_found : Found
nothing_found = record {
  discovered_urls = [];
  sitemap_index_urls = [];
  errors = [];
  found_any = false;
  last_status_code = 0;
  candidate_status_codes = [];
  fetched = [];
}

abbrev is_xml : Text → Bool
is_xml url = ends_with url (codes ".xml")

-- The locations of a document are child sitemaps or pages.
abbrev pub sort_locations : Text → List Text → Found → Found
sort_locations xml [] f = f
sort_locations xml (url ∷ urls) f = sort_locations xml urls (
    if is_xml url || occurs_in (codes "<sitemap>") xml
    then record f { sitemap_index_urls = f.sitemap_index_urls ++ (url ∷ []) }
    else record f { discovered_urls = f.discovered_urls ++ (url ∷ []) })

abbrev pub has_body : FetchResult → Bool
has_body result = result.status_code == 200 && not (is_empty result.body)

module _ (fetch_url : Text → FetchResult) (in_scope : Text → Bool) where
  abbrev pub note_fetch : Text → Found → Found
  note_fetch url f = record f {
    last_status_code = (fetch_url url).status_code;
    candidate_status_codes = f.candidate_status_codes ++ ((fetch_url url).status_code ∷ []);
    fetched = f.fetched ++ (url ∷ []);
  }

  unfoldable pub visit_candidate : Text → Found → Found
  visit_candidate url f =
      if in_scope url
      then if has_body (fetch_url url)
        then sort_locations (fetch_url url).body (locations (fetch_url url).body)
            (record (note_fetch url f) { found_any = true })
        else note_fetch url f
      else record f { errors = f.errors ++ (sitemap_outside_scope ∷ []) }

  unfoldable pub visit_candidates : List Text → Found → Found
  unfolding visit_candidate
  visit_candidates [] f = f
  visit_candidates (url ∷ urls) f = visit_candidates urls (visit_candidate url f)

  -- The pages of a child sitemap.
  abbrev pub child_pages : List Text → List Text
  child_pages [] = []
  child_pages (url ∷ urls) =
      let rest = child_pages urls in if not (is_xml url) && in_scope url then url ∷ rest else rest

  unfoldable pub visit_child : Text → Found → Found
  visit_child url f =
      if in_scope url
      then if has_body (fetch_url url)
        then record f {
          discovered_urls = f.discovered_urls ++ child_pages (locations (fetch_url url).body);
          fetched = f.fetched ++ (url ∷ []);
        }
        else record f {
          errors = f.errors ++ (child_returned (fetch_url url).status_code ∷ []);
          fetched = f.fetched ++ (url ∷ []);
        }
      else record f { errors = f.errors ++ (child_outside_scope ∷ []) }

  unfoldable pub visit_children : List Text → Found → Found
  unfolding visit_child
  visit_children [] f = f
  visit_children (url ∷ urls) f = visit_children urls (visit_child url f)

  -- The candidates, then at most three child sitemaps.
  unfoldable pub visit_sitemaps : List Text → Found
  unfolding visit_candidates visit_children
  visit_sitemaps candidates =
      let f = visit_candidates candidates nothing_found in
      visit_children (take 3 f.sitemap_index_urls) f

abbrev pub parse_result : List Text → Found → SitemapParseResult
parse_result custom_sitemap_urls f = record {
  exists = f.found_any;
  accessible = f.found_any;
  status_code = f.last_status_code;
  missing_confirmed =
      none_of custom_sitemap_urls
      && not (no_code f.candidate_status_codes)
      && all (λ code. code == 404) f.candidate_status_codes;
  urls = distinct f.discovered_urls;
  sitemap_index_urls = distinct f.sitemap_index_urls;
  errors = f.errors;
}
  where
    none_of : List Text → Bool
    none_of [] = true
    none_of _ = false

    no_code : List ℕ → Bool
    no_code [] = true
    no_code _ = false

-- The standard places, if no others are given.
abbrev pub candidate_urls : Url → List Text → List Text
candidate_urls origin [] =
    (origin_of origin ++ codes "sitemap.xml") ∷ (origin_of origin ++ codes "sitemap_index.xml") ∷ []
candidate_urls origin (url ∷ urls) = distinct (url ∷ urls)

module _ (parse_url : Text → Option Url) (get_domain : Text → Option Text) where
  unfoldable pub is_sitemap_url_within_audited_scope : Text → Text → Bool
  is_sitemap_url_within_audited_scope origin_url sitemap_url =
      is_url_within_crawl_origin_scope get_domain
        (λ url. elim (parse_url url) [ none ↦ none | some u ↦ some u.hostname ]) origin_url
        sitemap_url

  -- `none` if the origin is no URL.
  unfoldable pub fetch_and_parse_sitemap :
      (Text → FetchResult) → Text → List Text → Option (SitemapParseResult × List Text)
  unfolding visit_sitemaps
  fetch_and_parse_sitemap fetch_url origin_url custom_sitemap_urls = elim (parse_url origin_url) [
    | none ↦ none
    | some origin ↦
        let f =
          visit_sitemaps fetch_url (is_sitemap_url_within_audited_scope origin_url)
            (candidate_urls origin custom_sitemap_urls) in
        some (parse_result custom_sitemap_urls f, f.fetched)
  ]
