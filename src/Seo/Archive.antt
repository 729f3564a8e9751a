-- ===== src/Seo/Archive.antt =====
-- Which findings lib/seo/engine.ts reports for a page, and which it never does for an archive.
use growth_sent.Prelude.{
  ◌≡◌, refl, Bool, true, false, not, ◌&&◌, Option, none, some, List, [], ◌∷◌, ◌++◌, String,
  if◌then◌else◌, length, all, ltb, arith,
}
use growth_sent.Crawler.{CrawledPageResult, ParsedPageData}
use growth_sent.Seo.{
  RuleId, robots_txt_missing, sitemap_missing, sitemap_url_error, slow_response_time, Issue, Crawl,
  site_issues, status_issues, timing_issues, noindex_issues, canonical_issues, title_issues,
  description_issues, heading_issues, jsonld_issues, data_issues, page_issues, pages_issues,
  shared_by, duplicate_issues, analyze_issues,
}

-- The rules that need a live answer of the site.
abbrev pub needs_live_site : RuleId → Bool
needs_live_site robots_txt_missing = true
needs_live_site sitemap_missing = true
needs_live_site sitemap_url_error = true
needs_live_site slow_response_time = true
needs_live_site _ = false

abbrev pub holds_for_archive : Issue → Bool
holds_for_archive i = not (needs_live_site i.rule_id)

all-append : (p : Issue → Bool) (xs ys : List Issue) → all p (xs ++ ys) ≡ (all p xs && all p ys)
all-append p [] ys = ground arith
all-append p (x ∷ xs) ys = ground (arith, all-append p xs ys)

module _ (crawl : Crawl) where
  canonical-archive :
      (url : String) (parsed : ParsedPageData)
      → all holds_for_archive (canonical_issues crawl url parsed) ≡ true
  unfolding canonical_issues
  canonical-archive url parsed = ground arith

  title-archive :
      (url : String) (parsed : ParsedPageData)
      → all holds_for_archive (title_issues crawl url parsed) ≡ true
  unfolding title_issues
  title-archive url parsed = ground arith

  parsed-archive :
      (url : String) (parsed : Option ParsedPageData)
      → all holds_for_archive (data_issues crawl url parsed) ≡ true
  unfolding data_issues noindex_issues description_issues heading_issues jsonld_issues
  parsed-archive url none = refl
  parsed-archive url (some parsed) =
      rw (all-append, all-append, all-append, all-append, all-append)
        (ground (arith, canonical-archive url parsed, title-archive url parsed))

  shared-archive :
      (title : String) (urls : List String) → all holds_for_archive (shared_by title urls) ≡ true
  shared-archive title [] = refl
  shared-archive title (url ∷ urls) = shared-archive title urls

  duplicate-archive :
      (titles : List (String × List String))
      → all holds_for_archive (duplicate_issues titles) ≡ true
  duplicate-archive [] = refl
  duplicate-archive ((title, urls) ∷ titles) = ground (
    arith,
    all-append holds_for_archive (if ltb 1 (length urls) then shared_by title urls else [])
        (duplicate_issues titles),
    shared-archive title urls,
    duplicate-archive titles,
  )

  module _ (no_discovery : crawl.supports_site_discovery ≡ false)
      (no_timing : crawl.supports_response_timing ≡ false) where
    pages-archive :
        (pages : List CrawledPageResult) → all holds_for_archive (pages_issues crawl pages) ≡ true
    unfolding pages_issues page_issues status_issues timing_issues
    pages-archive [] = refl
    pages-archive (page ∷ pages) =
        rw (all-append, all-append, all-append, parsed-archive, pages-archive pages) (ground arith)

    -- A crawl that can neither observe robots.txt and the sitemap nor measure response times, such as
    -- one of an archive, yields no finding on a missing robots.txt, on the sitemap or on a slow answer.
    pub analyze-archive : all holds_for_archive (analyze_issues crawl) ≡ true
    unfolding analyze_issues site_issues
    analyze-archive = rw (all-append, all-append, pages-archive, duplicate-archive) (ground arith)
