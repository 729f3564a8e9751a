-- ===== src/Seo/Clean.antt =====
-- The pages that lib/seo/engine.ts reports nothing about.
use growth_sent.Prelude.{
  ◌≡◌, refl, Bool, true, false, not, ◌&&◌, ◌||◌, Option, none, some, List, ◌++◌, String, ◌==◌,
  ◌===◌, length, length-append, ltb, leb, text_length, arith, Option-cases, inl, inr,
}
use growth_sent.Crawler.{CrawledPageResult, ParsedPageData}
use growth_sent.Seo.{
  Issue, Crawl, status_issues, timing_issues, noindex_issues, canonical_issues, title_issues,
  description_issues, heading_issues, jsonld_issues, data_issues, page_issues, text_of,
}

abbrev is_empty : List Issue → Bool
is_empty issues = leb (length issues) 0

is_empty-append : (xs ys : List Issue) → is_empty (xs ++ ys) ≡ (is_empty xs && is_empty ys)
is_empty-append xs ys = rw length-append (ground arith)

abbrev pub is_good_title : Option String → Bool
is_good_title none = false
is_good_title (some title) = leb 10 (text_length title) && leb (text_length title) 60

abbrev pub is_good_description : Option String → Bool
is_good_description none = false
is_good_description (some text) = leb (text_length text) 160

module _ (crawl : Crawl) where
  abbrev pub points_home : Option String → Bool
  points_home none = false
  points_home (some canonical) = elim (crawl.parse_canonical canonical) [
    | none ↦ false
    | some (is_web, host) ↦ is_web && host === crawl.hostname
  ]

  -- One title of ten to sixty characters, one description of at most 160, one first heading, a
  -- canonical link to the crawled host, valid structured data, and indexing allowed.
  abbrev pub is_clean_data : Option ParsedPageData → Bool
  is_clean_data none = true
  is_clean_data (some parsed) =
      not parsed.is_noindex
      && leb (elim (text_of parsed.canonical_error) [ none ↦ 0 | some _ ↦ 1 ]) 0
      && points_home (text_of parsed.canonical_url)
      && is_good_title (text_of parsed.title)
      && is_good_description (text_of parsed.meta_description)
      && length parsed.h1 == 1
      && parsed.json_ld_syntax_valid

  abbrev pub is_clean : CrawledPageResult → Bool
  is_clean page =
      not (page.status_code == 404 || leb 500 page.status_code)
      && not (crawl.supports_response_timing && ltb 1500 page.response_time_ms)
      && is_clean_data page.parsed_data

  module _ (url : String) (parsed : ParsedPageData) where
    canonical-clean : is_empty (canonical_issues crawl url parsed) ≡ (
        leb (elim (text_of parsed.canonical_error) [ none ↦ 0 | some _ ↦ 1 ]) 0
        && points_home (text_of parsed.canonical_url))
    unfolding canonical_issues
    canonical-clean = elim (Option-cases (text_of parsed.canonical_error)) [
      | inr (e, wrong) ↦ ground arith
      | inl right ↦ ground arith
    ]

    title-clean : is_empty (title_issues crawl url parsed) ≡ is_good_title (text_of parsed.title)
    unfolding title_issues
    title-clean = ground arith

    description-clean :
        is_empty (description_issues crawl url parsed)
        ≡ is_good_description (text_of parsed.meta_description)
    unfolding description_issues
    description-clean = ground arith

    heading-clean : is_empty (heading_issues crawl url parsed) ≡ (length parsed.h1 == 1)
    unfolding heading_issues
    heading-clean = ground arith

  data-clean :
      (url : String) (parsed : Option ParsedPageData)
      → is_empty (data_issues crawl url parsed) ≡ is_clean_data parsed
  unfolding data_issues noindex_issues jsonld_issues
  data-clean url none = refl
  data-clean url (some parsed) =
      rw
        (
          is_empty-append, is_empty-append, is_empty-append, is_empty-append, is_empty-append,
          canonical-clean, title-clean, description-clean, heading-clean,
        )
        (ground arith)

  -- A page gets no finding of its own exactly when it answered neither 404 nor a server's error and,
  -- where response times are measured, within a second and a half; and, where it was parsed, it may
  -- be indexed, has a canonical link to the crawled host, a title of ten to sixty characters, a
  -- description of at most 160, one first heading and valid structured data.
  pub page_issues-clean :
      (page : CrawledPageResult) → leb (length (page_issues crawl page)) 0 ≡ is_clean page
  unfolding page_issues status_issues timing_issues
  page_issues-clean page = rw (is_empty-append, is_empty-append, data-clean) (ground arith)
