-- ===== src/Seo.antt =====
-- lib/seo: the rules, and the findings on a crawl (engine.ts). A finding keeps
-- its rule, severity, URL and evidence; its other texts follow from the rule. The crawl's parts and
-- the parser of canonical URLs are parameters.
pub mod Archive
pub mod Clean
pub mod Duplicates
pub mod Scoring
pub mod Score
mod Tests
use growth_sent.Prelude.{
  ℕ, ◌+◌, ◌*◌, ◌-◌, ◌<>◌, Bool, true, false, not, ◌&&◌, ◌||◌, Option, none, some, is_some, List, [],
  ◌∷◌, ◌++◌, String, ◌==◌, ◌===◌, if◌then◌else◌, length, ltb, leb, min, max, text_length, join,
  decimal,
}
use growth_sent.Crawler.{CrawledPageResult, ParsedPageData}

pub data Severity : Type 0 where
  critical high medium low info : Severity

pub data RuleId : Type 0 where
  robots_txt_missing sitemap_missing sitemap_url_error : RuleId
  noindex_detected canonical_missing canonical_invalid canonical_external : RuleId
  title_missing title_too_long title_too_short meta_desc_missing meta_desc_too_long : RuleId
  duplicate_titles h1_missing h1_multiple thin_content broken_internal_link : RuleId
  slow_response_time jsonld_syntax_error : RuleId

abbrev pub severity_of : RuleId → Severity
severity_of robots_txt_missing = medium
severity_of sitemap_missing = high
severity_of sitemap_url_error = high
severity_of noindex_detected = critical
severity_of canonical_missing = medium
severity_of canonical_invalid = medium
severity_of canonical_external = high
severity_of title_missing = critical
severity_of title_too_long = low
severity_of title_too_short = low
severity_of meta_desc_missing = high
severity_of meta_desc_too_long = low
severity_of duplicate_titles = high
severity_of h1_missing = high
severity_of h1_multiple = medium
severity_of thin_content = medium
severity_of broken_internal_link = critical
severity_of slow_response_time = medium
severity_of jsonld_syntax_error = high

pub data IssueCategory : Type 0 where
  crawlability indexability metadata content links performance structured_data : IssueCategory

abbrev pub category_of : RuleId → IssueCategory
category_of robots_txt_missing = crawlability
category_of sitemap_missing = crawlability
category_of sitemap_url_error = crawlability
category_of noindex_detected = indexability
category_of canonical_missing = indexability
category_of canonical_invalid = indexability
category_of canonical_external = indexability
category_of duplicate_titles = metadata
category_of title_missing = metadata
category_of title_too_long = metadata
category_of title_too_short = metadata
category_of meta_desc_missing = metadata
category_of meta_desc_too_long = metadata
category_of h1_missing = content
category_of h1_multiple = content
category_of thin_content = content
category_of broken_internal_link = links
category_of slow_response_time = performance
category_of jsonld_syntax_error = structured_data

pub record Issue : Type 0 where
  pub rule_id : RuleId
  pub category : IssueCategory
  pub severity : Severity
  pub affected_url : String
  pub evidence : Option String

abbrev pub issue : RuleId → String → Option String → Issue
issue rule url evidence = record {
  rule_id = rule;
  category = category_of rule;
  severity = severity_of rule;
  affected_url = url;
  evidence = evidence;
}

abbrev pub finding : RuleId → String → Option String → List Issue
finding rule url evidence = issue rule url evidence ∷ []

-- What the engine reads of a crawl besides its pages.
pub record Crawl : Type 0 where
  pub start_url : String
  pub hostname : String
  pub robots_status_code : ℕ
  pub sitemap_missing_confirmed : Bool
  pub sitemap_errors : List String
  pub pages : List CrawledPageResult
  pub total_pages_crawled : ℕ
  -- An absent capability counts as present.
  pub supports_site_discovery : Bool
  pub supports_response_timing : Bool
  -- `new URL`, with whether its protocol is one of the web, and the host in lower case
  pub parse_canonical : String → Option (Bool × String)

-- A text that is there and not empty.
abbrev pub text_of : Option String → Option String
text_of none = none
text_of (some text) = if text === "" then none else some text

module _ (crawl : Crawl) where
  unfoldable pub site_issues : List Issue
  site_issues =
      (if crawl.supports_site_discovery && crawl.robots_status_code == 404
        then finding robots_txt_missing (crawl.start_url <> "/robots.txt") none
        else [])
      ++ (if crawl.supports_site_discovery && crawl.sitemap_missing_confirmed
          then finding sitemap_missing (crawl.start_url <> "/sitemap.xml") none
          else [])
      ++ (if crawl.supports_site_discovery && ltb 0 (length crawl.sitemap_errors)
          then finding sitemap_url_error (crawl.start_url <> "/sitemap.xml")
              (some (join "; " crawl.sitemap_errors))
          else [])

  unfoldable pub status_issues : CrawledPageResult → List Issue
  status_issues page =
      if not (page.status_code == 200)
        && not (page.status_code == 0)
        && (page.status_code == 404 || leb 500 page.status_code)
      then finding broken_internal_link page.url none
      else []

  unfoldable pub timing_issues : CrawledPageResult → List Issue
  timing_issues page =
      if crawl.supports_response_timing && ltb 1500 page.response_time_ms
      then finding slow_response_time page.url (some (decimal page.response_time_ms <> "ms"))
      else []

  unfoldable pub noindex_issues : String → ParsedPageData → List Issue
  noindex_issues url parsed = if parsed.is_noindex then finding noindex_detected url none else []

  unfoldable pub canonical_issues : String → ParsedPageData → List Issue
  canonical_issues url parsed = elim (text_of parsed.canonical_error) [
    | some _ ↦ finding canonical_invalid url none
    | none ↦ elim (text_of parsed.canonical_url) [
      | none ↦ finding canonical_missing url none
      | some canonical ↦ elim (crawl.parse_canonical canonical) [
        | none ↦ finding canonical_invalid url (some canonical)
        | some (is_web, host) ↦
            if not is_web
            then finding canonical_invalid url (some canonical)
            else if not (host === crawl.hostname)
            then finding canonical_external url (some canonical)
            else []
      ]
    ]
  ]

  unfoldable pub title_issues : String → ParsedPageData → List Issue
  title_issues url parsed = elim (text_of parsed.title) [
    | none ↦ finding title_missing url none
    | some title ↦
        if ltb 60 (text_length title)
        then finding title_too_long url (some title)
        else if ltb (text_length title) 10
        then finding title_too_short url (some title)
        else []
  ]

  unfoldable pub description_issues : String → ParsedPageData → List Issue
  description_issues url parsed = elim (text_of parsed.meta_description) [
    | none ↦ finding meta_desc_missing url none
    | some text ↦
        if ltb 160 (text_length text) then finding meta_desc_too_long url (some text) else []
  ]

  unfoldable pub heading_issues : String → ParsedPageData → List Issue
  heading_issues url parsed =
      if length parsed.h1 == 0
      then finding h1_missing url none
      else if ltb 1 (length parsed.h1)
      then finding h1_multiple url (some (join "; " parsed.h1))
      else []

  unfoldable pub jsonld_issues : String → ParsedPageData → List Issue
  jsonld_issues url parsed =
      if parsed.json_ld_syntax_valid then [] else finding jsonld_syntax_error url none

  unfoldable pub data_issues : String → Option ParsedPageData → List Issue
  data_issues url none = []
  data_issues url (some parsed) =
      noindex_issues url parsed
      ++ canonical_issues url parsed
      ++ title_issues url parsed
      ++ description_issues url parsed
      ++ heading_issues url parsed
      ++ jsonld_issues url parsed

  unfoldable pub page_issues : CrawledPageResult → List Issue
  page_issues page =
      status_issues page ++ timing_issues page ++ data_issues page.url page.parsed_data

  unfoldable pub pages_issues : List CrawledPageResult → List Issue
  pages_issues [] = []
  pages_issues (page ∷ pages) = page_issues page ++ pages_issues pages

abbrev pub add_title : String → String → List (String × List String) → List (String × List String)
add_title title url [] = (title, url ∷ []) ∷ []
add_title title url ((t, urls) ∷ titles) =
    let rest = add_title title url titles in
    if t === title then (t, urls ++ url ∷ []) ∷ titles else (t, urls) ∷ rest

abbrev pub title_of : CrawledPageResult → Option String
title_of page = elim page.parsed_data [ none ↦ none | some parsed ↦ text_of parsed.title ]

-- `titleToUrls`, in the order of insertion.
abbrev pub title_to_urls :
    List CrawledPageResult → List (String × List String) → List (String × List String)
title_to_urls [] titles = titles
title_to_urls (page ∷ pages) titles =
    title_to_urls pages
      (elim (title_of page) [ none ↦ titles | some title ↦ add_title title page.url titles ])

abbrev pub shared_by : String → List String → List Issue
shared_by title [] = []
shared_by title (url ∷ urls) = issue duplicate_titles url (some title) ∷ shared_by title urls

abbrev pub duplicate_issues : List (String × List String) → List Issue
duplicate_issues [] = []
duplicate_issues ((title, urls) ∷ titles) =
    (if ltb 1 (length urls) then shared_by title urls else []) ++ duplicate_issues titles

unfoldable pub analyze_issues : Crawl → List Issue
analyze_issues crawl =
    site_issues crawl
    ++ pages_issues crawl crawl.pages
    ++ duplicate_issues (title_to_urls crawl.pages [])
