-- ===== src/Seo/Tests.antt =====
-- Findings of lib/seo on small crawls.
use growth_sent.Prelude.{
  ℕ, ◌≡◌, refl, ◌-◌, true, false, none, some, [], ◌∷◌, String, all, length, leb,
}
use growth_sent.Crawler.{CrawledPageResult}
use growth_sent.Seo.{Crawl, analyze_issues, page_issues}
use growth_sent.Seo.Archive.{holds_for_archive, analyze-archive}
use growth_sent.Seo.Clean.{is_clean, page_issues-clean}

abbrev page : String → CrawledPageResult
page url = record {
  url = url;
  normalized_url = url;
  status_code = 200;
  response_time_ms = 2000;
  content_type = "text/html";
  page_size_bytes = 10;
  fetch_failure_category = none;
  error = none;
  parsed_data = some (record {
    title = some "A page of the site";
    meta_description = some "What the page is about";
    h1 = "Welcome" ∷ [];
    canonical_url = some url;
    canonical_error = none;
    is_noindex = false;
    json_ld_syntax_valid = true;
    internal_links = [];
  });
  has_robots_txt_disallow = false;
}

abbrev archive : Crawl
archive = record {
  start_url = "https://example.com";
  hostname = "example.com";
  robots_status_code = 404;
  sitemap_missing_confirmed = true;
  sitemap_errors = "broken" ∷ [];
  pages = page "/a" ∷ page "/b" ∷ [];
  total_pages_crawled = 2;
  supports_site_discovery = false;
  supports_response_timing = false;
  parse_canonical = λ url. some (true, "example.com");
}

analyze-archive_example : all holds_for_archive (analyze_issues archive) ≡ true
analyze-archive_example = analyze-archive archive refl refl

page_issues-clean_example :
    leb (length (page_issues archive (page "/a"))) 0 ≡ is_clean archive (page "/a")
page_issues-clean_example = page_issues-clean archive (page "/a")

-- The rounded difference for a single page.
abbrev whole : ℕ → ℕ → ℕ
whole total pages = 100 - total
