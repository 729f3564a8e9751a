-- ===== src/Crawler/Tests.antt =====
-- A crawl of a small site, with lib/crawler/crawler.ts.
use growth_sent.Prelude.{◌≡◌, refl, true, false, not, ◌===◌, none, some, [], ◌∷◌, arith, codes}
use growth_sent.Crawler.{
  Web, FetchResult, ParsedPageData, default_limits, run_crawl, crawl_loop, crawl_batch, is_done,
  take_batch, visit, record_visit,
}
use growth_sent.Robots.{is_path_disallowed_by_robots}
use growth_sent.Crawler.Sound.{IsSoundCrawl, run_crawl-IsSoundCrawl, page_urls}
use growth_sent.Crawler.Finish.{run_crawl-is_done}
use growth_sent.Crawler.Root.{evaluate_root_page, run_crawl-evaluable}

abbrev home : ParsedPageData
home = record {
  title = some "The home page";
  meta_description = some "What the site is about";
  h1 = "Welcome" ∷ [];
  canonical_url = some "/";
  canonical_error = none;
  is_noindex = false;
  json_ld_syntax_valid = true;
  internal_links = "/a" ∷ "/private" ∷ "/" ∷ "elsewhere" ∷ [];
}

abbrev answer : FetchResult
answer = record {
  final_url = "/";
  status_code = 200;
  response_time_ms = 100;
  content_type = "text/html";
  body = "<html>";
  page_size_bytes = 6;
  failure_category = none;
  error = none;
}

abbrev site : Web
site = record {
  start_url = "/";
  pathname = λ url. codes url;
  fetch_url = λ url. answer;
  parse_page_html = λ body url. home;
  is_in_scope = λ url. not (url === "elsewhere");
  disallowed_paths = codes "/private" ∷ [];
  allowed_paths = [];
  sitemap_urls = "/b" ∷ "elsewhere" ∷ [];
}

-- The start URL, the sitemap's page, and the two links.
crawl_test : page_urls (run_crawl site default_limits).pages ≡ "/" ∷ "/b" ∷ "/a" ∷ "/private" ∷ []
unfolding run_crawl crawl_loop crawl_batch is_done take_batch visit record_visit
    is_path_disallowed_by_robots
crawl_test = refl

run_crawl-IsSoundCrawl_example : IsSoundCrawl site default_limits (run_crawl site default_limits)
run_crawl-IsSoundCrawl_example = run_crawl-IsSoundCrawl site default_limits

run_crawl-is_done_example : is_done default_limits (run_crawl site default_limits) ≡ true
run_crawl-is_done_example = run_crawl-is_done site default_limits (omega arith)

run_crawl-evaluable_example :
    (evaluate_root_page "/" (run_crawl site default_limits).pages).evaluable ≡ true
unfolding is_path_disallowed_by_robots
run_crawl-evaluable_example = run_crawl-evaluable site default_limits (omega arith) (omega arith)
