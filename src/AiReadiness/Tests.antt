-- ===== src/AiReadiness/Tests.antt =====
-- lib/ai-readiness/service.ts: a report on a concrete site.
use native.Mathlib.Nat.{mul-div-le, lt-mul-div-succ}
use growth_sent.Prelude.{
  ℕ, ◌+◌, ◌*◌, ◌/◌, ◌<◌, ◌≡◌, refl, true, false, Option, none, some, [], ◌∷◌, ◌++◌, codes,
  same_text, is_prefix, if◌then◌else◌, arith, ok, drop, Result,
}
use growth_sent.Ssrf.Address.{Text}
use growth_sent.Robots.{lines_of}
use growth_sent.Fetcher.{FetchResult}
use growth_sent.Domains.{
  normalize_comparable_hostname, is_within_crawl_origin_scope, is_url_within_crawl_origin_scope,
}
use growth_sent.AiReadiness.{
  Dependencies, AiReadinessReport, ReadinessError, build_ai_readiness_report, report_on, in_scope,
  report_from_checks, checks_of, result_of, fetch_many, empty_fetch_result,
}
use growth_sent.AiReadiness.Signals.{
  is_html_result, is_json_result, is_sitemap_document, declared_sitemap_count,
  explicit_ai_crawler_agents,
}
use growth_sent.AiReadiness.Checks.{
  evaluate_crawler_policy, evaluate_sitemap, evaluate_llms_guide, evaluate_readable_content,
  evaluate_structured_data, evaluate_api_description, evaluate_auth_discovery, evaluate_agent_card,
}
use growth_sent.AiReadiness.Score.{IsNearest}
use growth_sent.AiReadiness.Report.{IsBuilt, build-IsBuilt}

-- The exact quotient, rounded with halves up.
abbrev rounded : ℕ → ℕ → ℕ
rounded part whole = (200 * part + whole) / (2 * whole)

rounded-IsNearest : IsNearest rounded
rounded-IsNearest part whole less some_weight few =
    let below = mul-div-le (200 * part + whole) (2 * whole) in
    let twice : 0 < 2 * whole = omega arith in
    let above = lt-mul-div-succ (200 * part + whole) twice in
    (grind (arith, below), grind (arith, above))

abbrev robots_text : Text
robots_text = codes "User-agent: gptbot # all of it\nDisallow: /private\n"

abbrev page_at : Text → Text → FetchResult
page_at url body = record {
  url = url;
  final_url = url;
  status_code = 200;
  content_type = codes "text/html";
  body = body;
  page_size_bytes = 1;
  redirect_chain = url ∷ [];
  failure_category = none;
}

abbrev missing : Text → FetchResult
missing url = record (empty_fetch_result url) { status_code = 404; failure_category = none }

abbrev address : Text
address = codes "https://example.com/"

abbrev fetch : Text → Option FetchResult
fetch url =
    if same_text url address
    then some (page_at url (codes "<html>"))
    else if same_text url (codes "https://example.com/robots.txt")
    then some (page_at url robots_text)
    else some (missing url)

abbrev site : Dependencies
site = record {
  fetch = fetch;
  parse_url = λ url.
      if is_prefix address url
      then some (record {
        protocol = codes "https:";
        host = codes "example.com";
        hostname = codes "example.com";
      })
      else none;
  resolve = λ path origin. origin ++ drop 1 (codes path);
  get_domain = λ hostname. some (codes "example.com");
  parse_json_object = λ text. none;
  parse_page = λ body url. record {
    is_noindex = false;
    h1_count = 1;
    json_ld_syntax_valid = true;
    structured_data_types = [];
    main_length = 0;
    body_length = 300;
  };
  percent = rounded;
}

agents_test : explicit_ai_crawler_agents robots_text ≡ codes "GPTBot" ∷ []
unfolding explicit_ai_crawler_agents lines_of
agents_test = refl

sitemaps_test :
    declared_sitemap_count (
      codes "Sitemap : https://a.b/s.xml\nsitemap: HTTPS://a.b/ t.xml\nSITEMAP:https://a.b/s.xml#x")
    ≡ 1
unfolding declared_sitemap_count lines_of
sitemaps_test = refl

abbrev score_of : Result ReadinessError AiReadinessReport → Option (Option ℕ × ℕ)
score_of (ok r) = some (r.score, r.coverage_percent)
score_of _ = none

report_test : score_of (build_ai_readiness_report site address) ≡ some (some 35, 100)
unfolding build_ai_readiness_report report_on in_scope is_url_within_crawl_origin_scope
    is_within_crawl_origin_scope normalize_comparable_hostname report_from_checks checks_of
    result_of fetch_many evaluate_crawler_policy evaluate_sitemap evaluate_llms_guide
    evaluate_readable_content evaluate_structured_data evaluate_api_description
    evaluate_auth_discovery evaluate_agent_card is_html_result is_json_result is_sitemap_document
    declared_sitemap_count explicit_ai_crawler_agents lines_of
report_test = refl

-- A site with rules for one crawler, readable text and nothing else.
build-IsBuilt_example : IsBuilt site address (build_ai_readiness_report site address)
build-IsBuilt_example = build-IsBuilt site address rounded-IsNearest
