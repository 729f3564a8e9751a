-- ===== src/AiReadiness.antt =====
-- lib/ai-readiness/service.ts: what an audit of a site's readiness for agents fetches, checks and
-- reports. Fetching, the URL, HTML and JSON parsers, the public suffix list and the rounded quotient
-- are parameters. A check has the texts of its definition by its name; evidence and times are left
-- out.
pub mod Signals
pub mod Checks
pub mod Judged
pub mod Score
pub mod Report
mod Tests
use growth_sent.Prelude.{
  ℕ, zero, suc, ◌+◌, Bool, true, false, ◌&&◌, ◌||◌, not, Option, none, some, List, [], ◌∷◌, ◌++◌,
  String, ◌===◌, ◌==◌, if◌then◌else◌, ltb, codes, same_text, Result, ok, err, map,
}
use growth_sent.Types.{network}
use growth_sent.Ssrf.Address.{Text}
use growth_sent.Fetcher.{FetchResult}
use growth_sent.Domains.{Url, origin_of, is_url_within_crawl_origin_scope}
use growth_sent.AiReadiness.Signals.{Page, JsonObject}
use growth_sent.AiReadiness.Checks.{
  CheckId, Check, Status, unavailable, ready, needs_attention, crawler_policy, sitemap_discovery,
  llms, readable_content, structured_data, api_description, auth_discovery, agent_card, weight_of,
  evaluate_crawler_policy, evaluate_sitemap, evaluate_llms_guide, evaluate_readable_content,
  evaluate_structured_data, evaluate_api_description, evaluate_auth_discovery, evaluate_agent_card,
}

pub record Dependencies : Type 0 where
  -- `none` if the fetch throws
  pub fetch : Text → Option FetchResult
  pub parse_url : Text → Option Url
  -- `new URL(path, origin).toString()`
  pub resolve : String → Text → Text
  pub get_domain : Text → Option Text
  -- `JSON.parse`, if the value is an object
  pub parse_json_object : Text → Option JsonObject
  -- `parsePageHtml` and the text of its regions, for a body and its URL
  pub parse_page : Text → Text → Page
  -- `Math.round((part / whole) * 100)`
  pub percent : ℕ → ℕ → ℕ

pub record AiReadinessReport : Type 0 where
  pub target_url : Text
  pub score : Option ℕ
  pub coverage_percent : ℕ
  pub observed_weight : ℕ
  pub total_weight : ℕ
  pub ready_count : ℕ
  pub needs_attention_count : ℕ
  pub unavailable_count : ℕ
  pub checks : List Check

abbrev pub is_ready : Status → Bool
is_ready ready = true
is_ready _ = false

abbrev pub is_needy : Status → Bool
is_needy needs_attention = true
is_needy _ = false

abbrev pub is_unavailable : Status → Bool
is_unavailable unavailable = true
is_unavailable _ = false

abbrev pub is_observed : Status → Bool
is_observed status = not (is_unavailable status)

-- The weights, and the number, of the checks with such a status.
abbrev pub weight_where : (Status → Bool) → List Check → ℕ
weight_where p [] = 0
weight_where p (c ∷ checks) = (if p c.status then weight_of c.id else 0) + weight_where p checks

abbrev pub count_where : (Status → Bool) → List Check → ℕ
count_where p [] = 0
count_where p (c ∷ checks) = (if p c.status then 1 else 0) + count_where p checks

abbrev pub all_checks : List CheckId
all_checks =
    crawler_policy ∷ sitemap_discovery ∷ llms ∷ readable_content ∷ structured_data ∷ api_description
    ∷ auth_discovery ∷ agent_card ∷ []

abbrev pub empty_fetch_result : Text → FetchResult
empty_fetch_result url = record {
  url = url;
  final_url = url;
  status_code = 0;
  content_type = [];
  body = [];
  page_size_bytes = 0;
  redirect_chain = url ∷ [];
  failure_category = some network;
}

-- The names and the paths of what is fetched beside the homepage.
abbrev pub resources : List (String × String)
resources =
    ("robots", "/robots.txt")
    ∷ ("sitemap", "/sitemap.xml")
    ∷ ("sitemapIndex", "/sitemap_index.xml")
    ∷ ("llms", "/llms.txt")
    ∷ ("openApi", "/openapi.json")
    ∷ ("wellKnownOpenApi", "/.well-known/openapi.json")
    ∷ ("oauth", "/.well-known/oauth-authorization-server")
    ∷ ("openId", "/.well-known/openid-configuration")
    ∷ ("agentCard", "/.well-known/agent-card.json")
    ∷ []

abbrev or_empty_result : Text → Option FetchResult → FetchResult
or_empty_result url none = empty_fetch_result url
or_empty_result url (some result) = result

abbrev pub find_result : String → List (String × FetchResult) → Option FetchResult
find_result name [] = none
find_result name ((key, result) ∷ results) =
    let rest = find_result name results in if key === name then some result else rest

pub data ReadinessError : Type 0 where
  invalid_url not_http fetch_failed : ReadinessError

abbrev pub is_http : Url → Bool
is_http url = same_text url.protocol (codes "http:") || same_text url.protocol (codes "https:")

module _ (w : Dependencies) where
  -- The workers share one cursor, so that each target is fetched once; a name has one result.
  unfoldable pub fetch_many : Text → List (String × String) → List (String × FetchResult)
  fetch_many origin [] = []
  fetch_many origin ((name, path) ∷ targets) =
      let url = w.resolve path origin in
      (name, or_empty_result url (w.fetch url)) ∷ fetch_many origin targets

  unfoldable pub result_of : Text → String → FetchResult
  unfolding fetch_many
  result_of origin name =
      or_empty_result (w.resolve "/" origin) (find_result name (fetch_many origin resources))

  unfoldable pub report_from_checks : Text → List Check → AiReadinessReport
  report_from_checks target_url checks =
      let observed = weight_where is_observed checks in
      let total = weight_where (λ status. true) checks in
      record {
        target_url = target_url;
        score =
            if ltb 0 observed
            then some (w.percent (weight_where is_ready checks) observed)
            else none;
        coverage_percent = if ltb 0 total then w.percent observed total else 0;
        observed_weight = observed;
        total_weight = total;
        ready_count = count_where is_ready checks;
        needs_attention_count = count_where is_needy checks;
        unavailable_count = count_where is_unavailable checks;
        checks = checks;
      }

  unfoldable pub unavailable_report : Text → AiReadinessReport
  unfolding report_from_checks
  unavailable_report target_url =
      report_from_checks target_url
        (map (λ id. record { id = id; status = unavailable }) all_checks)

  unfoldable pub checks_of : FetchResult → Text → List Check
  checks_of home origin =
      let get = result_of origin in
      evaluate_crawler_policy (get "robots")
      ∷ evaluate_sitemap (get "robots") (get "sitemap") (get "sitemapIndex")
      ∷ evaluate_llms_guide (get "llms")
      ∷ evaluate_readable_content w.parse_page home
      ∷ evaluate_structured_data w.parse_page home
      ∷ evaluate_api_description w.parse_json_object (get "openApi") (get "wellKnownOpenApi")
      ∷ evaluate_auth_discovery w.parse_json_object (get "oauth") (get "openId")
      ∷ evaluate_agent_card w.parse_json_object (get "agentCard")
      ∷ []

  abbrev hostname_of : Text → Option Text
  hostname_of url = elim (w.parse_url url) [ none ↦ none | some u ↦ some u.hostname ]

  unfoldable pub in_scope : Text → Text → Bool
  in_scope origin url = is_url_within_crawl_origin_scope w.get_domain hostname_of origin url

  -- The origin of the homepage's last address, if the homepage answered.
  abbrev pub final_origin : Text → FetchResult → Text
  final_origin requested home =
      if ltb 0 home.status_code && in_scope requested home.final_url
      then elim (w.parse_url home.final_url) [ none ↦ requested | some url ↦ origin_of url ]
      else requested

  unfoldable pub report_on : Text → FetchResult → AiReadinessReport
  unfolding in_scope
  report_on requested home =
      if not (home.status_code == 0) && not (in_scope requested home.final_url)
      then unavailable_report requested
      else report_from_checks (final_origin requested home)
          (checks_of home (final_origin requested home))

  unfoldable pub build_ai_readiness_report : Text → Result ReadinessError AiReadinessReport
  unfolding report_on
  build_ai_readiness_report target_url = elim (w.parse_url target_url) [
    | none ↦ err invalid_url
    | some url ↦
        if is_http url
        then elim (w.fetch (origin_of url)) [
          | none ↦ err fetch_failed
          | some home ↦ ok (report_on (origin_of url) home)
        ]
        else err not_http
  ]
