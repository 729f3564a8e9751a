-- ===== src/AiReadiness/Report.antt =====
-- lib/ai-readiness/service.ts: what a report says.
use growth_sent.Prelude.{
  ◌+◌, ◌≡◌, refl, sym, ◌∙◌, Bool, true, false, Bool-cases, Option-cases, not, ◌&&◌, none, some,
  List, [], ◌∷◌, ◌==◌, if-elim, All, length, map, inl, inr, arith, Result, ok, err,
}
use growth_sent.Ssrf.Address.{Text}
use growth_sent.Fetcher.{FetchResult}
use growth_sent.Domains.{Url, origin_of}
use growth_sent.AiReadiness.{
  Dependencies, AiReadinessReport, ReadinessError, build_ai_readiness_report, report_on,
  report_from_checks, unavailable_report, checks_of, result_of, weight_where, all_checks,
  is_observed, final_origin, in_scope, invalid_url, not_http, fetch_failed, is_http,
}
use growth_sent.AiReadiness.Score.{
  IsNearest, IsScore, percent-IsScore, tally, tally-counts, tally-weights, ready_needy,
  coverage-observed, count_all, observed_unavailable,
}
use growth_sent.AiReadiness.Judged.{
  IsJudged, crawler_policy-IsJudged, sitemap-IsJudged, llms-IsJudged, agent_card-IsJudged,
  discovery-IsJudged, readable-IsJudged, structured-IsJudged,
}
use growth_sent.AiReadiness.Checks.{
  weight_of, CheckId, Check, unavailable, crawler_policy, sitemap_discovery, llms, readable_content,
  structured_data, api_description, auth_discovery, agent_card, is_api_description,
  is_oauth_discovery_document, evaluate_crawler_policy, evaluate_sitemap, evaluate_llms_guide,
  evaluate_readable_content, evaluate_structured_data, evaluate_api_description,
  evaluate_auth_discovery, evaluate_agent_card,
}

module _ (w : Dependencies) (requested : Text) (home : FetchResult) where
  -- The results that a check reads.
  abbrev pub sources : Text → CheckId → List FetchResult
  sources origin crawler_policy = result_of w origin "robots" ∷ []
  sources origin sitemap_discovery =
      result_of w origin "robots"
      ∷ result_of w origin "sitemap"
      ∷ result_of w origin "sitemapIndex"
      ∷ []
  sources origin llms = result_of w origin "llms" ∷ []
  sources origin readable_content = home ∷ []
  sources origin structured_data = home ∷ []
  sources origin api_description =
      result_of w origin "openApi" ∷ result_of w origin "wellKnownOpenApi" ∷ []
  sources origin auth_discovery = result_of w origin "oauth" ∷ result_of w origin "openId" ∷ []
  sources origin agent_card = result_of w origin "agentCard" ∷ []

  abbrev pub has_strayed : Bool
  has_strayed = not (home.status_code == 0) && not (in_scope w requested home.final_url)

  pub record IsReport (r : AiReadinessReport) : Type 0 where
    pub complete : map (λ (c : Check). c.id) r.checks ≡ all_checks
    pub total : r.total_weight ≡ 100
    pub counted :
        (r.ready_count, r.needs_attention_count, r.unavailable_count) ≡ tally (λ id. 1) r.checks
    pub all_counted : r.ready_count + r.needs_attention_count + r.unavailable_count ≡ 8
    pub observed : r.observed_weight ≡ (tally weight_of r.checks).0 + (tally weight_of r.checks).1
    pub coverage : r.coverage_percent ≡ r.observed_weight
    pub scored :
        IsScore (tally weight_of r.checks).0 r.observed_weight r.needs_attention_count r.score
    pub judged : All (λ (c : Check). IsJudged (sources r.target_url c.id) c.status) r.checks
    pub strayed : has_strayed ≡ true → (r.target_url ≡ requested) × (r.observed_weight ≡ 0)

  checks-IsReport :
      IsNearest w.percent
      → (target_url : Text) (checks : List Check) → map (λ (c : Check). c.id) checks ≡ all_checks
      → weight_where (λ status. true) checks ≡ 100
      → length checks ≡ 8
      → All (λ (c : Check). IsJudged (sources target_url c.id) c.status) checks
      → (has_strayed ≡ true → (target_url ≡ requested) × (weight_where is_observed checks ≡ 0))
      → IsReport (report_from_checks w target_url checks)
  unfolding report_from_checks
  checks-IsReport nearest target_url checks complete total eight judged strayed = record {
    complete = complete;
    total = total;
    counted = sym (tally-counts checks);
    all_counted = count_all checks ∙ eight;
    observed = rw (tally-weights checks) (ready_needy checks);
    coverage =
        coverage-observed w nearest (weight_where is_observed checks)
          (weight_where (λ status. true) checks) (omega (arith, observed_unavailable checks)) total;
    scored = rw (tally-weights checks) (percent-IsScore w nearest checks total);
    judged = judged;
    strayed = strayed;
  }

  checks-IsJudged :
      (origin : Text)
      → All (λ (c : Check). IsJudged (sources origin c.id) c.status) (checks_of w home origin)
  unfolding checks_of evaluate_crawler_policy evaluate_sitemap evaluate_llms_guide
      evaluate_readable_content evaluate_structured_data evaluate_api_description
      evaluate_auth_discovery evaluate_agent_card
  checks-IsJudged origin =
      let get = result_of w origin in
      let json = w.parse_json_object in
      (
        crawler_policy-IsJudged (get "robots"),
        (
          sitemap-IsJudged (get "robots") (get "sitemap") (get "sitemapIndex"),
          (
            llms-IsJudged (get "llms"),
            (
              readable-IsJudged w.parse_page home,
              (
                structured-IsJudged w.parse_page home,
                (
                  discovery-IsJudged json (is_api_description json) (get "openApi")
                      (get "wellKnownOpenApi"),
                  (
                    discovery-IsJudged json (is_oauth_discovery_document json) (get "oauth")
                        (get "openId"),
                    (agent_card-IsJudged json (get "agentCard"), tt),
                  ),
                ),
              ),
            ),
          ),
        ),
      )

  report_on-IsReport : IsNearest w.percent → IsReport (report_on w requested home)
  unfolding report_on unavailable_report checks_of evaluate_crawler_policy evaluate_sitemap
      evaluate_llms_guide evaluate_readable_content evaluate_structured_data
      evaluate_api_description evaluate_auth_discovery evaluate_agent_card
  report_on-IsReport nearest =
      let origin = final_origin w requested home in
      if-elim IsReport has_strayed
        (λ away.
          checks-IsReport nearest requested _ refl refl refl (unjudged all_checks)
            (λ e. (refl, refl)))
        (λ home_stays.
          checks-IsReport nearest origin (checks_of w home origin) refl refl refl
            (checks-IsJudged origin) (λ e. absurd (ground arith)))
    where
      never : (results : List FetchResult) → IsJudged results unavailable
      never results = (λ e. absurd (ground arith), λ e. absurd (ground arith))

      unjudged :
          (ids : List CheckId)
          → All
              (λ (c : Check). IsJudged (sources requested c.id) c.status)
              (map (λ id. record { id = id; status = unavailable }) ids)
      unjudged [] = tt
      unjudged (id ∷ ids) = (never (sources requested id), unjudged ids)

-- What was built for this URL, or why nothing was.
abbrev pub IsBuilt : Dependencies → Text → Result ReadinessError AiReadinessReport → Type 0
IsBuilt w target_url (err invalid_url) = w.parse_url target_url ≡ none
IsBuilt w target_url (err not_http) =
    (url : Url) × (w.parse_url target_url ≡ some url) × (is_http url ≡ false)
IsBuilt w target_url (err fetch_failed) =
    (url : Url) × (w.parse_url target_url ≡ some url)
    × (is_http url ≡ true)
    × (w.fetch (origin_of url) ≡ none)
IsBuilt w target_url (ok report) =
    (url : Url) × (w.parse_url target_url ≡ some url)
    × (is_http url ≡ true)
    × (home : FetchResult) × (w.fetch (origin_of url) ≡ some home)
    × IsReport w (origin_of url) home report

-- If the rounded quotient is a nearest number to the exact one, a report for an HTTP URL whose
-- homepage was fetched has the eight checks in their order, with a weight of 100; its three counts
-- are the numbers of the checks that are ready, that need attention and that are unavailable; the
-- observed weight is that of the ready ones and of those that need attention, and the coverage is
-- that weight; there is a score exactly if that weight is not 0, nearest to the share of the ready
-- weight, at most 100, and 100 exactly if none needs attention; a check is ready only on a result of
-- its own sources with status 200, and needs attention only on one with status 200 or 404; and a
-- homepage that answers from outside the site's scope leaves every check without weight. There is no
-- report exactly for a URL that cannot be parsed, for another scheme, and for a homepage whose fetch
-- throws.
pub build-IsBuilt :
    (w : Dependencies) (target_url : Text)
    → IsNearest w.percent
    → IsBuilt w target_url (build_ai_readiness_report w target_url)
unfolding build_ai_readiness_report
build-IsBuilt w target_url nearest = elim (Option-cases (w.parse_url target_url)) [
  | inl unparsed ↦ rw (build_ai_readiness_report, unparsed) unparsed
  | inr (url, parsed) ↦ elim (Bool-cases (is_http url)) [
    | inl http ↦ elim (Option-cases (w.fetch (origin_of url))) [
      | inl thrown ↦
          rw (build_ai_readiness_report, parsed, http, thrown) (url, parsed, http, thrown)
      | inr (home, fetched) ↦
          rw (build_ai_readiness_report, parsed, http, fetched)
            (url, parsed, http, home, fetched, report_on-IsReport w (origin_of url) home nearest)
    ]
    | inr other ↦ rw (build_ai_readiness_report, parsed, other) (url, parsed, other)
  ]
]
