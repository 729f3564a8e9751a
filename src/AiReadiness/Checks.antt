-- ===== src/AiReadiness/Checks.antt =====
-- lib/ai-readiness/service.ts: the eight checks, each a status from the results it reads.
use growth_sent.Prelude.{
  ℕ, Bool, true, false, ◌&&◌, ◌||◌, not, Option, none, some, List, [], ◌==◌, if◌then◌else◌, ltb,
  leb, trim, is_empty,
}
use growth_sent.Ssrf.Address.{Text}
use growth_sent.Fetcher.{FetchResult}
use growth_sent.AiReadiness.Signals.{
  JsonObject, Page, is_html_result, is_json_result, is_sitemap_document, declared_sitemap_count,
  explicit_ai_crawler_agents,
}

pub data CheckId : Type 0 where
  crawler_policy sitemap_discovery llms readable_content : CheckId
  structured_data api_description auth_discovery agent_card : CheckId

pub data Status : Type 0 where
  ready needs_attention unavailable : Status

pub record Check : Type 0 where
  pub id : CheckId
  pub status : Status

abbrev pub weight_of : CheckId → ℕ
weight_of crawler_policy = 20
weight_of sitemap_discovery = 15
weight_of llms = 10
weight_of readable_content = 15
weight_of structured_data = 15
weight_of api_description = 10
weight_of auth_discovery = 7
weight_of agent_card = 8

abbrev pub make_check : CheckId → Status → Check
make_check id status = record { id = id; status = status }

abbrev pub ready_if : Bool → Status
ready_if b = if b then ready else needs_attention

unfoldable pub evaluate_crawler_policy : FetchResult → Check
evaluate_crawler_policy robots = make_check crawler_policy (
    if robots.status_code == 404
    then needs_attention
    else if not (robots.status_code == 200) || is_empty robots.body
    then unavailable
    else ready_if (not (no_text (explicit_ai_crawler_agents robots.body))))
  where
    no_text : List Text → Bool
    no_text [] = true
    no_text _ = false

unfoldable pub evaluate_sitemap : FetchResult → FetchResult → FetchResult → Check
evaluate_sitemap robots site_map index = make_check sitemap_discovery (
    if robots.status_code == 200 && ltb 0 (declared_sitemap_count robots.body)
    then ready
    else if is_sitemap_document site_map || is_sitemap_document index
    then ready
    else if site_map.status_code == 404 && index.status_code == 404
    then needs_attention
    else if site_map.status_code == 200 || index.status_code == 200
    then needs_attention
    else unavailable)

unfoldable pub evaluate_llms_guide : FetchResult → Check
evaluate_llms_guide guide = make_check llms (
    if guide.status_code == 404
    then needs_attention
    else if not (guide.status_code == 200) || is_empty (trim guide.body)
    then unavailable
    else ready)

-- The text of the main regions counts, or that of the body where they have none.
abbrev pub readable_character_count : Page → ℕ
readable_character_count page = if page.main_length == 0 then page.body_length else page.main_length

module _ (parse_page : Text → Text → Page) where
  unfoldable pub evaluate_readable_content : FetchResult → Check
  evaluate_readable_content home =
      let page = parse_page home.body home.final_url in
      make_check readable_content (
        if not (home.status_code == 200) || is_empty home.body
        then unavailable
        else if not (is_html_result home)
        then needs_attention
        else ready_if
            (not page.is_noindex && ltb 0 page.h1_count && leb 240 (readable_character_count page)))

  unfoldable pub evaluate_structured_data : FetchResult → Check
  evaluate_structured_data home =
      let page = parse_page home.body home.final_url in
      make_check structured_data (
        if not (home.status_code == 200) || is_empty home.body
        then unavailable
        else if not (is_html_result home)
        then unavailable
        else if not page.json_ld_syntax_valid
        then needs_attention
        else ready_if (not (none_of page.structured_data_types)))
    where
      none_of : List Text → Bool
      none_of [] = true
      none_of _ = false

module _ (parse_json_object : Text → Option JsonObject) where
  -- Does the body hold an object that passes the test?
  abbrev pub describes : (JsonObject → Bool) → FetchResult → Bool
  describes test result =
      result.status_code == 200
      && is_json_result result
      && elim (parse_json_object result.body) [ none ↦ false | some document ↦ test document ]

  -- The verdict that the two discoveries share.
  abbrev pub discovery : (JsonObject → Bool) → FetchResult → FetchResult → Status
  discovery test one other =
      if describes test one || describes test other
      then ready
      else if one.status_code == 404 && other.status_code == 404
      then needs_attention
      else if one.status_code == 200 || other.status_code == 200
      then needs_attention
      else unavailable

  abbrev pub is_api_description : JsonObject → Bool
  is_api_description document = document.is_text_field "openapi" || document.is_text_field "swagger"

  unfoldable pub evaluate_api_description : FetchResult → FetchResult → Check
  evaluate_api_description open_api well_known =
      make_check api_description (discovery is_api_description open_api well_known)

  abbrev pub is_oauth_discovery_document : JsonObject → Bool
  is_oauth_discovery_document document =
      document.is_text_field "authorization_endpoint" && document.is_text_field "token_endpoint"

  unfoldable pub evaluate_auth_discovery : FetchResult → FetchResult → Check
  evaluate_auth_discovery oauth open_id =
      make_check auth_discovery (discovery is_oauth_discovery_document oauth open_id)

  abbrev pub is_agent_card : JsonObject → Bool
  is_agent_card document =
      document.is_text_field "name"
      && document.is_text_field "url"
      && document.is_text_field "version"

  unfoldable pub evaluate_agent_card : FetchResult → Check
  evaluate_agent_card card = make_check agent_card (
      if card.status_code == 404
      then needs_attention
      else if not (card.status_code == 200)
      then unavailable
      else ready_if (describes is_agent_card card))
