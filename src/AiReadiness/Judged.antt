-- ===== src/AiReadiness/Judged.antt =====
-- lib/ai-readiness/service.ts: what the verdict of each check rests on.
use growth_sent.Prelude.{◌≡◌, Bool, true, ◌||◌, Option, List, [], ◌∷◌, ◌==◌, any, arith}
use growth_sent.Ssrf.Address.{Text}
use growth_sent.Fetcher.{FetchResult}
use growth_sent.AiReadiness.Signals.{JsonObject, Page, is_sitemap_document}
use growth_sent.AiReadiness.Checks.{
  Status, ready, needs_attention, discovery, evaluate_crawler_policy, evaluate_sitemap,
  evaluate_llms_guide, evaluate_readable_content, evaluate_structured_data, evaluate_agent_card,
}

abbrev is_found : FetchResult → Bool
is_found result = result.status_code == 200

abbrev is_answer : FetchResult → Bool
is_answer result = result.status_code == 200 || result.status_code == 404

-- A verdict rests on what was fetched: it is `ready` only on a result with status 200, and
-- `needs_attention` only on one with status 200 or 404.
abbrev pub IsJudged : List FetchResult → Status → Type 0
IsJudged results status =
    (status ≡ ready → any is_found results ≡ true)
    × (status ≡ needs_attention → any is_answer results ≡ true)

pub crawler_policy-IsJudged :
    (robots : FetchResult) → IsJudged (robots ∷ []) (evaluate_crawler_policy robots).status
unfolding evaluate_crawler_policy
crawler_policy-IsJudged robots = (ground arith, ground arith)

pub sitemap-IsJudged :
    (robots site_map index : FetchResult)
    → IsJudged (robots ∷ site_map ∷ index ∷ []) (evaluate_sitemap robots site_map index).status
unfolding evaluate_sitemap is_sitemap_document
sitemap-IsJudged robots site_map index = (ground arith, ground arith)

pub llms-IsJudged : (guide : FetchResult) → IsJudged (guide ∷ []) (evaluate_llms_guide guide).status
unfolding evaluate_llms_guide
llms-IsJudged guide = (ground arith, ground arith)

pub agent_card-IsJudged :
    (parse_json_object : Text → Option JsonObject) (card : FetchResult)
    → IsJudged (card ∷ []) (evaluate_agent_card parse_json_object card).status
unfolding evaluate_agent_card
agent_card-IsJudged parse_json_object card = (ground arith, ground arith)

pub discovery-IsJudged :
    (parse_json_object : Text → Option JsonObject) (test : JsonObject → Bool)
    (one other : FetchResult)
    → IsJudged (one ∷ other ∷ []) (discovery parse_json_object test one other)
discovery-IsJudged parse_json_object test one other = (ground arith, ground arith)

pub readable-IsJudged :
    (parse_page : Text → Text → Page) (home : FetchResult)
    → IsJudged (home ∷ []) (evaluate_readable_content parse_page home).status
unfolding evaluate_readable_content
readable-IsJudged parse_page home = (ground arith, ground arith)

pub structured-IsJudged :
    (parse_page : Text → Text → Page) (home : FetchResult)
    → IsJudged (home ∷ []) (evaluate_structured_data parse_page home).status
unfolding evaluate_structured_data
structured-IsJudged parse_page home = (ground arith, ground arith)
