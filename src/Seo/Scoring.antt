-- ===== src/Seo/Scoring.antt =====
-- lib/seo/scoring.ts, and the result of `analyzeCrawlResults` in lib/seo/engine.ts. The quotient by a
-- square root and its rounding are a parameter.
use growth_sent.Prelude.{ℕ, ◌+◌, ◌*◌, ◌-◌, List, [], ◌∷◌, length, min, max}
use growth_sent.Seo.{Severity, critical, high, medium, low, info, Issue, Crawl, analyze_issues}

-- `SEVERITY_WEIGHTS`
abbrev pub weight : Severity → ℕ
weight critical = 15
weight high = 10
weight medium = 5
weight low = 2
weight info = 0

pub record Deductions : Type 0 where
  pub critical : ℕ
  pub high : ℕ
  pub medium : ℕ
  pub low : ℕ
  pub info : ℕ

abbrev pub deduct : Severity → Deductions → Deductions
deduct critical d = record d { critical = d.critical + 15 }
deduct high d = record d { high = d.high + 10 }
deduct medium d = record d { medium = d.medium + 5 }
deduct low d = record d { low = d.low + 2 }
deduct info d = d

abbrev pub no_deductions : Deductions
no_deductions = record { critical = 0; high = 0; medium = 0; low = 0; info = 0 }

-- The loop over the findings: the points per severity and in all.
abbrev pub deduct_all : List Issue → Deductions × ℕ → Deductions × ℕ
deduct_all [] totals = totals
deduct_all (i ∷ issues) (d, total) =
    deduct_all issues (deduct i.severity d, total + weight i.severity)

pub record ScoreCalculationResult : Type 0 where
  pub score : ℕ
  pub total_checks : ℕ
  pub passed_checks : ℕ
  pub failed_checks : ℕ
  pub deductions_by_severity : Deductions

-- `rounded total pages` is `Math.round(100 - total / Math.sqrt(pages))`, a negative result being 0.
module _ (rounded : ℕ → ℕ → ℕ) where
  unfoldable pub calculate_seo_score : List Issue → ℕ → ScoreCalculationResult
  calculate_seo_score issues total_pages_crawled =
      let safe_page_count = max 1 total_pages_crawled in
      let (deductions, total) = deduct_all issues (no_deductions, 0) in
      record {
        score = min 100 (rounded total safe_page_count);
        total_checks = safe_page_count * 10;
        passed_checks = safe_page_count * 10 - length issues;
        failed_checks = length issues;
        deductions_by_severity = deductions;
      }

  unfoldable pub analyze_crawl_results : Crawl → List Issue × ScoreCalculationResult
  analyze_crawl_results crawl =
      (analyze_issues crawl, calculate_seo_score (analyze_issues crawl) crawl.total_pages_crawled)
