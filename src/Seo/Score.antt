-- ===== src/Seo/Score.antt =====
-- The score of lib/seo/scoring.ts.
use growth_sent.Prelude.{
  ℕ, ◌+◌, ◌≤◌, ◌≡◌, refl, List, [], ◌∷◌, ◌++◌, min, max, length-append, arith,
}
use growth_sent.Seo.{Severity, critical, high, medium, low, info, Issue}
use growth_sent.Seo.Scoring.{
  weight, Deductions, deduct, deduct_all, no_deductions, calculate_seo_score,
}

abbrev pub points : Deductions → ℕ
points d = d.critical + d.high + d.medium + d.low + d.info

points-deduct : (s : Severity) (d : Deductions) → points (deduct s d) ≡ points d + weight s
points-deduct critical d = omega arith
points-deduct high d = omega arith
points-deduct medium d = omega arith
points-deduct low d = omega arith
points-deduct info d = omega arith

points-deduct_all :
    (issues : List Issue) (d : Deductions) (total : ℕ)
    → points d ≡ total
    → points (deduct_all issues (d, total)).0 ≡ (deduct_all issues (d, total)).1
points-deduct_all [] d total e = e
points-deduct_all (i ∷ issues) d total e =
    points-deduct_all issues (deduct i.severity d) (total + weight i.severity)
      (omega (arith, points-deduct i.severity d, e))

total_grows :
    (issues : List Issue) (d : Deductions) (total : ℕ) → total ≤ (deduct_all issues (d, total)).1
total_grows [] d total = omega arith
total_grows (i ∷ issues) d total =
    omega (arith, total_grows issues (deduct i.severity d) (total + weight i.severity))

total-append :
    (xs ys : List Issue) (d : Deductions) (total : ℕ)
    → (deduct_all xs (d, total)).1 ≤ (deduct_all (xs ++ ys) (d, total)).1
total-append [] ys d total = total_grows ys d total
total-append (x ∷ xs) ys d total =
    total-append xs ys (deduct x.severity d) (total + weight x.severity)

module _ (rounded : ℕ → ℕ → ℕ)
    (falls : (less more pages : ℕ) → less ≤ more → rounded more pages ≤ rounded less pages) where
  -- If the rounded difference falls as the points rise, then further findings never raise the score
  -- and never raise the count of passed checks; the score is at most 100, and it is that of the
  -- points that the severities add up to.
  pub calculate_seo_score-falls :
      (xs ys : List Issue) (pages : ℕ)
      → let before = calculate_seo_score rounded xs pages in
        let after = calculate_seo_score rounded (xs ++ ys) pages in
        (after.score ≤ before.score)
        × (after.passed_checks ≤ before.passed_checks)
        × (after.score ≤ 100)
        × (after.score ≡ min 100 (rounded (points after.deductions_by_severity) (max 1 pages)))
  unfolding calculate_seo_score
  calculate_seo_score-falls xs ys pages =
      let less = (deduct_all xs (no_deductions, 0)).1 in
      let more = (deduct_all (xs ++ ys) (no_deductions, 0)).1 in
      let step = falls less more (max 1 pages) (total-append xs ys no_deductions 0) in
      (
        omega (arith, step),
        rw length-append (omega arith),
        omega arith,
        rw (points-deduct_all (xs ++ ys) no_deductions 0 refl) refl,
      )
