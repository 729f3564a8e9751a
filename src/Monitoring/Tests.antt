-- ===== src/Monitoring/Tests.antt =====
-- Two small scans compared as lib/monitoring/engine.ts does.
use growth_sent.Prelude.{◌≡◌, refl, none, [], ◌∷◌, ◌===◌, if◌then◌else◌}
use growth_sent.Monitoring.{Scans, set_of, missing_in, compare_scans_and_snapshot}
use growth_sent.Monitoring.Compare.{IsCompared, compare-IsCompared}

abbrev two_scans : Scans
two_scans = record {
  completed_before = "s1" ∷ [];
  issues_of = λ scan.
      if scan === "s1"
      then record { rule_id = "title_missing"; affected_url = "/a" } ∷ []
      else record { rule_id = "thin_content"; affected_url = "/a" }
        ∷ record { rule_id = "thin_content"; affected_url = "/a" }
        ∷ [];
  pages_of = λ scan. record { url = "/a" } ∷ [];
}

resolved_test :
    (compare_scans_and_snapshot two_scans "site" "s2" none 9).resolved_issues
    ≡ "title_missing:/a" ∷ []
unfolding compare_scans_and_snapshot set_of missing_in
resolved_test = refl

new_test : (compare_scans_and_snapshot two_scans "site" "s2" none 9).new_issues_count ≡ 1
unfolding compare_scans_and_snapshot set_of missing_in
new_test = refl

compare-IsCompared_example : IsCompared two_scans "site" "s2" none 9
compare-IsCompared_example = compare-IsCompared two_scans "site" "s2" none 9
