-- ===== src/Monitoring.antt =====
-- lib/monitoring/engine.ts: two scans of a site are compared. The documents of the collections
-- `scans`, `issues` and `pages` are what their queries return, newest scan first.
pub mod Compare
mod Tests
use growth_sent.Prelude.{
  is_text, ℕ, Bool, true, false, ◌||◌, not, Option, none, some, List, [], ◌∷◌, ◌++◌, String, ◌<>◌,
  ◌===◌, if◌then◌else◌, any, length, map, take,
}

pub record Issue : Type 0 where
  pub rule_id : String
  pub affected_url : String

pub record Page : Type 0 where
  pub url : String

pub record MonitoringSnapshot : Type 0 where
  pub website_id : String
  pub scan_id : String
  pub new_issues_count : ℕ
  pub resolved_issues_count : ℕ
  pub new_pages_count : ℕ
  pub removed_pages_count : ℕ
  pub new_issues : List String
  pub resolved_issues : List String
  pub new_pages : List String
  pub removed_pages : List String
  pub created_at : ℕ

abbrev pub has : String → List String → Bool
has key keys = any (λ k. k === key) keys

-- `new Set(keys)`, in the order of insertion: a key that is there stays where it is.
unfoldable pub added : List String → List String → List String
added seen [] = []
added seen (key ∷ keys) =
    let rest = added (key ∷ seen) keys in
    let skipped = added seen keys in if has key seen then skipped else key ∷ rest

unfoldable pub set_of : List String → List String
unfolding added
set_of keys = added [] keys

-- The keys of one set that the other does not have: each of the four loops.
unfoldable pub missing_in : List String → List String → List String
missing_in others [] = []
missing_in others (key ∷ keys) =
    let rest = missing_in others keys in if has key others then rest else key ∷ rest

abbrev pub key_of_issue : Issue → String
key_of_issue issue = issue.rule_id <> (":" <> issue.affected_url)

-- What is read of the collections.
pub record Scans : Type 0 where
  -- completed scans of the site other than the current one, newest first
  pub completed_before : List String
  pub issues_of : String → List Issue
  pub pages_of : String → List Page

abbrev pub previous_scan : Scans → Option String → Option String
previous_scan scans given = if is_text given "" then newest else or_newest given
  where
    newest : Option String
    newest = elim scans.completed_before [ [] ↦ none | scan ∷ _ ↦ some scan ]

    or_newest : Option String → Option String
    or_newest none = newest
    or_newest (some scan) = some scan

module _ (scans : Scans) where
  abbrev pub issue_keys : Option String → List String
  issue_keys none = set_of []
  issue_keys (some scan) = set_of (map key_of_issue (scans.issues_of scan))

  abbrev pub page_urls : Option String → List String
  page_urls none = set_of []
  page_urls (some scan) = set_of (map (λ (p : Page). p.url) (scans.pages_of scan))

  unfoldable pub compare_scans_and_snapshot :
      String → String → Option String → ℕ → MonitoringSnapshot
  compare_scans_and_snapshot website current given now =
      let previous = previous_scan scans given in
      let new_issues = missing_in (issue_keys previous) (issue_keys (some current)) in
      let resolved_issues = missing_in (issue_keys (some current)) (issue_keys previous) in
      let new_pages = missing_in (page_urls previous) (page_urls (some current)) in
      let removed_pages = missing_in (page_urls (some current)) (page_urls previous) in
      record {
        website_id = website;
        scan_id = current;
        new_issues_count = length new_issues;
        resolved_issues_count = length resolved_issues;
        new_pages_count = length new_pages;
        removed_pages_count = length removed_pages;
        new_issues = take 50 new_issues;
        resolved_issues = take 50 resolved_issues;
        new_pages = take 50 new_pages;
        removed_pages = take 50 removed_pages;
        created_at = now;
      }
