-- ===== src/IssueHistory/Refine.antt =====
-- The history that `syncIssueLifecycle` of lib/services/audit.service.ts keeps, as the set of the
-- issues that are open, and what a scan does to that set.
use growth_sent.Prelude.{
  ◌≡◌, refl, Bool, true, false, ◌&&◌, ◌||◌, not, none, some, is_some, List, [], ◌∷◌, String, ◌===◌,
  arith, ℕ, any, Bool-cases, inl, inr, eq_iff, fun_ext, All, ◌⊎◌, ◌<◌, ◌≤◌,
}
use growth_sent.Mongo.{Mongo}
use growth_sent.Mongo.Listing.{Listing}
use growth_sent.Mongo.Memory
use growth_sent.Mongo.Memory.{find-insert}
use growth_sent.IssueHistory.{
  IssueDocument, SeoIssueHistory, PageDocument, is_active, key_of_issue, filled, current_issues,
  sync_issue_lifecycle, is_successful_crawl_for_lifecycle,
}
use growth_sent.IssueHistory.Sync.{IsIndexed, sync-entry}

-- The open issues of a site, by their keys.
abbrev pub OpenIssues : Type 0
OpenIssues = String → Bool

abbrev pub shows : List IssueDocument → OpenIssues
shows issues key = any (λ issue. key_of_issue issue === key) issues

-- What a scan makes of the open issues: it opens what it shows, and a complete one closes the rest.
abbrev pub scanned : OpenIssues → Bool → OpenIssues → OpenIssues
scanned shown complete before key = shown key || (not complete && before key)

filled-shows :
    {A : Type 0} (key : A → String) (entries : List (String × A)) (items : List A) (k : String)
    → is_some (Memory.find (filled key entries items) k)
      ≡ (is_some (Memory.find entries k) || any (λ a. key a === k) items)
filled-shows key entries [] k = ground arith
filled-shows key entries (a ∷ items) k = ground (
  arith,
  filled-shows key (Memory.insert entries (key a) a) items k,
  find-insert entries (key a) a k,
)

current_issues-shows :
    (issues : List IssueDocument) (k : String)
    → is_some (Memory.find (current_issues issues) k) ≡ shows issues k
unfolding current_issues
current_issues-shows issues k = filled-shows key_of_issue [] issues k

-- The page is another one, or was not served.
abbrev pub Failed : String → PageDocument → Type 0
Failed scan_url page = page.url ≡ scan_url → (page.status_code < 200) ⊎ (400 ≤ page.status_code)

is_successful-Failed :
    (scan_url : String) (pages : List PageDocument)
    → All (Failed scan_url) pages
    → is_successful_crawl_for_lifecycle scan_url pages ≡ false
unfolding is_successful_crawl_for_lifecycle
is_successful-Failed scan_url [] h = refl
is_successful-Failed scan_url (page ∷ pages) (failed, h) =
    let rest = is_successful-Failed scan_url pages h in
    elim (Bool-cases (page.url === scan_url)) [
      | inr other ↦ ground (arith, rest)
      | inl same ↦ elim (failed (ground (arith, eq_iff page.url scan_url))) [
        | inl low ↦ ground (arith, rest)
        | inr high ↦ ground (arith, rest)
      ]
    ]

module _ (M : Mongo) where
  open M use {Docs, find_one}

  abbrev pub open_issues : Docs SeoIssueHistory → OpenIssues
  open_issues c key = elim (find_one c key) [ none ↦ false | some d ↦ is_active d ]

  module _ (L : Listing M) (timestamp : ℕ) (scan_id : String) where
    -- As far as its open issues go, the history that a scan leaves, of a collection whose documents
    -- stand under their keys, is what the scan makes of the set of the issues that were open.
    pub sync-refines :
        (c : Docs SeoIssueHistory) (issues : List IssueDocument) (complete : Bool)
        → IsIndexed M c
        → open_issues (sync_issue_lifecycle M timestamp scan_id L c issues complete)
          ≡ scanned (shows issues) complete (open_issues c)
    sync-refines c issues complete indexed = fun_ext λ k. ground (
      arith,
      sync-entry M L timestamp scan_id c issues complete k indexed,
      current_issues-shows issues k,
    )

    -- A scan on which no page of the scanned address was served with a status from 200 to 399
    -- closes no issue: what was open in a collection whose documents stand under their keys is open.
    pub Failed-open_issues :
        (c : Docs SeoIssueHistory) (issues : List IssueDocument) (scan_url : String)
        (pages : List PageDocument) (k : String)
        → IsIndexed M c
        → All (Failed scan_url) pages
        → open_issues c k ≡ true
        → open_issues
            (sync_issue_lifecycle M timestamp scan_id L c issues
              (is_successful_crawl_for_lifecycle scan_url pages))
            k
          ≡ true
    Failed-open_issues c issues scan_url pages k indexed failed was_open =
        let complete = is_successful_crawl_for_lifecycle scan_url pages in
        ground (
          arith,
          sync-entry M L timestamp scan_id c issues complete k indexed,
          is_successful-Failed scan_url pages failed,
        )
