-- ===== src/IssueHistory.antt =====
-- lib/services/audit.service.ts: `syncIssueLifecycle`, which carries the findings of a completed
-- audit into the history of a saved site. The collection `seoIssueHistory` is the part of one site:
-- its unique index makes rule and URL the key of a document, which `_id` stands for as well. The
-- transaction sends its commands one after another.
pub mod Entry
pub mod Filled
pub mod Sync
pub mod Refine
pub mod Sound
pub mod Again
mod Tests
use growth_sent.Prelude.{
  ℕ, ◌-◌, Bool, true, false, not, ◌&&◌, leb, ltb, any, Option, none, some, is_some, List, [], ◌∷◌,
  ◌++◌, String, ◌<>◌, ◌===◌, if◌then◌else◌, last_items,
}
use growth_sent.Mongo.{Mongo}
use growth_sent.Mongo.Commands.{update_one, upsert_one}
use growth_sent.Mongo.Listing.{Listing}
use growth_sent.Mongo.Memory
use growth_sent.Seo.{Severity, IssueCategory}

abbrev pub issue_history_event_limit : ℕ
issue_history_event_limit = 100

pub record IssueDocument : Type 0 where
  pub rule_id : String
  pub category : IssueCategory
  pub severity : Severity
  pub title : String
  pub affected_url : String

pub data LifecycleStatus : Type 0 where
  active resolved : LifecycleStatus

pub data EventKind : Type 0 where
  detected_event resolved_event reoccurred_event : EventKind

pub record HistoryEvent : Type 0 where
  pub event : EventKind
  pub timestamp : ℕ
  pub scan_id : String

pub record SeoIssueHistory : Type 0 where
  pub rule_id : String
  pub affected_url : String
  pub category : IssueCategory
  pub severity : Severity
  pub title : String
  pub status : LifecycleStatus
  pub first_detected_at : ℕ
  pub last_detected_at : ℕ
  pub resolved_at : Option ℕ
  pub reoccurred_at : Option ℕ
  pub history_events : List HistoryEvent
  pub created_at : ℕ
  pub updated_at : ℕ

abbrev pub is_active : SeoIssueHistory → Bool
is_active d = elim d.status [ active ↦ true | resolved ↦ false ]

abbrev pub is_resolved : SeoIssueHistory → Bool
is_resolved d = not (is_active d)

unfoldable pub issue_key : String → String → String
issue_key rule_id affected_url = rule_id <> ("\0" <> affected_url)

abbrev pub key_of_issue : IssueDocument → String
key_of_issue issue = issue_key issue.rule_id issue.affected_url

abbrev pub key_of_item : SeoIssueHistory → String
key_of_item item = issue_key item.rule_id item.affected_url

abbrev pub push_event : SeoIssueHistory → EventKind → ℕ → String → List HistoryEvent
push_event d event timestamp scan_id =
    last_items issue_history_event_limit (
      d.history_events ++ (record { event = event; timestamp = timestamp; scan_id = scan_id } ∷ []))

module _ (timestamp : ℕ) (scan_id : String) where
  -- The four updates that the method sends: to an issue that goes on,
  abbrev pub continued : IssueDocument → SeoIssueHistory → SeoIssueHistory
  continued issue d = record d {
    category = issue.category;
    severity = issue.severity;
    title = issue.title;
    last_detected_at = timestamp;
    updated_at = timestamp;
  }

  -- to one that is back,
  abbrev pub reopened : IssueDocument → SeoIssueHistory → SeoIssueHistory
  reopened issue d = record d {
    category = issue.category;
    severity = issue.severity;
    title = issue.title;
    status = active;
    last_detected_at = timestamp;
    reoccurred_at = some timestamp;
    resolved_at = none;
    updated_at = timestamp;
    history_events = push_event d reoccurred_event timestamp scan_id;
  }

  -- to one that a scan no longer shows,
  abbrev pub closed : SeoIssueHistory → SeoIssueHistory
  closed d = record d {
    status = resolved;
    resolved_at = some timestamp;
    updated_at = timestamp;
    history_events = push_event d resolved_event timestamp scan_id;
  }

  -- and the upsert, on a document that is there and on a new one.
  abbrev pub detected : IssueDocument → SeoIssueHistory → SeoIssueHistory
  detected issue d = record d {
    category = issue.category;
    severity = issue.severity;
    title = issue.title;
    status = active;
    last_detected_at = timestamp;
    updated_at = timestamp;
  }

  abbrev pub first_detected : IssueDocument → SeoIssueHistory
  first_detected issue = record {
    rule_id = issue.rule_id;
    affected_url = issue.affected_url;
    category = issue.category;
    severity = issue.severity;
    title = issue.title;
    status = active;
    first_detected_at = timestamp;
    last_detected_at = timestamp;
    resolved_at = none;
    reoccurred_at = none;
    history_events =
        record { event = detected_event; timestamp = timestamp; scan_id = scan_id } ∷ [];
    created_at = timestamp;
    updated_at = timestamp;
  }

-- `new Map`, filled in order: a later entry replaces an earlier one in its place.
abbrev pub filled : {A : Type 0} → (A → String) → List (String × A) → List A → List (String × A)
filled key entries [] = entries
filled key entries (item ∷ items) = filled key (Memory.insert entries (key item) item) items

unfoldable pub current_issues : List IssueDocument → List (String × IssueDocument)
current_issues issues = filled key_of_issue [] issues

-- The items by their keys, each with its `_id`.
unfoldable pub active_by_key :
    List (String × SeoIssueHistory) → List (String × (String × SeoIssueHistory))
active_by_key history = filled (λ item. key_of_item item.1) [] history

module _ (M : Mongo) (timestamp : ℕ) (scan_id : String) where
  open M use {Docs, find_one}

  abbrev pub upsert : Docs SeoIssueHistory → IssueDocument → Docs SeoIssueHistory
  upsert c issue =
      upsert_one M c (key_of_issue issue) (first_detected timestamp scan_id issue)
        (detected timestamp scan_id issue)

  -- One turn of the first loop.
  unfoldable pub observe :
      List (String × (String × SeoIssueHistory))
      → Docs SeoIssueHistory
      → String
      → IssueDocument
      → Docs SeoIssueHistory
  observe known c key issue = elim (Memory.find known key) [
    | some (id, _) ↦ (update_one M c id is_active (continued timestamp scan_id issue)).1
    | none ↦ elim (find_one c (key_of_issue issue)) [
      | none ↦ upsert c issue
      | some existing ↦
          if is_resolved existing
          then (update_one M c (key_of_issue issue) is_resolved
              (reopened timestamp scan_id issue)).1
          else upsert c issue
    ]
  ]

  unfoldable pub observe_all :
      List (String × (String × SeoIssueHistory))
      → Docs SeoIssueHistory
      → List (String × IssueDocument)
      → Docs SeoIssueHistory
  observe_all known c [] = c
  observe_all known c ((key, issue) ∷ issues) = observe_all known (observe known c key issue) issues

  -- The second loop.
  unfoldable pub resolve_missing :
      List (String × IssueDocument)
      → Docs SeoIssueHistory
      → List (String × SeoIssueHistory)
      → Docs SeoIssueHistory
  resolve_missing current c [] = c
  resolve_missing current c ((id, previous) ∷ history) =
      if is_some (Memory.find current (key_of_item previous))
      then resolve_missing current c history
      else resolve_missing current (update_one M c id is_active (closed timestamp scan_id)).1
          history

  unfoldable pub sync_issue_lifecycle :
      Listing M → Docs SeoIssueHistory → List IssueDocument → Bool → Docs SeoIssueHistory
  unfolding current_issues active_by_key observe_all resolve_missing
  sync_issue_lifecycle L c issues complete =
      let current = current_issues issues in
      let history = L.find is_active c in
      let observed = observe_all (active_by_key history) c current in
      if complete then resolve_missing current observed history else observed

-- The pages of a scan, as far as `isSuccessfulCrawlForLifecycle` reads them.
pub record PageDocument : Type 0 where
  pub url : String
  pub status_code : ℕ

unfoldable pub is_successful_crawl_for_lifecycle : String → List PageDocument → Bool
is_successful_crawl_for_lifecycle scan_url pages =
    any (λ page. page.url === scan_url && leb 200 page.status_code && ltb page.status_code 400)
      pages
