-- ===== src/Audit/Access.antt =====
-- lib/services/audit.service.ts: who may read a job (`canAccessJob`), and what a reader is told
-- (`getCrawlJobStatus`). An empty text is a missing one. The scans, pages and issues are what the
-- queries of those collections return; `new ObjectId(id)` is a parameter.
use growth_sent.Prelude.{
  ℕ, Bool, true, false, ◌&&◌, Option, none, some, List, String, ◌===◌, ◌==◌, if◌then◌else◌, codes,
  all, length, is_text, take,
}
use growth_sent.Mongo.{Mongo}
use growth_sent.Mongo.Commands.{find_one_where}
use growth_sent.Types.{ScanStatus, completed, failed, CrawlJob, Database}
use growth_sent.Capabilities.{Sha256, is_hex, verify_opaque_access_token}
use growth_sent.AuditErrors.{PublicAuditFailureCode, public_audit_failure}

pub record CrawlJobAccessContext : Type 0 where
  pub user_id : Option String
  pub access_token : Option String

-- A text that is there and not empty.
abbrev pub given : Option String → Option String
given none = none
given (some text) = if text === "" then none else some text

-- What the reader of a job gets, with the results of a completed scan.
pub record Results (Scan Page Issue : Type 0) : Type 0 where
  pub scan : Option Scan
  pub pages : List Page
  pub issues : List Issue

pub record JobStatus (Scan Page Issue : Type 0) : Type 0 where
  pub job_id : String
  pub status : ScanStatus
  pub progress_percent : ℕ
  pub pages_crawled : ℕ
  pub results : Option (Results Scan Page Issue)
  pub error_code : Option PublicAuditFailureCode

-- The queries of the collections `scans`, `pages` and `issues` by a scan's id.
pub record Archive (Scan Page Issue : Type 0) : Type 0 where
  pub scan_of : String → Option Scan
  pub pages_of : String → List Page
  pub issues_of : String → List Issue

module _ (object_id : String → String) where
  -- `none` where it throws
  unfoldable pub safe_object_id : String → Option String
  safe_object_id id =
      if length (codes id) == 24 && all is_hex (codes id) then some (object_id id) else none

  module _ (M : Mongo) (h : Sha256) where
    open M use {find_one}

    unfoldable pub owns_website : Database M → String → String → Bool
    unfolding safe_object_id
    owns_website db site user = elim (safe_object_id user) [
      | none ↦ false
      | some owner ↦ elim (find_one_where M db.websites site (λ w. is_text w.user_id owner)) [
        | none ↦ false
        | some _ ↦ true
      ]
    ]

    unfoldable pub can_access_job : Database M → CrawlJob → CrawlJobAccessContext → Bool
    unfolding owns_website
    can_access_job db job access = elim job.website_id [
      | some site ↦ elim (given access.user_id) [
        | none ↦ false
        | some user ↦ owns_website db site user
      ]
      | none ↦ elim (given job.clerk_user_id) [
        | some owner ↦ elim (given access.user_id) [ none ↦ false | some user ↦ owner === user ]
        | none ↦ verify_opaque_access_token h access.access_token job.access_token_hash
      ]
    ]

    module _ {Scan Page Issue : Type 0} (archive : Archive Scan Page Issue) where
      unfoldable pub results_of : CrawlJob → Option (Results Scan Page Issue)
      results_of job = elim job.status [
        | completed ↦ elim job.scan_id [
          | none ↦ none
          | some scan ↦ some (record {
            scan = archive.scan_of scan;
            pages = take 100 (archive.pages_of scan);
            issues = archive.issues_of scan;
          })
        ]
        | _ ↦ none
      ]

      unfoldable pub failure_of : CrawlJob → Option PublicAuditFailureCode
      failure_of job = elim job.status [
        | failed ↦ some (public_audit_failure job.failure_category)
        | _ ↦ none
      ]

      unfoldable pub status_of : CrawlJob → JobStatus Scan Page Issue
      unfolding results_of failure_of
      status_of job = elim (results_of job) [
        | some results ↦ record {
          job_id = job.job_id;
          status = job.status;
          progress_percent = 100;
          pages_crawled = job.pages_crawled;
          results = some results;
          error_code = none;
        }
        | none ↦ record {
          job_id = job.job_id;
          status = job.status;
          progress_percent = job.progress_percent;
          pages_crawled = job.pages_crawled;
          results = none;
          error_code = failure_of job;
        }
      ]

      unfoldable pub get_crawl_job_status :
          Database M → String → CrawlJobAccessContext → Option (JobStatus Scan Page Issue)
      unfolding status_of
      get_crawl_job_status db job_id access = elim (find_one db.jobs job_id) [
        | none ↦ none
        | some job ↦ if can_access_job db job access then some (status_of job) else none
      ]
