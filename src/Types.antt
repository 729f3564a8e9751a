-- ===== src/Types.antt =====
-- The documents of lib/db/types.ts that the services share, as far as the services read or write
-- them. A time is a number of milliseconds; an absent field is `none`, an absent flag `false`.
use growth_sent.Prelude.{ℕ, Bool, Option, String}
use growth_sent.Mongo.{Mongo}

pub data ScanStatus : Type 0 where
  queued crawling analysing completed failed cancelled : ScanStatus

-- `FetchFailureCategory` and the three categories that `evaluateRootPage` adds.
pub data FailureCategory : Type 0 where
  blocked_by_safety_policy invalid_redirect response_body_unavailable : FailureCategory
  response_size_limit timeout network redirect_limit : FailureCategory
  missing_root_result non_html_response unexpected_http_status : FailureCategory

pub record CrawlJob : Type 0 where
  pub job_id : String
  pub url : String
  pub crawl_provider : Option String
  pub requester_key : Option String
  pub clerk_user_id : Option String
  pub website_id : Option String
  pub access_token_hash : Option String
  pub status : ScanStatus
  pub progress_percent : ℕ
  pub pages_crawled : ℕ
  pub error : Option String
  pub failure_category : Option FailureCategory
  pub scan_id : Option String
  pub lease_id : Option String
  pub lease_expires_at : Option ℕ
  pub attempts : Option ℕ
  pub next_attempt_at : Option ℕ
  pub admission_queue_slot : Bool
  pub admission_claim_key : Option String
  pub started_at : Option ℕ
  pub created_at : ℕ
  pub completed_at : Option ℕ

pub record Website : Type 0 where
  pub user_id : Option String
  pub active_audit_lease_id : Option String
  pub active_audit_lease_expires_at : Option ℕ

pub data AdmissionKind : Type 0 where
  quota target active queue : AdmissionKind

pub data ActorKind : Type 0 where
  authenticated anonymous : ActorKind

-- `AdmissionDocument` of lib/jobs/crawl-admission.ts.
pub record Admission : Type 0 where
  pub kind : AdmissionKind
  pub count : Option ℕ
  pub active_count : Option ℕ
  pub job_id : Option String
  pub actor_kind : Option ActorKind
  pub expires_at : Option ℕ
  pub created_at : ℕ
  pub updated_at : ℕ

-- The collections `crawlAdmission`, `crawlJobs` and `websites`.
module _ (M : Mongo) where
  open M use {Docs}

  pub record Database : Type 0 where
    pub admissions : Docs Admission
    pub jobs : Docs CrawlJob
    pub websites : Docs Website
