-- ===== src/Audit.antt =====
-- lib/services/audit.service.ts: the durable crawl job, its lease, and the retry policy. Each
-- function is one command, or the commands that one method sends. The time of each reading of the
-- clock is an argument, as is each fresh id. `_id` and `jobId` of a job are one key.
pub mod Claim
pub mod Lease
pub mod Exclusive
pub mod Fence
pub mod System
pub mod Sound
pub mod Tame
pub mod Moves
pub mod Steps
pub mod ClaimSteps
pub mod SiteSteps
pub mod EndSteps
pub mod ReleaseSteps
pub mod Queue
pub mod Runs
pub mod Process
pub mod Policy
pub mod Kept
pub mod Final
pub mod Stuck
pub mod Access
pub mod Entitled
pub mod Create
pub mod Created
pub mod Capability
pub mod Next
mod Tests
use growth_sent.Prelude.{
  ℕ, ◌+◌, ◌-◌, ◌*◌, ◌^◌, min, Bool, true, false, not, ◌&&◌, ◌||◌, Option, none, some, String, ◌===◌,
  if◌then◌else◌, ltb, leb, ◌==◌,
}
use growth_sent.Types.{
  ScanStatus, queued, crawling, analysing, completed, failed, FailureCategory, timeout, network,
  response_body_unavailable, CrawlJob, Website,
}
use growth_sent.Admission.{some_is, is_later}

abbrev pub max_attempts : ℕ
max_attempts = 3

abbrev pub lease_duration_ms : ℕ
lease_duration_ms = 15 * 60 * 1000

abbrev pub site_busy_delay_ms : ℕ
site_busy_delay_ms = 30_000

abbrev pub admission_retry_delay_ms : ℕ
admission_retry_delay_ms = 15_000

-- What ends an attempt.
pub data AttemptError : Type 0 where
  lease_lost admission_deferred other : AttemptError
  root_page_not_evaluable : FailureCategory → AttemptError
  -- `CommonCrawlProviderError` or `CommonCrawlAdmissionError`, with `retryable`
  common_crawl : Bool → AttemptError

unfoldable pub should_retry_root_page_failure : FailureCategory → Bool
should_retry_root_page_failure timeout = true
should_retry_root_page_failure network = true
should_retry_root_page_failure response_body_unavailable = true
should_retry_root_page_failure _ = false

-- lib/crawler/provider.ts
unfoldable pub should_retry_durable_crawl_attempt : ℕ → ℕ → AttemptError → Bool
should_retry_durable_crawl_attempt attempts most (common_crawl retryable) =
    not (leb most attempts) && retryable
should_retry_durable_crawl_attempt attempts most admission_deferred =
    not (leb most attempts) && true
should_retry_durable_crawl_attempt attempts most _ = not (leb most attempts)

-- The retry decision of `markAttemptFailed`.
unfoldable pub should_retry : ℕ → AttemptError → Bool
unfolding should_retry_root_page_failure should_retry_durable_crawl_attempt
should_retry attempts (root_page_not_evaluable category) =
    ltb attempts max_attempts && should_retry_root_page_failure category
should_retry attempts error = should_retry_durable_crawl_attempt attempts max_attempts error

unfoldable pub next_retry_at : ℕ → ℕ → ℕ
next_retry_at attempts clock = clock + min (5 * 60 * 1000) (30_000 * 2 ^ (attempts - 1))

-- `{ $exists: false }` or `{ $lte: now }`
abbrev pub absent_or_due : Option ℕ → ℕ → Bool
absent_or_due none now = true
absent_or_due (some t) now = leb t now

abbrev pub is_queued : ScanStatus → Bool
is_queued queued = true
is_queued _ = false

abbrev pub is_running : ScanStatus → Bool
is_running crawling = true
is_running analysing = true
is_running _ = false

abbrev pub has_attempts_left : Option ℕ → Bool
has_attempts_left none = true
has_attempts_left (some n) = ltb n max_attempts

-- An expired lease, or none on a job that is older than a lease.
abbrev pub lease_is_over : CrawlJob → ℕ → Bool
lease_is_over job now = elim job.lease_expires_at [
  | some t ↦ leb t now
  | none ↦ leb (job.created_at + lease_duration_ms) now
]

unfoldable pub retryable_claim_filter : ℕ → CrawlJob → Bool
retryable_claim_filter now job =
    has_attempts_left job.attempts
    && ((is_queued job.status && absent_or_due job.next_attempt_at now)
        || (is_running job.status && lease_is_over job now))

abbrev pub attempts_of : CrawlJob → ℕ
attempts_of job = elim job.attempts [ none ↦ 0 | some n ↦ n ]

-- `{ _id, leaseId }`
abbrev pub holds_lease : String → CrawlJob → Bool
holds_lease lease job = some_is job.lease_id lease

-- `{ _id, leaseId, leaseExpiresAt: { $gt: clock } }`
abbrev pub holds_live_lease : String → ℕ → CrawlJob → Bool
holds_live_lease lease clock job = holds_lease lease job && is_later job.lease_expires_at clock

abbrev pub claimed : String → ℕ → CrawlJob → CrawlJob
claimed lease now job = record job {
  status = crawling;
  progress_percent = 10;
  lease_id = some lease;
  lease_expires_at = some (now + lease_duration_ms);
  started_at = some now;
  attempts = some (attempts_of job + 1);
  next_attempt_at = none;
}

abbrev pub site_is_free : String → ℕ → Website → Bool
site_is_free lease now site =
    absent_or_due site.active_audit_lease_expires_at now || some_is site.active_audit_lease_id lease

abbrev pub site_claimed : String → ℕ → Website → Website
site_claimed lease expires site = record site {
  active_audit_lease_id = some lease;
  active_audit_lease_expires_at = some expires;
}

abbrev pub holds_live_site_lease : String → ℕ → Website → Bool
holds_live_site_lease lease clock site =
    some_is site.active_audit_lease_id lease && is_later site.active_audit_lease_expires_at clock
