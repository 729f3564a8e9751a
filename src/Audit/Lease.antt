-- ===== src/Audit/Lease.antt =====
-- The commands of lib/services/audit.service.ts that a worker sends while it holds a lease.
use growth_sent.Prelude.{
  ℕ, ◌+◌, ◌-◌, ◌==◌, Bool, ◌&&◌, not, Option, none, some, String, if◌then◌else◌, is_some, Result,
  ok, err, ◌>>=◌,
}
use growth_sent.Mongo.{Mongo}
use growth_sent.Mongo.Commands.{update_one, find_one_where}
use growth_sent.Types.{queued, failed, analysing, completed, FailureCategory, CrawlJob, Database}
use growth_sent.Admission.{some_is}
use growth_sent.Admission.Release.{release_crawl_admission}
use growth_sent.Audit.{
  AttemptError, lease_lost, root_page_not_evaluable, lease_duration_ms, admission_retry_delay_ms,
  attempts_of, holds_lease, holds_live_lease, holds_live_site_lease, is_running, should_retry,
  next_retry_at,
}

-- The failure category that an attempt leaves on the job: that of a root page, else none.
abbrev pub category_of : AttemptError → Option FailureCategory
category_of (root_page_not_evaluable category) = some category
category_of _ = none

abbrev pub attempt_failed : Bool → AttemptError → ℕ → ℕ → CrawlJob → CrawlJob
attempt_failed retry error attempts clock job = record job {
  status = if retry then queued else failed;
  error = some (
      if retry
      then "Crawl attempt failed and will be retried."
      else "Crawl failed after the maximum retry attempts.");
  next_attempt_at = if retry then some (next_retry_at attempts clock) else job.next_attempt_at;
  completed_at = if retry then none else some clock;
  failure_category = category_of error;
  lease_id = none;
  lease_expires_at = none;
}

abbrev pub deferred : ℕ → CrawlJob → CrawlJob
deferred clock job = record job {
  status = queued;
  next_attempt_at = some (clock + admission_retry_delay_ms);
  attempts = some (attempts_of job - 1);
  lease_id = none;
  lease_expires_at = none;
  error = none;
}

abbrev pub finished : ℕ → ℕ → CrawlJob → CrawlJob
finished pages completion job = record job {
  status = completed;
  progress_percent = 100;
  pages_crawled = pages;
  completed_at = some completion;
  lease_id = none;
  lease_expires_at = none;
  next_attempt_at = none;
  error = none;
  failure_category = none;
}

-- `job` is the worker's own copy of the document, as it was when claimed under `lease`.
module _ (M : Mongo) (job : CrawlJob) (lease : String) where
  open M use {find_one}

  unfoldable pub ensure_lease : Database M → ℕ → Result AttemptError (Unit {0})
  ensure_lease db clock =
      if not (is_some (find_one_where M db.jobs job.job_id (holds_live_lease lease clock)))
      then err lease_lost
      else elim job.website_id [
        | none ↦ ok tt
        | some site ↦
            if is_some (find_one_where M db.websites site (holds_live_site_lease lease clock))
            then ok tt
            else err lease_lost
      ]

  unfoldable pub release_website_lease : Database M → Database M
  release_website_lease db = elim job.website_id [
    | none ↦ db
    | some site ↦ record db {
      websites =
          (update_one M db.websites site (λ w. some_is w.active_audit_lease_id lease)
            (λ w. record w {
              active_audit_lease_id = none;
              active_audit_lease_expires_at = none;
            })).1;
    }
  ]

  unfoldable pub fence_website_lease : Database M → ℕ → Result AttemptError (Database M)
  fence_website_lease db clock = elim job.website_id [
    | none ↦ ok db
    | some site ↦
        let (count, websites) =
          update_one M db.websites site (holds_live_site_lease lease clock)
            (λ w. record w { active_audit_lease_expires_at = some (clock + lease_duration_ms) }) in
        if count == 1 then ok (record db { websites = websites }) else err lease_lost
  ]

  -- The job's scan id, or the fresh one, stored under the lease.
  unfoldable pub ensure_scan_id : Database M → String → Result AttemptError (String × Database M)
  ensure_scan_id db fresh = elim job.scan_id [
    | some id ↦ ok (id, db)
    | none ↦
        let (count, jobs) =
          update_one M db.jobs job.job_id (λ d. holds_lease lease d && not (is_some d.scan_id))
            (λ d. record d { scan_id = some fresh }) in
        if count == 1 then ok (fresh, record db { jobs = jobs }) else err lease_lost
  ]

  -- The write of `markAttemptFailed`, and whether the admission is to be given back after it.
  unfoldable pub fail_attempt : Database M → AttemptError → ℕ → Bool × Database M
  fail_attempt db error clock =
      let attempts = attempts_of job in
      let retry = should_retry attempts error in
      let (count, jobs) =
        update_one M db.jobs job.job_id (holds_lease lease)
          (attempt_failed retry error attempts clock) in
      (not retry && count == 1, record db { jobs = jobs })

  -- `markAttemptFailed`. A job that is not retried gives its admission back.
  unfoldable pub mark_attempt_failed : Database M → AttemptError → ℕ → Database M
  unfolding fail_attempt
  mark_attempt_failed db error clock =
      let (ended, db1) = fail_attempt db error clock in
      if ended then release_crawl_admission M db1 job clock else db1

  unfoldable pub defer_for_common_crawl_admission : Database M → ℕ → Database M
  defer_for_common_crawl_admission db clock = record db {
    jobs = (update_one M db.jobs job.job_id (holds_lease lease) (deferred clock)).1;
  }

  unfoldable pub renew_job : Database M → ℕ → Database M
  renew_job db clock = record db {
    jobs =
        (update_one M db.jobs job.job_id (λ d. holds_lease lease d && is_running d.status)
          (λ d. record d { lease_expires_at = some (clock + lease_duration_ms) })).1;
  }

  unfoldable pub renew_site : Database M → ℕ → Database M
  renew_site db clock = elim job.website_id [
    | none ↦ db
    | some site ↦ record db {
      websites =
          (update_one M db.websites site (λ w. some_is w.active_audit_lease_id lease)
            (λ w. record w { active_audit_lease_expires_at = some (clock + lease_duration_ms) })).1;
    }
  ]

  -- One beat of `startLeaseHeartbeat`.
  unfoldable pub renew_lease : Database M → ℕ → Database M
  unfolding renew_job renew_site
  renew_lease db clock = renew_site (renew_job db clock) clock

  -- The change to `analysing` in `processCrawlJob`, after `pages` pages were fetched.
  unfoldable pub mark_analysing : Database M → ℕ → ℕ → Result AttemptError (Database M)
  mark_analysing db pages clock =
      let (count, jobs) =
        update_one M db.jobs job.job_id (holds_live_lease lease clock)
          (λ d. record d { status = analysing; progress_percent = 70; pages_crawled = pages }) in
      if count == 1 then ok (record db { jobs = jobs }) else err lease_lost

  unfoldable pub complete_job : Database M → ℕ → ℕ → ℕ → Result AttemptError (Database M)
  complete_job db pages completion clock =
      let (count, jobs) =
        update_one M db.jobs job.job_id (holds_live_lease lease clock)
          (finished pages completion) in
      if count == 1 then ok (record db { jobs = jobs }) else err lease_lost

  -- What the transaction of `persistResults` does to the job: the first check, the fence on the
  -- site, the last write, and the release of the admission. `completion` is the completion time.
  unfoldable pub publish : Database M → ℕ → ℕ → ℕ → Result AttemptError (Database M)
  publish db pages completion clock = do
    _ ← ensure_lease db clock
    db1 ← fence_website_lease db clock
    db2 ← complete_job db1 pages completion clock
    ok (release_crawl_admission M db2 job clock)
