-- ===== src/Audit/Claim.antt =====
-- `claimCrawlJob` of lib/services/audit.service.ts.
use growth_sent.Prelude.{ℕ, ◌+◌, ◌-◌, Option, none, some, String, if◌then◌else◌, is_some}
use growth_sent.Mongo.{Mongo}
use growth_sent.Mongo.Commands.{update_one, find_one_and_update}
use growth_sent.Types.{queued, failed, CrawlJob, Website, Database}
use growth_sent.Audit.{
  lease_duration_ms, site_busy_delay_ms, retryable_claim_filter, attempts_of, holds_lease, claimed,
  site_is_free, site_claimed,
}

-- The job of a site that is gone, and the job of a site that another worker holds.
abbrev pub site_gone : ℕ → CrawlJob → CrawlJob
site_gone clock job = record job {
  status = failed;
  error = some "Saved website is no longer available.";
  lease_id = none;
  lease_expires_at = none;
  completed_at = some clock;
}

abbrev pub site_busy : ℕ → CrawlJob → CrawlJob
site_busy clock job = record job {
  status = queued;
  lease_id = none;
  lease_expires_at = none;
  attempts = some (attempts_of job - 1);
  next_attempt_at = some (clock + site_busy_delay_ms);
}

module _ (M : Mongo) where
  open M use {find_one}

  -- The atomic claim of the job's document.
  unfoldable pub claim_document : Database M → String → String → ℕ → Option CrawlJob × Database M
  claim_document db job_id lease now =
      let (job, jobs) =
        find_one_and_update M db.jobs job_id (retryable_claim_filter now) (claimed lease now) in
      (job, record db { jobs = jobs })

  -- The claim of a saved site.
  unfoldable pub take_site : Database M → String → String → ℕ → Option Website × Database M
  take_site db site lease now =
      let (held, websites) =
        find_one_and_update M db.websites site (site_is_free lease now)
          (site_claimed lease (now + lease_duration_ms)) in
      (held, record db { websites = websites })

  -- The write that gives a job up whose site was not claimed.
  unfoldable pub give_up : Database M → String → String → (CrawlJob → CrawlJob) → Database M
  give_up db job_id lease update = record db {
    jobs = (update_one M db.jobs job_id (holds_lease lease) update).1;
  }

  -- What becomes of the job when its site was not claimed.
  unfoldable pub give_up_site : Database M → String → String → String → ℕ → Database M
  unfolding give_up
  give_up_site db job_id site lease clock =
      give_up db job_id lease
        (if is_some (find_one db.websites site) then site_busy clock else site_gone clock)

  -- The lease on the saved site, if the job has one.
  unfoldable pub claim_site : Database M → CrawlJob → String → ℕ → ℕ → Option CrawlJob × Database M
  unfolding take_site give_up_site
  claim_site db job lease now clock = elim job.website_id [
    | none ↦ (some job, db)
    | some site ↦
        let (held, db1) = take_site db site lease now in
        elim held [
          | some _ ↦ (some job, db1)
          | none ↦ (none, give_up_site db1 job.job_id site lease clock)
        ]
  ]

  unfoldable pub claim_crawl_job :
      Database M → String → String → ℕ → ℕ → Option CrawlJob × Database M
  unfolding claim_document claim_site
  claim_crawl_job db job_id lease now clock =
      let (job, db1) = claim_document db job_id lease now in
      elim job [ none ↦ (none, db1) | some job ↦ claim_site db1 job lease now clock ]
