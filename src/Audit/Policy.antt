-- ===== src/Audit/Policy.antt =====
-- The retry policy of lib/services/audit.service.ts and lib/crawler/provider.ts.
use growth_sent.Prelude.{
  ℕ, zero, suc, ◌+◌, ◌*◌, ◌≤◌, ◌<◌, ◌≡◌, Bool, true, false, none, some, String, if◌then◌else◌, leb,
  arith, eq_refl, ◌&&◌, Option-cases, Bool-cases, inl, inr,
}
use growth_sent.Mongo.{Mongo}
use growth_sent.Types.{CrawlJob, Database, failed}
use growth_sent.Admission.Release.{release-jobs, release-websites}
use growth_sent.Audit.{
  AttemptError, attempts_of, holds_lease, claimed, should_retry, next_retry_at,
  retryable_claim_filter, max_attempts, site_is_free,
}
use growth_sent.Audit.Claim.{claim_document, claim_crawl_job}
use growth_sent.Audit.Moves.{should_retry-lt}
use growth_sent.Audit.Lease.{mark_attempt_failed, attempt_failed}

module _ (M : Mongo) (job d : CrawlJob) (lease : String) (db : Database M) (error : AttemptError)
    (clock : ℕ) (found : M.find_one db.jobs job.job_id ≡ some d)
    (held : holds_lease lease d ≡ true) where
  open M use {find_one, find_one-write}

  abbrev retry : Bool
  retry = should_retry (attempts_of job) error

  abbrev failing : CrawlJob
  failing = attempt_failed retry error (attempts_of job) clock d

  stored : find_one (mark_attempt_failed M job lease db error clock).jobs job.job_id ≡ some failing
  unfolding mark_attempt_failed
  stored = ground (
    arith,
    found,
    find_one-write db.jobs job.job_id failing job.job_id,
    eq_refl job.job_id,
    release-jobs M (record db { jobs = M.write db.jobs job.job_id failing }) job clock,
  )

  websites_kept : (mark_attempt_failed M job lease db error clock).websites ≡ db.websites
  unfolding mark_attempt_failed
  websites_kept = ground (
    arith,
    found,
    release-websites M (record db { jobs = M.write db.jobs job.job_id failing }) job clock,
  )

  -- Can a worker with this lease id take the saved site of the job, if it has one?
  abbrev pub site_open : String → ℕ → Bool
  site_open lease' later = elim d.website_id [
    | none ↦ true
    | some site ↦ elim (find_one db.websites site) [
      | none ↦ false
      | some v ↦ site_is_free lease' later v
    ]
  ]

  again_claim :
      (db' : Database M) (lease' : String) (later clock' : ℕ)
      → find_one db'.jobs job.job_id ≡ some failing
      → db'.websites ≡ db.websites
      → retry ≡ true
      → attempts_of d < max_attempts
      → (claim_crawl_job M db' job.job_id lease' later clock').0 ≡ (
          if leb (next_retry_at (attempts_of job) clock) later && site_open lease' later
          then some (claimed lease' later failing)
          else none)
  unfolding claim_crawl_job retryable_claim_filter
  again_claim db' lease' later clock' there same again left =
      elim (Bool-cases (leb (next_retry_at (attempts_of job) clock) later)) [
        | inr early ↦ ground (arith, there)
        | inl due ↦ elim (Option-cases d.website_id) [
          | inl unsaved ↦ ground (arith, there)
          | inr (site, saved) ↦ elim (Option-cases (find_one db.websites site)) [
            | inl gone ↦ ground (arith, there, same)
            | inr (v, known) ↦ ground (arith, there, same)
          ]
        ]
      ]

  -- An attempt that fails under a lease that its worker still holds, whose copy of the job counts the
  -- attempts as the document does, and that is to be retried, puts the job back into the queue: from
  -- the end of the backoff on any worker can claim it that can take its saved site, if it has one,
  -- and none before.
  pub retry-claim :
      (lease' : String) (later clock' : ℕ)
      → retry ≡ true
      → attempts_of d ≡ attempts_of job
      → (claim_crawl_job M
          (mark_attempt_failed M job lease db error clock)
          job.job_id
          lease'
          later
          clock').0
        ≡ (if leb (next_retry_at (attempts_of job) clock) later && site_open lease' later
            then some (claimed lease' later failing)
            else none)
  retry-claim lease' later clock' again same =
      let left : attempts_of d < max_attempts =
        omega (arith, same, should_retry-lt (attempts_of job) error again) in
      again_claim (mark_attempt_failed M job lease db error clock) lease' later clock' stored
        websites_kept again left

  -- An attempt that fails under a lease that its worker still holds, and is not retried, ends the job: no later claim finds it.
  pub failed-claim :
      (lease' : String) (later : ℕ)
      → retry ≡ false
      → (find_one (mark_attempt_failed M job lease db error clock).jobs job.job_id ≡ some failing)
        × (failing.status ≡ failed)
        × ((claim_document M
              (mark_attempt_failed M job lease db error clock)
              job.job_id
              lease'
              later).0
            ≡ none)
  unfolding claim_document retryable_claim_filter
  failed-claim lease' later last = (stored, ground arith, ground (arith, stored))

-- The backoff lies between half a minute and five minutes for every attempt that can be retried.
pub next_retry_at_bounds :
    (attempts clock : ℕ)
    → attempts < max_attempts
    → (clock + 30_000 ≤ next_retry_at attempts clock)
      × (next_retry_at attempts clock ≤ clock + 5 * 60 * 1000)
unfolding next_retry_at
next_retry_at_bounds zero clock h = (omega arith, omega arith)
next_retry_at_bounds (suc zero) clock h = (omega arith, omega arith)
next_retry_at_bounds (suc (suc zero)) clock h = (omega arith, omega arith)
next_retry_at_bounds (suc (suc (suc n))) clock h = absurd (omega arith)
