-- ===== src/Audit/Process.antt =====
-- `processCrawlJob` of lib/services/audit.service.ts: one attempt at a job. What the crawl and the
-- analysis do is an argument, as is what others change in the collections while the crawl runs.
use growth_sent.Prelude.{
  ℕ, ◌≡◌, refl, ap, Bool, true, false, Option, none, some, String, Result, ok, err, arith, eq_refl,
  Result-cases, inl, inr,
}
use growth_sent.Mongo.{Mongo}
use growth_sent.Types.{ScanStatus, queued, completed, failed, CrawlJob, Database}
use growth_sent.Admission.Release.{release-jobs}
use growth_sent.Audit.{AttemptError, lease_lost, admission_deferred}
use growth_sent.Audit.Claim.{claim_crawl_job}
use growth_sent.Audit.Lease.{
  ensure_scan_id, mark_analysing, mark_attempt_failed, defer_for_common_crawl_admission,
  release_website_lease, publish, finished,
}
use growth_sent.Audit.Fence.{publish-IsPublished}

pub record Report : Type 0 where
  pub claimed : Bool
  pub status : Option ScanStatus
  pub attempt : Option ℕ

-- The clock readings of one attempt, the fresh ids, and the work: how many pages the crawl gives.
pub record Attempt (M : Mongo) : Type 0 where
  pub lease : String
  pub scan_id : String
  pub now : ℕ
  pub claim_clock : ℕ
  pub analysis_clock : ℕ
  pub completion : ℕ
  pub publish_clock : ℕ
  pub failure_clock : ℕ
  pub crawl : CrawlJob → Result AttemptError ℕ
  pub meanwhile : Database M → Database M

module _ (M : Mongo) (a : Attempt M) where
  open M use {find_one}

  -- The body of the `try`: an error comes with the collections as they were when it was thrown.
  analyse_and_publish : CrawlJob → ℕ → Database M → Result AttemptError (Unit {0}) × Database M
  analyse_and_publish job pages db = elim (mark_analysing M job a.lease db pages a.analysis_clock) [
    | err e ↦ (err e, db)
    | ok db1 ↦ elim (publish M job a.lease db1 pages a.completion a.publish_clock) [
      | err e ↦ (err e, db1)
      | ok db2 ↦ (ok tt, db2)
    ]
  ]

  attempt : CrawlJob → Database M → Result AttemptError (Unit {0}) × Database M
  unfolding analyse_and_publish
  attempt job db = elim (ensure_scan_id M job a.lease db a.scan_id) [
    | err e ↦ (err e, db)
    | ok (_, db1) ↦ elim (a.crawl job) [
      | err e ↦ (err e, a.meanwhile db1)
      | ok pages ↦ analyse_and_publish job pages (a.meanwhile db1)
    ]
  ]

  -- The `catch`: the status that is reported, and the collections.
  settle : CrawlJob → Result AttemptError (Unit {0}) → Database M → ScanStatus × Database M
  settle job (ok _) db = (completed, db)
  settle job (err admission_deferred) db =
      (queued, defer_for_common_crawl_admission M job a.lease db a.failure_clock)
  settle job (err lease_lost) db = (failed, db)
  settle job (err e) db = (failed, mark_attempt_failed M job a.lease db e a.failure_clock)

  run : CrawlJob → Database M → ScanStatus × Database M
  unfolding attempt settle
  run job db = let (r, db1) = attempt job db in settle job r db1

  -- The `finally` gives the saved site back.
  conclude : Option CrawlJob → Database M → Report × Database M
  unfolding run
  conclude none db = (record { claimed = false; status = none; attempt = none }, db)
  conclude (some job) db =
      let (status, db2) = run job db in
      (
        record { claimed = true; status = some status; attempt = job.attempts },
        release_website_lease M job a.lease db2,
      )

  unfoldable pub process_crawl_job : Database M → String → Report × Database M
  unfolding conclude
  process_crawl_job db job_id =
      let (job, db1) = claim_crawl_job M db job_id a.lease a.now a.claim_clock in conclude job db1

  -- What the document of the job says once a result was published.
  abbrev IsDone : CrawlJob → Database M → Type 0
  IsDone job db =
      (d : CrawlJob) × (find_one db.jobs job.job_id ≡ some d)
      × (d.status ≡ completed)
      × (d.lease_id ≡ none)

  publish-IsDone :
      (job : CrawlJob) (db db' : Database M) (pages completion clock : ℕ)
      → publish M job a.lease db pages completion clock ≡ ok db'
      → IsDone job db'
  publish-IsDone job db db' pages completion clock e =
      let p = publish-IsPublished M job a.lease db clock pages completion db' e in
      let d = finished pages completion p.held in
      (
        d,
        rw (p.released, release-jobs, p.stored)
            (ground (arith, M.find_one-write db.jobs job.job_id d job.job_id, eq_refl job.job_id)),
        refl,
        refl,
      )

  analyse_and_publish-IsDone :
      (job : CrawlJob) (pages : ℕ) (db : Database M)
      → (analyse_and_publish job pages db).0 ≡ ok tt
      → IsDone job (analyse_and_publish job pages db).1
  unfolding analyse_and_publish
  analyse_and_publish-IsDone job pages db e =
      elim (Result-cases (mark_analysing M job a.lease db pages a.analysis_clock)) [
        | inr (x, lost) ↦ absurd (ground arith)
        | inl (db1, moved) ↦
            elim (Result-cases (publish M job a.lease db1 pages a.completion a.publish_clock)) [
              | inr (x, refused) ↦ absurd (ground arith)
              | inl (db2, done) ↦
                  let same : (analyse_and_publish job pages db).1 ≡ db2 = ground arith in
                  rw same (publish-IsDone job db1 db2 pages a.completion a.publish_clock done)
            ]
      ]

  attempt-IsDone :
      (job : CrawlJob) (db : Database M)
      → (attempt job db).0 ≡ ok tt
      → IsDone job (attempt job db).1
  unfolding attempt
  attempt-IsDone job db e = elim (Result-cases (ensure_scan_id M job a.lease db a.scan_id)) [
    | inr (x, lost) ↦ absurd (ground arith)
    | inl ((id, db1), kept) ↦ elim (Result-cases (a.crawl job)) [
      | inr (x, thrown) ↦ absurd (ground arith)
      | inl (pages, crawled) ↦
          let db2 = a.meanwhile db1 in
          let same : attempt job db ≡ analyse_and_publish job pages db2 = ground arith in
          rw same (analyse_and_publish-IsDone job pages db2 (rw same at e))
    ]
  ]

  settle-completed :
      (job : CrawlJob) (r : Result AttemptError (Unit {0})) (db : Database M)
      → (settle job r db).0 ≡ completed
      → (r ≡ ok tt) × ((settle job r db).1 ≡ db)
  unfolding settle
  settle-completed job (ok tt) db e = (refl, refl)
  settle-completed job (err admission_deferred) db e = cc
  settle-completed job (err lease_lost) db e = cc
  settle-completed job (err AttemptError.other) db e = cc
  settle-completed job (err (AttemptError.root_page_not_evaluable c)) db e = cc
  settle-completed job (err (AttemptError.common_crawl r)) db e = cc

  run-IsDone :
      (job : CrawlJob) (db : Database M) → (run job db).0 ≡ completed → IsDone job (run job db).1
  unfolding run
  run-IsDone job db e =
      let (r, db1) = attempt job db in
      let (won, same) = settle-completed job r db1 e in rw same (attempt-IsDone job db won)

  release_website_lease-jobs :
      (job : CrawlJob) (db : Database M) → (release_website_lease M job a.lease db).jobs ≡ db.jobs
  unfolding release_website_lease
  release_website_lease-jobs job db = ground arith

  conclude-IsDone :
      (job : Option CrawlJob) (db : Database M)
      → (conclude job db).0.status ≡ some completed
      → (j : CrawlJob) × (job ≡ some j) × IsDone j (conclude job db).1
  unfolding conclude
  conclude-IsDone none db e = absurd (ground arith)
  conclude-IsDone (some job) db e =
      let (status, db2) = run job db in
      (job, refl, rw (release_website_lease-jobs job db2) (run-IsDone job db (ground arith)))

  -- A worker that reports `completed` has completed the document of the job that it claimed, with
  -- its lease taken off, whatever others did to the collections while its crawl ran.
  pub process_crawl_job-completed :
      (db : Database M) (id : String)
      → (process_crawl_job db id).0.status ≡ some completed
      → (job : CrawlJob) × (db1 : Database M) × (claim_crawl_job M db id a.lease a.now a.claim_clock
          ≡ (some job, db1))
        × IsDone job (process_crawl_job db id).1
  unfolding process_crawl_job
  process_crawl_job-completed db id e =
      let (job, db1) = claim_crawl_job M db id a.lease a.now a.claim_clock in
      let (won, claimed, done) = conclude-IsDone job db1 e in
      (won, db1, ap (λ (j : Option CrawlJob). (j, db1)) claimed, done)
