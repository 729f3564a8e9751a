-- ===== src/Audit/System.antt =====
-- The collections together with the workers of lib/services/audit.service.ts, and the steps in
-- which requests and workers change them. A step is one command outside a transaction, or one
-- transaction, so that a sequence of steps is any interleaving of any number of workers and
-- requests, with any clock readings; a worker may stop between any two of its commands. Between the
-- write that fails a job and the two commands of `releaseCrawlAdmission` the job waits in a list.
-- A worker's copy of the job keeps no scan id; no other step reads it.
use growth_sent.Prelude.{
  ℕ, ◌≡◌, Bool, false, none, some, List, ◌∷◌, String, ◌===◌, All, ok, if◌then◌else◌,
}
use growth_sent.Mongo.{Mongo}
use growth_sent.Types.{CrawlJob, Website, Database, ActorKind, queued}
use growth_sent.Admission.{AdmissionResult, admit, queue_document_id}
use growth_sent.Admission.Release.{release_claim, release_slot}
use growth_sent.Audit.{AttemptError, holds_lease}
use growth_sent.Audit.Claim.{claim_document, take_site, give_up, site_busy, site_gone}
use growth_sent.Audit.Lease.{
  fail_attempt, defer_for_common_crawl_admission, renew_job, renew_site, ensure_scan_id,
  mark_analysing, publish, release_website_lease,
}

-- A worker's copy of the job that it claimed, and the lease id that it drew.
pub record Worker : Type 0 where
  pub lease : String
  pub job : CrawlJob

pub data Has (w : Worker) : List Worker → Type 0 where
  here : {ws : List Worker} → Has w (w ∷ ws)
  there : {v : Worker} {ws : List Worker} → Has w ws → Has w (v ∷ ws)

pub Has-All : (P : Worker → Type 0) {w : Worker} {ws : List Worker} → Has w ws → All P ws → P w
Has-All P here h = h.0
Has-All P (there m) h = Has-All P m h.1

-- One item of a list, and the others.
pub data Picks {A : Type 0} (x : A) : List A → List A → Type 0 where
  first : {xs : List A} → Picks x (x ∷ xs) xs
  later : {y : A} {xs ys : List A} → Picks x xs ys → Picks x (y ∷ xs) (y ∷ ys)

module _ (M : Mongo) where
  pub record System : Type 0 where
    pub db : Database M
    pub workers : List Worker
    -- failed jobs whose claim is still to be deleted, then those whose slot is to be given back
    pub ended : List CrawlJob
    pub returning : List CrawlJob

  -- A lease id that no worker has, and no document.
  pub record IsFresh (s : System) (lease : String) : Type 0 where
    pub unused : All (λ (w : Worker). (w.lease === lease) ≡ false) s.workers
    pub unwritten :
        (k : String) (d : CrawlJob) → M.find_one s.db.jobs k ≡ some d → holds_lease lease d ≡ false

  abbrev pub with_db : System → Database M → System
  with_db s db = record s { db = db }

  abbrev pub after_fail : System → CrawlJob → Bool × Database M → System
  after_fail s job (ended, db) = record s {
    db = db;
    ended = if ended then job ∷ s.ended else s.ended;
  }

  pub data Step (s : System) : System → Type 0 where
    -- a request is admitted: the job is new, queued, and has no attempt behind it
    admits :
        (job : CrawlJob) (actor target : String) (kind : ActorKind) (now : ℕ) (r : AdmissionResult)
        (db : Database M)
        → job.status ≡ queued
        → job.lease_id ≡ none
        → job.attempts ≡ some 0
        → admit M s.db job actor kind target now ≡ ok (r, db)
        → Step s (with_db s db)
    -- a worker claims a job's document under a fresh lease id
    claims :
        (id lease : String) (now : ℕ) (job : CrawlJob) (db : Database M)
        → IsFresh s lease
        → claim_document M s.db id lease now ≡ (some job, db)
        → Step s (record s { db = db; workers = (record { lease = lease; job = job }) ∷ s.workers })
    -- then it claims the saved site; when it cannot, it gives the job up in one of two ways
    takes_site :
        (w : Worker) (site : String) (now : ℕ)
        → Has w s.workers
        → Step s (with_db s (take_site M s.db site w.lease now).1)
    finds_site_busy :
        (w : Worker) (clock : ℕ)
        → Has w s.workers
        → Step s (with_db s (give_up M s.db w.job.job_id w.lease (site_busy clock)))
    finds_site_gone :
        (w : Worker) (clock : ℕ)
        → Has w s.workers
        → Step s (with_db s (give_up M s.db w.job.job_id w.lease (site_gone clock)))
    -- the two writes of a heartbeat
    beats :
        (w : Worker) (clock : ℕ)
        → Has w s.workers
        → Step s (with_db s (renew_job M w.job w.lease s.db clock))
    beats_site :
        (w : Worker) (clock : ℕ)
        → Has w s.workers
        → Step s (with_db s (renew_site M w.job w.lease s.db clock))
    scans :
        (w : Worker) (fresh id : String) (db : Database M)
        → Has w s.workers
        → ensure_scan_id M w.job w.lease s.db fresh ≡ ok (id, db)
        → Step s (with_db s db)
    analyses :
        (w : Worker) (pages clock : ℕ) (db : Database M)
        → Has w s.workers
        → mark_analysing M w.job w.lease s.db pages clock ≡ ok db
        → Step s (with_db s db)
    publishes :
        (w : Worker) (pages completion clock : ℕ) (db : Database M)
        → Has w s.workers
        → publish M w.job w.lease s.db pages completion clock ≡ ok db
        → Step s (with_db s db)
    -- the write that ends an attempt; the admission of a job that failed is given back later
    fails :
        (w : Worker) (error : AttemptError) (clock : ℕ)
        → Has w s.workers
        → Step s (after_fail s w.job (fail_attempt M w.job w.lease s.db error clock))
    -- the two commands of `releaseCrawlAdmission`
    deletes_claim :
        (job : CrawlJob) (rest : List CrawlJob)
        → Picks job s.ended rest
        → Step s (record s {
          db = release_claim M s.db job;
          ended = rest;
          returning = job ∷ s.returning;
        })
    returns_slot :
        (job : CrawlJob) (rest : List CrawlJob) (clock : ℕ)
        → Picks job s.returning rest
        → Step s (record s { db = release_slot M s.db job clock; returning = rest })
    defers :
        (w : Worker) (clock : ℕ)
        → Has w s.workers
        → Step s (with_db s (defer_for_common_crawl_admission M w.job w.lease s.db clock))
    leaves_site :
        (w : Worker)
        → Has w s.workers
        → Step s (with_db s (release_website_lease M w.job w.lease s.db))
    -- requests delete the jobs of a site or of a user, each like this, and change saved sites
    deletes : (id : String) → Step s (with_db s (record s.db { jobs = M.delete_one s.db.jobs id }))
    changes_sites :
        (websites : M.Docs Website) → Step s (with_db s (record s.db { websites = websites }))
    -- the database removes an admission document that has expired; the queue's never does
    expires :
        (key : String)
        → (key === queue_document_id) ≡ false
        → Step s (with_db s (record s.db { admissions = M.delete_one s.db.admissions key }))

  pub data Reach (s : System) : System → Type 0 where
    stay : Reach s s
    next : {t u : System} → Reach s t → Step t u → Reach s u
