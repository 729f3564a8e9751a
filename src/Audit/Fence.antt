-- ===== src/Audit/Fence.antt =====
-- The lease as a fence: what the commands of lib/services/audit.service.ts do for a worker that
-- still holds its job, and for one that has lost it.
use growth_sent.Prelude.{
  ℕ, ◌≤◌, ◌≡◌, ◌⊎◌, ◌∙◌, true, false, some, String, arith, Option-cases, inl, inr, ok, err,
  >>=-eq-ok,
}
use growth_sent.Mongo.{Mongo}
use growth_sent.Types.{CrawlJob, Database}
use growth_sent.Admission.Release.{release_crawl_admission}
use growth_sent.Audit.{AttemptError, lease_lost, holds_lease, holds_live_lease}
use growth_sent.Audit.Claim.{claim_site, give_up}
use growth_sent.Audit.Lease.{
  release_website_lease, ensure_scan_id, ensure_lease, fence_website_lease, mark_attempt_failed,
  defer_for_common_crawl_admission, renew_lease, mark_analysing, complete_job, publish, finished,
}

module _ (M : Mongo) (job : CrawlJob) (lease : String) (db : Database M) (clock : ℕ) where
  open M use {find_one, write, find_one-write}

  -- The jobs and the admissions are as before.
  abbrev pub AreKept : Database M → Type 0
  AreKept db' = (db'.jobs ≡ db.jobs) × (db'.admissions ≡ db.admissions)

  -- What a worker can still do whose lease is not the one on the document.
  pub record IsFencedOff : Type 0 where
    pub failing : (error : AttemptError) → mark_attempt_failed M job lease db error clock ≡ db
    pub deferring : defer_for_common_crawl_admission M job lease db clock ≡ db
    pub giving_up : (update : CrawlJob → CrawlJob) → give_up M db job.job_id lease update ≡ db
    pub beating : AreKept (renew_lease M job lease db clock)
    pub claiming_site : (now : ℕ) → AreKept (claim_site M db job lease now clock).1
    pub leaving_site : AreKept (release_website_lease M job lease db)
    pub scanning :
        (fresh : String)
        → (ensure_scan_id M job lease db fresh ≡ err lease_lost)
          ⊎ ((id : String) × (ensure_scan_id M job lease db fresh ≡ ok (id, db)))
    pub analysing : (pages : ℕ) → mark_analysing M job lease db pages clock ≡ err lease_lost
    pub publishing :
        (pages completion : ℕ) → publish M job lease db pages completion clock ≡ err lease_lost

  -- Once another lease, or none, stands on the job's document, a worker changes neither a job nor
  -- an admission: failing, deferring and giving the job up do nothing; its heartbeat, its claim of the
  -- saved site and the release of it leave the jobs and the admissions alone; a scan id is refused or
  -- was known before; and moving on to the analysis or publishing a result is refused.
  pub lost-IsFencedOff :
      (d : CrawlJob)
      → find_one db.jobs job.job_id ≡ some d
      → holds_lease lease d ≡ false
      → IsFencedOff
  unfolding mark_attempt_failed defer_for_common_crawl_admission renew_lease mark_analysing publish
      ensure_lease give_up claim_site release_website_lease ensure_scan_id
  lost-IsFencedOff d found lost = record {
    failing = λ error. ground arith;
    deferring = ground arith;
    giving_up = λ update. ground arith;
    beating = (ground arith, ground arith);
    claiming_site = λ now. (ground arith, ground arith);
    leaving_site = (ground arith, ground arith);
    scanning = λ fresh. elim (Option-cases job.scan_id) [
      | inl unknown ↦ inl (ground arith)
      | inr (id, known) ↦ inr (id, ground arith)
    ];
    analysing = λ pages. ground arith;
    publishing = λ pages completion. ground arith;
  }

  -- A lease that has run out, though still on the document, publishes nothing either.
  pub expired-publish :
      (d : CrawlJob) (expires pages completion : ℕ)
      → find_one db.jobs job.job_id ≡ some d
      → d.lease_expires_at ≡ some expires
      → expires ≤ clock
      → publish M job lease db pages completion clock ≡ err lease_lost
  unfolding publish ensure_lease
  expired-publish d expires pages completion found e h = ground arith

  fence-same :
      (db1 : Database M)
      → fence_website_lease M job lease db clock ≡ ok db1
      → (db1.jobs ≡ db.jobs) × (db1.admissions ≡ db.admissions)
  unfolding fence_website_lease
  fence-same db1 e = elim (Option-cases job.website_id) [
    | inl unsaved ↦ (ground arith, ground arith)
    | inr (site, saved) ↦ elim (Option-cases (find_one db.websites site)) [
      | inl gone ↦ absurd (ground arith)
      | inr (v, found) ↦ (ground arith, ground arith)
    ]
  ]

  complete-ok :
      (pages completion : ℕ) (db2 : Database M)
      → complete_job M job lease db pages completion clock ≡ ok db2
      → (d : CrawlJob) × (find_one db.jobs job.job_id ≡ some d)
        × (holds_live_lease lease clock d ≡ true)
        × (db2.jobs ≡ write db.jobs job.job_id (finished pages completion d))
        × (db2.admissions ≡ db.admissions)
  unfolding complete_job
  complete-ok pages completion db2 e = elim (Option-cases (find_one db.jobs job.job_id)) [
    | inl missing ↦ absurd (ground arith)
    | inr (d, found) ↦ (d, found, ground arith, ground arith, ground arith)
  ]

module _ (M : Mongo) (job : CrawlJob) (lease : String) (db : Database M) (clock : ℕ) where
  open M use {find_one, write}

  -- What a publication that went through wrote.
  pub record IsPublished (pages completion : ℕ) (db' : Database M) : Type 0 where
    pub held : CrawlJob
    pub completed_db : Database M
    pub found : find_one db.jobs job.job_id ≡ some held
    pub live : holds_live_lease lease clock held ≡ true
    pub stored : completed_db.jobs ≡ write db.jobs job.job_id (finished pages completion held)
    pub admissions : completed_db.admissions ≡ db.admissions
    pub released : db' ≡ release_crawl_admission M completed_db job clock

  pub publish-IsPublished :
      (pages completion : ℕ) (db' : Database M)
      → publish M job lease db pages completion clock ≡ ok db'
      → IsPublished pages completion db'
  unfolding publish
  publish-IsPublished pages completion db' e =
      let (_, _, e1) = >>=-eq-ok (ensure_lease M job lease db clock) _ e in
      let (db1, fenced, e2) = >>=-eq-ok (fence_website_lease M job lease db clock) _ e1 in
      let (db2, done, e3) = >>=-eq-ok (complete_job M job lease db1 pages completion clock) _ e2 in
      let (same_jobs, same_admissions) = fence-same M job lease db clock db1 fenced in
      let (d, found, live, stored, kept) =
        complete-ok M job lease db1 clock pages completion db2 done in
      record {
        held = d;
        completed_db = db2;
        found = rw same_jobs at found;
        live = live;
        stored = rw same_jobs at stored;
        admissions = kept ∙ same_admissions;
        released = ground arith;
      }
