-- ===== src/Admission/Release.antt =====
-- `releaseCrawlAdmission` of lib/jobs/crawl-admission.ts and what it gives back.
use growth_sent.Prelude.{
  ℕ, ◌-◌, ltb, ◌≡◌, refl, ◌∙◌, false, Option, none, some, String, ◌===◌, if◌then◌else◌, arith,
  eq_refl, Option-cases, inl, inr,
}
use growth_sent.Mongo.{Mongo}
use growth_sent.Mongo.Commands.{update_one, delete_one_where}
use growth_sent.Types.{CrawlJob, Database}
use growth_sent.Admission.{some_is, or_zero, queue_document_id}
use growth_sent.Admission.Gates.{active_count_of}

module _ (M : Mongo) where
  open M use {find_one, write}

  unfoldable pub release_claim : Database M → CrawlJob → Database M
  release_claim db job = elim job.admission_claim_key [
    | none ↦ db
    | some key ↦ record db {
      admissions = delete_one_where M db.admissions key (λ d. some_is d.job_id job.job_id);
    }
  ]

  unfoldable pub release_slot : Database M → CrawlJob → ℕ → Database M
  release_slot db job now =
      if job.admission_queue_slot
      then record db {
        admissions =
            (update_one M db.admissions queue_document_id (λ d. ltb 0 (or_zero d.active_count))
              (λ d. record d {
                active_count = some (or_zero d.active_count - 1);
                updated_at = now;
              })).1;
      }
      else db

  -- `releaseCrawlAdmission`
  unfoldable pub release_crawl_admission : Database M → CrawlJob → ℕ → Database M
  unfolding release_claim release_slot
  release_crawl_admission db job now = release_slot (release_claim db job) job now

-- The key under which a job's claim stands is not the queue's.
abbrev pub IsClaimKey : Option String → Type 0
IsClaimKey none = Unit
IsClaimKey (some key) = (key === queue_document_id) ≡ false

module _ (M : Mongo) (db : Database M) (job : CrawlJob) (now : ℕ) where
  open M use {find_one, write, find_one-write, find_one-delete_one}

  pub release-jobs : (release_crawl_admission M db job now).jobs ≡ db.jobs
  unfolding release_crawl_admission
  release-jobs = ground arith

  pub release_claim-jobs : (release_claim M db job).jobs ≡ db.jobs
  unfolding release_claim
  release_claim-jobs = ground arith

  pub release_slot-jobs : (release_slot M db job now).jobs ≡ db.jobs
  unfolding release_slot
  release_slot-jobs = ground arith

  pub release-websites : (release_crawl_admission M db job now).websites ≡ db.websites
  unfolding release_crawl_admission
  release-websites = ground arith

  pub release_claim-queue :
      IsClaimKey job.admission_claim_key
      → find_one (release_claim M db job).admissions queue_document_id
        ≡ find_one db.admissions queue_document_id
  unfolding release_claim
  release_claim-queue h = elim (Option-cases job.admission_claim_key) [
    | inl e ↦ rw (e, release_claim) refl
    | inr (key, e) ↦ ground (arith, find_one-delete_one db.admissions key queue_document_id)
  ]

  pub release_slot-queue :
      active_count_of (find_one (release_slot M db job now).admissions queue_document_id)
      ≡ active_count_of (find_one db.admissions queue_document_id)
        - (if job.admission_queue_slot then 1 else 0)
  unfolding release_slot
  release_slot-queue = elim (Option-cases (find_one db.admissions queue_document_id)) [
    | inl e ↦ ground arith
    | inr (d, e) ↦ ground (
      arith,
      find_one-write db.admissions queue_document_id
          (record d { active_count = some (or_zero d.active_count - 1); updated_at = now })
          queue_document_id,
      eq_refl queue_document_id,
    )
  ]

module _ (M : Mongo) (db : Database M) (job : CrawlJob) (now : ℕ) where
  open M use {find_one}

  -- One slot is given back by a job that holds one, and none by another.
  pub release-active_count :
      IsClaimKey job.admission_claim_key
      → active_count_of
          (find_one (release_crawl_admission M db job now).admissions queue_document_id)
        ≡ active_count_of (find_one db.admissions queue_document_id)
          - (if job.admission_queue_slot then 1 else 0)
  unfolding release_crawl_admission
  release-active_count h =
      release_slot-queue M (release_claim M db job) job now
      ∙ rw (release_claim-queue M db job now h) refl
