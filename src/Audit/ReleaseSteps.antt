-- ===== src/Audit/ReleaseSteps.antt =====
-- Giving an admission back after a job failed, deleting jobs and the expiry of admissions keep the
-- invariant of the job queue.
use growth_sent.Prelude.{
  ℕ, ◌+◌, ◌⊎◌, ◌===◌, List, ◌∷◌, OnSome, ◌≡◌, refl, ap, false, String, All-map, if◌then◌else◌,
  if-elim, arith,
}
use growth_sent.Mongo.{Mongo}
use growth_sent.Types.{CrawlJob}
use growth_sent.Audit.{holds_lease}
use growth_sent.Audit.System.{System, Worker, with_db, Picks, first, later}
use growth_sent.Audit.Sound.{IsSound, IsSoundJob, Same, Agrees, holds_slot, slots_due, AreClaimKeys}
use growth_sent.Audit.Steps.{other-IsSound}
use growth_sent.Admission.{queue_document_id}
use growth_sent.Admission.Gates.{active_count_of}
use growth_sent.Admission.Release.{
  IsClaimKey, release_claim, release_slot, release_claim-queue, release_slot-queue,
  release_claim-jobs, release_slot-jobs,
}

-- What is still to be given back after a job failed.
picked_due :
    (job : CrawlJob) (jobs rest : List CrawlJob)
    → Picks job jobs rest
    → slots_due jobs ≡ (if job.admission_queue_slot then 1 else 0) + slots_due rest
picked_due job jobs rest first = refl
picked_due job jobs rest (later {y = other} {xs = xs} {ys = ys} p) =
    omega (arith, picked_due job xs ys p)

picked_keys :
    (job : CrawlJob) (jobs rest : List CrawlJob)
    → Picks job jobs rest
    → AreClaimKeys jobs
    → IsClaimKey job.admission_claim_key × AreClaimKeys rest
picked_keys job jobs rest first (here_key, keys) = (here_key, keys)
picked_keys job jobs rest (later {y = other} {xs = xs} {ys = ys} p) (other_key, keys) =
    let (job_key, others) = picked_keys job xs ys p keys in (job_key, (other_key, others))

module _ (M : Mongo) (s : System M) (sound : IsSound M s) (job : CrawlJob)
    (rest : List CrawlJob) where
  pub deletes_claim-IsSound :
      Picks job s.ended rest
      → IsSound M
          (record s { db = release_claim M s.db job; ended = rest; returning = job ∷ s.returning })
  deletes_claim-IsSound p =
      let (job_key, others) = picked_keys job s.ended rest p sound.claim_keys in
      let taken = ap active_count_of (release_claim-queue M s.db job 0 job_key) in
      let same = release_claim-jobs M s.db job 0 in
      record {
        jobs = rw same sound.jobs;
        workers = rw same sound.workers;
        claim_keys = others;
        counted = rw (same, taken) (omega (arith, picked_due job s.ended rest p, sound.counted));
        capped = rw taken sound.capped;
      }

  pub returns_slot-IsSound :
      (clock : ℕ)
      → Picks job s.returning rest
      → IsSound M (record s { db = release_slot M s.db job clock; returning = rest })
  returns_slot-IsSound clock p =
      let taken = release_slot-queue M s.db job clock in
      let same = release_slot-jobs M s.db job clock in
      record {
        jobs = rw same sound.jobs;
        workers = rw same sound.workers;
        claim_keys = sound.claim_keys;
        counted =
            rw (same, taken) (omega (arith, picked_due job s.returning rest p, sound.counted));
        capped = rw taken (omega (arith, sound.capped));
      }

module _ (M : Mongo) (s : System M) (sound : IsSound M s) where
  open M use {find_one, delete_one, find_one-delete_one, count_documents-delete_one}

  pub deletes-IsSound :
      (id : String) → IsSound M (with_db M s (record s.db { jobs = delete_one s.db.jobs id }))
  deletes-IsSound id = record {
    jobs = λ k.
        rw find_one-delete_one
          (if-elim (OnSome (IsSoundJob k)) (id === k) (λ gone. tt) (λ other. sound.jobs k));
    workers =
        All-map
          (λ (w : Worker) (agrees : Agrees M s.db.jobs w). rw find_one-delete_one (
            if-elim (OnSome (λ d. (holds_lease w.lease d ≡ false) ⊎ Same w.job d))
              (id === w.job.job_id) (λ gone. tt) (λ other. agrees)))
          s.workers sound.workers;
    claim_keys = sound.claim_keys;
    counted = omega (arith, count_documents-delete_one holds_slot s.db.jobs id, sound.counted);
    capped = sound.capped;
  }

  pub expires-IsSound :
      (key : String)
      → (key === queue_document_id) ≡ false
      → IsSound M (with_db M s (record s.db { admissions = delete_one s.db.admissions key }))
  expires-IsSound key other =
      let same : find_one (delete_one s.db.admissions key) queue_document_id
          ≡ find_one s.db.admissions queue_document_id =
        rw (find_one-delete_one, other) refl in
      other-IsSound M s sound _ refl (ap active_count_of same)
