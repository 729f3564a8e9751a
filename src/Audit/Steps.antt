-- ===== src/Audit/Steps.antt =====
-- Every step of requests and workers keeps the invariant of the job queue.
use growth_sent.Prelude.{ℕ, ◌≡◌, ap, Bool, true, none, some, String, All-map, arith, inl, inr, ok}
use growth_sent.Mongo.{Mongo}
use growth_sent.Mongo.Commands.{update_one}
use growth_sent.Types.{CrawlJob, Database, queued, ActorKind}
use growth_sent.Admission.{AdmissionResult, admit}
use growth_sent.Admission.Decision.{admitted_job}
use growth_sent.Admission.Effects.{admit-cases, after, after-IsAdmitted, IsOpen}
use growth_sent.Admission.Keys.{active-ne-queue}
use growth_sent.Audit.{holds_lease}
use growth_sent.Audit.System.{System, Worker, with_db}
use growth_sent.Audit.Sound.{IsSound, IsSoundJob, Same, AreSound, Agrees, holds_slot, slots_taken}
use growth_sent.Audit.Tame.{
  IsTame, write-AreSound, write-Agrees_free, update-AreSound, update-Agrees, update-count,
}

pub sound_at :
    (M : Mongo) (jobs : M.Docs CrawlJob) (k : String) (d : CrawlJob)
    → AreSound M jobs
    → M.find_one jobs k ≡ some d
    → IsSoundJob k d
sound_at M jobs k d sound found = rw found at (sound k)

pub Agrees-at :
    (M : Mongo) (jobs : M.Docs CrawlJob) (w : Worker) (d : CrawlJob)
    → Agrees M jobs w
    → M.find_one jobs w.job.job_id ≡ some d
    → holds_lease w.lease d ≡ true
    → Same w.job d
Agrees-at M jobs w d agrees found held = elim (rw found at agrees) [
  | inl free ↦ absurd (ground arith)
  | inr same ↦ same
]

module _ (M : Mongo) (s : System M) (sound : IsSound M s) where
  open M use {find_one, write, find_one-write, count_documents-write}

  -- A step that rewrites one job tamely and leaves the queue's count alone.
  pub update-IsSound :
      (k : String) (filter : CrawlJob → Bool) (set : CrawlJob → CrawlJob)
      → ((d : CrawlJob) → find_one s.db.jobs k ≡ some d → filter d ≡ true → IsTame k d (set d))
      → (db' : Database M) → db'.jobs ≡ (update_one M s.db.jobs k filter set).1
      → slots_taken M db' ≡ slots_taken M s.db
      → IsSound M (with_db M s db')
  update-IsSound k filter set tame db' e t = record {
    jobs = rw e (update-AreSound M s.db.jobs k filter set tame sound.jobs);
    workers = rw e (All-map (update-Agrees M s.db.jobs k filter set tame) s.workers sound.workers);
    claim_keys = sound.claim_keys;
    counted = rw (e, t) (omega (arith, update-count M s.db.jobs k filter set tame, sound.counted));
    capped = rw t sound.capped;
  }

  -- A step that leaves the jobs and the queue's count alone.
  pub other-IsSound :
      (db' : Database M)
      → db'.jobs ≡ s.db.jobs
      → slots_taken M db' ≡ slots_taken M s.db
      → IsSound M (with_db M s db')
  other-IsSound db' e t = record {
    jobs = rw e sound.jobs;
    workers = rw e sound.workers;
    claim_keys = sound.claim_keys;
    counted = rw (e, t) sound.counted;
    capped = rw t sound.capped;
  }

  admitted-IsSound :
      (job : CrawlJob) (actor target : String) (kind : ActorKind) (now : ℕ)
      → job.status ≡ queued
      → job.lease_id ≡ none
      → job.attempts ≡ some 0
      → IsOpen M s.db job actor kind target now
      → IsSound M (with_db M s (after M s.db job actor kind target now))
  admitted-IsSound job actor target kind now q l a o =
      let new = admitted_job M s.db job actor kind target now in
      let db' = after M s.db job actor kind target now in
      let done = after-IsAdmitted M s.db job actor kind target now o in
      let key_free = active-ne-queue actor actor target target now in
      record {
        jobs = write-AreSound M s.db.jobs job.job_id new new sound.jobs (ground (arith, key_free));
        workers =
            All-map (λ w. write-Agrees_free M s.db.jobs job.job_id new new w (ground (arith, l)))
              s.workers sound.workers;
        claim_keys = sound.claim_keys;
        counted = ground (
          arith,
          count_documents-write holds_slot s.db.jobs job.job_id new,
          o.unused,
          done.slot_counted,
          sound.counted,
        );
        capped = done.slots_kept;
      }

  pub admits-IsSound :
      (job : CrawlJob) (actor target : String) (kind : ActorKind) (now : ℕ) (r : AdmissionResult)
      (db' : Database M)
      → job.status ≡ queued
      → job.lease_id ≡ none
      → job.attempts ≡ some 0
      → admit M s.db job actor kind target now ≡ ok (r, db')
      → IsSound M (with_db M s db')
  admits-IsSound job actor target kind now r db' q l a e =
      elim (admit-cases M s.db job actor kind target now r db' e) [
        | inl same ↦
            other-IsSound db' (ap (λ (d : Database M). d.jobs) same) (ap (slots_taken M) same)
        | inr (open_gates, same) ↦
            rw same (admitted-IsSound job actor target kind now q l a open_gates)
      ]
