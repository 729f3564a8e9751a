-- ===== src/Audit/EndSteps.antt =====
-- Ending an attempt, with a result or without, keeps the invariant of the job queue.
use growth_sent.Prelude.{
  ℕ, ◌+◌, ◌-◌, ◌≤◌, List, ◌∷◌, ◌≡◌, refl, ap, ◌∙◌, Bool, true, false, ◌&&◌, not, some, String,
  All-map, if◌then◌else◌, if-elim, ◌==◌, arith, ok,
}
use growth_sent.Mongo.{Mongo}
use growth_sent.Mongo.Commands.{update_one}
use growth_sent.Types.{CrawlJob, Database}
use growth_sent.Audit.{holds_lease}
use growth_sent.Audit.System.{System, Worker, Has, with_db, after_fail}
use growth_sent.Audit.Sound.{
  IsSound, Same, Agrees, holds_slot, slots_taken, slots_due, AreClaimKeys,
}
use growth_sent.Audit.Tame.{IsTame, weight, write-AreSound, write-Agrees}
use growth_sent.Audit.Steps.{sound_at, Agrees-at, update-IsSound}
use growth_sent.Admission.{queue_document_id}
use growth_sent.Admission.Gates.{active_count_of}
use growth_sent.Types.{Admission}
use growth_sent.Audit.Fence.{publish-IsPublished}
use growth_sent.Admission.Release.{
  release_crawl_admission, IsClaimKey, release-jobs, release-active_count,
}
use growth_sent.Audit.{AttemptError, attempts_of, should_retry}
use growth_sent.Audit.Lease.{attempt_failed, finished, fail_attempt, publish}
use growth_sent.Audit.Moves.{attempt_failed-IsTame, finished-IsTame}
use growth_sent.Audit.System.{Has-All}
use growth_sent.Audit.Tame.{updated, kept, rewrote, Updated}

module _ (M : Mongo) (s : System M) (sound : IsSound M s) (w : Worker) (has : Has w s.workers) where
  open M use {find_one, write, count_documents, count_documents-write}

  abbrev k : String
  k = w.job.job_id

  abbrev freed : ℕ
  freed = if w.job.admission_queue_slot then 1 else 0

  Same-at :
      (d : CrawlJob) → find_one s.db.jobs k ≡ some d → holds_lease w.lease d ≡ true → Same w.job d
  Same-at d found held =
      Agrees-at M s.db.jobs w d (Has-All (Agrees M s.db.jobs) has sound.workers) found held

  copy-IsClaimKey :
      (d : CrawlJob)
      → find_one s.db.jobs k ≡ some d
      → holds_lease w.lease d ≡ true
      → IsClaimKey w.job.admission_claim_key
  copy-IsClaimKey d found held =
      rw (Same-at d found held).same_claim (sound_at M s.db.jobs k d sound.jobs found).claim_key

  -- A job that ends no longer occupies its slot.
  end_count :
      (d d' : CrawlJob)
      → find_one s.db.jobs k ≡ some d
      → holds_lease w.lease d ≡ true
      → weight d' ≡ 0
      → count_documents holds_slot (write s.db.jobs k d') + freed
        ≡ count_documents holds_slot s.db.jobs
  end_count d d' found held light =
      let same = Same-at d found held in
      let old = sound_at M s.db.jobs k d sound.jobs found in
      ground (arith, count_documents-write holds_slot s.db.jobs k d', same.same_slot, old.leased)

  -- The slot of a job that ends is given back, or stands in the list of those that are due.
  end-IsSound :
      (d d' : CrawlJob) (db' : Database M) (ended : List CrawlJob)
      → find_one s.db.jobs k ≡ some d
      → holds_lease w.lease d ≡ true
      → IsTame k d d'
      → weight d' ≡ 0
      → db'.jobs ≡ write s.db.jobs k d'
      → AreClaimKeys ended
      → slots_taken M s.db + slots_due ended ≤ slots_taken M db' + slots_due s.ended + freed
      → slots_taken M db' ≤ slots_taken M s.db
      → IsSound M (record s { db = db'; ended = ended })
  end-IsSound d d' db' ended found held tame light e keys t less = record {
    jobs = rw e (write-AreSound M s.db.jobs k d d' sound.jobs tame.sound);
    workers = rw e (All-map (write-Agrees M s.db.jobs k d d' found tame) s.workers sound.workers);
    claim_keys = keys;
    counted = rw e (omega (arith, end_count d d' found held light, sound.counted, t));
    capped = omega (arith, less, sound.capped);
  }

  -- The slot count after the admission of this worker's job was released from `db2`.
  released-taken :
      (d : CrawlJob) (db2 : Database M) (clock : ℕ)
      → find_one s.db.jobs k ≡ some d
      → holds_lease w.lease d ≡ true
      → db2.admissions ≡ s.db.admissions
      → slots_taken M (release_crawl_admission M db2 w.job clock) ≡ slots_taken M s.db - freed
  released-taken d db2 clock found held same =
      release-active_count M db2 w.job clock (copy-IsClaimKey d found held)
      ∙ ap (λ (c : M.Docs Admission). active_count_of (find_one c queue_document_id) - freed) same

  pub publishes-IsSound :
      (pages completion clock : ℕ) (db' : Database M)
      → publish M w.job w.lease s.db pages completion clock ≡ ok db'
      → IsSound M (with_db M s db')
  publishes-IsSound pages completion clock db' e =
      let p = publish-IsPublished M w.job w.lease s.db clock pages completion db' e in
      let d = p.held in
      let held : holds_lease w.lease d ≡ true = ground (arith, p.live) in
      let tame =
        finished-IsTame k w.lease d (sound_at M s.db.jobs k d sound.jobs p.found) clock pages
          completion in
      rw p.released (
        let freed_db = release_crawl_admission M p.completed_db w.job clock in
        let taken = released-taken d p.completed_db clock p.found held p.admissions in
        end-IsSound d (finished pages completion d) freed_db s.ended p.found held tame
          (ground arith) (release-jobs M p.completed_db w.job clock ∙ p.stored) sound.claim_keys
          (omega (arith, taken)) (omega (arith, taken)))

  module _ (error : AttemptError) (clock : ℕ) where
    abbrev retry : Bool
    retry = should_retry (attempts_of w.job) error

    abbrev failing : CrawlJob → CrawlJob
    failing = attempt_failed retry error (attempts_of w.job) clock

    failing-IsTame :
        (d : CrawlJob)
        → find_one s.db.jobs k ≡ some d
        → holds_lease w.lease d ≡ true
        → IsTame k d (failing d)
    failing-IsTame d found held = rw (Same-at d found held).same_attempts (
        attempt_failed-IsTame k w.lease d (sound_at M s.db.jobs k d sound.jobs found) clock error
          held)

    abbrev failed_db : Database M
    failed_db = record s.db { jobs = (update_one M s.db.jobs k (holds_lease w.lease) failing).1 }

    failed_db-IsSound : IsSound M (with_db M s failed_db)
    failed_db-IsSound =
        update-IsSound M s sound k (holds_lease w.lease) failing failing-IsTame failed_db refl refl

    listed-IsSound :
        Updated M s.db.jobs k (holds_lease w.lease) failing failing-IsTame
        → (update_one M s.db.jobs k (holds_lease w.lease) failing).0 ≡ 1
        → retry ≡ false
        → IsSound M (record s { db = failed_db; ended = w.job ∷ s.ended })
    listed-IsSound (kept zero same) one last = absurd (ground arith)
    listed-IsSound (rewrote d found held one same) _ last =
        end-IsSound d (failing d) failed_db (w.job ∷ s.ended) found held
          (failing-IsTame d found held) (ground arith) same
          (copy-IsClaimKey d found held, sound.claim_keys) (omega arith) (omega arith)

    pub fails-IsSound :
        IsSound M (after_fail M s w.job (fail_attempt M w.job w.lease s.db error clock))
    unfolding fail_attempt
    fails-IsSound =
        if-elim (λ ended. IsSound M (record s { db = failed_db; ended = ended }))
          (not retry && (update_one M s.db.jobs k (holds_lease w.lease) failing).0 == 1)
          (λ last.
            listed-IsSound (updated M s.db.jobs k (holds_lease w.lease) failing failing-IsTame)
              (ground arith) (ground arith))
          (λ _. failed_db-IsSound)
