-- ===== src/Audit/ClaimSteps.antt =====
-- Claiming a job keeps the invariant of the job queue.
use growth_sent.Prelude.{
  ℕ, ◌≤◌, ◌≡◌, true, false, some, ◌∷◌, String, ◌===◌, All-map, All-both, arith, eq_iff, eq_refl,
  Option-cases, inl, inr,
}
use growth_sent.Mongo.{Mongo}
use growth_sent.Types.{CrawlJob, Database}
use growth_sent.Audit.{retryable_claim_filter, claimed}
use growth_sent.Audit.Claim.{claim_document}
use growth_sent.Audit.System.{System, Worker, IsFresh}
use growth_sent.Audit.Sound.{IsSound, IsSoundJob, Agrees}
use growth_sent.Audit.Tame.{weight, write-AreSound, write-Agrees_free, count-write}
use growth_sent.Audit.Steps.{sound_at}

claimed-IsSoundJob :
    (id lease : String) (now : ℕ) (d : CrawlJob)
    → IsSoundJob id d
    → retryable_claim_filter now d ≡ true
    → IsSoundJob id (claimed lease now d)
unfolding retryable_claim_filter
claimed-IsSoundJob id lease now d sound due = ground arith

claimed-lighter :
    (lease : String) (now : ℕ) (d : CrawlJob)
    → retryable_claim_filter now d ≡ true
    → weight (claimed lease now d) ≤ weight d
unfolding retryable_claim_filter
claimed-lighter lease now d due = ground arith

module _ (M : Mongo) (s : System M) (sound : IsSound M s) where
  open M use {find_one, write, find_one-write, count_documents-write}

  pub claim_document-ok :
      (id lease : String) (now : ℕ) (job : CrawlJob) (db' : Database M)
      → claim_document M s.db id lease now ≡ (some job, db')
      → (d : CrawlJob) × (find_one s.db.jobs id ≡ some d)
        × (retryable_claim_filter now d ≡ true)
        × (job ≡ claimed lease now d)
        × (db' ≡ record s.db { jobs = write s.db.jobs id (claimed lease now d) })
  unfolding claim_document
  claim_document-ok id lease now job db' e = elim (Option-cases (find_one s.db.jobs id)) [
    | inl missing ↦ absurd (ground arith)
    | inr (d, found) ↦ (d, found, ground arith, ground arith, ground arith)
  ]

  abbrev after_claim : String → String → ℕ → CrawlJob → System M
  after_claim id lease now d = record s {
    db = record s.db { jobs = write s.db.jobs id (claimed lease now d) };
    workers = (record { lease = lease; job = claimed lease now d }) ∷ s.workers;
  }

  after_claim-IsSound :
      (id lease : String) (now : ℕ) (d : CrawlJob)
      → IsFresh M s lease
      → find_one s.db.jobs id ≡ some d
      → retryable_claim_filter now d ≡ true
      → IsSound M (after_claim id lease now d)
  after_claim-IsSound id lease now d fresh found due =
      let d' = claimed lease now d in
      let old = sound_at M s.db.jobs id d sound.jobs found in
      let jobs' = write s.db.jobs id d' in
      let mine : Agrees M jobs' (record { lease = lease; job = d' }) =
        rw (old.keyed, find_one-write, eq_refl) (inr (ground arith)) in
      record {
        jobs =
            write-AreSound M s.db.jobs id d d' sound.jobs
              (claimed-IsSoundJob id lease now d old due);
        workers = (
          mine,
          All-map
              (λ (w : Worker) (both : ((w.lease === lease) ≡ false) × Agrees M s.db.jobs w).
                write-Agrees_free M s.db.jobs id d d' w
                  (ground (arith, eq_iff lease w.lease, eq_iff w.lease lease)) both.1)
              s.workers
              (All-both (λ (w : Worker). (w.lease === lease) ≡ false) (Agrees M s.db.jobs) s.workers
                fresh.unused sound.workers),
        );
        claim_keys = sound.claim_keys;
        counted = omega (
          arith,
          count-write M s.db.jobs id d d' found (claimed-lighter lease now d due),
          sound.counted,
        );
        capped = sound.capped;
      }

  pub claims-IsSound :
      (id lease : String) (now : ℕ) (job : CrawlJob) (db' : Database M)
      → IsFresh M s lease
      → claim_document M s.db id lease now ≡ (some job, db')
      → IsSound M
          (record s { db = db'; workers = (record { lease = lease; job = job }) ∷ s.workers })
  claims-IsSound id lease now job db' fresh e =
      let (d, found, due, same_job, same_db) = claim_document-ok id lease now job db' e in
      rw (same_job, same_db) (after_claim-IsSound id lease now d fresh found due)
