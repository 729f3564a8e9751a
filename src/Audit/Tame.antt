-- ===== src/Audit/Tame.antt =====
-- Rewriting one job's document without breaking the invariant of the job queue.
use growth_sent.Prelude.{
  ℕ, ◌≤◌, ◌≡◌, ◌⊎◌, OnSome, Bool, true, false, some, String, ◌===◌, if◌then◌else◌, subst, sym,
  arith, eq_iff, Option-cases, Bool-cases, inl, inr,
}
use growth_sent.Mongo.{Mongo}
use growth_sent.Mongo.Commands.{update_one}
use growth_sent.Types.{CrawlJob}
use growth_sent.Audit.{holds_lease}
use growth_sent.Audit.System.{Worker}
use growth_sent.Audit.Sound.{holds_slot, IsSoundJob, Same, AreSound, Agrees}

abbrev pub weight : CrawlJob → ℕ
weight d = if holds_slot d then 1 else 0

-- The new document is sound, occupies no more slots, and leaves to no lease more than it had.
pub record IsTame (k : String) (d d' : CrawlJob) : Type 0 where
  pub sound : IsSoundJob k d'
  pub lighter : weight d' ≤ weight d
  pub traced :
      (lease : String) → (holds_lease lease d' ≡ false) ⊎ ((holds_lease lease d ≡ true) × Same d d')

Same-trans : {a b c : CrawlJob} → Same a b → Same b c → Same a c
Same-trans p q = ground arith

module _ (M : Mongo) (jobs : M.Docs CrawlJob) (k : String) (d d' : CrawlJob) where
  open M use {find_one, write, find_one-write, count_documents, count_documents-write}

  pub write-AreSound : AreSound M jobs → IsSoundJob k d' → AreSound M (write jobs k d')
  write-AreSound sound new j = rw find_one-write (elim (Bool-cases (k === j)) [
    | inl same ↦ rw same (subst (λ x. IsSoundJob x d') ((eq_iff k j).0 same) new)
    | inr other ↦ rw other (sound j)
  ])

  keep :
      {job : CrawlJob} (lease : String)
      → (holds_lease lease d ≡ false) ⊎ Same job d
      → (holds_lease lease d' ≡ false) ⊎ ((holds_lease lease d ≡ true) × Same d d')
      → (holds_lease lease d' ≡ false) ⊎ Same job d'
  keep lease a (inl gone) = inl gone
  keep lease (inl free) (inr (held, same)) = absurd (ground arith)
  keep lease (inr old) (inr (held, same)) = inr (Same-trans old same)

  pub write-Agrees :
      find_one jobs k ≡ some d
      → IsTame k d d'
      → (w : Worker) → Agrees M jobs w
      → Agrees M (write jobs k d') w
  write-Agrees found tame w agrees = rw find_one-write (elim (Bool-cases (k === w.job.job_id)) [
    | inl same ↦ rw same (
        keep w.lease
          (rw found at (
            subst
              (λ x. OnSome (λ e. (holds_lease w.lease e ≡ false) ⊎ Same w.job e) (find_one jobs x))
              (sym ((eq_iff k w.job.job_id).0 same)) agrees))
          (tame.traced w.lease))
    | inr other ↦ rw other agrees
  ])

  pub write-Agrees_free :
      (w : Worker) → holds_lease w.lease d' ≡ false → Agrees M jobs w → Agrees M (write jobs k d') w
  write-Agrees_free w free agrees = rw find_one-write (elim (Bool-cases (k === w.job.job_id)) [
    | inl same ↦ rw same (inl free)
    | inr other ↦ rw other agrees
  ])

  pub count-write :
      find_one jobs k ≡ some d
      → weight d' ≤ weight d
      → count_documents holds_slot (write jobs k d') ≤ count_documents holds_slot jobs
  count-write found lighter = ground (arith, count_documents-write holds_slot jobs k d')

-- The same for `updateOne` under a filter that only lets tame changes through.
module _ (M : Mongo) (jobs : M.Docs CrawlJob) (k : String) (filter : CrawlJob → Bool)
    (set : CrawlJob → CrawlJob)
    (tame : (d : CrawlJob)
      → M.find_one jobs k ≡ some d
      → filter d ≡ true
      → IsTame k d (set d)) where
  open M use {find_one, count_documents}

  abbrev after : M.Docs CrawlJob
  after = (update_one M jobs k filter set).1

  -- Nothing was matched, or one document was rewritten.
  pub data Updated : Type 0 where
    kept : (update_one M jobs k filter set).0 ≡ 0 → after ≡ jobs → Updated
    rewrote :
        (d : CrawlJob)
        → find_one jobs k ≡ some d
        → filter d ≡ true
        → (update_one M jobs k filter set).0 ≡ 1
        → after ≡ M.write jobs k (set d)
        → Updated

  pub updated : Updated
  updated = elim (Option-cases (find_one jobs k)) [
    | inl missing ↦ kept (ground arith) (ground arith)
    | inr (d, found) ↦ elim (Bool-cases (filter d)) [
      | inl passed ↦ rewrote d found passed (ground arith) (ground arith)
      | inr barred ↦ kept (ground arith) (ground arith)
    ]
  ]

  pub update-AreSound : AreSound M jobs → AreSound M after
  update-AreSound sound = go updated
    where
      go : Updated → AreSound M after
      go (kept _ e) = rw e sound
      go (rewrote d found passed _ e) =
          rw e (write-AreSound M jobs k d (set d) sound (tame d found passed).sound)

  pub update-Agrees : (w : Worker) → Agrees M jobs w → Agrees M after w
  update-Agrees w agrees = go updated
    where
      go : Updated → Agrees M after w
      go (kept _ e) = rw e agrees
      go (rewrote d found passed _ e) =
          rw e (write-Agrees M jobs k d (set d) found (tame d found passed) w agrees)

  pub update-count : count_documents holds_slot after ≤ count_documents holds_slot jobs
  update-count = go updated
    where
      go : Updated → count_documents holds_slot after ≤ count_documents holds_slot jobs
      go (kept _ e) = rw e (omega arith)
      go (rewrote d found passed _ e) =
          rw e (count-write M jobs k d (set d) found (tame d found passed).lighter)
