-- ===== src/Admission/Effects.antt =====
-- What an admitted job leaves in the collections of lib/jobs/crawl-admission.ts.
use growth_sent.Prelude.{
  ℕ, ◌+◌, ◌≤◌, ◌<◌, ◌≡◌, refl, ◌⊎◌, Bool-cases, true, false, none, some, String, ◌===◌, arith, ok,
  inl, inr, eq_refl,
}
use growth_sent.Mongo.{Mongo}
use growth_sent.Types.{CrawlJob, queued, ActorKind, Database}
use growth_sent.Admission.{
  AdmissionResult, quota_document_id, target_document_id, queue_document_id,
  active_claim_document_id, limit_of, queue_cap, active_job, admit, target_cooldown_ms,
}
use growth_sent.Admission.Keys.{
  queue-ne-quota, queue-ne-target, queue-ne-active, quota-ne-active, target-ne-active,
  target-ne-quota,
}
use growth_sent.Admission.Gates.{
  count_of, active_count_of, is_cooling, holder, next_claim, next_quota, next_target, next_queue,
}
use growth_sent.Admission.Decision.{admitted, admitted_job, answer, decision, admit-decision}

module _ (M : Mongo) (db : Database M) (job : CrawlJob) (actor : String) (kind : ActorKind)
    (target : String) (now : ℕ) where
  open M use {find_one, write, find_one-write}

  abbrev pub after : Database M
  after = admitted M db job actor kind target now

  -- What is true of the state `db'` that follows the admission.
  pub record IsAdmitted (db' : Database M) : Type 0 where
    pub quota_counted :
        count_of (find_one db'.admissions (quota_document_id actor now))
        ≡ count_of (find_one db.admissions (quota_document_id actor now)) + 1
    pub quota_kept :
        count_of (find_one db'.admissions (quota_document_id actor now)) ≤ limit_of kind
    pub slot_counted :
        active_count_of (find_one db'.admissions queue_document_id)
        ≡ active_count_of (find_one db.admissions queue_document_id) + 1
    pub slots_kept : active_count_of (find_one db'.admissions queue_document_id) ≤ queue_cap
    pub cooling :
        (later : ℕ)
        → later < now + target_cooldown_ms
        → is_cooling (find_one db'.admissions (target_document_id target)) later ≡ true
    pub enqueued : find_one db'.jobs job.job_id ≡ some (admitted_job M db job actor kind target now)
    pub others_kept :
        (k : String) → (job.job_id === k) ≡ false → find_one db'.jobs k ≡ find_one db.jobs k
    pub new_job : find_one db.jobs job.job_id ≡ none

  quota_after :
      find_one after.admissions (quota_document_id actor now)
      ≡ some (next_quota (find_one db.admissions (quota_document_id actor now)) kind now)
  quota_after = simp (
    find_one-write,
    eq_refl,
    queue-ne-quota actor actor target target now,
    target-ne-quota actor actor target target now,
  )

  target_after :
      find_one after.admissions (target_document_id target)
      ≡ some (next_target (find_one db.admissions (target_document_id target)) now)
  target_after = simp (find_one-write, eq_refl, queue-ne-target actor actor target target now)

  queue_after :
      find_one after.admissions queue_document_id
      ≡ some (next_queue (find_one db.admissions queue_document_id) now)
  queue_after = simp (find_one-write, eq_refl)

  claim_after :
      find_one after.admissions (active_claim_document_id actor target)
      ≡ some
          (next_claim (find_one db.admissions (active_claim_document_id actor target)) job kind now)
  claim_after = simp (
    find_one-write,
    eq_refl,
    queue-ne-active actor actor target target now,
    target-ne-active actor actor target target now,
    quota-ne-active actor actor target target now,
  )

  -- What the state before must have been.
  pub record IsOpen : Type 0 where
    pub free : holder M db (active_claim_document_id actor target) ≡ none
    pub quota_left : count_of (find_one db.admissions (quota_document_id actor now)) < limit_of kind
    pub cooled : is_cooling (find_one db.admissions (target_document_id target)) now ≡ false
    pub slot_left : active_count_of (find_one db.admissions queue_document_id) < queue_cap
    pub unused : find_one db.jobs job.job_id ≡ none

  decision-ok :
      (r : AdmissionResult) (db' : Database M)
      → decision M db job actor kind target now ≡ ok (r, db')
      → r.queue_slot_claimed ≡ true
      → IsOpen × (db' ≡ after)
  decision-ok r db' e h = ground arith

  -- A request that is answered either changed nothing or was admitted.
  pub admit-cases :
      (r : AdmissionResult) (db' : Database M)
      → admit M db job actor kind target now ≡ ok (r, db')
      → (db' ≡ db) ⊎ (IsOpen × (db' ≡ after))
  admit-cases r db' e =
      let e' : decision M db job actor kind target now ≡ ok (r, db') = rw admit-decision at e in
      elim (Bool-cases r.queue_slot_claimed) [
        | inl taken ↦ inr (decision-ok r db' e' taken)
        | inr reused ↦ inl (ground arith)
      ]

  holder-after :
      job.status ≡ queued
      → holder M after (active_claim_document_id actor target)
        ≡ some (admitted_job M db job actor kind target now)
  unfolding active_job holder
  holder-after h = ground (
    arith,
    claim_after,
    find_one-write db.jobs job.job_id (admitted_job M db job actor kind target now) job.job_id,
    eq_refl job.job_id,
  )

  pub after-IsAdmitted : IsOpen → IsAdmitted after
  after-IsAdmitted o = record {
    quota_counted = rw quota_after (ground arith);
    quota_kept = rw quota_after (ground arith);
    slot_counted = rw queue_after (ground arith);
    slots_kept = rw queue_after (ground arith);
    cooling = λ later h. rw target_after (ground arith);
    enqueued = simp (find_one-write, eq_refl);
    others_kept = λ k h. rw (find_one-write, h) refl;
    new_job = o.unused;
  }

  -- A job that is admitted is counted once against its caller's hourly quota and once against the
  -- queue, both still within their limits; its target cools down for a minute; its document is
  -- stored under a key that was free, with the slot and the claim noted, and no other job changes.
  pub admit-IsAdmitted :
      (r : AdmissionResult) (db' : Database M)
      → admit M db job actor kind target now ≡ ok (r, db')
      → r.queue_slot_claimed ≡ true
      → IsAdmitted db'
  admit-IsAdmitted r db' e h =
      let (open_gates, same) = decision-ok r db' (rw admit-decision at e) h in
      rw same (after-IsAdmitted open_gates)

  -- An answer that names no other job is an admission.
  pub admit_new-IsAdmitted :
      (r : AdmissionResult) (db' : Database M)
      → admit M db job actor kind target now ≡ ok (r, db')
      → r.reused_job_id ≡ none
      → IsAdmitted db'
  admit_new-IsAdmitted r db' e new =
      let e' : decision M db job actor kind target now ≡ ok (r, db') = rw admit-decision at e in
      admit-IsAdmitted r db' e (ground arith)

  -- Until its job ends, the same caller asking for the same target again is not admitted, whatever
  -- the time: a signed-in caller is shown the job that is on its way, an anonymous one is refused,
  -- and in both cases the collections stay as they are.
  pub admit-admit :
      (r : AdmissionResult) (db' : Database M) (again : CrawlJob) (later : ℕ)
      → admit M db job actor kind target now ≡ ok (r, db')
      → r.queue_slot_claimed ≡ true
      → job.status ≡ queued
      → admit M db' again actor kind target later
        ≡ answer M db' again actor kind target later
            (admitted_job M db job actor kind target now)
            kind
  admit-admit r db' again later e h q =
      let (_, same) = decision-ok r db' (rw admit-decision at e) h in
      rw same (ground (arith, admit-decision M after again actor kind target later, holder-after q))
