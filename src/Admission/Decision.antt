-- ===== src/Admission/Decision.antt =====
-- The whole transaction of lib/jobs/crawl-admission.ts against a decision taken on the state before.
use growth_sent.Prelude.{
  ℕ, ◌≡◌, refl, true, false, none, some, String, if◌then◌else◌, leb, arith, Result, ok, err, ◌>>=◌,
  Option-cases, inl, inr, is_some,
}
use growth_sent.Mongo.{Mongo}
use growth_sent.Types.{CrawlJob, ActorKind, authenticated, anonymous, Database}
use growth_sent.Admission.{
  Failure, denied, AdmissionCode, quota_exceeded, queue_full, duplicate_key, AdmissionResult, reuse,
  quota_document_id, target_document_id, queue_document_id, active_claim_document_id, limit_of,
  queue_cap, claim_all, admit,
}
use growth_sent.Admission.Keys.{
  active-ne-quota, active-ne-target, active-ne-queue, quota-ne-target, quota-ne-queue,
  target-ne-queue,
}
use growth_sent.Admission.Gates.{
  count_of, active_count_of, is_cooling, holder, next_claim, next_quota, next_target, next_queue,
  claim_active_job-free, claim_active_job-held, claim_quota-eq, claim_target_cooldown-eq,
  claim_queue_slot-eq,
}

module _ (M : Mongo) (db : Database M) (job : CrawlJob) (actor : String) (kind : ActorKind)
    (target : String) (now : ℕ) where
  open M use {find_one, write, find_one-write}

  abbrev claim_key : String
  claim_key = active_claim_document_id actor target

  abbrev quota_key : String
  quota_key = quota_document_id actor now

  abbrev target_key : String
  target_key = target_document_id target

  abbrev pub admitted_job : CrawlJob
  admitted_job = record job { admission_queue_slot = true; admission_claim_key = some claim_key }

  -- The state after each gate that was passed.
  abbrev db1 : Database M
  db1 = record db {
    admissions =
        write db.admissions claim_key (next_claim (find_one db.admissions claim_key) job kind now);
  }

  abbrev db2 : Database M
  db2 = record db1 {
    admissions =
        write db1.admissions quota_key (next_quota (find_one db.admissions quota_key) kind now);
  }

  abbrev db3 : Database M
  db3 = record db2 {
    admissions =
        write db2.admissions target_key (next_target (find_one db.admissions target_key) now);
  }

  abbrev pub admitted : Database M
  admitted = record db3 {
    admissions =
        write db3.admissions queue_document_id
          (next_queue (find_one db.admissions queue_document_id) now);
    jobs = write db.jobs job.job_id admitted_job;
  }

  abbrev pub admission : AdmissionResult
  admission = record {
    reused_job_id = none;
    reused_status = none;
    queue_slot_claimed = true;
    active_claim_key = some claim_key;
  }

  -- A second request for a job on its way: shown to its owner, refused to an anonymous caller.
  abbrev pub answer : CrawlJob → ActorKind → Result Failure (AdmissionResult × Database M)
  answer h authenticated = ok (
    record {
      reused_job_id = some h.job_id;
      reused_status = some h.status;
      queue_slot_claimed = false;
      active_claim_key = none;
    },
    db,
  )
  answer h anonymous = err (denied AdmissionCode.duplicate)

  -- The decision, read off the state before the transaction.
  abbrev pub decision : Result Failure (AdmissionResult × Database M)
  decision = elim (holder M db claim_key) [
    | some h ↦ answer h kind
    | none ↦
        if leb (limit_of kind) (count_of (find_one db.admissions quota_key))
        then err (denied quota_exceeded)
        else if is_cooling (find_one db.admissions target_key) now
        then err (denied AdmissionCode.target_cooldown)
        else if leb queue_cap (active_count_of (find_one db.admissions queue_document_id))
        then err (denied queue_full)
        else if is_some (find_one db.jobs job.job_id)
        then err duplicate_key
        else ok (admission, admitted)
  ]

  quota_kept : find_one db1.admissions quota_key ≡ find_one db.admissions quota_key
  quota_kept = rw (find_one-write, active-ne-quota actor actor target target now)

  target_kept : find_one db2.admissions target_key ≡ find_one db.admissions target_key
  target_kept = simp (
    find_one-write,
    active-ne-target actor actor target target now,
    quota-ne-target actor actor target target now,
  )

  queue_kept : find_one db3.admissions queue_document_id ≡ find_one db.admissions queue_document_id
  queue_kept = simp (
    find_one-write,
    active-ne-queue actor actor target target now,
    quota-ne-queue actor actor target target now,
    target-ne-queue actor actor target target now,
  )

  claim_all-eq : claim_all M db1 job actor kind target claim_key now ≡ (
      if leb (limit_of kind) (count_of (find_one db.admissions quota_key))
      then err (denied quota_exceeded)
      else if is_cooling (find_one db.admissions target_key) now
      then err (denied AdmissionCode.target_cooldown)
      else if leb queue_cap (active_count_of (find_one db.admissions queue_document_id))
      then err (denied queue_full)
      else if is_some (find_one db.jobs job.job_id)
      then err duplicate_key
      else ok (admission, admitted))
  unfolding claim_all
  claim_all-eq = ground (
    arith,
    claim_quota-eq M db1 actor kind now,
    claim_target_cooldown-eq M db2 target now,
    claim_queue_slot-eq M db3 now,
    quota_kept,
    target_kept,
    queue_kept,
  )

  admit-reuse :
      (h : CrawlJob) (k : ActorKind)
      → (reuse M db h k >>= λ found. elim found.0 [
        | some existing ↦ ok (existing, found.1)
        | none ↦ claim_all M found.1 job actor k target claim_key now
      ])
        ≡ answer h k
  unfolding reuse
  admit-reuse h authenticated = refl
  admit-reuse h anonymous = refl

  -- One run of the admission transaction decides as the state before it says, with the gates in this
  -- order: an active job of the same actor and target is shown to an authenticated caller and refused
  -- to an anonymous one; then a full hourly quota, a target that is cooling down, a full queue and a
  -- job key in use are refused; and otherwise the four admission documents and the job are written.
  pub admit-decision : admit M db job actor kind target now ≡ decision
  unfolding admit
  admit-decision = elim (Option-cases (holder M db claim_key)) [
    | inl free ↦
        ground (arith, claim_active_job-free M db claim_key job kind now free, claim_all-eq)
    | inr (h, held) ↦
        ground (arith, claim_active_job-held M db claim_key job kind now h held, admit-reuse h kind)
  ]
