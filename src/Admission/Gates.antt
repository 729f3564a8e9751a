-- ===== src/Admission/Gates.antt =====
-- What each gate of lib/jobs/crawl-admission.ts reads, and what it leaves behind.
use growth_sent.Prelude.{
  ℕ, ◌+◌, ◌*◌, ◌≡◌, Bool, false, Option, none, some, String, if◌then◌else◌, leb, arith, ok, err,
}
use growth_sent.Mongo.{Mongo}
use growth_sent.Types.{CrawlJob, Admission, AdmissionKind, ActorKind, Database}
use growth_sent.Admission.{
  denied, AdmissionCode, quota_exceeded, active_claim_document, reuse, active_claim_ms, window_ms,
  target_cooldown_ms, queue_full, quota_document_id, target_document_id, queue_document_id,
  limit_of, or_zero, is_later, active_job, claim_active_job, claim_quota, claim_target_cooldown,
  claim_queue_slot, queue_cap,
}

abbrev pub count_of : Option Admission → ℕ
count_of none = 0
count_of (some d) = or_zero d.count

abbrev pub active_count_of : Option Admission → ℕ
active_count_of none = 0
active_count_of (some d) = or_zero d.active_count

abbrev pub is_cooling : Option Admission → ℕ → Bool
is_cooling none now = false
is_cooling (some d) now = is_later d.expires_at now

-- The documents that the gates write, from what they read.
abbrev pub next_claim : Option Admission → CrawlJob → ActorKind → ℕ → Admission
next_claim none job kind now = active_claim_document job kind now
next_claim (some d) job kind now = record d {
  kind = AdmissionKind.active;
  job_id = some job.job_id;
  actor_kind = some kind;
  updated_at = now;
  expires_at = some (now + active_claim_ms);
}

abbrev pub next_quota : Option Admission → ActorKind → ℕ → Admission
next_quota none kind now = record {
  kind = AdmissionKind.quota;
  count = some 1;
  active_count = none;
  job_id = none;
  actor_kind = some kind;
  expires_at = some (now + 2 * window_ms);
  created_at = now;
  updated_at = now;
}
next_quota (some d) kind now = record d { count = some (or_zero d.count + 1); updated_at = now }

abbrev pub next_target : Option Admission → ℕ → Admission
next_target none now = record {
  kind = AdmissionKind.target;
  count = none;
  active_count = none;
  job_id = none;
  actor_kind = none;
  expires_at = some (now + target_cooldown_ms);
  created_at = now;
  updated_at = now;
}
next_target (some d) now = record d {
  kind = AdmissionKind.target;
  updated_at = now;
  expires_at = some (now + target_cooldown_ms);
}

abbrev pub next_queue : Option Admission → ℕ → Admission
next_queue none now = record {
  kind = AdmissionKind.queue;
  count = none;
  active_count = some 1;
  job_id = none;
  actor_kind = none;
  expires_at = none;
  created_at = now;
  updated_at = now;
}
next_queue (some d) now = record d {
  active_count = some (or_zero d.active_count + 1);
  updated_at = now;
}

module _ (M : Mongo) where
  open M use {find_one, write}

  -- The active job that holds the claim, if there is one.
  unfoldable pub holder : Database M → String → Option CrawlJob
  unfolding active_job
  holder db claim_key = elim (find_one db.admissions claim_key) [
    | none ↦ none
    | some existing ↦ active_job M db existing.job_id
  ]

  pub claim_active_job-free :
      (db : Database M) (key : String) (job : CrawlJob) (kind : ActorKind) (now : ℕ)
      → holder db key ≡ none
      → claim_active_job M db key job kind now
        ≡ ok (
          none,
          record db {
            admissions =
                write db.admissions key (next_claim (find_one db.admissions key) job kind now);
          },
        )
  unfolding claim_active_job holder
  claim_active_job-free db key job kind now h = ground arith

  pub claim_active_job-held :
      (db : Database M) (key : String) (job : CrawlJob) (kind : ActorKind) (now : ℕ) (h : CrawlJob)
      → holder db key ≡ some h
      → claim_active_job M db key job kind now ≡ reuse M db h kind
  unfolding claim_active_job holder
  claim_active_job-held db key job kind now h e = ground arith

  pub claim_quota-eq :
      (db : Database M) (actor : String) (kind : ActorKind) (now : ℕ)
      → let id = quota_document_id actor now in
        let found = find_one db.admissions id in
        claim_quota M db actor kind now ≡ (
          if leb (limit_of kind) (count_of found)
          then err (denied quota_exceeded)
          else ok (record db { admissions = write db.admissions id (next_quota found kind now) }))
  unfolding claim_quota
  claim_quota-eq db actor kind now = ground arith

  pub claim_target_cooldown-eq :
      (db : Database M) (target : String) (now : ℕ)
      → let id = target_document_id target in
        let found = find_one db.admissions id in
        claim_target_cooldown M db target now ≡ (
          if is_cooling found now
          then err (denied AdmissionCode.target_cooldown)
          else ok (record db { admissions = write db.admissions id (next_target found now) }))
  unfolding claim_target_cooldown
  claim_target_cooldown-eq db target now = ground arith

  pub claim_queue_slot-eq :
      (db : Database M) (now : ℕ)
      → let found = find_one db.admissions queue_document_id in
        claim_queue_slot M db now ≡ (
          if leb queue_cap (active_count_of found)
          then err (denied queue_full)
          else ok (record db {
            admissions = write db.admissions queue_document_id (next_queue found now);
          }))
  unfolding claim_queue_slot
  claim_queue_slot-eq db now = ground arith
