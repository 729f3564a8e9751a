-- ===== src/Admission.antt =====
-- lib/jobs/crawl-admission.ts: the gates that a crawl job passes before it is queued.
pub mod Keys
pub mod Gates
pub mod Decision
pub mod Effects
pub mod Release
pub mod Retry
pub mod Service
mod Tests
use growth_sent.Prelude.{
  ℕ, ◌+◌, ◌-◌, ◌*◌, ◌/◌, ◌≡◌, refl, Bool, true, false, not, ◌&&◌, Option, none, some, String, ◌===◌,
  ◌<>◌, decimal, if◌then◌else◌, ltb, leb, ◌==◌, Result, ok, err, ◌>>=◌,
}
use growth_sent.Mongo.{Mongo}
use growth_sent.Mongo.Commands.{insert_one, update_one, delete_one_where}
use growth_sent.Types.{
  ScanStatus, queued, crawling, analysing, CrawlJob, Admission, AdmissionKind, ActorKind,
  authenticated, anonymous, Database,
}

abbrev pub window_ms : ℕ
window_ms = 60 * 60 * 1000

abbrev pub target_cooldown_ms : ℕ
target_cooldown_ms = 60 * 1000

abbrev pub active_claim_ms : ℕ
active_claim_ms = 60 * 60 * 1000

abbrev pub transaction_max_attempts : ℕ
transaction_max_attempts = 3

abbrev pub authenticated_per_hour : ℕ
authenticated_per_hour = 8

abbrev pub anonymous_per_hour : ℕ
anonymous_per_hour = 2

abbrev pub queue_cap : ℕ
queue_cap = 25

pub data AdmissionCode : Type 0 where
  quota_exceeded target_cooldown queue_full duplicate admission_config : AdmissionCode

-- What ends a transaction: a denial, a compare-and-set race, E11000, or any other error.
pub data Failure : Type 0 where
  denied : AdmissionCode → Failure
  contention duplicate_key other : Failure

pub record AdmissionResult : Type 0 where
  pub reused_job_id : Option String
  pub reused_status : Option ScanStatus
  pub queue_slot_claimed : Bool
  pub active_claim_key : Option String

abbrev pub is_active_crawl_status : ScanStatus → Bool
is_active_crawl_status queued = true
is_active_crawl_status crawling = true
is_active_crawl_status analysing = true
is_active_crawl_status _ = false

unfoldable pub quota_document_id : String → ℕ → String
quota_document_id actor_key now = "quota:" <> actor_key <> ":" <> decimal (now / window_ms)

unfoldable pub active_claim_document_id : String → String → String
active_claim_document_id actor_key target_key = "active:" <> actor_key <> ":" <> target_key

unfoldable pub target_document_id : String → String
target_document_id target_key = "target:" <> target_key

unfoldable pub queue_document_id : String
queue_document_id = "queue:external-mvp"

abbrev pub active_claim_document : CrawlJob → ActorKind → ℕ → Admission
active_claim_document job actor_kind now = record {
  kind = AdmissionKind.active;
  count = none;
  active_count = none;
  job_id = some job.job_id;
  actor_kind = some actor_kind;
  expires_at = some (now + active_claim_ms);
  created_at = now;
  updated_at = now;
}

abbrev pub limit_of : ActorKind → ℕ
limit_of authenticated = authenticated_per_hour
limit_of anonymous = anonymous_per_hour

-- `x || 0`
abbrev pub or_zero : Option ℕ → ℕ
or_zero none = 0
or_zero (some n) = n

-- `existing.expiresAt && existing.expiresAt > now`
abbrev pub is_later : Option ℕ → ℕ → Bool
is_later none now = false
is_later (some t) now = ltb now t

-- A field that a filter compares with a text.
abbrev pub some_is : Option String → String → Bool
some_is none k = false
some_is (some j) k = j === k

abbrev pub inserted : {D : Type 0} → Option D → Result Failure D
inserted none = err duplicate_key
inserted (some c) = ok c

abbrev pub matched : {D : Type 0} → ℕ × D → Result Failure D
matched (n, c) = if n == 1 then ok c else err contention

module _ (M : Mongo) where
  open M use {find_one, write}

  -- Is the job that holds the claim still on its way?
  active_job : Database M → Option String → Option CrawlJob
  active_job db none = none
  active_job db (some job_id) = elim (find_one db.jobs job_id) [
    | none ↦ none
    | some job ↦ if is_active_crawl_status job.status then some job else none
  ]

  pub reuse :
      Database M → CrawlJob → ActorKind → Result Failure (Option AdmissionResult × Database M)
  reuse db holder authenticated = ok (
    some (record {
      reused_job_id = some holder.job_id;
      reused_status = some holder.status;
      queue_slot_claimed = false;
      active_claim_key = none;
    }),
    db,
  )
  reuse db holder anonymous = err (denied duplicate)

  unfoldable pub claim_active_job :
      Database M
      → String
      → CrawlJob
      → ActorKind
      → ℕ
      → Result Failure (Option AdmissionResult × Database M)
  unfolding active_job reuse
  claim_active_job db claim_key job actor_kind now = elim (find_one db.admissions claim_key) [
    | none ↦ do
      claims ←
          inserted (insert_one M db.admissions claim_key (active_claim_document job actor_kind now))
      ok (none, record db { admissions = claims })
    | some existing ↦ elim (active_job db existing.job_id) [
      | some holder ↦ reuse db holder actor_kind
      | none ↦ do
        claims ← matched (
            update_one M db.admissions claim_key (λ d. d.updated_at == existing.updated_at)
              (λ d. record d {
                kind = AdmissionKind.active;
                job_id = some job.job_id;
                actor_kind = some actor_kind;
                updated_at = now;
                expires_at = some (now + active_claim_ms);
              }))
        ok (none, record db { admissions = claims })
    ]
  ]

  unfoldable pub claim_quota : Database M → String → ActorKind → ℕ → Result Failure (Database M)
  claim_quota db actor_key actor_kind now =
      let id = quota_document_id actor_key now in
      elim (find_one db.admissions id) [
        | none ↦ do
          quotas ← inserted (
              insert_one M db.admissions id (record {
                kind = AdmissionKind.quota;
                count = some 1;
                active_count = none;
                job_id = none;
                actor_kind = some actor_kind;
                expires_at = some (now + 2 * window_ms);
                created_at = now;
                updated_at = now;
              }))
          ok (record db { admissions = quotas })
        | some existing ↦
            if leb (limit_of actor_kind) (or_zero existing.count)
            then err (denied quota_exceeded)
            else (do
              quotas ← matched (
                  update_one M db.admissions id (λ d. d.updated_at == existing.updated_at)
                    (λ d. record d { count = some (or_zero d.count + 1); updated_at = now }))
              ok (record db { admissions = quotas }))
      ]

  unfoldable pub claim_target_cooldown : Database M → String → ℕ → Result Failure (Database M)
  claim_target_cooldown db target_key now =
      let id = target_document_id target_key in
      elim (find_one db.admissions id) [
        | none ↦ do
          targets ← inserted (
              insert_one M db.admissions id (record {
                kind = AdmissionKind.target;
                count = none;
                active_count = none;
                job_id = none;
                actor_kind = none;
                expires_at = some (now + target_cooldown_ms);
                created_at = now;
                updated_at = now;
              }))
          ok (record db { admissions = targets })
        | some existing ↦
            if is_later existing.expires_at now then err (denied target_cooldown) else (do
              targets ← matched (
                  update_one M db.admissions id (λ d. d.updated_at == existing.updated_at)
                    (λ d. record d {
                      kind = AdmissionKind.target;
                      updated_at = now;
                      expires_at = some (now + target_cooldown_ms);
                    }))
              ok (record db { admissions = targets }))
      ]

  unfoldable pub claim_queue_slot : Database M → ℕ → Result Failure (Database M)
  claim_queue_slot db now = elim (find_one db.admissions queue_document_id) [
    | none ↦ do
      queues ← inserted (
          insert_one M db.admissions queue_document_id (record {
            kind = AdmissionKind.queue;
            count = none;
            active_count = some 1;
            job_id = none;
            actor_kind = none;
            expires_at = none;
            created_at = now;
            updated_at = now;
          }))
      ok (record db { admissions = queues })
    | some existing ↦
        if leb queue_cap (or_zero existing.active_count) then err (denied queue_full) else (do
          queues ← matched (
              update_one M db.admissions queue_document_id
                (λ d. d.updated_at == existing.updated_at)
                (λ d. record d {
                  active_count = some (or_zero d.active_count + 1);
                  updated_at = now;
                }))
          ok (record db { admissions = queues }))
  ]

  -- The transaction body once no active claim was found.
  claim_all :
      Database M
      → CrawlJob
      → String
      → ActorKind
      → String
      → String
      → ℕ
      → Result Failure (AdmissionResult × Database M)
  claim_all db job actor_key actor_kind target_key claim_key now = do
    db1 ← claim_quota db actor_key actor_kind now
    db2 ← claim_target_cooldown db1 target_key now
    db3 ← claim_queue_slot db2 now
    jobs ← inserted (
        insert_one M db3.jobs job.job_id
          (record job { admission_queue_slot = true; admission_claim_key = some claim_key }))
    ok (
      record {
        reused_job_id = none;
        reused_status = none;
        queue_slot_claimed = true;
        active_claim_key = some claim_key;
      },
      record db3 { jobs = jobs },
    )

  -- One run of the transaction callback of `admitAndInsertCrawlJob`.
  unfoldable pub admit :
      Database M
      → CrawlJob
      → String
      → ActorKind
      → String
      → ℕ
      → Result Failure (AdmissionResult × Database M)
  unfolding claim_all
  admit db job actor_key actor_kind target_key now =
      let claim_key = active_claim_document_id actor_key target_key in
      claim_active_job db claim_key job actor_kind now >>= λ found. elim found.0 [
        | some existing ↦ ok (existing, found.1)
        | none ↦ claim_all found.1 job actor_key actor_kind target_key claim_key now
      ]
