-- ===== src/Workers.antt =====
-- lib/jobs/cron-worker.ts, lib/jobs/runner.ts and lib/jobs/worker-health.ts: one authenticated
-- invocation of the audit worker, and the record that it leaves; with the snapshot of the queue in
-- lib/jobs/crawl-admission.ts. What is written to the console is left out.
pub mod Cron
mod Tests
use growth_sent.Prelude.{
  ℕ, ◌+◌, ◌-◌, min, Bool, true, false, ◌&&◌, not, Option, none, some, is_some, String, ◌<>◌, ◌===◌,
  if◌then◌else◌, leb, Result, ok, err,
}
use growth_sent.Mongo.{Mongo}
use growth_sent.Mongo.Commands.{upsert_one}
use growth_sent.Mongo.Listing.{Listing}
use growth_sent.Types.{ScanStatus, CrawlJob, Database}
use growth_sent.Admission.{queue_cap, queue_document_id, or_zero}
use growth_sent.Audit.{is_queued, is_running}
use growth_sent.Audit.Process.{Attempt, Report}
use growth_sent.Audit.Next.{oldest, process_next_crawl_job}

pub data InvocationOutcome : Type 0 where
  success failure : InvocationOutcome

pub record WorkerHealth : Type 0 where
  pub last_started_at : Option ℕ
  pub last_success_at : Option ℕ
  pub last_finished_at : Option ℕ
  pub last_outcome : Option InvocationOutcome
  pub last_duration_ms : Option ℕ
  pub audit_claimed : Option Bool
  pub legacy_scan_claimed : Option Bool
  pub audit_status : Option ScanStatus
  pub audit_attempt : Option ℕ
  pub updated_at : ℕ

-- A document of which nothing is set.
abbrev pub unset : ℕ → WorkerHealth
unset now = record {
  last_started_at = none;
  last_success_at = none;
  last_finished_at = none;
  last_outcome = none;
  last_duration_ms = none;
  audit_claimed = none;
  legacy_scan_claimed = none;
  audit_status = none;
  audit_attempt = none;
  updated_at = now;
}

pub record DurableCrawlWorkResult : Type 0 where
  pub audit_claimed : Bool
  pub scan_claimed : Bool
  pub audit_status : Option ScanStatus
  pub audit_attempt : Option ℕ

-- What is recorded of an invocation that ended.
pub record Finished : Type 0 where
  pub started_at_ms : ℕ
  pub outcome : InvocationOutcome
  pub result : Option DurableCrawlWorkResult

abbrev pub started : ℕ → WorkerHealth → WorkerHealth
started now d = record d { last_started_at = some now; updated_at = now }

abbrev claims_of : (DurableCrawlWorkResult → Bool) → Option DurableCrawlWorkResult → Bool
claims_of f none = false
claims_of f (some result) = f result

abbrev pub finished : Finished → ℕ → WorkerHealth → WorkerHealth
finished input now d = record d {
  last_finished_at = some now;
  last_success_at = elim input.outcome [ success ↦ some now | failure ↦ d.last_success_at ];
  last_outcome = some input.outcome;
  last_duration_ms = some (now - input.started_at_ms);
  audit_claimed = some (claims_of (λ r. r.audit_claimed) input.result);
  legacy_scan_claimed = some (claims_of (λ r. r.scan_claimed) input.result);
  audit_status = elim input.result [ none ↦ none | some r ↦ r.audit_status ];
  audit_attempt = elim input.result [ none ↦ none | some r ↦ r.audit_attempt ];
  updated_at = now;
}

abbrev pub worker_document_id : String
worker_document_id = "audit-worker"

module _ (M : Mongo) where
  open M use {Docs, find_one, count_documents}

  unfoldable pub record_worker_invocation_started : Docs WorkerHealth → ℕ → Docs WorkerHealth
  record_worker_invocation_started c now =
      upsert_one M c worker_document_id (started now (unset now)) (started now)

  unfoldable pub record_worker_invocation_finished :
      Docs WorkerHealth → Finished → ℕ → Docs WorkerHealth
  record_worker_invocation_finished c input now =
      upsert_one M c worker_document_id (finished input now (unset now)) (finished input now)

  pub record CrawlQueueHealth : Type 0 where
    pub pending_approximation : ℕ
    pub oldest_pending_age_ms : Option ℕ
    pub active_count : ℕ
    pub stale_lease_count : ℕ

  is_stale : ℕ → CrawlJob → Bool
  is_stale now job =
      is_running job.status && elim job.lease_expires_at [ none ↦ false | some t ↦ leb t now ]

  age : ℕ → Option (String × CrawlJob) → Option ℕ
  age now none = none
  age now (some (id, job)) = some (now - job.created_at)

  unfoldable pub get_crawl_queue_health : Listing M → Database M → ℕ → CrawlQueueHealth
  unfolding is_stale age
  get_crawl_queue_health L db now = record {
    pending_approximation =
        min (queue_cap + 1) (count_documents (λ job. is_queued job.status) db.jobs);
    oldest_pending_age_ms = age now (oldest (L.find (λ job. is_queued job.status) db.jobs));
    active_count = elim (find_one db.admissions queue_document_id) [
      | none ↦ 0
      | some state ↦ or_zero state.active_count
    ];
    stale_lease_count = min (queue_cap + 1) (count_documents (is_stale now) db.jobs);
  }

  -- At most one audit, and no legacy scan.
  unfoldable pub process_durable_crawl_work :
      Listing M → Attempt M → Database M → ℕ → DurableCrawlWorkResult × Database M
  process_durable_crawl_work L a db now =
      let (report, db') = process_next_crawl_job M L a db now in
      (
        record {
          audit_claimed = report.claimed;
          scan_claimed = false;
          audit_status = report.status;
          audit_attempt = report.attempt;
        },
        db',
      )

pub record CronWorkerRequest : Type 0 where
  pub method : String
  pub authorization : Option String

pub data CronWorkerBody : Type 0 where
  method_not_allowed unauthorized worker_error : CronWorkerBody
  done : Bool → Bool → CronWorkerBody

pub record CronWorkerResponse : Type 0 where
  pub status_code : ℕ
  pub body : CronWorkerBody

-- The lengths and the bytes are compared: the texts are.
unfoldable pub has_valid_cron_authorization : Option String → Option String → Bool
has_valid_cron_authorization none cron_secret = false
has_valid_cron_authorization (some authorization) none = false
has_valid_cron_authorization (some authorization) (some cron_secret) =
    not (cron_secret === "")
    && not (authorization === "")
    && authorization === ("Bearer " <> cron_secret)

-- The clock readings of an invocation, and whether its two records can be written.
pub record Invocation : Type 0 where
  pub started_at_ms : ℕ
  pub start_clock : ℕ
  pub finish_clock : ℕ
  pub start_recorded : Bool
  pub finish_recorded : Bool

module _ (M : Mongo) where
  pub record WorkerState : Type 0 where
    pub db : Database M
    pub health : M.Docs WorkerHealth

  module _ {E : Type 0}
      (process_work : Database M → Result E DurableCrawlWorkResult × Database M) where
    finish : Invocation → Finished → WorkerState → WorkerState
    finish i input s =
        if i.finish_recorded
        then record s { health = record_worker_invocation_finished M s.health input i.finish_clock }
        else s

    conclude :
        Invocation
        → Result E DurableCrawlWorkResult
        → WorkerState
        → CronWorkerResponse × WorkerState
    unfolding finish
    conclude i (ok r) s = (
      record { status_code = 200; body = done r.audit_claimed r.scan_claimed },
      finish i (record { started_at_ms = i.started_at_ms; outcome = success; result = some r }) s,
    )
    conclude i (err e) s = (
      record { status_code = 500; body = worker_error },
      finish i (record { started_at_ms = i.started_at_ms; outcome = failure; result = none }) s,
    )

    invoke : Invocation → WorkerState → CronWorkerResponse × WorkerState
    unfolding conclude
    invoke i s =
        let health =
          if i.start_recorded
          then record_worker_invocation_started M s.health i.start_clock
          else s.health in
        let (result, db) = process_work s.db in
        conclude i result (record { db = db; health = health })

    unfoldable pub handle_durable_crawl_cron_request :
        CronWorkerRequest
        → Option String
        → Invocation
        → WorkerState
        → CronWorkerResponse × WorkerState
    unfolding invoke
    handle_durable_crawl_cron_request request cron_secret i s =
        if not (request.method === "GET")
        then (record { status_code = 405; body = method_not_allowed }, s)
        else if not (has_valid_cron_authorization request.authorization cron_secret)
        then (record { status_code = 401; body = unauthorized }, s)
        else invoke i s
