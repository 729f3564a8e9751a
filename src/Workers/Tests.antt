-- ===== src/Workers/Tests.antt =====
-- Invocations of the audit worker of lib/jobs/cron-worker.ts.
use growth_sent.Prelude.{◌≡◌, refl, true, some, [], String, ◌⊎◌, Result, ok}
use growth_sent.Mongo.Memory.{memory}
use growth_sent.Mongo.Listing.{memory_listing}
use growth_sent.Types.{Database}
use growth_sent.Audit.Process.{Attempt}
use growth_sent.Workers.{
  WorkerState, DurableCrawlWorkResult, CronWorkerRequest, Invocation, unauthorized,
  has_valid_cron_authorization, handle_durable_crawl_cron_request, process_durable_crawl_work,
}
use growth_sent.Workers.Cron.{IsAuthorized, handle-IsAuthorized}

abbrev empty : Database memory
empty = record { admissions = []; jobs = []; websites = [] }

abbrev one_attempt : Attempt memory
one_attempt = record {
  lease = "lease1";
  scan_id = "scan1";
  now = 1000;
  claim_clock = 1001;
  analysis_clock = 2000;
  completion = 3000;
  publish_clock = 3001;
  failure_clock = 4000;
  crawl = λ job. ok 5;
  meanwhile = λ db. db;
}

abbrev work : Database memory → Result String DurableCrawlWorkResult × Database memory
work db =
    let (result, db') = process_durable_crawl_work memory memory_listing one_attempt db 999 in
    (ok result, db')

abbrev idle : WorkerState memory
idle = record { db = empty; health = [] }

abbrev clocks : Invocation
clocks = record {
  started_at_ms = 990;
  start_clock = 991;
  finish_clock = 5000;
  start_recorded = true;
  finish_recorded = true;
}

abbrev scheduled : CronWorkerRequest
scheduled = record { method = "GET"; authorization = some "Bearer s3cret" }

abbrev stranger : CronWorkerRequest
stranger = record { method = "GET"; authorization = some "Bearer guess" }

refused_test :
    handle_durable_crawl_cron_request memory work stranger (some "s3cret") clocks idle
    ≡ (record { status_code = 401; body = unauthorized }, idle)
unfolding handle_durable_crawl_cron_request has_valid_cron_authorization
refused_test = refl

handle-IsAuthorized_example :
    ((handle_durable_crawl_cron_request memory work scheduled (some "s3cret") clocks idle).1 ≡ idle)
    ⊎ (IsAuthorized memory work scheduled (some "s3cret") clocks idle
        × ((handle_durable_crawl_cron_request memory work scheduled
              (some "s3cret")
              clocks
              idle).1.db
            ≡ (work empty).1))
handle-IsAuthorized_example = handle-IsAuthorized memory work scheduled (some "s3cret") clocks idle
