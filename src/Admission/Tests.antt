-- ===== src/Admission/Tests.antt =====
-- Runs of lib/jobs/crawl-admission.ts on collections in memory.
use growth_sent.Prelude.{ℕ, ◌+◌, ◌≡◌, refl, true, false, none, some, [], ◌<>◌, Result, ok, err}
use growth_sent.Mongo.Memory.{memory}
use growth_sent.Types.{CrawlJob, queued, Database, authenticated}
use growth_sent.Admission.{Failure, contention, admit}
use growth_sent.Admission.Gates.{holder}
use growth_sent.Admission.Decision.{admitted, admission, admit-decision}
use growth_sent.Admission.Effects.{IsAdmitted, admit-IsAdmitted}
use growth_sent.Admission.Service.{Host}

abbrev job : CrawlJob
job = record {
  job_id = "job1";
  url = "https://example.com";
  crawl_provider = none;
  requester_key = none;
  clerk_user_id = none;
  website_id = none;
  access_token_hash = none;
  status = queued;
  progress_percent = 0;
  pages_crawled = 0;
  error = none;
  failure_category = none;
  scan_id = none;
  lease_id = none;
  lease_expires_at = none;
  attempts = some 0;
  next_attempt_at = none;
  admission_queue_slot = false;
  admission_claim_key = none;
  started_at = none;
  created_at = 1000;
  completed_at = none;
}

abbrev again : CrawlJob
again = record job { job_id = "job2"; created_at = 2000 }

abbrev empty : Database memory
empty = record { admissions = []; jobs = []; websites = [] }

abbrev full : Database memory
full = admitted memory empty job "user:u1" authenticated "example.com" 1000

admit-decision_example :
    admit memory empty job "user:u1" authenticated "example.com" 1000
    ≡ ok (admission memory empty job "user:u1" authenticated "example.com" 1000, full)
unfolding holder
admit-decision_example = admit-decision memory empty job "user:u1" authenticated "example.com" 1000

admit-IsAdmitted_example :
    IsAdmitted memory empty job "user:u1" authenticated "example.com" 1000 full
admit-IsAdmitted_example =
    admit-IsAdmitted memory empty job "user:u1" authenticated "example.com" 1000
      (admission memory empty job "user:u1" authenticated "example.com" 1000) full
      admit-decision_example refl

-- An operation that counts its calls, and loses the race each time.
abbrev racing : ℕ → Result Failure ℕ × ℕ
racing calls = (err contention, calls + 1)

-- A production host without the secret that anonymous callers need.
abbrev bare : Host
bare = record {
  hmac = λ secret text. secret <> text;
  url_hostname = λ url. "example.com";
  registrable_domain = λ host. some host;
  admission_secret = none;
  is_production = true;
}
