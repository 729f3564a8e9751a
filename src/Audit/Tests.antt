-- ===== src/Audit/Tests.antt =====
-- Runs of lib/services/audit.service.ts on collections in memory.
use growth_sent.Prelude.{
  ℕ, inr, ◌⊎◌, ◌≡◌, refl, ◌≤◌, ◌+◌, ◌&&◌, is_some, leb, true, false, none, some, [], ◌∷◌, String,
  ◌===◌, OnSome, if-elim, arith, eq_refl, eq_iff, ok,
}
use growth_sent.Mongo.Memory.{memory, find}
use growth_sent.Mongo.Listing.{memory_listing}
use growth_sent.Audit.Next.{IsNext, process_next_crawl_job, process_next_crawl_job-IsNext}
use growth_sent.Types.{
  CrawlJob, queued, completed, failed, Website, Admission, AdmissionKind, Database, timeout,
}
use growth_sent.Admission.{queue_document_id, queue_cap}
use growth_sent.Admission.Release.{IsClaimKey}
use growth_sent.Audit.{
  claimed, retryable_claim_filter, should_retry, next_retry_at, attempts_of, lease_duration_ms,
  root_page_not_evaluable, is_running, is_queued, site_claimed, should_retry_root_page_failure,
}
use growth_sent.Audit.Claim.{claim_document, claim_crawl_job}
use growth_sent.Audit.Lease.{
  publish, mark_attempt_failed, attempt_failed, ensure_lease, fence_website_lease, complete_job,
  mark_analysing, ensure_scan_id,
}
use growth_sent.Audit.Exclusive.{claim-claim}
use growth_sent.Audit.Fence.{IsFencedOff, lost-IsFencedOff}
use growth_sent.Audit.System.{System, IsFresh, Step, Reach, claims, deletes, stay, next}
use growth_sent.Audit.Sound.{IsSound, IsSoundJob, slots_held}
use growth_sent.Audit.Queue.{Step-IsSound, Reach-slots_held}
use growth_sent.Audit.Final.{IsDeletedIn, Reach-final}
use growth_sent.Audit.Process.{Attempt, process_crawl_job, process_crawl_job-completed}
use growth_sent.Audit.Policy.{retry-claim}
use growth_sent.Audit.Stuck.{claim_third, claim_site_gone}

abbrev waiting : CrawlJob
waiting = record {
  job_id = "job1";
  url = "https://example.com";
  crawl_provider = none;
  requester_key = none;
  clerk_user_id = none;
  website_id = none;
  access_token_hash = none;
  status = queued;
  progress_percent = 0;
  pages_crawled = 0;
  error = none;
  failure_category = none;
  scan_id = none;
  lease_id = none;
  lease_expires_at = none;
  attempts = some 0;
  next_attempt_at = none;
  admission_queue_slot = true;
  admission_claim_key = none;
  started_at = none;
  created_at = 0;
  completed_at = none;
}

abbrev over : CrawlJob
over = record waiting { job_id = "job0"; status = completed }

abbrev queue : Admission
queue = record {
  kind = AdmissionKind.queue;
  count = none;
  active_count = some 1;
  job_id = none;
  actor_kind = none;
  expires_at = none;
  created_at = 0;
  updated_at = 0;
}

abbrev db : Database memory
db = record {
  admissions = (queue_document_id, queue) ∷ [];
  jobs = ("job1", waiting) ∷ ("job0", over) ∷ [];
  websites = [];
}

abbrev taken : CrawlJob
taken = claimed "lease1" 1000 waiting

abbrev taken_db : Database memory
taken_db = record db { jobs = ("job1", taken) ∷ ("job0", over) ∷ [] }

abbrev start : System memory
start = record { db = db; workers = []; ended = []; returning = [] }

abbrev working : System memory
working = record {
  db = taken_db;
  workers = (record { lease = "lease1"; job = taken }) ∷ [];
  ended = [];
  returning = [];
}

sound :
    (id k : String) (d : CrawlJob)
    → (id === k) ≡ true
    → d.job_id ≡ id
    → is_some d.lease_id ≡ is_running d.status
    → attempts_of d ≤ 3
    → (is_running d.status && leb (attempts_of d) 0) ≡ false
    → (is_queued d.status && leb 3 (attempts_of d)) ≡ false
    → IsClaimKey d.admission_claim_key
    → IsSoundJob k d
sound id k d e keyed leased bounded tried can_be_tried claim_key = record {
  keyed = ground (arith, eq_iff id k);
  claim_key = claim_key;
  leased = leased;
  bounded = bounded;
  tried = tried;
  can_be_tried = can_be_tried;
}

start-IsSound : IsSound memory start
start-IsSound = record {
  jobs = λ k.
      if-elim (OnSome (IsSoundJob k)) ("job1" === k)
        (λ e. sound "job1" k waiting e refl refl (omega arith) refl refl tt)
        (λ _.
          if-elim (OnSome (IsSoundJob k)) ("job0" === k)
            (λ e. sound "job0" k over e refl refl (omega arith) refl refl tt) (λ _. tt));
  workers = tt;
  claim_keys = tt;
  counted = ground (arith, eq_refl queue_document_id);
  capped = ground (arith, eq_refl queue_document_id);
}

start-IsFresh : IsFresh memory start "lease1"
start-IsFresh = record { unused = tt; unwritten = λ k d found. ground arith }

claim-Step : Step memory start working
unfolding claim_document retryable_claim_filter
claim-Step = claims "job1" "lease1" 1000 taken taken_db start-IsFresh refl

Step-IsSound_example : IsSound memory working
Step-IsSound_example = Step-IsSound memory claim-Step start-IsSound

Reach-slots_held_example : slots_held memory taken_db ≤ queue_cap
Reach-slots_held_example = Reach-slots_held memory start-IsSound (next stay claim-Step)

Reach-final_example :
    (find taken_db.jobs "job0" ≡ some over) ⊎ IsDeletedIn memory "job0" (next stay claim-Step)
Reach-final_example = Reach-final memory "job0" over (next stay claim-Step) start-IsSound refl refl

claim-claim_example : claim_crawl_job memory taken_db "job1" "lease2" 2000 2000 ≡ (none, taken_db)
unfolding claim_crawl_job retryable_claim_filter
claim-claim_example =
    claim-claim memory db "job1" "lease1" 1000 1000 {job = taken} {db' = taken_db} "lease2" 2000
      2000 refl (omega arith)

-- Two jobs of one saved site.
abbrev first : CrawlJob
first = record waiting { website_id = some "site" }

abbrev second : CrawlJob
second = record over { status = queued; website_id = some "site" }

abbrev site : Website
site = record { user_id = none; active_audit_lease_id = none; active_audit_lease_expires_at = none }

abbrev site_db : Database memory
site_db = record db {
  jobs = ("job1", first) ∷ ("job0", second) ∷ [];
  websites = ("site", site) ∷ [];
}

abbrev site_taken : CrawlJob
site_taken = claimed "lease1" 1000 first

abbrev site_taken_db : Database memory
site_taken_db = record site_db {
  jobs = ("job1", site_taken) ∷ ("job0", second) ∷ [];
  websites = ("site", site_claimed "lease1" (1000 + lease_duration_ms) site) ∷ [];
}

lost-IsFencedOff_example : IsFencedOff memory taken "lease2" taken_db 2000
lost-IsFencedOff_example = lost-IsFencedOff memory taken "lease2" taken_db 2000 taken refl refl

abbrev good_attempt : Attempt memory
good_attempt = record {
  lease = "lease1";
  scan_id = "scan1";
  now = 1000;
  claim_clock = 1001;
  analysis_clock = 2000;
  completion = 3000;
  publish_clock = 3001;
  failure_clock = 4000;
  crawl = λ job. ok 5;
  meanwhile = λ db. db;
}

process_crawl_job-completed_example :
    (job : CrawlJob) × (db1 : Database memory) × (claim_crawl_job memory db "job1" "lease1" 1000
        1001
      ≡ (some job, db1))
    × ((d : CrawlJob) × (find (process_crawl_job memory good_attempt db "job1").1.jobs job.job_id
          ≡ some d)
        × (d.status ≡ completed)
        × (d.lease_id ≡ none))
unfolding process_crawl_job claim_crawl_job retryable_claim_filter publish ensure_lease
    fence_website_lease complete_job mark_analysing ensure_scan_id
process_crawl_job-completed_example = process_crawl_job-completed memory good_attempt db "job1" refl

retry-claim_example :
    (claim_crawl_job memory
      (mark_attempt_failed memory taken "lease1" taken_db (root_page_not_evaluable timeout) 5000)
      "job1"
      "lease2"
      35000
      35000).0
    ≡ some (
        claimed "lease2" 35000 (attempt_failed true (root_page_not_evaluable timeout) 1 5000 taken))
unfolding should_retry should_retry_root_page_failure next_retry_at
retry-claim_example =
    retry-claim memory taken taken "lease1" taken_db (root_page_not_evaluable timeout) 5000 refl
      refl "lease2" 35000 35000 refl refl

-- A job in its third attempt, whose worker dies; then a request deletes another job.
abbrev dead : CrawlJob
dead = claimed "lease1" 1000 (record waiting { attempts = some 2 })

abbrev dying : System memory
dying = record {
  db = record db { jobs = ("job1", dead) ∷ ("job0", over) ∷ [] };
  workers = (record { lease = "lease1"; job = dead }) ∷ [];
  ended = [];
  returning = [];
}

abbrev dead_system : System memory
dead_system = record dying { db = record db { jobs = ("job1", dead) ∷ [] } }

dying-IsSound : IsSound memory dying
dying-IsSound = record {
  jobs = λ k.
      if-elim (OnSome (IsSoundJob k)) ("job1" === k)
        (λ e. sound "job1" k dead e refl refl (omega arith) refl refl tt)
        (λ _.
          if-elim (OnSome (IsSoundJob k)) ("job0" === k)
            (λ e. sound "job0" k over e refl refl (omega arith) refl refl tt) (λ _. tt));
  workers = (
    inr (record {
      same_id = refl;
      same_site = refl;
      same_slot = refl;
      same_claim = refl;
      same_attempts = refl;
    }),
    tt,
  );
  claim_keys = tt;
  counted = ground (arith, eq_refl queue_document_id);
  capped = ground (arith, eq_refl queue_document_id);
}

abbrev deletion : Reach memory dying dead_system
deletion = next stay (deletes "job0")

claim_third_example :
    ((find dead_system.db.jobs "job1" ≡ some dead)
      × ((lease' : String) (now clock : ℕ)
          → claim_crawl_job memory dead_system.db "job1" lease' now clock ≡ (none, dead_system.db)))
    ⊎ IsDeletedIn memory "job1" deletion
claim_third_example =
    claim_third memory "lease1" "job1" dead deletion dying-IsSound refl
      (record { running = refl; leased = refl; third = refl }) (tt, tt)

abbrev orphan_db : Database memory
orphan_db = record site_db { websites = [] }

claim_site_gone_example :
    (d : CrawlJob) × (find
        (claim_crawl_job memory orphan_db "job1" "lease1" 1000 1000).1.jobs
        "job1"
      ≡ some d)
    × (d.status ≡ failed)
    × (d.admission_queue_slot ≡ true)
    × ((claim_crawl_job memory orphan_db "job1" "lease1" 1000 1000).1.admissions
        ≡ orphan_db.admissions)
unfolding retryable_claim_filter
claim_site_gone_example =
    claim_site_gone memory orphan_db "job1" "lease1" 1000 1000 first "site" refl refl refl refl refl

process_next_crawl_job-IsNext_example :
    (((k : String) (d : CrawlJob)
        → memory.find_one db.jobs k ≡ some d
        → retryable_claim_filter 1000 d ≡ false)
      × ((process_next_crawl_job memory memory_listing good_attempt db 1000).1 ≡ db))
    ⊎ ((id : String) × (job : CrawlJob) × IsNext memory memory_listing good_attempt db 1000 id job
        × (process_next_crawl_job memory memory_listing good_attempt db 1000
            ≡ process_crawl_job memory good_attempt db id))
process_next_crawl_job-IsNext_example =
    process_next_crawl_job-IsNext memory memory_listing good_attempt db 1000
