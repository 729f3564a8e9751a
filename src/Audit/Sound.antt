-- ===== src/Audit/Sound.antt =====
-- The invariant of the job queue of lib/services/audit.service.ts.
use growth_sent.Prelude.{
  ℕ, ◌+◌, List, [], ◌∷◌, if◌then◌else◌, ◌≤◌, ◌≡◌, ◌⊎◌, OnSome, Bool, false, ◌&&◌, String, All, leb,
  is_some,
}
use growth_sent.Mongo.{Mongo}
use growth_sent.Types.{CrawlJob, Database}
use growth_sent.Admission.{is_active_crawl_status, queue_document_id, queue_cap}
use growth_sent.Admission.Gates.{active_count_of}
use growth_sent.Admission.Release.{IsClaimKey}
use growth_sent.Audit.{holds_lease, is_running, is_queued, attempts_of, max_attempts}
use growth_sent.Audit.System.{System, Worker}

-- A job that occupies a slot of the queue.
abbrev pub holds_slot : CrawlJob → Bool
holds_slot job = job.admission_queue_slot && is_active_crawl_status job.status

-- A job stands under its own id; it has a lease exactly while it runs; a running job has one to
-- three attempts, a queued one can still be tried, and none has more than three.
pub record IsSoundJob (k : String) (d : CrawlJob) : Type 0 where
  pub keyed : d.job_id ≡ k
  pub claim_key : IsClaimKey d.admission_claim_key
  pub leased : is_some d.lease_id ≡ is_running d.status
  pub bounded : attempts_of d ≤ max_attempts
  pub tried : (is_running d.status && (leb (attempts_of d) 0)) ≡ false
  pub can_be_tried : (is_queued d.status && leb max_attempts (attempts_of d)) ≡ false

-- What a worker's copy shares with the document while it holds the lease.
pub record Same (job d : CrawlJob) : Type 0 where
  pub same_id : job.job_id ≡ d.job_id
  pub same_site : job.website_id ≡ d.website_id
  pub same_slot : job.admission_queue_slot ≡ d.admission_queue_slot
  pub same_claim : job.admission_claim_key ≡ d.admission_claim_key
  pub same_attempts : attempts_of job ≡ attempts_of d

-- The slots that the jobs of a list are still to give back.
abbrev pub slots_due : List CrawlJob → ℕ
slots_due [] = 0
slots_due (job ∷ jobs) = (if job.admission_queue_slot then 1 else 0) + slots_due jobs

abbrev pub AreClaimKeys : List CrawlJob → Type 0
AreClaimKeys jobs = All (λ (job : CrawlJob). IsClaimKey job.admission_claim_key) jobs

module _ (M : Mongo) where
  open M use {Docs, find_one, count_documents}

  abbrev pub AreSound : Docs CrawlJob → Type 0
  AreSound jobs = (k : String) → OnSome (IsSoundJob k) (find_one jobs k)

  abbrev pub Agrees : Docs CrawlJob → Worker → Type 0
  Agrees jobs w =
      OnSome (λ d. (holds_lease w.lease d ≡ false) ⊎ Same w.job d) (find_one jobs w.job.job_id)

  abbrev pub slots_taken : Database M → ℕ
  slots_taken db = active_count_of (find_one db.admissions queue_document_id)

  abbrev pub slots_held : Database M → ℕ
  slots_held db = count_documents holds_slot db.jobs

  pub record IsSound (s : System M) : Type 0 where
    pub jobs : AreSound s.db.jobs
    pub workers : All (Agrees s.db.jobs) s.workers
    pub claim_keys : AreClaimKeys s.ended
    pub counted : slots_held s.db + slots_due s.ended + slots_due s.returning ≤ slots_taken s.db
    pub capped : slots_taken s.db ≤ queue_cap
