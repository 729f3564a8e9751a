-- ===== src/Audit/Stuck.antt =====
-- Two ways in which a job of lib/services/audit.service.ts keeps its queue slot for good.
use growth_sent.Prelude.{
  ℕ, ◌≡◌, refl, none, some, String, arith, eq_refl, true, false, eq_iff, Option, OnSome, ◌===◌, ◌⊎◌,
  inl, inr,
}
use growth_sent.Mongo.{Mongo}
use growth_sent.Types.{CrawlJob, Database, failed}
use growth_sent.Audit.{
  claimed, attempts_of, max_attempts, retryable_claim_filter, is_running, holds_lease,
}
use growth_sent.Audit.Claim.{claim_crawl_job, site_gone}
use growth_sent.Audit.System.{System, Worker, Reach, stay, next}
use growth_sent.Audit.Sound.{IsSound}
use growth_sent.Audit.Queue.{Reach-IsSound}
use growth_sent.Audit.Kept.{actor, Step-kept}
use growth_sent.Audit.Final.{IsDeletedIn}

module _ (M : Mongo) (db : Database M) (id : String) where
  open M use {find_one, write, find_one-write}

  -- A claim that finds the saved site gone fails the job for good and gives none of its admission
  -- back: the queue's count and the claim on the target stay as they were.
  pub claim_site_gone :
      (lease : String) (now clock : ℕ) (d : CrawlJob) (site : String)
      → find_one db.jobs id ≡ some d
      → d.job_id ≡ id
      → retryable_claim_filter now d ≡ true
      → d.website_id ≡ some site
      → find_one db.websites site ≡ none
      → (d' : CrawlJob) × (find_one (claim_crawl_job M db id lease now clock).1.jobs id ≡ some d')
        × (d'.status ≡ failed)
        × (d'.admission_queue_slot ≡ d.admission_queue_slot)
        × ((claim_crawl_job M db id lease now clock).1.admissions ≡ db.admissions)
  unfolding claim_crawl_job
  claim_site_gone lease now clock d site found keyed due saved gone =
      let d1 = claimed lease now d in
      let d2 = site_gone clock d1 in
      let first = find_one-write db.jobs id d1 id in
      let second = find_one-write (write db.jobs id d1) id d2 id in
      (
        d2,
        ground (arith, first, second, eq_refl id, eq_refl lease),
        refl,
        refl,
        ground (arith, first, eq_refl id, eq_refl lease),
      )

module _ (M : Mongo) (lease : String) where
  open M use {find_one}

  -- Nothing is done by a worker with this lease id.
  abbrev pub IsSilent : {s t : System M} → Reach M s t → Type 0
  IsSilent stay = Unit
  IsSilent (next r st) = IsSilent r × OnSome (λ w. (w.lease === lease) ≡ false) (actor M st)

  -- A job that runs under this lease, in its third attempt.
  pub record IsLastAttempt (d : CrawlJob) : Type 0 where
    pub running : is_running d.status ≡ true
    pub leased : d.lease_id ≡ some lease
    pub third : attempts_of d ≡ max_attempts

  unclaimable :
      (d : CrawlJob) → IsLastAttempt d → (time : ℕ) → retryable_claim_filter time d ≡ false
  unfolding retryable_claim_filter
  unclaimable d last time = ground (arith, last.third)

  others_barred :
      (d : CrawlJob) (who : Option Worker)
      → IsLastAttempt d
      → OnSome (λ w. (w.lease === lease) ≡ false) who
      → OnSome (λ w. holds_lease w.lease d ≡ false) who
  others_barred d none last silent = tt
  others_barred d (some w) last silent =
      ground (arith, last.leased, eq_iff lease w.lease, eq_iff w.lease lease)

  last_kept :
      {s t : System M} (id : String) (d : CrawlJob) (r : Reach M s t)
      → IsSound M s
      → find_one s.db.jobs id ≡ some d
      → IsLastAttempt d
      → IsSilent r
      → (find_one t.db.jobs id ≡ some d) ⊎ IsDeletedIn M id r
  last_kept id d stay h found last silent = inl found
  last_kept id d (next r st) h found last (silent, here) =
      elim (last_kept id d r h found last silent) [
        | inr gone ↦ inr (inl gone)
        | inl same ↦
            elim (Step-kept M id d st (Reach-IsSound M h r) same (unclaimable d last)
              (others_barred d (actor M st) last here)) [
                | inl still ↦ inl still
                | inr deleted ↦ inr (inr deleted)
              ]
      ]

  no_claim :
      (db : Database M) (id lease' : String) (now clock : ℕ) (d : CrawlJob)
      → find_one db.jobs id ≡ some d
      → IsLastAttempt d
      → claim_crawl_job M db id lease' now clock ≡ (none, db)
  unfolding claim_crawl_job
  no_claim db id lease' now clock d found last = ground (arith, found, unclaimable d last now)

  -- From a state that meets the invariant, a job in its third attempt whose worker takes no further
  -- step keeps running for good, whatever other workers and requests do and for however long: unless
  -- a request deletes it, its document stays as it is, and no claim at any time finds it.
  pub claim_third :
      {s t : System M} (id : String) (d : CrawlJob) (r : Reach M s t)
      → IsSound M s
      → find_one s.db.jobs id ≡ some d
      → IsLastAttempt d
      → IsSilent r
      → ((find_one t.db.jobs id ≡ some d)
          × ((lease' : String) (now clock : ℕ)
              → claim_crawl_job M t.db id lease' now clock ≡ (none, t.db)))
        ⊎ IsDeletedIn M id r
  claim_third {s} {t} id d r h found last silent = elim (last_kept id d r h found last silent) [
    | inr gone ↦ inr gone
    | inl same ↦ inl (same, λ lease' now clock. no_claim t.db id lease' now clock d same last)
  ]
