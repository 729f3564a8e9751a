-- ===== src/Audit/Exclusive.antt =====
-- A claimed job of lib/services/audit.service.ts has one worker while its lease lasts.
use growth_sent.Prelude.{
  ℕ, ◌+◌, ◌<◌, ◌≡◌, refl, ap, ◌∙◌, true, false, none, some, String, ◌===◌, arith, eq_refl,
  Option-cases, inl, inr,
}
use growth_sent.Mongo.{Mongo}
use growth_sent.Types.{CrawlJob, Website, Database}
use growth_sent.Audit.{lease_duration_ms, retryable_claim_filter, claimed, site_claimed}
use growth_sent.Audit.Claim.{claim_crawl_job}

module _ (M : Mongo) (db : Database M) (id lease : String) (now clock : ℕ) where
  open M use {find_one, write, find_one-write}

  -- What a successful claim read, and what it returned and stored.
  pub record IsClaimed (job : CrawlJob) (db' : Database M) : Type 0 where
    pub before : CrawlJob
    pub found : find_one db.jobs id ≡ some before
    pub due : retryable_claim_filter now before ≡ true
    pub returned : job ≡ claimed lease now before
    pub stored : db'.jobs ≡ write db.jobs id job

  pub claim-IsClaimed :
      {job : CrawlJob} {db' : Database M}
      → claim_crawl_job M db id lease now clock ≡ (some job, db')
      → IsClaimed job db'
  unfolding claim_crawl_job
  claim-IsClaimed {job} {db'} e = elim (Option-cases (find_one db.jobs id)) [
    | inl missing ↦ absurd (ground arith)
    | inr (d, found) ↦ record {
      before = d;
      found = found;
      due = ground arith;
      returned = ground arith;
      stored = ground arith;
    }
  ]

  -- While the lease of a claimed job lasts, no other claim of the job succeeds or changes anything.
  pub claim-claim :
      {job : CrawlJob} {db' : Database M} (lease' : String) (later clock' : ℕ)
      → claim_crawl_job M db id lease now clock ≡ (some job, db')
      → later < now + lease_duration_ms
      → claim_crawl_job M db' id lease' later clock' ≡ (none, db')
  unfolding claim_crawl_job retryable_claim_filter
  claim-claim {job} {db'} lease' later clock' e h =
      let c = claim-IsClaimed e in
      let stored : find_one db'.jobs id ≡ some job =
        ap (λ (jobs : M.Docs CrawlJob). find_one jobs id) c.stored
        ∙ rw (find_one-write, eq_refl) refl in
      ground (arith, stored, c.returned)

  claim-site_stored :
      {job : CrawlJob} {db' : Database M} (site : String)
      → claim_crawl_job M db id lease now clock ≡ (some job, db')
      → job.website_id ≡ some site
      → (w : Website) × (find_one db'.websites site
          ≡ some (site_claimed lease (now + lease_duration_ms) w))
  unfolding claim_crawl_job
  claim-site_stored {job} {db'} site e s = elim (Option-cases (find_one db.jobs id)) [
    | inl missing ↦ absurd (ground arith)
    | inr (d, found) ↦ elim (Option-cases (find_one db.websites site)) [
      | inl gone ↦ absurd (ground arith)
      | inr (w, kept) ↦ (
        w,
        ground (
          arith,
          find_one-write db.websites site (site_claimed lease (now + lease_duration_ms) w) site,
          eq_refl site,
        ),
      )
    ]
  ]

  -- While the lease of a claimed job of a saved site lasts, no job of the same site can be claimed
  -- under another lease.
  pub claim-claim_site :
      {job : CrawlJob} {db' : Database M} (site id' lease' : String) (other : CrawlJob)
      (later clock' : ℕ)
      → claim_crawl_job M db id lease now clock ≡ (some job, db')
      → job.website_id ≡ some site
      → find_one db'.jobs id' ≡ some other
      → other.website_id ≡ some site
      → (lease === lease') ≡ false
      → later < now + lease_duration_ms
      → (claim_crawl_job M db' id' lease' later clock').0 ≡ none
  unfolding claim_crawl_job retryable_claim_filter
  claim-claim_site {job} {db'} site id' lease' other later clock' e s o os ne h =
      let (w, stored) = claim-site_stored site e s in ground (arith, stored, o, os)
