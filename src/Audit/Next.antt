-- ===== src/Audit/Next.antt =====
-- `processNextCrawlJob` of lib/services/audit.service.ts: the oldest due job is tried.
use growth_sent.Prelude.{
  ℕ, ◌≤◌, ◌≡◌, true, false, Option, none, some, List, [], ◌∷◌, String, if◌then◌else◌, ltb, arith,
  All, OnSome, Option-cases, Bool-cases, inl, inr, ◌⊎◌, subst, if-elim, ◌∙◌, ◌===◌,
}
use growth_sent.Mongo.{Mongo}
use growth_sent.Mongo.Commands.{find_one_where}
use growth_sent.Mongo.Listing.{Listing}
use growth_sent.Mongo.Memory
use growth_sent.Types.{CrawlJob, Database}
use growth_sent.Audit.{retryable_claim_filter}
use growth_sent.Audit.Process.{Attempt, Report, process_crawl_job}

-- `sort({ createdAt: 1 }).limit(1)`: the first of the oldest.
unfoldable pub oldest : List (String × CrawlJob) → Option (String × CrawlJob)
oldest [] = none
oldest ((id, job) ∷ jobs) = elim (oldest jobs) [
  | none ↦ some (id, job)
  | some (other_id, other) ↦
      if ltb other.created_at job.created_at then some (other_id, other) else some (id, job)
]

oldest-All :
    (P : String × CrawlJob → Type 0) (jobs : List (String × CrawlJob))
    → All P jobs
    → OnSome P (oldest jobs)
unfolding oldest
oldest-All P [] h = tt
oldest-All P ((id, job) ∷ jobs) (p, h) =
    let rest = oldest-All P jobs h in
    elim (Option-cases (oldest jobs)) [
      | inl none_left ↦ rw none_left p
      | inr ((other_id, other), found) ↦
          let q : P (other_id, other) = subst (OnSome P) found rest in
          rw found
            (if-elim (OnSome P) (ltb other.created_at job.created_at) (λ older. q) (λ not_older. p))
    ]

oldest-first :
    (jobs : List (String × CrawlJob)) (k : String) (d : CrawlJob)
    → Memory.find jobs k ≡ some d
    → (e : String × CrawlJob) × (oldest jobs ≡ some e) × (e.1.created_at ≤ d.created_at)
unfolding oldest
oldest-first [] k d found = absurd (ground arith)
oldest-first ((id, job) ∷ jobs) k d found = elim (Bool-cases (id === k)) [
  | inl same ↦ elim (Option-cases (oldest jobs)) [
    | inl none_left ↦ ((id, job), ground arith, ground arith)
    | inr ((other_id, other), older) ↦ elim (Bool-cases (ltb other.created_at job.created_at)) [
      | inl before ↦ ((other_id, other), ground arith, ground arith)
      | inr not_before ↦ ((id, job), ground arith, ground arith)
    ]
  ]
  | inr differs ↦
      let (e, older, bound) = oldest-first jobs k d (ground arith) in
      elim (Bool-cases (ltb e.1.created_at job.created_at)) [
        | inl before ↦ (e, ground arith, bound)
        | inr not_before ↦ ((id, job), ground arith, ground arith)
      ]
]

module _ (M : Mongo) (L : Listing M) (a : Attempt M) where
  open M use {find_one}

  -- The job that is due and was created first.
  unfoldable pub candidate : Database M → ℕ → Option (String × CrawlJob)
  unfolding oldest
  candidate db now = oldest (L.find (retryable_claim_filter now) db.jobs)

  unfoldable pub process_next_crawl_job : Database M → ℕ → Report × Database M
  unfolding candidate
  process_next_crawl_job db now = elim (candidate db now) [
    | none ↦ (record { claimed = false; status = none; attempt = none }, db)
    | some (id, _) ↦ process_crawl_job M a db id
  ]

  -- Is this the job to try?
  pub record IsNext (db : Database M) (now : ℕ) (id : String) (job : CrawlJob) : Type 0 where
    pub found : find_one db.jobs id ≡ some job
    pub due : retryable_claim_filter now job ≡ true
    pub first :
        (k : String) (d : CrawlJob)
        → find_one db.jobs k ≡ some d
        → retryable_claim_filter now d ≡ true
        → job.created_at ≤ d.created_at

  -- Either no job is due and nothing happens, or the attempt is at a job that is due and than which
  -- no due job is older.
  pub process_next_crawl_job-IsNext :
      (db : Database M) (now : ℕ)
      → (((k : String) (d : CrawlJob)
            → find_one db.jobs k ≡ some d
            → retryable_claim_filter now d ≡ false)
          × ((process_next_crawl_job db now).1 ≡ db))
        ⊎ ((id : String) × (job : CrawlJob) × IsNext db now id job
            × (process_next_crawl_job db now ≡ process_crawl_job M a db id))
  unfolding process_next_crawl_job candidate
  process_next_crawl_job-IsNext db now =
      let due = retryable_claim_filter now in
      let listed : (k : String) (d : CrawlJob)
          → find_one db.jobs k ≡ some d
          → due d ≡ true
          → Memory.find (L.find due db.jobs) k ≡ some d =
        λ k d found is_due. L.find-lookup due db.jobs k ∙ ground arith in
      elim (Option-cases (candidate db now)) [
        | inl none_due ↦ inl (
          (λ k d found. elim (Bool-cases (due d)) [
            | inr waiting ↦ waiting
            | inl is_due ↦
                let (e, older, _) =
                  oldest-first (L.find due db.jobs) k d (listed k d found is_due) in
                absurd (ground arith)
          ]),
          ground arith,
        )
        | inr ((id, job), chosen) ↦
            let taken : find_one_where M db.jobs id due ≡ some job =
              subst
                (OnSome (λ (e : String × CrawlJob). find_one_where M db.jobs e.0 due ≡ some e.1))
                chosen
                (oldest-All (λ (e : String × CrawlJob). find_one_where M db.jobs e.0 due ≡ some e.1)
                  (L.find due db.jobs) (L.find-All due db.jobs)) in
            inr (
              id,
              job,
              record {
                found = ground arith;
                due = ground arith;
                first = λ k d found is_due.
                    let (e, older, bound) =
                      oldest-first (L.find due db.jobs) k d (listed k d found is_due) in
                    ground arith;
              },
              ground arith,
            )
      ]
