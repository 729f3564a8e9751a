-- ===== src/Audit/Entitled.antt =====
-- Who reads a job of lib/services/audit.service.ts, and what the reader is told.
use growth_sent.Prelude.{
  true, Option, none, some, String, ◌≡◌, refl, ◌↔◌, inl, inr, arith, sym, ◌∙◌, if◌then◌else◌,
  eq_iff, eq_refl, Option-cases,
}
use growth_sent.Mongo.{Mongo}
use growth_sent.Types.{CrawlJob, Website, Database}
use growth_sent.Capabilities.{Sha256, verify_opaque_access_token}
use growth_sent.Audit.Access.{
  CrawlJobAccessContext, given, Archive, JobStatus, safe_object_id, owns_website, can_access_job,
  get_crawl_job_status, status_of, results_of, failure_of,
}

module _ (object_id : String → String) (M : Mongo) (h : Sha256) where
  open M use {find_one, write, find_one-write}

  -- The three ways to a job: the owner of its site, its own user, and who has its capability when
  -- the job has neither a site nor a user.
  pub data IsEntitled (db : Database M) (job : CrawlJob) (access : CrawlJobAccessContext)
      : Type 0 where
    of_site :
        (site user owner : String) (w : Website)
        → job.website_id ≡ some site
        → given access.user_id ≡ some user
        → safe_object_id object_id user ≡ some owner
        → find_one db.websites site ≡ some w
        → w.user_id ≡ some owner
        → IsEntitled db job access
    of_user :
        (user : String)
        → job.website_id ≡ none
        → given job.clerk_user_id ≡ some user
        → given access.user_id ≡ some user
        → IsEntitled db job access
    of_bearer :
        job.website_id ≡ none
        → given job.clerk_user_id ≡ none
        → verify_opaque_access_token h access.access_token job.access_token_hash ≡ true
        → IsEntitled db job access

  entitled-can_access :
      (db : Database M) (job : CrawlJob) (access : CrawlJobAccessContext)
      → IsEntitled db job access
      → can_access_job object_id M h db job access ≡ true
  unfolding can_access_job owns_website
  entitled-can_access db job access (of_site site user owner w s u o found own) =
      ground (arith, eq_refl owner)
  entitled-can_access db job access (of_user user s o u) = ground (arith, eq_refl user)
  entitled-can_access db job access (of_bearer s o v) = ground arith

  can_access-IsEntitled :
      (db : Database M) (job : CrawlJob) (access : CrawlJobAccessContext)
      → can_access_job object_id M h db job access ≡ true
      → IsEntitled db job access
  unfolding can_access_job owns_website
  can_access-IsEntitled db job access e = elim (Option-cases job.website_id) [
    | inr (site, s) ↦ elim (Option-cases (given access.user_id)) [
      | inl missing ↦ absurd (ground arith)
      | inr (user, u) ↦ elim (Option-cases (safe_object_id object_id user)) [
        | inl malformed ↦ absurd (ground arith)
        | inr (owner, o) ↦ elim (Option-cases (find_one db.websites site)) [
          | inl gone ↦ absurd (ground arith)
          | inr (w, found) ↦ elim (Option-cases w.user_id) [
            | inl unowned ↦ absurd (ground arith)
            | inr (holder, held) ↦
                of_site site user owner w s u o found (ground (arith, eq_iff holder owner))
          ]
        ]
      ]
    ]
    | inl s ↦ elim (Option-cases (given job.clerk_user_id)) [
      | inr (owner, o) ↦ elim (Option-cases (given access.user_id)) [
        | inl missing ↦ absurd (ground arith)
        | inr (user, u) ↦ of_user owner s o (ground (arith, eq_iff owner user))
      ]
      | inl o ↦ of_bearer s o (ground arith)
    ]
  ]

  module _ {Scan Page Issue : Type 0} (archive : Archive Scan Page Issue) where
    -- A reader learns of a job only if there is one and the reader is entitled to it: the owner of
    -- its site, or the user of a job with no site, or who has the capability of a job with neither;
    -- and whoever is entitled is told.
    pub status-IsEntitled :
        (db : Database M) (job_id : String) (access : CrawlJobAccessContext)
        → ((view : JobStatus Scan Page Issue) × (get_crawl_job_status object_id M h archive db
                job_id access
              ≡ some view))
          ↔ ((job : CrawlJob) × (find_one db.jobs job_id ≡ some job) × IsEntitled db job access)
    unfolding get_crawl_job_status
    status-IsEntitled db job_id access = (
      λ p. elim (Option-cases (find_one db.jobs job_id)) [
        | inl missing ↦ absurd (ground (arith, p.1))
        | inr (job, found) ↦ (job, found, can_access-IsEntitled db job access (ground (arith, p.1)))
      ],
      λ p.
          let (job, found, entitled) = p in
          (
            status_of object_id M h archive job,
            ground (arith, found, entitled-can_access db job access entitled),
          ),
    )

    get-found :
        (db : Database M) (job_id : String) (job : CrawlJob) (access : CrawlJobAccessContext)
        → find_one db.jobs job_id ≡ some job
        → get_crawl_job_status object_id M h archive db job_id access ≡ (
            if can_access_job object_id M h db job access
            then some (status_of object_id M h archive job)
            else none)
    unfolding get_crawl_job_status
    get-found db job_id job access found = ground (arith, found)

    -- The text of the error that a job keeps makes no difference to what a reader is told.
    pub status-error :
        (db : Database M) (job_id : String) (job : CrawlJob) (text : Option String)
        (access : CrawlJobAccessContext)
        → find_one db.jobs job_id ≡ some job
        → get_crawl_job_status object_id M h archive
            (record db { jobs = write db.jobs job_id (record job { error = text }) })
            job_id
            access
          ≡ get_crawl_job_status object_id M h archive db job_id access
    unfolding can_access_job owns_website status_of results_of failure_of
    status-error db job_id job text access found =
        let kept = record job { error = text } in
        let after = record db { jobs = write db.jobs job_id kept } in
        get-found after job_id kept access
          (find_one-write db.jobs job_id kept job_id ∙ rw (eq_refl) refl)
        ∙ sym (get-found db job_id job access found)
