-- ===== src/Audit/Created.antt =====
-- What `createCrawlJob` of lib/services/audit.service.ts leaves: a step of the queue, or nothing.
use growth_sent.Prelude.{
  ℕ, ◌≡◌, ap, sym, Option, none, some, String, ok, err, Result-cases, Option-cases, >>=-eq-ok, inl,
  inr, arith, eq_iff, trim, codes, from_codes, subst,
}
use growth_sent.Mongo.{Mongo}
use growth_sent.Types.{CrawlJob, Website, Database}
use growth_sent.Ssrf.Validate.{Target, validate_url_for_scan}
use growth_sent.Admission.{AdmissionResult}
use growth_sent.Admission.Service.{
  admit_and_insert_crawl_job, admit_and_insert_crawl_job_atomic, admit_and_insert-admit,
}
use growth_sent.Audit.System.{System, Step, admits, with_db}
use growth_sent.Audit.Sound.{IsSound}
use growth_sent.Audit.Queue.{Step-IsSound}
use growth_sent.Audit.Access.{given, safe_object_id}
use growth_sent.Audit.Create.{
  Environment, CreateRequest, Fresh, CreateError, CreatedCrawlJob, CrawlDataProviderName, new_job,
  website_object_id, authorize_website, requester_key_of, get_configured_crawl_provider_name,
  prepare, assemble, enqueue, create_crawl_job, created,
}

module _ (env : Environment) (M : Mongo) where
  open M use {find_one}

  -- The saved site of a request belongs to its caller.
  pub record IsOwnSite (db : Database M) (request : CreateRequest) (site : String) : Type 0 where
    pub user : String
    pub signed_in : given request.clerk_user_id ≡ some user
    pub owner : String
    pub identity : safe_object_id env.object_id user ≡ some owner
    pub website : Website
    pub found : find_one db.websites site ≡ some website
    pub owned : website.user_id ≡ some owner

  authorize-IsOwnSite :
      (db : Database M) (request : CreateRequest) (id : Option String) (site : String)
      → authorize_website env M db request id ≡ ok (some site)
      → IsOwnSite db request site
  unfolding authorize_website
  authorize-IsOwnSite db request none site e = absurd (ground arith)
  authorize-IsOwnSite db request (some website) site e =
      elim (Option-cases (given request.clerk_user_id)) [
        | inl anonymous ↦ absurd (ground arith)
        | inr (user, u) ↦ elim (Option-cases (safe_object_id env.object_id user)) [
          | inl malformed ↦ absurd (ground arith)
          | inr (owner, o) ↦ elim (Option-cases (find_one db.websites website)) [
            | inl gone ↦ absurd (ground arith)
            | inr (w, found) ↦ elim (Option-cases w.user_id) [
              | inl unowned ↦ absurd (ground arith)
              | inr (holder, held) ↦ record {
                user = user;
                signed_in = u;
                owner = owner;
                identity = o;
                website = w;
                found = ground arith;
                owned = ground (arith, eq_iff holder owner);
              }
            ]
          ]
        ]
      ]

  -- What the document of a job was made of.
  pub record IsPrepared (db : Database M) (request : CreateRequest) (fresh : Fresh) (now : ℕ)
      (job : CrawlJob) : Type 0 where
    pub target : Target
    pub valid : validate_url_for_scan env.network (trim (codes request.input_url)) ≡ ok target
    pub provider : CrawlDataProviderName
    pub key : Option String
    pub site : Option String
    pub made :
        job ≡ new_job env request fresh (from_codes target.normalized_url) provider key site now
    pub unsaved : given request.website_id ≡ none → site ≡ none
    pub own : (s : String) → site ≡ some s → IsOwnSite db request s

  assemble-IsPrepared :
      (db : Database M) (request : CreateRequest) (fresh : Fresh) (now : ℕ) (target : Target)
      (job : CrawlJob)
      → validate_url_for_scan env.network (trim (codes request.input_url)) ≡ ok target
      → assemble env M db request fresh now target ≡ ok job
      → IsPrepared db request fresh now job
  unfolding assemble authorize_website
  assemble-IsPrepared db request fresh now target job valid e =
      let (id, _, e1) = >>=-eq-ok (website_object_id env request.website_id) _ e in
      let (site, allowed, e2) = >>=-eq-ok (authorize_website env M db request id) _ e1 in
      let (provider, _, e3) =
        >>=-eq-ok (get_configured_crawl_provider_name env.crawl_data_provider) _ e2 in
      let (key, _, e4) = >>=-eq-ok (requester_key_of env provider request) _ e3 in
      record {
        target = target;
        valid = valid;
        provider = provider;
        key = key;
        site = site;
        made = ground arith;
        unsaved = λ none_given. ground arith;
        own = λ s same. authorize-IsOwnSite db request id s (ground arith);
      }

  pub prepare-IsPrepared :
      (db : Database M) (request : CreateRequest) (fresh : Fresh) (now : ℕ) (job : CrawlJob)
      → prepare env M db request fresh now ≡ ok job
      → IsPrepared db request fresh now job
  unfolding prepare
  prepare-IsPrepared db request fresh now job e =
      elim (Result-cases (validate_url_for_scan env.network (trim (codes request.input_url)))) [
        | inr (reason, refused) ↦ absurd (ground arith)
        | inl (target, valid) ↦
            assemble-IsPrepared db request fresh now target job valid (ground arith)
      ]

  -- What a creation that succeeds did: it prepared a document, and had it admitted.
  pub record IsCreated (db : Database M) (request : CreateRequest) (fresh : Fresh) (now : ℕ)
      (made : CreatedCrawlJob) (db' : Database M) : Type 0 where
    pub job : CrawlJob
    pub prepared : IsPrepared db request fresh now job
    pub result : AdmissionResult
    pub admission :
        admit_and_insert_crawl_job M env.host job request.request_ip now db ≡ (ok result, db')
    pub answer : made ≡ created env request fresh result

  enqueue-ok :
      (db db' : Database M) (request : CreateRequest) (fresh : Fresh) (now : ℕ) (job : CrawlJob)
      (made : CreatedCrawlJob)
      → enqueue env M db request fresh now job ≡ (ok made, db')
      → (result : AdmissionResult) × (admit_and_insert_crawl_job M env.host job request.request_ip
            now db
          ≡ (ok result, db'))
        × (made ≡ created env request fresh result)
  unfolding enqueue
  enqueue-ok db db' request fresh now job made e =
      elim (Result-cases (admit_and_insert_crawl_job M env.host job request.request_ip now db).0) [
        | inr (x, refused) ↦ absurd (ground arith)
        | inl (result, admitted) ↦ (result, ground arith, ground arith)
      ]

  enqueue-err :
      (db : Database M) (request : CreateRequest) (fresh : Fresh) (now : ℕ) (job : CrawlJob)
      (error : CreateError)
      → (enqueue env M db request fresh now job).0 ≡ err error
      → (enqueue env M db request fresh now job).1 ≡ db
  unfolding enqueue
  enqueue-err db request fresh now job error e =
      elim (Result-cases (admit_and_insert_crawl_job M env.host job request.request_ip now db).0) [
        | inl (result, admitted) ↦ absurd (ground arith)
        | inr (x, refused) ↦ ground (
          arith,
          admit_and_insert_crawl_job_atomic M env.host job request.request_ip now db x refused,
        )
      ]

  pub create-IsCreated :
      (db db' : Database M) (request : CreateRequest) (fresh : Fresh) (now : ℕ)
      (made : CreatedCrawlJob)
      → create_crawl_job env M db request fresh now ≡ (ok made, db')
      → IsCreated db request fresh now made db'
  unfolding create_crawl_job
  create-IsCreated db db' request fresh now made e =
      elim (Result-cases (prepare env M db request fresh now)) [
        | inr (x, refused) ↦ absurd (ground arith)
        | inl (job, prepared) ↦
            let (result, admission, answer) =
              enqueue-ok db db' request fresh now job made (ground arith) in
            record {
              job = job;
              prepared = prepare-IsPrepared db request fresh now job prepared;
              result = result;
              admission = admission;
              answer = answer;
            }
      ]

  -- A creation that fails, for whatever reason, leaves the collections as they were.
  pub create_crawl_job_atomic :
      (db : Database M) (request : CreateRequest) (fresh : Fresh) (now : ℕ) (error : CreateError)
      → (create_crawl_job env M db request fresh now).0 ≡ err error
      → (create_crawl_job env M db request fresh now).1 ≡ db
  unfolding create_crawl_job
  create_crawl_job_atomic db request fresh now error e =
      elim (Result-cases (prepare env M db request fresh now)) [
        | inr (x, refused) ↦ ground arith
        | inl (job, prepared) ↦ ground (arith, enqueue-err db request fresh now job error)
      ]

  -- A creation that succeeds is a step of the queue: whatever holds after every sequence of steps
  -- holds when jobs are created through it.
  pub create-Step :
      (s : System M) (db' : Database M) (request : CreateRequest) (fresh : Fresh) (now : ℕ)
      (made : CreatedCrawlJob)
      → create_crawl_job env M s.db request fresh now ≡ (ok made, db')
      → Step M s (with_db M s db')
  unfolding new_job
  create-Step s db' request fresh now made e =
      let c = create-IsCreated s.db db' request fresh now made e in
      let (key, kind, admitted) =
        admit_and_insert-admit M env.host c.job request.request_ip now s.db db' c.result
          c.admission in
      admits c.job key _ kind now c.result db' (ap (λ (job : CrawlJob). job.status) c.prepared.made)
        (ap (λ (job : CrawlJob). job.lease_id) c.prepared.made)
        (ap (λ (job : CrawlJob). job.attempts) c.prepared.made) admitted

  -- Whatever a creation answers, it keeps the invariant of the queue: sound jobs, and at most 25
  -- active ones with a slot.
  pub create-IsSound :
      (s : System M) (request : CreateRequest) (fresh : Fresh) (now : ℕ)
      → IsSound M s
      → IsSound M (with_db M s (create_crawl_job env M s.db request fresh now).1)
  create-IsSound s request fresh now h =
      elim (Result-cases (create_crawl_job env M s.db request fresh now).0) [
        | inl (made, e) ↦
            Step-IsSound M
              (create-Step s (create_crawl_job env M s.db request fresh now).1 request fresh now
                made (ap (λ r. (r, (create_crawl_job env M s.db request fresh now).1)) e))
              h
        | inr (error, e) ↦
            subst (λ db. IsSound M (with_db M s db))
              (sym (create_crawl_job_atomic s.db request fresh now error e)) h
      ]
