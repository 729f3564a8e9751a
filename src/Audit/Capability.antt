-- ===== src/Audit/Capability.antt =====
-- The capability that `createCrawlJob` of lib/services/audit.service.ts returns, and the job that it
-- opens in `getCrawlJobStatus`.
use growth_sent.Prelude.{
  ℕ, ◌≡◌, ap, sym, ◌∙◌, true, false, none, some, String, ◌===◌, ok, arith, subst,
}
use growth_sent.Mongo.{Mongo}
use growth_sent.Types.{CrawlJob, queued, Database}
use growth_sent.Admission.Effects.{admit_new-IsAdmitted}
use growth_sent.Admission.Service.{admit_and_insert-admit, create_crawl_admission_target_key}
use growth_sent.Admission.Decision.{admitted_job}
use growth_sent.Capabilities.{hash_opaque_access_token, verify_opaque_access_token}
use growth_sent.Capabilities.Tokens.{verify-hash}
use growth_sent.Audit.Access.{
  CrawlJobAccessContext, given, Archive, JobStatus, get_crawl_job_status,
}
use growth_sent.Audit.Entitled.{of_bearer, status-IsEntitled}
use growth_sent.Audit.Create.{
  Environment, CreateRequest, Fresh, CreatedCrawlJob, create_crawl_job, new_job, raw_access_token,
  stored_hash,
}
use growth_sent.Audit.Created.{create-IsCreated}

abbrev pub bearer : String → CrawlJobAccessContext
bearer token = record { user_id = none; access_token = some token }

abbrev new_answer : Environment → CreateRequest → Fresh → CreatedCrawlJob
new_answer env request fresh = record {
  job_id = fresh.job_id;
  status = queued;
  access_token = raw_access_token env request fresh;
  reused = false;
}

module _ (env : Environment) (M : Mongo) {Scan Page Issue : Type 0}
    (archive : Archive Scan Page Issue) where
  open M use {find_one}

  module _ (db db' : Database M) (request : CreateRequest) (fresh : Fresh) (now : ℕ)
      (made : CreatedCrawlJob) (token : String) where
    -- A caller who is not signed in, and asks for no saved site, can read the job that was created
    -- with the capability that came back, if that is not the empty text.
    pub create-get :
        create_crawl_job env M db request fresh now ≡ (ok made, db')
        → given request.clerk_user_id ≡ none
        → given request.website_id ≡ none
        → made.access_token ≡ some token
        → (token === "") ≡ false
        → (view : JobStatus Scan Page Issue) × (get_crawl_job_status env.object_id M env.sha256
              archive db' made.job_id
              (bearer token)
            ≡ some view)
    unfolding new_job
    create-get e anonymous unsaved capability filled =
        let c = create-IsCreated env M db db' request fresh now made e in
        let (key, kind, admitted) =
          admit_and_insert-admit M env.host c.job request.request_ip now db db' c.result
            c.admission in
        let target = create_crawl_admission_target_key env.host c.job.url in
        let new : c.result.reused_job_id ≡ none = ground (arith, c.answer) in
        let stored =
          admit_new-IsAdmitted M db c.job key kind target now c.result db' admitted new in
        let answered : made ≡ new_answer env request fresh = ground (arith, c.answer, new) in
        let issued : raw_access_token env request fresh ≡ some token =
          sym (ap (λ (m : CreatedCrawlJob). m.access_token) answered) ∙ capability in
        let hash : c.job.access_token_hash ≡ some (hash_opaque_access_token env.sha256 token) =
          ap (λ (job : CrawlJob). job.access_token_hash) c.prepared.made
          ∙ ap (stored_hash env) issued in
        let accepted : verify_opaque_access_token env.sha256 (some token) c.job.access_token_hash
            ≡ true =
          ap (verify_opaque_access_token env.sha256 (some token)) hash
          ∙ verify-hash env.sha256 token filled in
        (status-IsEntitled env.object_id M env.sha256 archive db' made.job_id (bearer token)).1 (
          admitted_job M db c.job key kind target now,
          subst (λ id. find_one db'.jobs id ≡ some (admitted_job M db c.job key kind target now))
              (ap (λ (job : CrawlJob). job.job_id) c.prepared.made
                ∙ sym (ap (λ (m : CreatedCrawlJob). m.job_id) answered))
              stored.enqueued,
          of_bearer
              (ap (λ (job : CrawlJob). job.website_id) c.prepared.made ∙ c.prepared.unsaved unsaved)
              (ap (λ (job : CrawlJob). given job.clerk_user_id) c.prepared.made ∙ anonymous)
              accepted,
        )
