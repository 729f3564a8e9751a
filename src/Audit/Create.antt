-- ===== src/Audit/Create.antt =====
-- `createCrawlJob` of lib/services/audit.service.ts, with the provider that lib/crawler/provider.ts
-- selects. The random values are arguments.
mod Tests
use growth_sent.Prelude.{
  ℕ, Bool, true, false, ◌||◌, ◌>>=◌, Option, none, some, List, [], ◌∷◌, String, ◌===◌,
  if◌then◌else◌, codes, map, lower, same_text, trim, from_codes, Result, ok, err, is_text,
}
use growth_sent.Mongo.{Mongo}
use growth_sent.Mongo.Commands.{find_one_where}
use growth_sent.Types.{ScanStatus, queued, CrawlJob, Website, Database}
use growth_sent.Ssrf.Validate.{Network, Target, validate_url_for_scan}
use growth_sent.AuditErrors.{AuditTargetValidationError, audit_target_validation_error}
use growth_sent.Capabilities.{
  Sha256, hash_opaque_access_token, RequesterHost, RequesterError,
  create_common_crawl_requester_key,
}
use growth_sent.Admission.{Failure, AdmissionResult}
use growth_sent.Admission.Service.{Host, admit_and_insert_crawl_job}
use growth_sent.Audit.Access.{given, safe_object_id}

-- Why a job is not created.
pub data CreateError : Type 0 where
  target_invalid : AuditTargetValidationError → CreateError
  invalid_identifier authentication_required website_not_found bad_provider : CreateError
  requester : RequesterError → CreateError
  admission : Failure → CreateError

pub record CreatedCrawlJob : Type 0 where
  pub job_id : String
  pub status : ScanStatus
  pub access_token : Option String
  pub reused : Bool

pub data CrawlDataProviderName : Type 0 where
  live common_crawl_archive : CrawlDataProviderName

abbrev pub provider_text : CrawlDataProviderName → String
provider_text live = "live"
provider_text common_crawl_archive = "common-crawl"

unfoldable pub get_configured_crawl_provider_name :
    Option String → Result CreateError CrawlDataProviderName
get_configured_crawl_provider_name none = ok live
get_configured_crawl_provider_name (some value) =
    let normalized = map lower (trim (codes value)) in
    if same_text normalized (codes "") || same_text normalized (codes "live")
    then ok live
    else if same_text normalized (codes "common-crawl")
    then ok common_crawl_archive
    else err bad_provider

-- What the method takes from Node, from the drivers and from the environment.
pub record Environment : Type 0 where
  pub network : Network
  pub host : Host
  pub sha256 : Sha256
  pub requester_host : RequesterHost
  pub object_id : String → String
  -- CRAWL_DATA_PROVIDER
  pub crawl_data_provider : Option String

pub record CreateRequest : Type 0 where
  pub input_url : String
  pub clerk_user_id : Option String
  pub website_id : Option String
  pub request_ip : Option String

-- The random values: of the job's id, of the capability, and the id of the scan.
pub record Fresh : Type 0 where
  pub job_id : String
  pub access_token : String
  pub scan_id : String

module _ (env : Environment) where
  abbrev pub website_object_id : Option String → Result CreateError (Option String)
  website_object_id id = elim (given id) [
    | none ↦ ok none
    | some text ↦ elim (safe_object_id env.object_id text) [
      | none ↦ err invalid_identifier
      | some website ↦ ok (some website)
    ]
  ]

  -- The capability is for a caller who is not signed in.
  abbrev pub raw_access_token : CreateRequest → Fresh → Option String
  raw_access_token request fresh = elim (given request.clerk_user_id) [
    | none ↦ some fresh.access_token
    | some _ ↦ none
  ]

  abbrev pub stored_hash : Option String → Option String
  stored_hash none = none
  stored_hash (some token) = some (hash_opaque_access_token env.sha256 token)

  unfoldable pub requester_key_of :
      CrawlDataProviderName → CreateRequest → Result CreateError (Option String)
  requester_key_of live request = ok none
  requester_key_of common_crawl_archive request =
      elim (create_common_crawl_requester_key env.requester_host request.clerk_user_id
        request.request_ip) [ err e ↦ err (requester e) | ok key ↦ ok (some key) ]

  unfoldable pub new_job :
      CreateRequest
      → Fresh
      → String
      → CrawlDataProviderName
      → Option String
      → Option String
      → ℕ
      → CrawlJob
  new_job request fresh url provider key website now = record {
    job_id = fresh.job_id;
    url = url;
    crawl_provider = some (provider_text provider);
    requester_key = key;
    clerk_user_id = request.clerk_user_id;
    website_id = website;
    access_token_hash = stored_hash (raw_access_token request fresh);
    status = queued;
    progress_percent = 0;
    pages_crawled = 0;
    error = none;
    failure_category = none;
    scan_id = some fresh.scan_id;
    lease_id = none;
    lease_expires_at = none;
    attempts = some 0;
    next_attempt_at = none;
    admission_queue_slot = false;
    admission_claim_key = none;
    started_at = none;
    created_at = now;
    completed_at = none;
  }

  abbrev pub created : CreateRequest → Fresh → AdmissionResult → CreatedCrawlJob
  created request fresh result = elim result.reused_job_id [
    | some job_id ↦ record {
      job_id = job_id;
      status = elim result.reused_status [ none ↦ queued | some status ↦ status ];
      access_token = none;
      reused = true;
    }
    | none ↦ record {
      job_id = fresh.job_id;
      status = queued;
      access_token = raw_access_token request fresh;
      reused = false;
    }
  ]

  module _ (M : Mongo) where
    open M use {find_one}

    -- The caller must own the saved site that the job is for.
    unfoldable pub authorize_website :
        Database M → CreateRequest → Option String → Result CreateError (Option String)
    authorize_website db request none = ok none
    authorize_website db request (some website) = elim (given request.clerk_user_id) [
      | none ↦ err authentication_required
      | some user ↦ elim (safe_object_id env.object_id user) [
        | none ↦ err invalid_identifier
        | some owner ↦ elim (find_one_where M db.websites website (λ w. is_text w.user_id owner)) [
          | none ↦ err website_not_found
          | some _ ↦ ok (some website)
        ]
      ]
    ]

    -- The document of the job for a target that was let through.
    unfoldable pub assemble :
        Database M → CreateRequest → Fresh → ℕ → Target → Result CreateError CrawlJob
    unfolding requester_key_of authorize_website
    assemble db request fresh now target = do
      id ← website_object_id request.website_id
      website ← authorize_website db request id
      provider ← get_configured_crawl_provider_name env.crawl_data_provider
      key ← requester_key_of provider request
      ok (new_job request fresh (from_codes target.normalized_url) provider key website now)

    unfoldable pub prepare : Database M → CreateRequest → Fresh → ℕ → Result CreateError CrawlJob
    unfolding assemble
    prepare db request fresh now =
        elim (validate_url_for_scan env.network (trim (codes request.input_url))) [
          | err reason ↦ err (target_invalid (audit_target_validation_error (some reason)))
          | ok target ↦ assemble db request fresh now target
        ]

    unfoldable pub enqueue :
        Database M
        → CreateRequest
        → Fresh
        → ℕ
        → CrawlJob
        → Result CreateError CreatedCrawlJob × Database M
    enqueue db request fresh now job =
        let (result, db') = admit_and_insert_crawl_job M env.host job request.request_ip now db in
        elim result [
          | err e ↦ (err (admission e), db')
          | ok admitted ↦ (ok (created request fresh admitted), db')
        ]

    unfoldable pub create_crawl_job :
        Database M → CreateRequest → Fresh → ℕ → Result CreateError CreatedCrawlJob × Database M
    unfolding prepare enqueue
    create_crawl_job db request fresh now = elim (prepare db request fresh now) [
      | err e ↦ (err e, db)
      | ok job ↦ enqueue db request fresh now job
    ]
