-- ===== src/Audit/Create/Tests.antt =====
-- Runs of the creation and of the reading of jobs of lib/services/audit.service.ts.
use growth_sent.Prelude.{
  ◌≡◌, refl, true, false, none, some, [], ◌∷◌, String, ◌<>◌, ◌===◌, ◌==◌, if◌then◌else◌, codes,
  length, all, if-elim, arith, decimal, ok, ◌↔◌,
}
use growth_sent.Mongo.Memory.{memory}
use growth_sent.Types.{CrawlJob, Database}
use growth_sent.Ssrf.{is_blocked_ipv4}
use growth_sent.Admission.Retry.{run_admission_transaction_with_retry}
use growth_sent.Ssrf.Validate.{
  validate_url_for_scan, normalize_hostname, is_blocked_hostname, is_blocked_ip, Network, ParsedUrl,
  https,
}
use growth_sent.Admission.{
  admit, claim_active_job, claim_quota, claim_target_cooldown, claim_queue_slot,
  active_claim_document_id, quota_document_id, target_document_id, queue_document_id,
}
use growth_sent.Admission.Service.{
  Host, admit_and_insert_crawl_job, create_crawl_admission_target_key,
}
use growth_sent.Capabilities.{Sha256, is_lower_hex}
use growth_sent.Audit.System.{with_db}
use growth_sent.Audit.Sound.{IsSound}
use growth_sent.Audit.Access.{Archive, JobStatus, get_crawl_job_status}
use growth_sent.Audit.Entitled.{IsEntitled, status-IsEntitled}
use growth_sent.Audit.Create.{
  Environment, CreateRequest, Fresh, CreatedCrawlJob, create_crawl_job, live, new_job,
  get_configured_crawl_provider_name,
}
use growth_sent.Audit.Created.{create-IsSound}
use growth_sent.Audit.Capability.{create-get, bearer}

abbrev url : ParsedUrl
url = record {
  protocol = https;
  port = [];
  username = [];
  password = [];
  hostname = codes "example.com";
  href = codes "https://example.com/";
}

abbrev net : Network
net = record {
  parse_url = λ text. some url;
  ipv4_parts = λ text. elim text [
    | [] ↦ none
    | c ∷ _ ↦ elim (c == b'9') [ true ↦ some (93, 184, 216, 34) | false ↦ none ]
  ];
  is_ipv6 = λ text. false;
  lookup = λ host. some ((codes "93.184.216.34", 4) ∷ []);
}

abbrev keyed_host : Host
keyed_host = record {
  hmac = λ secret text. secret <> text;
  url_hostname = λ url. "example.com";
  registrable_domain = λ host. some host;
  admission_secret = some "pepper";
  is_production = true;
}

abbrev one_digest : String
one_digest = "00112233445566778899aabbccddeeff00112233445566778899aabbccddeeff"

abbrev other_digest : String
other_digest = "ffffffffffffffffffffffffffffffffffffffffffffffffffffffffffffffff"

abbrev two_digests : Sha256
two_digests = record {
  digest = λ text. if text === "capability" then one_digest else other_digest;
  digest-length = λ text.
      if-elim (λ d. length (codes d) ≡ 64) (text === "capability") (λ same. refl) (λ other. refl);
  digest-all = λ text.
      if-elim (λ d. all is_lower_hex (codes d) ≡ true) (text === "capability") (λ same. refl)
        (λ other. refl);
}

abbrev env : Environment
env = record {
  network = net;
  host = keyed_host;
  sha256 = two_digests;
  requester_host = record {
    hmac_sha256 = λ secret text. text;
    is_ip = λ text. true;
    session_secret = none;
  };
  object_id = λ id. id;
  crawl_data_provider = some " Live ";
}

abbrev empty : Database memory
empty = record { admissions = []; jobs = []; websites = [] }

abbrev request : CreateRequest
request = record {
  input_url = " example.com ";
  clerk_user_id = none;
  website_id = none;
  request_ip = some "198.51.100.7";
}

abbrev fresh : Fresh
fresh = record { job_id = "job_1"; access_token = "capability"; scan_id = "scan_1" }

abbrev made : CreatedCrawlJob
made = record {
  job_id = "job_1";
  status = growth_sent.Types.queued;
  access_token = some "capability";
  reused = false;
}

abbrev after : Database memory
after = (create_crawl_job env memory empty request fresh 1000).1

create_test : create_crawl_job env memory empty request fresh 1000 ≡ (ok made, after)
unfolding create_crawl_job validate_url_for_scan normalize_hostname is_blocked_hostname
    is_blocked_ip is_blocked_ipv4 get_configured_crawl_provider_name admit_and_insert_crawl_job
    new_job run_admission_transaction_with_retry admit claim_active_job claim_quota
    claim_target_cooldown claim_queue_slot active_claim_document_id quota_document_id
    target_document_id queue_document_id create_crawl_admission_target_key decimal
create_test = refl

abbrev views : Archive String String String
views = record { scan_of = λ id. none; pages_of = λ id. []; issues_of = λ id. [] }

create-get_example :
    (view : JobStatus String String String) × (get_crawl_job_status
        (λ id. id)
        memory
        two_digests
        views
        after
        "job_1"
        (bearer "capability")
      ≡ some view)
create-get_example =
    create-get env memory views empty after request fresh 1000 made "capability" create_test refl
      refl refl refl

status-IsEntitled_example :
    ((view : JobStatus String String String) × (get_crawl_job_status
          (λ id. id)
          memory
          two_digests
          views
          after
          "job_1"
          (bearer "guess")
        ≡ some view))
    ↔ ((job : CrawlJob) × (memory.find_one after.jobs "job_1" ≡ some job)
        × IsEntitled (λ id. id) memory two_digests after job (bearer "guess"))
status-IsEntitled_example =
    status-IsEntitled (λ id. id) memory two_digests views after "job_1" (bearer "guess")

-- The same request for a saved site.
abbrev for_site : CreateRequest
for_site = record request { website_id = some "0123456789abcdef01234567" }

create-IsSound_example : IsSound memory (
    with_db memory
      (record { db = empty; workers = []; ended = []; returning = [] })
      (create_crawl_job env memory empty request fresh 1000).1)
create-IsSound_example =
    create-IsSound env memory (record { db = empty; workers = []; ended = []; returning = [] })
      request fresh 1000
      (record {
        jobs = λ k. tt;
        workers = tt;
        claim_keys = tt;
        counted = omega arith;
        capped = omega arith;
      })

abbrev stored : CrawlJob
stored = new_job env request fresh "https://example.com/" live none none 1000

abbrev one_job : Database memory
one_job = record { admissions = []; jobs = ("job_1", stored) ∷ []; websites = [] }
