-- ===== src/Admission/Service.antt =====
-- `admitAndInsertCrawlJob`, the keys it derives, and the health snapshot of
-- lib/jobs/crawl-admission.ts. The HMAC, the parts of a URL and the public suffix list are
-- parameters.
use growth_sent.Prelude.{
  ℕ, ◌≡◌, refl, arith, Bool, false, not, ◌===◌, Option, none, some, String, ◌<>◌, if◌then◌else◌,
  Result, ok, err, ◌>>=◌,
}
use growth_sent.Mongo.{Mongo}
use growth_sent.Types.{CrawlJob, ActorKind, authenticated, anonymous, Database}
use growth_sent.Admission.{Failure, denied, admission_config, AdmissionResult, admit}
use growth_sent.Admission.Retry.{
  run_admission_transaction_with_retry, transaction, retry-transaction,
}

-- What the program takes from Node and from its environment.
pub record Host : Type 0 where
  -- `createHmac("sha256", secret).update(text).digest("hex")`
  pub hmac : String → String → String
  -- `new URL(url).hostname`, in lower case already
  pub url_hostname : String → String
  -- `registrableDomain`
  pub registrable_domain : String → Option String
  -- CRAWL_ADMISSION_SECRET or SESSION_SECRET, trimmed and not empty
  pub admission_secret : Option String
  -- NODE_ENV is production, or VERCEL is 1
  pub is_production : Bool

module _ (h : Host) where
  unfoldable pub create_anonymous_admission_actor_key : String → Result Failure String
  create_anonymous_admission_actor_key ip = elim h.admission_secret [
    | none ↦
        if h.is_production
        then err (denied admission_config)
        else ok ("anonymous:" <> h.hmac "growthsent-local-admission-only" ip)
    | some secret ↦ ok ("anonymous:" <> h.hmac secret ip)
  ]

  unfoldable pub create_crawl_admission_target_key : String → String
  create_crawl_admission_target_key url = elim (h.registrable_domain (h.url_hostname url)) [
    | none ↦ h.url_hostname url
    | some domain ↦ domain
  ]

  actor_of : CrawlJob → Option String → Result Failure (String × ActorKind)
  unfolding create_anonymous_admission_actor_key
  actor_of job request_ip =
      if has_text job.clerk_user_id
      then ok ("user:" <> or_empty job.clerk_user_id, authenticated)
      else create_anonymous_admission_actor_key (or_unknown request_ip) >>= λ key.
          ok (key, anonymous)
    where
      has_text : Option String → Bool
      has_text none = false
      has_text (some text) = not (text === "")

      or_empty : Option String → String
      or_empty none = ""
      or_empty (some text) = text

      or_unknown : Option String → String
      or_unknown none = "unknown"
      or_unknown (some ip) = if ip === "" then "unknown" else ip

module _ (M : Mongo) (h : Host) where
  open M use {find_one, count_documents}

  -- The transaction, once the actor is known.
  serve :
      CrawlJob
      → ℕ
      → Result Failure (String × ActorKind)
      → Database M
      → Result Failure AdmissionResult × Database M
  serve job now (err e) db = (err e, db)
  serve job now (ok (actor_key, actor_kind)) db =
      run_admission_transaction_with_retry
        (transaction
          λ s. admit M s job actor_key actor_kind (create_crawl_admission_target_key h job.url) now)
        db

  unfoldable pub admit_and_insert_crawl_job :
      CrawlJob → Option String → ℕ → Database M → Result Failure AdmissionResult × Database M
  unfolding serve actor_of
  admit_and_insert_crawl_job job request_ip now db = serve job now (actor_of h job request_ip) db

  serve_atomic :
      (job : CrawlJob) (now : ℕ) (actor : Result Failure (String × ActorKind)) (db : Database M)
      (e : Failure)
      → (serve job now actor db).0 ≡ err e
      → (serve job now actor db).1 ≡ db
  unfolding serve
  serve_atomic job now (err x) db e refused = refl
  serve_atomic job now (ok (actor_key, actor_kind)) db e refused =
      let body : Database M → Result Failure (AdmissionResult × Database M) =
        λ s. admit M s job actor_key actor_kind (create_crawl_admission_target_key h job.url) now in
      ground (arith, retry-transaction body db)

  -- A request that is refused or fails, for whatever reason and after however many tries, leaves
  -- the collections exactly as they were.
  pub admit_and_insert_crawl_job_atomic :
      (job : CrawlJob) (request_ip : Option String) (now : ℕ) (db : Database M) (e : Failure)
      → (admit_and_insert_crawl_job job request_ip now db).0 ≡ err e
      → (admit_and_insert_crawl_job job request_ip now db).1 ≡ db
  unfolding admit_and_insert_crawl_job
  admit_and_insert_crawl_job_atomic job request_ip now db e refused =
      serve_atomic job now (actor_of h job request_ip) db e refused

  serve-admit :
      (job : CrawlJob) (now : ℕ) (actor : Result Failure (String × ActorKind)) (db db' : Database M)
      (r : AdmissionResult)
      → serve job now actor db ≡ (ok r, db')
      → (key : String) × (kind : ActorKind) × (admit M db job key kind
            (create_crawl_admission_target_key h job.url)
            now
          ≡ ok (r, db'))
  unfolding serve
  serve-admit job now (err x) db db' r e = absurd (ground arith)
  serve-admit job now (ok (actor_key, actor_kind)) db db' r e =
      let body : Database M → Result Failure (AdmissionResult × Database M) =
        λ s. admit M s job actor_key actor_kind (create_crawl_admission_target_key h job.url) now in
      (actor_key, actor_kind, ground (arith, e, retry-transaction body db))

  -- A request that is admitted went through the transaction once, for some caller.
  pub admit_and_insert-admit :
      (job : CrawlJob) (request_ip : Option String) (now : ℕ) (db db' : Database M)
      (r : AdmissionResult)
      → admit_and_insert_crawl_job job request_ip now db ≡ (ok r, db')
      → (key : String) × (kind : ActorKind) × (admit M db job key kind
            (create_crawl_admission_target_key h job.url)
            now
          ≡ ok (r, db'))
  unfolding admit_and_insert_crawl_job
  admit_and_insert-admit job request_ip now db db' r e =
      serve-admit job now (actor_of h job request_ip) db db' r e
