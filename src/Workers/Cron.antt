-- ===== src/Workers/Cron.antt =====
-- Who makes lib/jobs/cron-worker.ts work, and what the record of the worker says afterwards.
use growth_sent.Prelude.{
  ℕ, ◌≡◌, refl, true, false, Option, none, some, String, ◌<>◌, ◌===◌, ◌⊎◌, inl, inr, Result,
  Result-cases, Bool-cases, Option-cases, arith, eq_iff, eq_refl, if◌then◌else◌, ap, sym, ◌∙◌,
  length, codes, codes-append, if-elim,
}
use growth_sent.Mongo.{Mongo}
use growth_sent.Types.{Database}
use growth_sent.Workers.{
  WorkerHealth, WorkerState, Finished, unset, DurableCrawlWorkResult, CronWorkerRequest,
  CronWorkerResponse, Invocation, success, failure, finished, started, worker_document_id,
  has_valid_cron_authorization, handle_durable_crawl_cron_request, invoke, conclude, finish,
  record_worker_invocation_started, record_worker_invocation_finished,
}

abbrev pub last_success : Option WorkerHealth → Option ℕ
last_success none = none
last_success (some d) = d.last_success_at

bearer_filled : (secret : String) → (("Bearer " <> secret) === "") ≡ false
bearer_filled secret = elim (Bool-cases (("Bearer " <> secret) === "")) [
  | inr filled ↦ filled
  | inl empty ↦ absurd (
      omega (
        arith,
        ap length (
            sym (codes-append "Bearer " secret)
            ∙ ap codes ((eq_iff ("Bearer " <> secret) "").0 empty)),
      ))
]

module _ (M : Mongo) (c : M.Docs WorkerHealth) where
  open M use {find_one, find_one-write}

  started-find :
      (now : ℕ)
      → last_success (find_one (record_worker_invocation_started M c now) worker_document_id)
        ≡ last_success (find_one c worker_document_id)
  unfolding record_worker_invocation_started
  started-find now = elim (Option-cases (find_one c worker_document_id)) [
    | inl missing ↦ ground (
      arith,
      find_one-write c worker_document_id (started now (unset now)) worker_document_id,
      eq_refl worker_document_id,
    )
    | inr (d, found) ↦ ground (
      arith,
      find_one-write c worker_document_id (started now d) worker_document_id,
      eq_refl worker_document_id,
    )
  ]

  finished-find :
      (input : Finished) (now : ℕ)
      → (b : WorkerHealth) × (find_one
            (record_worker_invocation_finished M c input now)
            worker_document_id
          ≡ some (finished input now b))
        × (b.last_success_at ≡ last_success (find_one c worker_document_id))
  unfolding record_worker_invocation_finished
  finished-find input now = elim (Option-cases (find_one c worker_document_id)) [
    | inl missing ↦ (
      unset now,
      ground (
        arith,
        find_one-write c worker_document_id (finished input now (unset now)) worker_document_id,
        eq_refl worker_document_id,
      ),
      rw missing refl,
    )
    | inr (d, found) ↦ (
      d,
      ground (
        arith,
        find_one-write c worker_document_id (finished input now d) worker_document_id,
        eq_refl worker_document_id,
      ),
      rw found refl,
    )
  ]

module _ (M : Mongo) {E : Type 0}
    (process_work : Database M → Result E DurableCrawlWorkResult × Database M)
    (request : CronWorkerRequest) (cron_secret : Option String) (i : Invocation)
    (s : WorkerState M) where
  open M use {find_one, find_one-write}

  -- The request is a GET with the secret that is configured.
  pub record IsAuthorized : Type 0 where
    pub get : (request.method === "GET") ≡ true
    pub secret : String
    pub configured : cron_secret ≡ some secret
    pub filled : (secret === "") ≡ false
    pub bearer : request.authorization ≡ some ("Bearer " <> secret)

  authorized :
      (request.method === "GET") ≡ true
      → has_valid_cron_authorization request.authorization cron_secret ≡ true
      → IsAuthorized
  unfolding has_valid_cron_authorization
  authorized get valid = elim (Option-cases request.authorization) [
    | inl missing ↦ absurd (ground arith)
    | inr (authorization, a) ↦ elim (Option-cases cron_secret) [
      | inl missing ↦ absurd (ground arith)
      | inr (secret, c) ↦ record {
        get = get;
        secret = secret;
        configured = c;
        filled = ground arith;
        bearer = ground (arith, eq_iff authorization ("Bearer " <> secret));
      }
    ]
  ]

  invoke-db : (invoke M process_work i s).1.db ≡ (process_work s.db).1
  unfolding invoke conclude finish
  invoke-db = ground arith

  -- An invocation changes nothing, or the request is a GET with the secret that is configured and
  -- is not empty, and then the collections are as the work left them.
  pub handle-IsAuthorized :
      ((handle_durable_crawl_cron_request M process_work request cron_secret i s).1 ≡ s)
      ⊎ (IsAuthorized
          × ((handle_durable_crawl_cron_request M process_work request cron_secret i s).1.db
              ≡ (process_work s.db).1))
  unfolding handle_durable_crawl_cron_request
  handle-IsAuthorized = elim (Bool-cases (request.method === "GET")) [
    | inr other ↦ inl (ground arith)
    | inl get ↦ elim (Bool-cases (has_valid_cron_authorization request.authorization cron_secret)) [
      | inr refused ↦ inl (ground arith)
      | inl valid ↦ inr (authorized get valid, ground (arith, invoke-db))
    ]
  ]

  abbrev pub response : CronWorkerResponse
  response = (handle_durable_crawl_cron_request M process_work request cron_secret i s).0

  abbrev pub after : Option WorkerHealth
  after =
      find_one (handle_durable_crawl_cron_request M process_work request cron_secret i s).1.health
        worker_document_id

  -- The record of a success, and of a failure, which leaves the time of the last success.
  pub data IsRecorded (d : WorkerHealth) : Type 0 where
    as_success :
        response.status_code ≡ 200
        → d.last_outcome ≡ some success
        → d.last_success_at ≡ some i.finish_clock
        → IsRecorded d
    as_failure :
        response.status_code ≡ 500
        → d.last_outcome ≡ some failure
        → d.last_success_at ≡ last_success (find_one s.health worker_document_id)
        → IsRecorded d

  valid : IsAuthorized → has_valid_cron_authorization request.authorization cron_secret ≡ true
  unfolding has_valid_cron_authorization
  valid a =
      rw (a.bearer, a.configured, a.filled, bearer_filled a.secret, eq_refl ("Bearer " <> a.secret))
        refl

  handle-eq :
      IsAuthorized
      → handle_durable_crawl_cron_request M process_work request cron_secret i s
        ≡ invoke M process_work i s
  unfolding handle_durable_crawl_cron_request
  handle-eq a = rw (a.get, valid a) refl

  -- An authorized invocation whose end can be written is recorded: a status of 200 as a success at
  -- that time, a status of 500 as a failure that keeps the time of the last success.
  pub handle-IsRecorded :
      IsAuthorized → i.finish_recorded ≡ true → (d : WorkerHealth) × (after ≡ some d) × IsRecorded d
  unfolding invoke conclude finish
  handle-IsRecorded a written =
      let health =
        if i.start_recorded
        then record_worker_invocation_started M s.health i.start_clock
        else s.health in
      let kept : last_success (find_one health worker_document_id)
          ≡ last_success (find_one s.health worker_document_id) =
        if-elim
          (λ c.
            last_success (find_one c worker_document_id)
            ≡ last_success (find_one s.health worker_document_id))
          i.start_recorded (λ recorded. started-find M s.health i.start_clock) (λ lost. refl) in
      elim (Result-cases (process_work s.db).0) [
        | inl (r, done) ↦
            let input : Finished = record {
              started_at_ms = i.started_at_ms;
              outcome = success;
              result = some r;
            } in
            let (b, found, before) = finished-find M health input i.finish_clock in
            (
              finished input i.finish_clock b,
              ap
                    (λ (r : CronWorkerResponse × WorkerState M).
                      find_one r.1.health worker_document_id)
                    (handle-eq a)
                  ∙ rw (done, written) found,
              as_success
                  (ap (λ (r : CronWorkerResponse × WorkerState M). r.0.status_code) (handle-eq a)
                    ∙ rw done refl)
                  refl refl,
            )
        | inr (e, thrown) ↦
            let input : Finished = record {
              started_at_ms = i.started_at_ms;
              outcome = failure;
              result = none;
            } in
            let (b, found, before) = finished-find M health input i.finish_clock in
            (
              finished input i.finish_clock b,
              ap
                    (λ (r : CronWorkerResponse × WorkerState M).
                      find_one r.1.health worker_document_id)
                    (handle-eq a)
                  ∙ rw (thrown, written) found,
              as_failure
                  (ap (λ (r : CronWorkerResponse × WorkerState M). r.0.status_code) (handle-eq a)
                    ∙ rw thrown refl)
                  refl (before ∙ kept),
            )
      ]
