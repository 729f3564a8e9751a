-- ===== src/Audit/SiteSteps.antt =====
-- What a worker does to a job that it holds, short of ending it, keeps the invariant of the job queue.
use growth_sent.Prelude.{
  ℕ, String, ◌+◌, not, is_some, ◌≡◌, refl, ap, ◌⊎◌, ◌&&◌, some, arith, Option-cases, inl, inr, ok,
}
use growth_sent.Mongo.{Mongo}
use growth_sent.Mongo.Commands.{update_one}
use growth_sent.Types.{Database}
use growth_sent.Admission.{queue_document_id}
use growth_sent.Admission.Gates.{active_count_of}
use growth_sent.Audit.{is_running, lease_duration_ms, holds_live_lease, holds_lease}
use growth_sent.Audit.System.{System, Worker, with_db}
use growth_sent.Audit.Sound.{IsSound, slots_taken}
use growth_sent.Audit.Moves.{
  site_gone-IsTame, site_busy-IsTame, deferred-IsTame, renewed-IsTame, scanned-IsTame,
  analysing-IsTame,
}
use growth_sent.Audit.Steps.{sound_at, update-IsSound, other-IsSound}
use growth_sent.Audit.Claim.{site_gone, site_busy, take_site, give_up}
use growth_sent.Audit.Lease.{
  deferred, renew_job, renew_site, ensure_scan_id, mark_analysing, defer_for_common_crawl_admission,
  release_website_lease,
}
use growth_sent.Types.{Admission, analysing}

module _ (M : Mongo) (s : System M) (sound : IsSound M s) (w : Worker) where
  open M use {find_one}

  abbrev k : String
  k = w.job.job_id

  pub takes_site-IsSound :
      (site : String) (now : ℕ) → IsSound M (with_db M s (take_site M s.db site w.lease now).1)
  unfolding take_site
  takes_site-IsSound site now = other-IsSound M s sound _ refl refl

  pub finds_site_busy-IsSound :
      (clock : ℕ) → IsSound M (with_db M s (give_up M s.db k w.lease (site_busy clock)))
  unfolding give_up
  finds_site_busy-IsSound clock =
      update-IsSound M s sound k (holds_lease w.lease) (site_busy clock)
        (λ d found held.
          site_busy-IsTame k w.lease d (sound_at M s.db.jobs k d sound.jobs found) clock held)
        _ refl refl

  pub finds_site_gone-IsSound :
      (clock : ℕ) → IsSound M (with_db M s (give_up M s.db k w.lease (site_gone clock)))
  unfolding give_up
  finds_site_gone-IsSound clock =
      update-IsSound M s sound k (holds_lease w.lease) (site_gone clock)
        (λ d found held.
          site_gone-IsTame k w.lease d (sound_at M s.db.jobs k d sound.jobs found) clock held)
        _ refl refl

  pub defers-IsSound :
      (clock : ℕ)
      → IsSound M (with_db M s (defer_for_common_crawl_admission M w.job w.lease s.db clock))
  unfolding defer_for_common_crawl_admission
  defers-IsSound clock =
      update-IsSound M s sound k (holds_lease w.lease) (deferred clock)
        (λ d found held.
          deferred-IsTame k w.lease d (sound_at M s.db.jobs k d sound.jobs found) clock held)
        _ refl refl

  pub analyses-IsSound :
      (pages clock : ℕ) (db' : Database M)
      → mark_analysing M w.job w.lease s.db pages clock ≡ ok db'
      → IsSound M (with_db M s db')
  unfolding mark_analysing
  analyses-IsSound pages clock db' e =
      update-IsSound M s sound k (holds_live_lease w.lease clock)
        (λ d. record d { status = analysing; progress_percent = 70; pages_crawled = pages })
        (λ d found held.
          analysing-IsTame k w.lease d (sound_at M s.db.jobs k d sound.jobs found) clock pages held)
        db' (ground arith) (ground arith)

  pub beats-IsSound : (clock : ℕ) → IsSound M (with_db M s (renew_job M w.job w.lease s.db clock))
  unfolding renew_job
  beats-IsSound clock =
      update-IsSound M s sound k (λ d. holds_lease w.lease d && is_running d.status)
        (λ d. record d { lease_expires_at = some (clock + lease_duration_ms) })
        (λ d found held.
          renewed-IsTame k w.lease d (sound_at M s.db.jobs k d sound.jobs found) clock
            (clock + lease_duration_ms))
        _ refl refl

  pub beats_site-IsSound :
      (clock : ℕ) → IsSound M (with_db M s (renew_site M w.job w.lease s.db clock))
  unfolding renew_site
  beats_site-IsSound clock = other-IsSound M s sound _ (ground arith) (ground arith)

  -- A scan id is stored under the lease, or was there before.
  pub ensure_scan_id-ok :
      (fresh id : String) (db' : Database M)
      → ensure_scan_id M w.job w.lease s.db fresh ≡ ok (id, db')
      → (db' ≡ s.db)
        ⊎ ((db'.jobs
              ≡ (update_one M s.db.jobs k
                  (λ d. holds_lease w.lease d && not (is_some d.scan_id))
                  (λ d. record d { scan_id = some fresh })).1)
            × (db'.admissions ≡ s.db.admissions))
  unfolding ensure_scan_id
  ensure_scan_id-ok fresh id db' e = elim (Option-cases w.job.scan_id) [
    | inr (old, known) ↦ inl (ground arith)
    | inl unknown ↦ elim (Option-cases (find_one s.db.jobs k)) [
      | inl missing ↦ absurd (ground arith)
      | inr (d, found) ↦ inr (ground arith, ground arith)
    ]
  ]

  pub scans-IsSound :
      (fresh id : String) (db' : Database M)
      → ensure_scan_id M w.job w.lease s.db fresh ≡ ok (id, db')
      → IsSound M (with_db M s db')
  scans-IsSound fresh id db' e = elim (ensure_scan_id-ok fresh id db' e) [
    | inl same ↦
        other-IsSound M s sound db' (ap (λ (d : Database M). d.jobs) same) (ap (slots_taken M) same)
    | inr (stored, kept) ↦
        update-IsSound M s sound k (λ d. holds_lease w.lease d && not (is_some d.scan_id))
          (λ d. record d { scan_id = some fresh })
          (λ d found held.
            scanned-IsTame k w.lease d (sound_at M s.db.jobs k d sound.jobs found) 0 fresh)
          db' stored
          (ap (λ (c : M.Docs Admission). active_count_of (find_one c queue_document_id)) kept)
  ]

  pub leaves_site-IsSound : IsSound M (with_db M s (release_website_lease M w.job w.lease s.db))
  unfolding release_website_lease
  leaves_site-IsSound = other-IsSound M s sound _ (ground arith) (ground arith)
