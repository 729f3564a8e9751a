-- ===== src/Audit/Kept.antt =====
-- Which steps leave the document of a job of lib/services/audit.service.ts as it is.
use growth_sent.Prelude.{
  ℕ, Option, none, ◌⊎◌, OnSome, ◌===◌, Bool-cases, is_some, ok, ◌+◌, ◌≡◌, inl, inr, some, String,
  Bool, false, ◌&&◌, arith, Option-cases, not, eq_iff,
}
use growth_sent.Mongo.{Mongo}
use growth_sent.Mongo.Commands.{update_one}
use growth_sent.Types.{CrawlJob, Database, ActorKind, analysing}
use growth_sent.Admission.{AdmissionResult, admit}
use growth_sent.Admission.Effects.{admit-cases}
use growth_sent.Admission.Decision.{admitted_job}
use growth_sent.Admission.Release.{release-jobs, release_claim-jobs, release_slot-jobs}
use growth_sent.Audit.{
  holds_lease, holds_live_lease, is_running, retryable_claim_filter, lease_duration_ms, claimed,
  attempts_of, should_retry,
}
use growth_sent.Audit.Claim.{site_busy, site_gone, claim_document, take_site, give_up}
use growth_sent.Audit.Lease.{
  renew_job, renew_site, ensure_scan_id, mark_analysing, publish, fail_attempt,
  defer_for_common_crawl_admission, release_website_lease, attempt_failed, deferred, finished,
}
use growth_sent.Audit.Fence.{publish-IsPublished}
use growth_sent.Audit.System.{
  Worker, System, Step, admits, claims, takes_site, finds_site_busy, finds_site_gone, beats,
  beats_site, scans, analyses, publishes, fails, deletes_claim, returns_slot, defers, leaves_site,
  deletes, changes_sites, expires,
}
use growth_sent.Audit.Sound.{IsSound}
use growth_sent.Audit.ClaimSteps.{claim_document-ok}
use growth_sent.Audit.SiteSteps.{ensure_scan_id-ok}

module _ (M : Mongo) (jobs : M.Docs CrawlJob) (k : String) (d : CrawlJob)
    (found : M.find_one jobs k ≡ some d) where
  open M use {find_one, write, find_one-write}

  -- A write that this document does not let through leaves it.
  update_kept :
      (k' : String) (filter : CrawlJob → Bool) (set : CrawlJob → CrawlJob)
      → filter d ≡ false
      → find_one (update_one M jobs k' filter set).1 k ≡ some d
  update_kept k' filter set barred = elim (Option-cases (find_one jobs k')) [
    | inl missing ↦ ground arith
    | inr (e, there) ↦ ground (arith, find_one-write jobs k' (set e) k, eq_iff k' k)
  ]

module _ (M : Mongo) where
  open M use {find_one, write, find_one-write}

  -- The worker that takes a step, other than a claim.
  abbrev pub actor : {s t : System M} → Step M s t → Option Worker
  actor (takes_site w site now m) = some w
  actor (finds_site_busy w clock m) = some w
  actor (finds_site_gone w clock m) = some w
  actor (beats w clock m) = some w
  actor (beats_site w clock m) = some w
  actor (scans w fresh id db m e) = some w
  actor (analyses w pages clock db m e) = some w
  actor (publishes w pages completion clock db m e) = some w
  actor (fails w error clock m) = some w
  actor (defers w clock m) = some w
  actor (leaves_site w m) = some w
  actor _ = none

  -- A request deletes the job `k`.
  abbrev pub IsDeletion : String → {s t : System M} → Step M s t → Type 0
  IsDeletion k (deletes id) = id ≡ k
  IsDeletion k _ = ⊥

  module _ {s : System M} (k : String) (d : CrawlJob) (h : IsSound M s)
      (found : find_one s.db.jobs k ≡ some d) where
    -- A write under a lease that the document does not bear.
    fenced :
        (w : Worker) (filter : CrawlJob → Bool) (set : CrawlJob → CrawlJob)
        → holds_lease w.lease d ≡ false
        → find_one
            (update_one M s.db.jobs w.job.job_id (λ e. holds_lease w.lease e && filter e) set).1
            k
          ≡ some d
    fenced w filter set barred =
        update_kept M s.db.jobs k d found w.job.job_id (λ e. holds_lease w.lease e && filter e) set
          (ground arith)

    scan_kept :
        (w : Worker) (fresh id : String) (db : Database M)
        → ensure_scan_id M w.job w.lease s.db fresh ≡ ok (id, db)
        → holds_lease w.lease d ≡ false
        → find_one db.jobs k ≡ some d
    scan_kept w fresh id db e barred = elim (ensure_scan_id-ok M s h w fresh id db e) [
      | inl same ↦ rw same found
      | inr (stored, _) ↦
          rw stored (
            fenced w (λ e. not (is_some e.scan_id)) (λ e. record e { scan_id = some fresh }) barred)
    ]

    publish_kept :
        (w : Worker) (pages completion clock : ℕ) (db : Database M)
        → publish M w.job w.lease s.db pages completion clock ≡ ok db
        → holds_lease w.lease d ≡ false
        → find_one db.jobs k ≡ some d
    publish_kept w pages completion clock db e barred =
        let p = publish-IsPublished M w.job w.lease s.db clock pages completion db e in
        rw (p.released, release-jobs, p.stored)
          (ground (
            arith,
            find_one-write s.db.jobs w.job.job_id (finished pages completion p.held) k,
            p.found,
            p.live,
            eq_iff w.job.job_id k,
          ))

    admit_kept :
        (job : CrawlJob) (actor_key target : String) (kind : ActorKind) (now : ℕ)
        (r : AdmissionResult) (db : Database M)
        → admit M s.db job actor_key kind target now ≡ ok (r, db)
        → find_one db.jobs k ≡ some d
    admit_kept job actor_key target kind now r db e =
        elim (admit-cases M s.db job actor_key kind target now r db e) [
          | inl same ↦ rw same found
          | inr (o, same) ↦ rw same (
              ground (
                arith,
                find_one-write s.db.jobs job.job_id
                    (admitted_job M s.db job actor_key kind target now) k,
                o.unused,
                eq_iff job.job_id k,
              ))
        ]

    claims_kept :
        (id lease : String) (now : ℕ) (job : CrawlJob) (db : Database M)
        → claim_document M s.db id lease now ≡ (some job, db)
        → ((time : ℕ) → retryable_claim_filter time d ≡ false)
        → find_one db.jobs k ≡ some d
    claims_kept id lease now job db e unclaimable =
        let (d0, there, due, _, same) = claim_document-ok M s h id lease now job db e in
        rw same (
          ground (
            arith,
            find_one-write s.db.jobs id (claimed lease now d0) k,
            eq_iff id k,
            unclaimable now,
          ))

    deletes_kept : (id : String) → (find_one (M.delete_one s.db.jobs id) k ≡ some d) ⊎ (id ≡ k)
    deletes_kept id = elim (Bool-cases (id === k)) [
      | inl same ↦ inr ((eq_iff id k).0 same)
      | inr other ↦ inl (rw (M.find_one-delete_one, other) found)
    ]

  -- A document that no claim lets through is left by every worker whose lease it does not bear.
  pub Step-kept :
      {s t : System M} (k : String) (d : CrawlJob) (st : Step M s t)
      → IsSound M s
      → find_one s.db.jobs k ≡ some d
      → ((time : ℕ) → retryable_claim_filter time d ≡ false)
      → OnSome (λ w. holds_lease w.lease d ≡ false) (actor st)
      → (find_one t.db.jobs k ≡ some d) ⊎ IsDeletion k st
  unfolding take_site give_up renew_job renew_site mark_analysing fail_attempt
      defer_for_common_crawl_admission release_website_lease
  Step-kept {s} k d (admits job actor_key target kind now r db q l a e) h found unclaimable barred =
      inl (admit_kept k d h found job actor_key target kind now r db e)
  Step-kept {s} k d (claims id lease now job db fresh e) h found unclaimable barred =
      inl (claims_kept k d h found id lease now job db e unclaimable)
  Step-kept {s} k d (takes_site w site now m) h found unclaimable barred = inl found
  Step-kept {s} k d (finds_site_busy w clock m) h found unclaimable barred = inl (
      update_kept M s.db.jobs k d found w.job.job_id (holds_lease w.lease) (site_busy clock) barred)
  Step-kept {s} k d (finds_site_gone w clock m) h found unclaimable barred = inl (
      update_kept M s.db.jobs k d found w.job.job_id (holds_lease w.lease) (site_gone clock) barred)
  Step-kept {s} k d (beats w clock m) h found unclaimable barred = inl (
      fenced k d h found w (λ e. is_running e.status)
        (λ e. record e { lease_expires_at = some (clock + lease_duration_ms) }) barred)
  Step-kept {s} k d (beats_site w clock m) h found unclaimable barred = inl (ground arith)
  Step-kept {s} k d (scans w fresh id db m e) h found unclaimable barred =
      inl (scan_kept k d h found w fresh id db e barred)
  Step-kept {s} k d (analyses w pages clock db m e) h found unclaimable barred =
      let kept =
        update_kept M s.db.jobs k d found w.job.job_id (holds_live_lease w.lease clock)
          (λ e. record e { status = analysing; progress_percent = 70; pages_crawled = pages })
          (ground arith) in
      inl (ground (arith, kept))
  Step-kept {s} k d (publishes w pages completion clock db m e) h found unclaimable barred =
      inl (publish_kept k d h found w pages completion clock db e barred)
  Step-kept {s} k d (fails w error clock m) h found unclaimable barred = inl (
      update_kept M s.db.jobs k d found w.job.job_id (holds_lease w.lease)
        (attempt_failed (should_retry (attempts_of w.job) error) error (attempts_of w.job) clock)
        barred)
  Step-kept {s} k d (deletes_claim job rest p) h found unclaimable barred =
      inl (rw (release_claim-jobs M s.db job 0) found)
  Step-kept {s} k d (returns_slot job rest clock p) h found unclaimable barred =
      inl (rw (release_slot-jobs M s.db job clock) found)
  Step-kept {s} k d (defers w clock m) h found unclaimable barred =
      inl (
        update_kept M s.db.jobs k d found w.job.job_id (holds_lease w.lease) (deferred clock)
          barred)
  Step-kept {s} k d (leaves_site w m) h found unclaimable barred = inl (ground arith)
  Step-kept {s} k d (deletes id) h found unclaimable barred = deletes_kept k d h found id
  Step-kept {s} k d (changes_sites websites) h found unclaimable barred = inl found
  Step-kept {s} k d (expires key other) h found unclaimable barred = inl found
