-- ===== src/Audit/Moves.antt =====
-- Each rewriting of a job in lib/services/audit.service.ts keeps the invariant of the job queue.
use growth_sent.Prelude.{
  ℕ, ◌<◌, ◌≡◌, refl, ◌⊎◌, true, false, some, String, arith, Bool-cases, inl, inr,
}
use growth_sent.Types.{CrawlJob, analysing}
use growth_sent.Audit.{
  AttemptError, holds_lease, holds_live_lease, attempts_of, should_retry, max_attempts,
}
use growth_sent.Audit.Claim.{site_gone, site_busy}
use growth_sent.Audit.Lease.{attempt_failed, deferred, finished}
use growth_sent.Audit.Sound.{IsSoundJob, Same}
use growth_sent.Audit.Tame.{IsTame}

-- A document that keeps its lease, and what a worker's copy shares with it.
Same-lease :
    (d d' : CrawlJob) (lease : String)
    → d'.lease_id ≡ d.lease_id
    → Same d d'
    → (holds_lease lease d' ≡ false) ⊎ ((holds_lease lease d ≡ true) × Same d d')
Same-lease d d' lease e same = elim (Bool-cases (holds_lease lease d)) [
  | inl held ↦ inr (held, same)
  | inr free ↦ inl (ground arith)
]

pub should_retry-lt :
    (n : ℕ) (error : AttemptError) → should_retry n error ≡ true → n < max_attempts
unfolding should_retry
should_retry-lt n (AttemptError.root_page_not_evaluable c) h = ground arith
should_retry-lt n (AttemptError.common_crawl r) h = ground arith
should_retry-lt n AttemptError.lease_lost h = ground arith
should_retry-lt n AttemptError.admission_deferred h = ground arith
should_retry-lt n AttemptError.other h = ground arith

module _ (k lease : String) (d : CrawlJob) (sound : IsSoundJob k d) (clock : ℕ) where
  pub site_gone-IsTame : holds_lease lease d ≡ true → IsTame k d (site_gone clock d)
  site_gone-IsTame h = record {
    sound = ground arith;
    lighter = ground arith;
    traced = λ l. inl refl;
  }

  pub site_busy-IsTame : holds_lease lease d ≡ true → IsTame k d (site_busy clock d)
  site_busy-IsTame h = record {
    sound = ground arith;
    lighter = ground arith;
    traced = λ l. inl refl;
  }

  pub deferred-IsTame : holds_lease lease d ≡ true → IsTame k d (deferred clock d)
  deferred-IsTame h = record {
    sound = ground arith;
    lighter = ground arith;
    traced = λ l. inl refl;
  }

  pub finished-IsTame : (pages completion : ℕ) → IsTame k d (finished pages completion d)
  finished-IsTame pages completion = record {
    sound = ground arith;
    lighter = ground arith;
    traced = λ l. inl refl;
  }

  pub attempt_failed-IsTame :
      (error : AttemptError)
      → holds_lease lease d ≡ true
      → IsTame k d
          (attempt_failed (should_retry (attempts_of d) error) error (attempts_of d) clock d)
  attempt_failed-IsTame error h = record {
    sound = ground (arith, should_retry-lt (attempts_of d) error);
    lighter = ground arith;
    traced = λ l. inl refl;
  }

  pub renewed-IsTame : (expires : ℕ) → IsTame k d (record d { lease_expires_at = some expires })
  renewed-IsTame expires = record {
    sound = ground arith;
    lighter = ground arith;
    traced = λ l. Same-lease _ _ l refl (ground arith);
  }

  pub scanned-IsTame : (id : String) → IsTame k d (record d { scan_id = some id })
  scanned-IsTame id = record {
    sound = ground arith;
    lighter = ground arith;
    traced = λ l. Same-lease _ _ l refl (ground arith);
  }

  pub analysing-IsTame :
      (pages : ℕ)
      → holds_live_lease lease clock d ≡ true
      → IsTame k d (record d { status = analysing; progress_percent = 70; pages_crawled = pages })
  analysing-IsTame pages h = record {
    sound = ground arith;
    lighter = ground arith;
    traced = λ l. Same-lease _ _ l refl (ground arith);
  }
