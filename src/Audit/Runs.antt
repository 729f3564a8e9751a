-- ===== src/Audit/Runs.antt =====
-- What a worker of lib/services/audit.service.ts sends in one call is a sequence of the steps of
-- Audit/System.
use growth_sent.Prelude.{ℕ}
use growth_sent.Mongo.{Mongo}
use growth_sent.Types.{Database}
use growth_sent.Audit.{AttemptError}
use growth_sent.Audit.Claim.{claim_site}
use growth_sent.Audit.Lease.{mark_attempt_failed, renew_lease}
use growth_sent.Audit.System.{System, Worker, Has, Reach, with_db}

module _ (M : Mongo) (s : System M) (w : Worker) (has : Has w s.workers) where
  -- A sequence of steps that leads to these collections, with the workers and the lists as they are.
  abbrev pub Leads : Database M → Type 0
  Leads db = Reach M s (with_db M s db)

  -- What the calls of a worker do to the collections, when nothing comes between their commands.
  pub record IsRun : Type 0 where
    pub claiming : (now clock : ℕ) → Leads (claim_site M s.db w.job w.lease now clock).1
    pub renewing : (clock : ℕ) → Leads (renew_lease M w.job w.lease s.db clock)
    pub failing :
        (error : AttemptError) (clock : ℕ)
        → Leads (mark_attempt_failed M w.job w.lease s.db error clock)
