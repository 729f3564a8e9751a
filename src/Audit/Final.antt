-- ===== src/Audit/Final.antt =====
-- A job of lib/services/audit.service.ts that has completed or failed stays as it is until a request deletes it.
use growth_sent.Prelude.{ℕ, Option, none, ◌⊎◌, OnSome, ◌≡◌, inl, inr, some, String, false, arith}
use growth_sent.Mongo.{Mongo}
use growth_sent.Types.{CrawlJob}
use growth_sent.Admission.{is_active_crawl_status}
use growth_sent.Audit.{holds_lease, retryable_claim_filter}
use growth_sent.Audit.System.{Worker, System, Reach, stay, next}
use growth_sent.Audit.Sound.{IsSound, IsSoundJob}
use growth_sent.Audit.Steps.{sound_at}
use growth_sent.Audit.Kept.{actor, IsDeletion, Step-kept}
use growth_sent.Audit.Queue.{Reach-IsSound}

module _ (M : Mongo) where
  open M use {find_one}

  abbrev pub IsDeletedIn : String → {s t : System M} → Reach M s t → Type 0
  IsDeletedIn k stay = ⊥
  IsDeletedIn k (next r st) = IsDeletedIn k r ⊎ IsDeletion M k st

  over_unclaimable :
      (d : CrawlJob)
      → is_active_crawl_status d.status ≡ false
      → (time : ℕ) → retryable_claim_filter time d ≡ false
  unfolding retryable_claim_filter
  over_unclaimable d over time = ground arith

  over_barred :
      (k : String) (d : CrawlJob) (who : Option Worker)
      → IsSoundJob k d
      → is_active_crawl_status d.status ≡ false
      → OnSome (λ w. holds_lease w.lease d ≡ false) who
  over_barred k d none sound over = tt
  over_barred k d (some w) sound over = ground (arith, sound.leased)

  -- In a state that meets the invariant, once a job is neither queued nor running, its document
  -- stays as it is, whatever workers and requests do and in whatever interleaving, unless a request
  -- deletes it.
  pub Reach-final :
      {s t : System M} (k : String) (d : CrawlJob) (r : Reach M s t)
      → IsSound M s
      → find_one s.db.jobs k ≡ some d
      → is_active_crawl_status d.status ≡ false
      → (find_one t.db.jobs k ≡ some d) ⊎ IsDeletedIn k r
  Reach-final k d stay h found over = inl found
  Reach-final k d (next {t = u} r st) h found over =
      let sound = Reach-IsSound M h r in
      elim (Reach-final k d r h found over) [
        | inr gone ↦ inr (inl gone)
        | inl same ↦
            elim (Step-kept M k d st sound same (over_unclaimable d over)
              (over_barred k d (actor M st) (sound_at M u.db.jobs k d sound.jobs same) over)) [
                | inl still ↦ inl still
                | inr deleted ↦ inr (inr deleted)
              ]
      ]
