-- ===== src/Audit/Queue.antt =====
-- What holds of the job queue of lib/services/audit.service.ts after any sequence of steps.
use growth_sent.Prelude.{refl, ◌≤◌, ◌≡◌, some, String, arith}
use growth_sent.Mongo.{Mongo}
use growth_sent.Types.{CrawlJob}
use growth_sent.Admission.{queue_cap}
use growth_sent.Audit.System.{
  System, Step, admits, claims, takes_site, finds_site_busy, finds_site_gone, beats, beats_site,
  scans, analyses, publishes, fails, deletes_claim, returns_slot, defers, leaves_site, deletes,
  changes_sites, expires, Reach, stay, next,
}
use growth_sent.Audit.Sound.{IsSound, IsSoundJob, slots_held}
use growth_sent.Audit.Steps.{admits-IsSound, other-IsSound, sound_at}
use growth_sent.Audit.ClaimSteps.{claims-IsSound}
use growth_sent.Audit.SiteSteps.{
  takes_site-IsSound, finds_site_busy-IsSound, finds_site_gone-IsSound, beats-IsSound,
  beats_site-IsSound, scans-IsSound, analyses-IsSound, defers-IsSound, leaves_site-IsSound,
}
use growth_sent.Audit.EndSteps.{publishes-IsSound, fails-IsSound}
use growth_sent.Audit.ReleaseSteps.{
  deletes_claim-IsSound, returns_slot-IsSound, deletes-IsSound, expires-IsSound,
}

module _ (M : Mongo) where
  -- Each command of a worker, each transaction, and each change that a request makes to the jobs or
  -- the saved sites keeps the invariant, at any times and in any interleaving: every job is sound,
  -- every worker's copy agrees with the document while it holds the lease, and the active jobs with
  -- a slot and the failed ones that have not given theirs back are together no more than the slots
  -- counted, which are at most 25.
  pub Step-IsSound : {s t : System M} → Step M s t → IsSound M s → IsSound M t
  Step-IsSound {s} (admits job actor target kind now r db q l a e) h =
      admits-IsSound M s h job actor target kind now r db q l a e
  Step-IsSound {s} (claims id lease now job db fresh e) h =
      claims-IsSound M s h id lease now job db fresh e
  Step-IsSound {s} (takes_site w site now m) h = takes_site-IsSound M s h w site now
  Step-IsSound {s} (finds_site_busy w clock m) h = finds_site_busy-IsSound M s h w clock
  Step-IsSound {s} (finds_site_gone w clock m) h = finds_site_gone-IsSound M s h w clock
  Step-IsSound {s} (beats w clock m) h = beats-IsSound M s h w clock
  Step-IsSound {s} (beats_site w clock m) h = beats_site-IsSound M s h w clock
  Step-IsSound {s} (scans w fresh id db m e) h = scans-IsSound M s h w fresh id db e
  Step-IsSound {s} (analyses w pages clock db m e) h = analyses-IsSound M s h w pages clock db e
  Step-IsSound {s} (publishes w pages completion clock db m e) h =
      publishes-IsSound M s h w m pages completion clock db e
  Step-IsSound {s} (fails w error clock m) h = fails-IsSound M s h w m error clock
  Step-IsSound {s} (deletes_claim job rest p) h = deletes_claim-IsSound M s h job rest p
  Step-IsSound {s} (returns_slot job rest clock p) h = returns_slot-IsSound M s h job rest clock p
  Step-IsSound {s} (defers w clock m) h = defers-IsSound M s h w clock
  Step-IsSound {s} (leaves_site w m) h = leaves_site-IsSound M s h w
  Step-IsSound {s} (deletes id) h = deletes-IsSound M s h id
  Step-IsSound {s} (changes_sites websites) h = other-IsSound M s h _ refl refl
  Step-IsSound {s} (expires key other) h = expires-IsSound M s h key other

  pub Reach-IsSound : {s t : System M} → IsSound M s → Reach M s t → IsSound M t
  Reach-IsSound h stay = h
  Reach-IsSound h (next r st) = Step-IsSound st (Reach-IsSound h r)

  -- From a state that meets the invariant, however the commands of workers, the transactions and
  -- the deletions by requests interleave, at most 25 admitted jobs are queued or running.
  pub Reach-slots_held :
      {s t : System M} → IsSound M s → Reach M s t → slots_held M t.db ≤ queue_cap
  Reach-slots_held h r = let v = Reach-IsSound h r in omega (arith, v.counted, v.capped)

  -- From a state that meets the invariant, however requests and workers interleave, a job has a lease exactly while it runs, it has had
  -- one to three attempts while it runs and never more than three, and a queued job can be tried.
  pub Reach-IsSoundJob :
      {s t : System M} (k : String) (d : CrawlJob)
      → IsSound M s
      → Reach M s t
      → M.find_one t.db.jobs k ≡ some d
      → IsSoundJob k d
  Reach-IsSoundJob {s} {t} k d h r found = sound_at M t.db.jobs k d (Reach-IsSound h r).jobs found
