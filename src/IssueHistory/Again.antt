-- ===== src/IssueHistory/Again.antt =====
-- `syncIssueLifecycle` of lib/services/audit.service.ts on the same findings twice.
use growth_sent.Prelude.{
  ◌≡◌, refl, Bool, true, false, Option, none, some, List, String, ℕ, arith, OnSome, if-elim, ◌&&◌,
  subst, sym, ap, ◌∙◌,
}
use growth_sent.Mongo.{Mongo}
use growth_sent.Mongo.Listing.{Listing}
use growth_sent.Mongo.Memory
use growth_sent.IssueHistory.{
  IssueDocument, SeoIssueHistory, is_active, current_issues, sync_issue_lifecycle, continued,
}
use growth_sent.IssueHistory.Entry.{next_entry, observed_entry, missing_entry}
use growth_sent.IssueHistory.Sync.{IsIndexed, sync-entry}
use growth_sent.IssueHistory.Sound.{sync-IsIndexed}

-- The document is there, with these events and this status.
abbrev pub SameLife : SeoIssueHistory → Option SeoIssueHistory → Type 0
SameLife d after =
    (d' : SeoIssueHistory) × (after ≡ some d')
    × (d'.history_events ≡ d.history_events)
    × (d'.status ≡ d.status)

module _ (timestamp later : ℕ) (scan_id again : String) where
  observed_entry-is_active :
      (issue : IssueDocument) (before : Option SeoIssueHistory)
      → is_active (observed_entry timestamp scan_id issue before) ≡ true
  observed_entry-is_active issue none = refl
  observed_entry-is_active issue (some b) =
      if-elim (λ (d : SeoIssueHistory). is_active d ≡ true) (is_active b) (λ going. going)
        (λ back. refl)

  missing_entry-is_active :
      (complete : Bool) (before : Option SeoIssueHistory)
      → OnSome
          (λ (d : SeoIssueHistory). (complete && is_active d) ≡ false)
          (missing_entry timestamp scan_id complete before)
  missing_entry-is_active complete none = tt
  missing_entry-is_active complete (some b) =
      if-elim (OnSome (λ (d : SeoIssueHistory). (complete && is_active d) ≡ false))
        (complete && is_active b) (λ gone. ground arith) (λ left. left)

  next_entry-SameLife :
      (shown : Option IssueDocument) (complete : Bool) (before : Option SeoIssueHistory)
      (d : SeoIssueHistory)
      → next_entry timestamp scan_id shown complete before ≡ some d
      → SameLife d (next_entry later again shown complete (some d))
  next_entry-SameLife (some issue) complete before d e =
      let going : is_active d ≡ true =
        subst (OnSome (λ (d : SeoIssueHistory). is_active d ≡ true)) e
          (observed_entry-is_active issue before) in
      (continued later again issue d, ground arith, refl, refl)
  next_entry-SameLife none complete before d e =
      let left : (complete && is_active d) ≡ false =
        subst (OnSome (λ (d : SeoIssueHistory). (complete && is_active d) ≡ false)) e
          (missing_entry-is_active complete before) in
      (d, ground arith, refl, refl)

module _ (M : Mongo) (L : Listing M) where
  open M use {Docs, find_one}

  -- When a second scan shows the same issues as the first, and may close as much, each document
  -- keeps its status and its events: a repeated scan adds none. The documents stand under their keys.
  pub sync-sync :
      (c : Docs SeoIssueHistory) (issues : List IssueDocument) (complete : Bool)
      (timestamp later : ℕ) (scan_id again k : String) (d : SeoIssueHistory)
      → IsIndexed M c
      → find_one (sync_issue_lifecycle M timestamp scan_id L c issues complete) k ≡ some d
      → SameLife d (
          find_one
            (sync_issue_lifecycle M later again L
              (sync_issue_lifecycle M timestamp scan_id L c issues complete)
              issues
              complete)
            k)
  sync-sync c issues complete timestamp later scan_id again k d indexed found =
      let first = sync_issue_lifecycle M timestamp scan_id L c issues complete in
      subst (SameLife d)
        (sym (
          sync-entry M L later again first issues complete k
            (sync-IsIndexed M L timestamp scan_id c issues complete indexed)
          ∙ ap (next_entry later again (Memory.find (current_issues issues) k) complete) found))
        (next_entry-SameLife timestamp later scan_id again (Memory.find (current_issues issues) k)
          complete (find_one c k) d
          (sym (sync-entry M L timestamp scan_id c issues complete k indexed) ∙ found))
