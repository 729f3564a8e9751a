-- ===== src/IssueHistory/Entry.antt =====
-- What `syncIssueLifecycle` of lib/services/audit.service.ts makes of each document.
use growth_sent.Prelude.{
  ◌≡◌, Bool, ◌&&◌, Option, none, some, List, String, ◌===◌, if◌then◌else◌, arith, Option-cases, inl,
  inr, ℕ,
}
use growth_sent.Mongo.{Mongo}
use growth_sent.Mongo.Commands.{find_one_where}
use growth_sent.Mongo.Memory
use growth_sent.IssueHistory.{
  IssueDocument, SeoIssueHistory, is_active, key_of_issue, continued, reopened, closed,
  first_detected, observe,
}

module _ (timestamp : ℕ) (scan_id : String) where
  -- What becomes of the document of an issue that the scan shows,
  abbrev pub observed_entry : IssueDocument → Option SeoIssueHistory → SeoIssueHistory
  observed_entry issue none = first_detected timestamp scan_id issue
  observed_entry issue (some d) =
      if is_active d
      then continued timestamp scan_id issue d
      else reopened timestamp scan_id issue d

  -- and of one that it does not show.
  abbrev pub missing_entry : Bool → Option SeoIssueHistory → Option SeoIssueHistory
  missing_entry complete none = none
  missing_entry complete (some d) =
      if complete && is_active d then some (closed timestamp scan_id d) else some d

  abbrev pub next_entry :
      Option IssueDocument → Bool → Option SeoIssueHistory → Option SeoIssueHistory
  next_entry (some issue) complete before = some (observed_entry issue before)
  next_entry none complete before = missing_entry complete before

module _ (M : Mongo) (c0 : M.Docs SeoIssueHistory) where
  -- The active documents of the collection `c0`, by their keys.
  abbrev pub Knows : List (String × (String × SeoIssueHistory)) → Type 0
  Knows known =
      (k : String)
      → Memory.find known k
        ≡ elim (find_one_where M c0 k is_active) [ none ↦ none | some d ↦ some (k, d) ]

module _ (M : Mongo) (timestamp : ℕ) (scan_id : String) (c0 : M.Docs SeoIssueHistory) where
  open M use {Docs, find_one, find_one-write}

  pub observe-find :
      (known : List (String × (String × SeoIssueHistory))) (c : Docs SeoIssueHistory) (key : String)
      (issue : IssueDocument) (j : String)
      → Knows M c0 known
      → key ≡ key_of_issue issue
      → find_one c key ≡ find_one c0 key
      → find_one (observe M timestamp scan_id known c key issue) j ≡ (
          if key === j
          then some (observed_entry timestamp scan_id issue (find_one c0 key))
          else find_one c j)
  unfolding observe
  observe-find known c key issue j knows keyed same = elim (Option-cases (find_one c0 key)) [
    | inl missing ↦
        ground (arith, knows key, find_one-write c key (first_detected timestamp scan_id issue) j)
    | inr (d, found) ↦ ground (
      arith,
      knows key,
      find_one-write c key (continued timestamp scan_id issue d) j,
      find_one-write c key (reopened timestamp scan_id issue d) j,
    )
  ]
