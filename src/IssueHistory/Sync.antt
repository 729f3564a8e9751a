-- ===== src/IssueHistory/Sync.antt =====
-- `syncIssueLifecycle` of lib/services/audit.service.ts, document by document.
use growth_sent.Prelude.{
  ◌≡◌, refl, Bool, true, none, some, is_some, List, [], ◌∷◌, String, ◌===◌, if◌then◌else◌, arith,
  eq_iff, eq_refl, Option-cases, Bool-cases, inl, inr, ℕ, All-map,
}
use growth_sent.Mongo.{Mongo}
use growth_sent.Mongo.Commands.{find_one_where, update_one}
use growth_sent.Mongo.Listing.{Listing}
use growth_sent.Mongo.Memory
use growth_sent.IssueHistory.{
  IssueDocument, SeoIssueHistory, is_active, key_of_issue, key_of_item, closed, observe,
  observe_all, resolve_missing, sync_issue_lifecycle, current_issues, active_by_key, filled,
}
use growth_sent.IssueHistory.Entry.{next_entry, observed_entry, missing_entry, Knows, observe-find}
use growth_sent.IssueHistory.Filled.{
  Distinct, Keyed, filled-Distinct, filled-Keyed, IsListing, find-filled, find-Keyed,
}

module _ (M : Mongo) (timestamp : ℕ) (scan_id : String) (c0 : M.Docs SeoIssueHistory) where
  open M use {Docs, find_one, find_one-write}

  observe_all-find :
      (known : List (String × (String × SeoIssueHistory))) (c : Docs SeoIssueHistory)
      (issues : List (String × IssueDocument)) (j : String)
      → Knows M c0 known
      → Keyed key_of_issue issues
      → Distinct issues
      → ((k : String) → is_some (Memory.find issues k) ≡ true → find_one c k ≡ find_one c0 k)
      → find_one (observe_all M timestamp scan_id known c issues) j ≡ elim (Memory.find issues j) [
        | none ↦ find_one c j
        | some issue ↦ some (observed_entry timestamp scan_id issue (find_one c0 j))
      ]
  unfolding observe_all
  observe_all-find known c [] j knows keyed distinct same = refl
  observe_all-find known c ((key, issue) ∷ issues) j knows (k, keyed) (fresh, distinct) same =
      let turn : (i : String)
          → find_one (observe M timestamp scan_id known c key issue) i ≡ (
              if key === i
              then some (observed_entry timestamp scan_id issue (find_one c0 key))
              else find_one c i) =
        λ i.
          observe-find M timestamp scan_id c0 known c key issue i knows k
            (same key (ground (arith, eq_refl key))) in
      let rest =
        observe_all-find known (observe M timestamp scan_id known c key issue) issues j knows keyed
          distinct (λ i shown. ground (arith, turn i, same i, eq_iff key i)) in
      ground (arith, turn j, rest, eq_iff key j)

  -- The second loop resolves each listed document that the scan does not show.
  resolve_missing-find :
      (current : List (String × IssueDocument)) (c : Docs SeoIssueHistory)
      (history : List (String × SeoIssueHistory)) (j : String)
      → Keyed key_of_item history
      → find_one (resolve_missing M timestamp scan_id current c history) j ≡ (
          if is_some (Memory.find current j)
          then find_one c j
          else if is_some (Memory.find history j)
          then missing_entry timestamp scan_id true (find_one c j)
          else find_one c j)
  unfolding resolve_missing
  resolve_missing-find current c [] j keyed = ground arith
  resolve_missing-find current c ((id, previous) ∷ history) j (k, keyed) =
      let c' = (update_one M c id is_active (closed timestamp scan_id)).1 in
      elim (Bool-cases (is_some (Memory.find current (key_of_item previous)))) [
        | inl shown ↦ ground (arith, resolve_missing-find current c history j keyed, eq_iff id j)
        | inr gone ↦ elim (Option-cases (find_one c id)) [
          | inl missing ↦
              ground (arith, resolve_missing-find current c' history j keyed, eq_iff id j)
          | inr (d, found) ↦ ground (
            arith,
            resolve_missing-find current c' history j keyed,
            find_one-write c id (closed timestamp scan_id d) j,
            eq_iff id j,
          )
        ]
      ]

pub current_issues-key :
    (issues : List IssueDocument) (k : String) (issue : IssueDocument)
    → Memory.find (current_issues issues) k ≡ some issue
    → k ≡ key_of_issue issue
unfolding current_issues
current_issues-key issues k issue shown =
    find-Keyed key_of_issue (filled key_of_issue [] issues) k issue
      (filled-Keyed key_of_issue [] issues tt) shown

-- A document stands under the key of its rule and URL, which the unique index promises.
module _ (M : Mongo) (c : M.Docs SeoIssueHistory) where
  abbrev pub IsIndexed : Type 0
  IsIndexed = (k : String) (d : SeoIssueHistory) → M.find_one c k ≡ some d → k ≡ key_of_item d

  listing :
      (L : Listing M)
      → IsIndexed
      → IsListing key_of_item (λ k. find_one_where M c k is_active) (L.find is_active c)
  listing L indexed =
      All-map (λ (e : String × SeoIssueHistory) listed. (listed, indexed e.0 e.1 (ground arith)))
        (L.find is_active c) (L.find-All is_active c)

  history-Keyed : (L : Listing M) → IsIndexed → Keyed key_of_item (L.find is_active c)
  history-Keyed L indexed =
      All-map (λ (e : String × SeoIssueHistory) p. p.1) (L.find is_active c) (listing L indexed)

  known : (L : Listing M) → IsIndexed → Knows M c (active_by_key (L.find is_active c))
  unfolding active_by_key
  known L indexed k =
      rw
        (
          find-filled key_of_item (λ k. find_one_where M c k is_active) [] (L.find is_active c) k
              (listing L indexed),
          L.find-lookup is_active c k,
        )
        refl

module _ (M : Mongo) (L : Listing M) (timestamp : ℕ) (scan_id : String) where
  open M use {Docs, find_one}

  -- Under each key, the document that the method leaves is decided by the finding that the scan
  -- has there, the document that was there, and whether the scan may resolve: a new document, an
  -- issue that goes on, that is back, that is resolved, or what was there.
  pub sync-entry :
      (c : Docs SeoIssueHistory) (issues : List IssueDocument) (complete : Bool) (k : String)
      → IsIndexed M c
      → find_one (sync_issue_lifecycle M timestamp scan_id L c issues complete) k
        ≡ next_entry timestamp scan_id
            (Memory.find (current_issues issues) k)
            complete
            (find_one c k)
  unfolding sync_issue_lifecycle current_issues
  sync-entry c issues complete k indexed =
      let current = current_issues issues in
      let history = L.find is_active c in
      let observed = observe_all M timestamp scan_id (active_by_key history) c current in
      ground (
        arith,
        observe_all-find M timestamp scan_id c (active_by_key history) c current k
            (known M c L indexed) (filled-Keyed key_of_issue [] issues tt)
            (filled-Distinct key_of_issue [] issues tt) (λ j shown. refl),
        resolve_missing-find M timestamp scan_id c current observed history k
            (history-Keyed M c L indexed),
        L.find-lookup is_active c k,
      )
