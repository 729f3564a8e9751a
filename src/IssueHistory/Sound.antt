-- ===== src/IssueHistory/Sound.antt =====
-- What holds of every document of the history that `syncIssueLifecycle` of
-- lib/services/audit.service.ts keeps.
use growth_sent.Prelude.{
  ◌≡◌, refl, Bool, true, false, ◌&&◌, not, Option, none, some, is_some, List, [], ◌∷◌, ◌++◌, String,
  arith, ℕ, zero, suc, ◌≤◌, ◌<◌, ◌-◌, length, drop, length-last_items, length-append, ap, ◌∙◌, sym,
  subst, if-elim, OnSome,
}
use growth_sent.Mongo.{Mongo}
use growth_sent.Mongo.Listing.{Listing}
use growth_sent.Mongo.Memory
use growth_sent.IssueHistory.{
  IssueDocument, SeoIssueHistory, HistoryEvent, EventKind, detected_event, resolved_event,
  reoccurred_event, is_active, key_of_item, issue_history_event_limit, push_event, current_issues,
  sync_issue_lifecycle, closed, key_of_issue,
}
use growth_sent.IssueHistory.Entry.{next_entry, observed_entry}
use growth_sent.IssueHistory.Sync.{IsIndexed, sync-entry, current_issues-key}

abbrev pub latest : List HistoryEvent → Option EventKind
latest [] = none
latest (e ∷ []) = some e.event
latest (e ∷ f ∷ events) = latest (f ∷ events)

abbrev is_closing : Option EventKind → Bool
is_closing none = false
is_closing (some detected_event) = false
is_closing (some reoccurred_event) = false
is_closing (some resolved_event) = true

latest-append :
    (events : List HistoryEvent) (e : HistoryEvent) → latest (events ++ (e ∷ [])) ≡ some e.event
latest-append [] e = refl
latest-append (d ∷ []) e = refl
latest-append (d ∷ f ∷ events) e = latest-append (f ∷ events) e

latest-drop :
    (n : ℕ) (events : List HistoryEvent)
    → n < length events
    → latest (drop n events) ≡ latest events
latest-drop n [] h = absurd (omega (arith, h))
latest-drop zero (e ∷ events) h = refl
latest-drop (suc n) (e ∷ []) h = absurd (omega (arith, h))
latest-drop (suc n) (e ∷ f ∷ events) h = latest-drop n (f ∷ events) (omega (arith, h))

-- A document of the history, at a time.
pub record IsSoundItem (now : ℕ) (d : SeoIssueHistory) : Type 0 where
  -- It is closed exactly when it says since when, and exactly when its last event says so.
  pub dated : is_some d.resolved_at ≡ not (is_active d)
  pub told : is_closing (latest d.history_events) ≡ not (is_active d)
  pub some_event : 0 < length d.history_events
  pub bounded : length d.history_events ≤ issue_history_event_limit
  pub ordered : d.first_detected_at ≤ d.last_detected_at
  pub past : d.last_detected_at ≤ now

module _ (now timestamp : ℕ) (scan_id : String) where
  push_event-length :
      (d : SeoIssueHistory) (e : EventKind)
      → (0 < length (push_event d e timestamp scan_id))
        × (length (push_event d e timestamp scan_id) ≤ issue_history_event_limit)
  push_event-length d e =
      let events =
        d.history_events ++ (record { event = e; timestamp = timestamp; scan_id = scan_id } ∷ []) in
      omega (
        arith,
        length-last_items issue_history_event_limit events,
        length-append d.history_events
            (record { event = e; timestamp = timestamp; scan_id = scan_id } ∷ []),
      )

  push_event-latest :
      (d : SeoIssueHistory) (e : EventKind) → latest (push_event d e timestamp scan_id) ≡ some e
  push_event-latest d e =
      let added : HistoryEvent = record { event = e; timestamp = timestamp; scan_id = scan_id } in
      let events = d.history_events ++ (added ∷ []) in
      latest-drop (length events - issue_history_event_limit) events
        (omega (arith, length-append d.history_events (added ∷ [])))
      ∙ latest-append d.history_events added

  closed-IsSoundItem :
      (d : SeoIssueHistory)
      → IsSoundItem now d
      → now ≤ timestamp
      → IsSoundItem timestamp (closed timestamp scan_id d)
  closed-IsSoundItem d h later =
      let (filled, short) = push_event-length d resolved_event in
      record {
        dated = refl;
        told = ap is_closing (push_event-latest d resolved_event);
        some_event = filled;
        bounded = short;
        ordered = h.ordered;
        past = omega (arith, h.past, later);
      }

  observed_entry-IsSoundItem :
      (issue : IssueDocument) (before : Option SeoIssueHistory)
      → ((b : SeoIssueHistory) → before ≡ some b → IsSoundItem now b)
      → now ≤ timestamp
      → IsSoundItem timestamp (observed_entry timestamp scan_id issue before)
  observed_entry-IsSoundItem issue none h later = record {
    dated = refl;
    told = refl;
    some_event = omega arith;
    bounded = omega arith;
    ordered = omega arith;
    past = omega arith;
  }
  observed_entry-IsSoundItem issue (some d) h later =
      let s = h d refl in
      let (filled, short) = push_event-length d reoccurred_event in
      if-elim (IsSoundItem timestamp) (is_active d)
        (λ going. record {
          dated = s.dated;
          told = s.told;
          some_event = s.some_event;
          bounded = s.bounded;
          ordered = omega (arith, s.ordered, s.past, later);
          past = omega arith;
        })
        (λ back. record {
          dated = refl;
          told = ap is_closing (push_event-latest d reoccurred_event);
          some_event = filled;
          bounded = short;
          ordered = omega (arith, s.ordered, s.past, later);
          past = omega arith;
        })

  next_entry-IsSoundItem :
      (shown : Option IssueDocument) (complete : Bool) (before : Option SeoIssueHistory)
      → ((b : SeoIssueHistory) → before ≡ some b → IsSoundItem now b)
      → now ≤ timestamp
      → OnSome (IsSoundItem timestamp) (next_entry timestamp scan_id shown complete before)
  next_entry-IsSoundItem (some issue) complete before h later =
      observed_entry-IsSoundItem issue before h later
  next_entry-IsSoundItem none complete none h later = tt
  next_entry-IsSoundItem none complete (some d) h later =
      if-elim (OnSome (IsSoundItem timestamp)) (complete && is_active d)
        (λ gone. closed-IsSoundItem d (h d refl) later)
        (λ left.
          let s = h d refl in
          record {
            dated = s.dated;
            told = s.told;
            some_event = s.some_event;
            bounded = s.bounded;
            ordered = s.ordered;
            past = omega (arith, s.past, later);
          })

module _ (timestamp : ℕ) (scan_id : String) where
  next_entry-key :
      (shown : Option IssueDocument) (complete : Bool) (before : Option SeoIssueHistory)
      (k : String)
      → ((i : IssueDocument) → shown ≡ some i → k ≡ key_of_issue i)
      → ((b : SeoIssueHistory) → before ≡ some b → k ≡ key_of_item b)
      → OnSome (λ d. k ≡ key_of_item d) (next_entry timestamp scan_id shown complete before)
  next_entry-key (some issue) complete none k h g = h issue refl
  next_entry-key (some issue) complete (some d) k h g =
      if-elim (λ (d : SeoIssueHistory). k ≡ key_of_item d) (is_active d) (λ going. g d refl)
        (λ back. g d refl)
  next_entry-key none complete none k h g = tt
  next_entry-key none complete (some d) k h g =
      if-elim (OnSome (λ (d : SeoIssueHistory). k ≡ key_of_item d)) (complete && is_active d)
        (λ gone. g d refl) (λ left. g d refl)

module _ (M : Mongo) where
  open M use {Docs, find_one}

  pub record IsSoundHistory (now : ℕ) (c : Docs SeoIssueHistory) : Type 0 where
    pub indexed : IsIndexed M c
    pub items : (k : String) (d : SeoIssueHistory) → find_one c k ≡ some d → IsSoundItem now d

  pub sync-IsIndexed :
      (L : Listing M) (timestamp : ℕ) (scan_id : String) (c : Docs SeoIssueHistory)
      (issues : List IssueDocument) (complete : Bool)
      → IsIndexed M c
      → IsIndexed M (sync_issue_lifecycle M timestamp scan_id L c issues complete)
  sync-IsIndexed L timestamp scan_id c issues complete h k d found =
      subst (OnSome (λ (d : SeoIssueHistory). k ≡ key_of_item d))
        (sym (sync-entry M L timestamp scan_id c issues complete k h) ∙ found)
        (next_entry-key timestamp scan_id (Memory.find (current_issues issues) k) complete
          (find_one c k) k (current_issues-key issues k) (h k))

  -- A scan that is no earlier than the history, whose documents stand under their keys, keeps this
  -- of every document: it is closed exactly when it has a time of closing and exactly when its last
  -- event is a closing, it has one to 100 events, and its detections are in order and not later
  -- than the scan.
  pub sync-IsSoundHistory :
      (L : Listing M) (now timestamp : ℕ) (scan_id : String) (c : Docs SeoIssueHistory)
      (issues : List IssueDocument) (complete : Bool)
      → IsSoundHistory now c
      → now ≤ timestamp
      → IsSoundHistory timestamp (sync_issue_lifecycle M timestamp scan_id L c issues complete)
  sync-IsSoundHistory L now timestamp scan_id c issues complete h later = record {
    indexed = sync-IsIndexed L timestamp scan_id c issues complete h.indexed;
    items = λ k d found.
        subst (OnSome (IsSoundItem timestamp))
          (sym (sync-entry M L timestamp scan_id c issues complete k h.indexed) ∙ found)
          (next_entry-IsSoundItem now timestamp scan_id (Memory.find (current_issues issues) k)
            complete (find_one c k) (h.items k) later);
  }
