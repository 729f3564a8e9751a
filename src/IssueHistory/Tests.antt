-- ===== src/IssueHistory/Tests.antt =====
-- Runs of the lifecycle of lib/services/audit.service.ts on a small history.
use growth_sent.Prelude.{
  ◌≡◌, refl, Bool, true, false, none, some, List, [], ◌∷◌, String, ℕ, arith, eq_iff, ◌===◌, map,
  subst, OnSome, if-elim,
}
use growth_sent.Mongo.Memory.{memory}
use growth_sent.Mongo.Memory
use growth_sent.Mongo.Listing.{memory_listing}
use growth_sent.Seo.{critical, medium, metadata, content}
use growth_sent.IssueHistory.{
  IssueDocument, SeoIssueHistory, PageDocument, active, resolved, detected_event, resolved_event,
  is_active, issue_key, key_of_item, sync_issue_lifecycle, current_issues, observe, observe_all,
  resolve_missing, active_by_key,
}
use growth_sent.IssueHistory.Entry.{next_entry}
use growth_sent.IssueHistory.Sync.{IsIndexed, sync-entry}
use growth_sent.IssueHistory.Refine.{open_issues, scanned, shows, sync-refines}
use growth_sent.IssueHistory.Sound.{IsSoundItem, IsSoundHistory, sync-IsSoundHistory}

abbrev untitled : SeoIssueHistory
untitled = record {
  rule_id = "title_missing";
  affected_url = "/a";
  category = metadata;
  severity = critical;
  title = "Missing title";
  status = active;
  first_detected_at = 10;
  last_detected_at = 20;
  resolved_at = none;
  reoccurred_at = none;
  history_events = record { event = detected_event; timestamp = 10; scan_id = "s1" } ∷ [];
  created_at = 10;
  updated_at = 20;
}

abbrev thin : SeoIssueHistory
thin = record {
  rule_id = "thin_content";
  affected_url = "/b";
  category = content;
  severity = medium;
  title = "Thin content";
  status = resolved;
  first_detected_at = 10;
  last_detected_at = 10;
  resolved_at = some 20;
  reoccurred_at = none;
  history_events =
      record { event = detected_event; timestamp = 10; scan_id = "s1" }
      ∷ record { event = resolved_event; timestamp = 20; scan_id = "s2" }
      ∷ [];
  created_at = 10;
  updated_at = 20;
}

abbrev history : List (String × SeoIssueHistory)
history = (key_of_item untitled, untitled) ∷ (key_of_item thin, thin) ∷ []

-- The site is thin again, and has its title back.
abbrev thin_again : IssueDocument
thin_again = record {
  rule_id = "thin_content";
  category = content;
  severity = medium;
  title = "Thin content";
  affected_url = "/b";
}

abbrev home : PageDocument
home = record { url = "https://a.example/"; status_code = 503 }

statuses : List (String × SeoIssueHistory) → List (Bool × ℕ)
statuses c = map (λ (e : String × SeoIssueHistory). (is_active e.1, e.1.updated_at)) c

sync_test :
    statuses (sync_issue_lifecycle memory 30 "s3" memory_listing history (thin_again ∷ []) true)
    ≡ (false, 30) ∷ (true, 30) ∷ []
unfolding statuses sync_issue_lifecycle current_issues active_by_key observe observe_all
    resolve_missing issue_key
sync_test = refl

history-IsIndexed : IsIndexed memory history
history-IsIndexed k d found =
    ground (arith, eq_iff (key_of_item untitled) k, eq_iff (key_of_item thin) k)

untitled-IsSoundItem : IsSoundItem 20 untitled
untitled-IsSoundItem = record {
  dated = refl;
  told = refl;
  some_event = omega arith;
  bounded = omega arith;
  ordered = omega arith;
  past = omega arith;
}

thin-IsSoundItem : IsSoundItem 20 thin
thin-IsSoundItem = record {
  dated = refl;
  told = refl;
  some_event = omega arith;
  bounded = omega arith;
  ordered = omega arith;
  past = omega arith;
}

sound_at : (k : String) → OnSome (IsSoundItem 20) (Memory.find history k)
sound_at k =
    if-elim (OnSome (IsSoundItem 20)) (key_of_item untitled === k) (λ same. untitled-IsSoundItem)
      (λ other.
        if-elim (OnSome (IsSoundItem 20)) (key_of_item thin === k) (λ same. thin-IsSoundItem)
          (λ none_left. tt))

history-IsSoundHistory : IsSoundHistory memory 20 history
history-IsSoundHistory = record {
  indexed = history-IsIndexed;
  items = λ k d found. subst (OnSome (IsSoundItem 20)) found (sound_at k);
}

sync-entry_example :
    Memory.find
      (sync_issue_lifecycle memory 30 "s3" memory_listing history (thin_again ∷ []) true)
      (key_of_item untitled)
    ≡ next_entry 30 "s3"
        (Memory.find (current_issues (thin_again ∷ [])) (key_of_item untitled))
        true
        (Memory.find history (key_of_item untitled))
sync-entry_example =
    sync-entry memory memory_listing 30 "s3" history (thin_again ∷ []) true (key_of_item untitled)
      history-IsIndexed

sync-refines_example :
    open_issues memory
      (sync_issue_lifecycle memory 30 "s3" memory_listing history (thin_again ∷ []) true)
    ≡ scanned (shows (thin_again ∷ [])) true (open_issues memory history)
sync-refines_example =
    sync-refines memory memory_listing 30 "s3" history (thin_again ∷ []) true history-IsIndexed

sync-IsSoundHistory_example :
    IsSoundHistory memory 30
      (sync_issue_lifecycle memory 30 "s3" memory_listing history (thin_again ∷ []) true)
sync-IsSoundHistory_example =
    sync-IsSoundHistory memory memory_listing 20 30 "s3" history (thin_again ∷ []) true
      history-IsSoundHistory (omega arith)

kept :
    Memory.find
      (sync_issue_lifecycle memory 30 "s3" memory_listing history [] true)
      (key_of_item thin)
    ≡ some thin
unfolding sync_issue_lifecycle current_issues active_by_key observe_all resolve_missing issue_key
kept = refl
