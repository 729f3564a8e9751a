-- ===== src/Backlinks.antt =====
-- lib/backlinks/shared-protection.ts: the quota of backlink requests, and the cache that equal
-- requests share. A time is a number of milliseconds; the rows are a parameter.
pub mod Quota
pub mod Shared
mod Tests
use growth_sent.Prelude.{
  is_text, ℕ, zero, suc, ◌+◌, ◌*◌, ◌/◌, ◌≡◌, Bool, true, false, not, ◌&&◌, ◌||◌, Option, none, some,
  is_some, String, ◌<>◌, ◌===◌, if◌then◌else◌, ltb, leb, decimal, Result, ok, err,
}
use growth_sent.Mongo.{Mongo}
use growth_sent.Mongo.Commands.{update_one, insert_one, delete_one_where, find_one_where}

pub data ProtectionKind : Type 0 where
  quota cache : ProtectionKind

pub data CacheState : Type 0 where
  pending ready : CacheState

abbrev pub quota_window_ms : ℕ
quota_window_ms = 60000

abbrev pub cache_ttl_ms : ℕ
cache_ttl_ms = 60000

abbrev pub lease_ttl_ms : ℕ
lease_ttl_ms = 12000

abbrev pub requests_per_user_per_minute : ℕ
requests_per_user_per_minute = 20

abbrev pub is_kind_cache : ProtectionKind → Bool
is_kind_cache cache = true
is_kind_cache quota = false

abbrev pub is_state : CacheState → Option CacheState → Bool
is_state pending (some pending) = true
is_state ready (some ready) = true
is_state _ _ = false

-- A missing field is never later than anything, and no text.
abbrev pub is_before : Option ℕ → ℕ → Bool
is_before none now = false
is_before (some t) now = leb t now

abbrev pub is_below : Option ℕ → ℕ → Bool
is_below none limit = false
is_below (some n) limit = ltb n limit

abbrev pub plus_one : Option ℕ → Option ℕ
plus_one none = some 1
plus_one (some n) = some (n + 1)

module _ (Rows : Type 0) where
  pub record ProtectionDocument : Type 0 where
    pub kind : ProtectionKind
    pub count : Option ℕ
    pub state : Option CacheState
    pub lease_id : Option String
    pub lease_expires_at : Option ℕ
    pub rows : Option Rows
    pub expires_at : ℕ
    pub created_at : ℕ
    pub updated_at : ℕ

module _ {Rows : Type 0} where
  abbrev pub first_request : ℕ → ProtectionDocument Rows
  first_request now = record {
    kind = quota;
    count = some 1;
    state = none;
    lease_id = none;
    lease_expires_at = none;
    rows = none;
    expires_at = now + 2 * quota_window_ms;
    created_at = now;
    updated_at = now;
  }

  abbrev pub counted : ℕ → ProtectionDocument Rows → ProtectionDocument Rows
  counted now d = record d { count = plus_one d.count; updated_at = now }

  -- The document of a claim; `createdAt` stays where there was one.
  abbrev pub claimed : String → ℕ → Option (ProtectionDocument Rows) → ProtectionDocument Rows
  claimed lease now before = record {
    kind = cache;
    count = elim before [ none ↦ none | some d ↦ d.count ];
    state = some pending;
    lease_id = some lease;
    lease_expires_at = some (now + lease_ttl_ms);
    rows = none;
    expires_at = now + lease_ttl_ms;
    created_at = elim before [ none ↦ now | some d ↦ d.created_at ];
    updated_at = now;
  }

  abbrev pub can_claim : ℕ → ProtectionDocument Rows → Bool
  can_claim now d =
      leb d.expires_at now || (is_state pending d.state && is_before d.lease_expires_at now)

  abbrev pub is_ready : ℕ → ProtectionDocument Rows → Bool
  is_ready now d = is_kind_cache d.kind && is_state ready d.state && not (leb d.expires_at now)

  abbrev pub published : Rows → ℕ → ProtectionDocument Rows → ProtectionDocument Rows
  published rows now d = record d {
    state = some ready;
    rows = some rows;
    expires_at = now + cache_ttl_ms;
    updated_at = now;
    lease_id = none;
    lease_expires_at = none;
  }

unfoldable pub window_document_id : String → ℕ → String
window_document_id user window = "quota:" <> (user <> (":" <> decimal window))

abbrev pub quota_document_id : String → ℕ → String
quota_document_id user now = window_document_id user (now / quota_window_ms)

pub data Outcome : Type 0 where
  cache_hit loaded coalesced_pending : Outcome

module _ (M : Mongo) {Rows : Type 0} where
  open M use {Docs, find_one, write}

  -- The upsert. Where the document is there but full, MongoDB tries to insert a second one under
  -- its key, and the error of that is met by the same update without the upsert.
  unfoldable pub enforce_backlink_request_quota :
      String → ℕ → Docs (ProtectionDocument Rows) → Bool × Docs (ProtectionDocument Rows)
  enforce_backlink_request_quota user now c =
      let id = quota_document_id user now in
      let below : ProtectionDocument Rows → Bool =
        λ d. is_below d.count requests_per_user_per_minute in
      let (matched, c1) = update_one M c id below (counted now) in
      elim matched [
        | suc _ ↦ (true, c1)
        | zero ↦ elim (insert_one M c id (first_request now)) [
          | some c2 ↦ (true, c2)
          | none ↦
              let (again, c3) = update_one M c id below (counted now) in (not (leb again 0), c3)
        ]
      ]

  -- The rows that are ready at `now`.
  unfoldable pub read_ready : String → ℕ → Docs (ProtectionDocument Rows) → Option Rows
  read_ready key now c = elim (find_one_where M c key (is_ready now)) [
    | none ↦ none
    | some d ↦ d.rows
  ]

  -- The claim: an upsert whose second insertion is refused as a duplicate.
  unfoldable pub claim_lease :
      String → String → ℕ → Docs (ProtectionDocument Rows) → Bool × Docs (ProtectionDocument Rows)
  claim_lease key lease now c = elim (find_one c key) [
    | none ↦ (true, write c key (claimed lease now none))
    | some d ↦
        if can_claim now d then (true, write c key (claimed lease now (some d))) else (false, c)
  ]

  unfoldable pub publish_rows :
      String → String → Rows → ℕ → Docs (ProtectionDocument Rows) → Docs (ProtectionDocument Rows)
  publish_rows key lease rows now c =
      (update_one M c key (λ d. is_text d.lease_id lease) (published rows now)).1

  unfoldable pub release_lease :
      String → String → Docs (ProtectionDocument Rows) → Docs (ProtectionDocument Rows)
  release_lease key lease c = delete_one_where M c key (λ d. is_text d.lease_id lease)

  -- `getSharedBacklinkRows`: `load` is none where the load throws, `other` what other requests do to
  -- the collection while this one loads or waits, and `later` the time after that.
  unfoldable pub get_shared_backlink_rows :
      String
      → String
      → ℕ
      → ℕ
      → Option Rows
      → (Docs (ProtectionDocument Rows) → Docs (ProtectionDocument Rows))
      → Docs (ProtectionDocument Rows)
      → Option (Option Rows × Outcome) × Docs (ProtectionDocument Rows)
  get_shared_backlink_rows key lease now later load other c = elim (read_ready key now c) [
    | some rows ↦ (some (some rows, cache_hit), c)
    | none ↦
        let (claimed, c1) = claim_lease key lease now c in
        let c2 = other c1 in
        elim claimed [
          | false ↦ elim (read_ready key later c2) [
            | some rows ↦ (some (some rows, cache_hit), c2)
            | none ↦ (some (none, coalesced_pending), c2)
          ]
          | true ↦ elim load [
            | some rows ↦ (some (some rows, loaded), publish_rows key lease rows later c2)
            | none ↦ (none, release_lease key lease c2)
          ]
        ]
  ]
