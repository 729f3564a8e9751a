-- ===== src/CommonCrawl.antt =====
-- lib/crawler/common-crawl-admission.ts: leases on one requester and on one of two archive slots.
-- A time is a number of milliseconds; the checks of the identities' spelling are parameters.
pub mod Exclusive
pub mod Acquire
mod Tests
use growth_sent.Prelude.{
  has_ended, is_text, ℕ, zero, suc, ◌+◌, ◌*◌, Bool, true, false, not, ◌&&◌, ◌||◌, Option, none,
  some, List, String, ◌<>◌, ◌==◌, ◌===◌, if◌then◌else◌, leb, decimal, Result, ok, err,
}
use growth_sent.Mongo.{Mongo}
use growth_sent.Mongo.Commands.{insert_one, update_one, find_one_and_update, delete_one_where}

pub data LeaseKind : Type 0 where
  requester slot : LeaseKind

pub record Lease : Type 0 where
  pub kind : LeaseKind
  pub job_id : Option String
  pub lease_id : Option String
  pub requester_key : Option String
  pub lease_expires_at : Option ℕ
  pub updated_at : ℕ

abbrev pub global_slot_count : ℕ
global_slot_count = 2

abbrev pub lease_duration_ms : ℕ
lease_duration_ms = 2 * 60 * 1000

abbrev pub same_kind : LeaseKind → LeaseKind → Bool
same_kind requester requester = true
same_kind slot slot = true
same_kind _ _ = false

abbrev pub requester_document_id : String → String
requester_document_id requester_key = "requester:" <> requester_key

abbrev pub slot_document_id : ℕ → String
slot_document_id n = "slot:" <> decimal n

pub record Request : Type 0 where
  pub document_id : String
  pub kind : LeaseKind
  pub job_id : String
  pub lease_id : String
  pub requester_key : String

abbrev pub leased : Request → ℕ → Lease
leased input now = record {
  kind = input.kind;
  job_id = some input.job_id;
  lease_id = some input.lease_id;
  requester_key = some input.requester_key;
  lease_expires_at = some (now + lease_duration_ms);
  updated_at = now;
}

abbrev pub can_take : Request → ℕ → Lease → Bool
can_take input now d = same_kind d.kind input.kind && has_ended d.lease_expires_at now

abbrev pub is_owner : Request → Lease → Bool
is_owner input d =
    same_kind d.kind input.kind
    && is_text d.job_id input.job_id
    && is_text d.lease_id input.lease_id

abbrev pub released : ℕ → Lease → Lease
released now d = record d {
  job_id = none;
  lease_id = none;
  requester_key = none;
  lease_expires_at = some 0;
  updated_at = now;
}

pub data AdmissionError : Type 0 where
  identity_invalid : AdmissionError

-- The two leases that an admitted job holds.
pub record Held : Type 0 where
  pub requester : Request
  pub slot : Request

module _ (M : Mongo) where
  open M use {Docs}

  unfoldable pub try_acquire_lease : Request → ℕ → Docs Lease → Bool × Docs Lease
  try_acquire_lease input now c =
      let (claimed, c1) =
        find_one_and_update M c input.document_id (can_take input now)
          (λ d. record (leased input now) { kind = d.kind }) in
      elim claimed [
        | some d ↦ (is_text d.lease_id input.lease_id, c1)
        | none ↦ elim (insert_one M c input.document_id (leased input now)) [
          | some c2 ↦ (true, c2)
          | none ↦ (false, c)
        ]
      ]

  unfoldable pub release_requester_lease : Request → Docs Lease → Docs Lease
  release_requester_lease input c = delete_one_where M c input.document_id (is_owner input)

  unfoldable pub release_slot_lease : Request → ℕ → Docs Lease → Docs Lease
  release_slot_lease input now c =
      (update_one M c input.document_id (is_owner input) (released now)).1

  unfoldable pub release : Held → ℕ → Docs Lease → Docs Lease
  release held now c = release_slot_lease held.slot now (release_requester_lease held.requester c)

  abbrev pub slot_request : Request → ℕ → Request
  slot_request input n = record input { document_id = slot_document_id n; kind = slot }

  -- The slots that are left; each reads the clock again.
  unfoldable pub acquire_slot : Request → ℕ → ℕ → (ℕ → ℕ) → Docs Lease → Option ℕ × Docs Lease
  acquire_slot input n zero clock c = (none, c)
  acquire_slot input n (suc left) clock c =
      let (got, c1) = try_acquire_lease (slot_request input n) (clock n) c in
      elim got [ true ↦ (some n, c1) | false ↦ acquire_slot input (suc n) left clock c1 ]

  -- `is_valid` is the check of both identities, `lease_id` the new random id, `now` and `clock` the
  -- times at which the requester and each slot are tried.
  unfoldable pub acquire_common_crawl_admission :
      Bool
      → String
      → String
      → String
      → ℕ
      → (ℕ → ℕ)
      → Docs Lease
      → Result AdmissionError (Option Held) × Docs Lease
  acquire_common_crawl_admission is_valid job_id requester_key lease_id now clock c =
      let input : Request = record {
        document_id = requester_document_id requester_key;
        kind = requester;
        job_id = job_id;
        lease_id = lease_id;
        requester_key = requester_key;
      } in
      if not is_valid
      then (err identity_invalid, c)
      else let (got, c1) = try_acquire_lease input now c in
        elim got [
          | false ↦ (ok none, c1)
          | true ↦
              let (found, c2) = acquire_slot input 0 global_slot_count clock c1 in
              elim found [
                | some n ↦
                    (ok (some (record { requester = input; slot = slot_request input n })), c2)
                | none ↦ (ok none, release_requester_lease input c2)
              ]
        ]
