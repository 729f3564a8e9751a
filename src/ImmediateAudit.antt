-- ===== src/ImmediateAudit.antt =====
-- lib/jobs/immediate-audit.ts: the execution slots for audits that start right after their request,
-- and the dispatcher. A time is a number of milliseconds.
pub mod Dispatch
mod Tests
use growth_sent.Prelude.{
  has_ended, is_text, ℕ, zero, suc, ◌+◌, ◌*◌, Bool, true, false, Option, none, some, String, ◌<>◌,
  ◌===◌, if◌then◌else◌, leb, min, max, decimal,
}
use growth_sent.Mongo.{Mongo}
use growth_sent.Mongo.Commands.{update_one}

abbrev pub slot_lease_ms : ℕ
slot_lease_ms = 5 * 60 * 1000

abbrev pub default_slot_count : ℕ
default_slot_count = 3

abbrev pub max_slot_count : ℕ
max_slot_count = 5

pub record ImmediateAuditSlot : Type 0 where
  pub job_id : Option String
  pub expires_at : Option ℕ
  pub created_at : Option ℕ
  pub updated_at : Option ℕ

-- The number of the environment, where it is one; a negative number counts as zero.
unfoldable pub slot_count : Option ℕ → ℕ
slot_count none = default_slot_count
slot_count (some parsed) = max 1 (min max_slot_count parsed)

abbrev pub slot_id : ℕ → String
slot_id index = "immediate-audit-" <> decimal index

abbrev pub taken : String → ℕ → Option ImmediateAuditSlot → ImmediateAuditSlot
taken job_id now before = record {
  job_id = some job_id;
  expires_at = some (now + slot_lease_ms);
  created_at = elim before [ none ↦ some now | some slot ↦ slot.created_at ];
  updated_at = some now;
}

module _ (M : Mongo) where
  open M use {Docs, find_one, write}

  -- The upsert on one slot. A slot that another job holds makes MongoDB insert a second document
  -- under the key, and that error sends the code on to the next slot.
  unfoldable pub try_slot :
      String → ℕ → String → Docs ImmediateAuditSlot → Bool × Docs ImmediateAuditSlot
  try_slot job_id now id slots = elim (find_one slots id) [
    | none ↦ (true, write slots id (taken job_id now none))
    | some slot ↦
        if has_ended slot.expires_at now
        then (true, write slots id (taken job_id now (some slot)))
        else (false, slots)
  ]

  unfoldable pub try_slots :
      String → ℕ → ℕ → ℕ → Docs ImmediateAuditSlot → Option String × Docs ImmediateAuditSlot
  try_slots job_id now index zero slots = (none, slots)
  try_slots job_id now index (suc left) slots =
      let (got, slots1) = try_slot job_id now (slot_id index) slots in
      elim got [
        | true ↦ (some (slot_id index), slots1)
        | false ↦ try_slots job_id now (suc index) left slots1
      ]

  unfoldable pub acquire_immediate_audit_slot :
      Option ℕ → String → ℕ → Docs ImmediateAuditSlot → Option String × Docs ImmediateAuditSlot
  acquire_immediate_audit_slot configured job_id now slots =
      try_slots job_id now 1 (slot_count configured) slots

  unfoldable pub release_immediate_audit_slot :
      String → String → ℕ → Docs ImmediateAuditSlot → Docs ImmediateAuditSlot
  release_immediate_audit_slot id job_id now slots =
      (update_one M slots id (λ slot. is_text slot.job_id job_id)
        (λ slot. record slot { job_id = none; expires_at = some now; updated_at = some now })).1

  -- `process` is the audit with all that happens to the slots meanwhile; it may throw, which is
  -- `none`. The slot is given back in both cases.
  unfoldable pub dispatch_immediate_audit_job :
      {A : Type 0}
      → Option ℕ
      → String
      → ℕ
      → ℕ
      → (Docs ImmediateAuditSlot → Option A × Docs ImmediateAuditSlot)
      → Docs ImmediateAuditSlot
      → Option (Option A) × Docs ImmediateAuditSlot
  dispatch_immediate_audit_job configured job_id now later process slots =
      let (slot, slots1) = acquire_immediate_audit_slot configured job_id now slots in
      elim slot [
        | none ↦ (some none, slots1)
        | some id ↦
            let (result, slots2) = process slots1 in
            (
              elim result [ none ↦ none | some a ↦ some (some a) ],
              release_immediate_audit_slot id job_id later slots2,
            )
      ]
