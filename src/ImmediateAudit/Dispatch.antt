-- ===== src/ImmediateAudit/Dispatch.antt =====
-- What the dispatcher of lib/jobs/immediate-audit.ts does with the execution slots.
use growth_sent.Prelude.{
  has_ended, ℕ, zero, suc, ◌+◌, ◌≤◌, ◌<◌, ◌≡◌, refl, inl, inr, Bool, true, false, Option, none,
  some, String, arith, eq_refl, Bool-cases, Option-cases,
}
use growth_sent.Mongo.{Mongo}
use growth_sent.ImmediateAudit.{
  ImmediateAuditSlot, slot_id, slot_count, max_slot_count, taken, try_slot, try_slots,
  acquire_immediate_audit_slot, release_immediate_audit_slot, dispatch_immediate_audit_job,
}

abbrev pub is_free : ℕ → Option ImmediateAuditSlot → Bool
is_free now none = true
is_free now (some slot) = has_ended slot.expires_at now

module _ (M : Mongo) (job_id : String) (now : ℕ) where
  open M use {Docs, find_one, write, find_one-write}

  -- The outcome of trying the slots from `index` on.
  pub record IsTaken (index left : ℕ) (slots : Docs ImmediateAuditSlot) (id : String)
      (slots' : Docs ImmediateAuditSlot) : Type 0 where
    pub number : ℕ
    pub named : id ≡ slot_id number
    pub from : index ≤ number
    pub below : number < index + left
    pub was_free : is_free now (find_one slots id) ≡ true
    pub stored : slots' ≡ write slots id (taken job_id now (find_one slots id))

  module _ (index left : ℕ) (slots : Docs ImmediateAuditSlot) where
    taken_eq :
        is_free now (find_one slots (slot_id index)) ≡ true
        → try_slots M job_id now index (suc left) slots ≡ (
          some (slot_id index),
          write slots (slot_id index) (taken job_id now (find_one slots (slot_id index))),
        )
    unfolding try_slots try_slot
    taken_eq free = elim (Option-cases (find_one slots (slot_id index))) [
      | inl missing ↦ ground arith
      | inr (slot, found) ↦ ground arith
    ]

    next_eq :
        is_free now (find_one slots (slot_id index)) ≡ false
        → try_slots M job_id now index (suc left) slots
          ≡ try_slots M job_id now (suc index) left slots
    unfolding try_slots try_slot
    next_eq busy = elim (Option-cases (find_one slots (slot_id index))) [
      | inl missing ↦ absurd (ground arith)
      | inr (slot, found) ↦ ground arith
    ]

  try_slots-IsTaken :
      (index left : ℕ) (slots slots' : Docs ImmediateAuditSlot) (id : String)
      → try_slots M job_id now index left slots ≡ (some id, slots')
      → IsTaken index left slots id slots'
  unfolding try_slots
  try_slots-IsTaken index zero slots slots' id e = absurd (ground arith)
  try_slots-IsTaken index (suc left) slots slots' id e =
      elim (Bool-cases (is_free now (find_one slots (slot_id index)))) [
        | inl free ↦
            let same = taken_eq index left slots free in
            let here : id ≡ slot_id index = ground arith in
            record {
              number = index;
              named = here;
              from = omega arith;
              below = omega arith;
              was_free = rw here free;
              stored = rw here (ground arith);
            }
        | inr busy ↦
            let later =
              try_slots-IsTaken (suc index) left slots slots' id
                (rw (next_eq index left slots busy) at e) in
            record {
              number = later.number;
              named = later.named;
              from = omega (arith, later.from);
              below = omega (arith, later.below);
              was_free = later.was_free;
              stored = later.stored;
            }
      ]

  slot_count_bound : (configured : Option ℕ) → slot_count configured ≤ max_slot_count
  unfolding slot_count
  slot_count_bound none = omega arith
  slot_count_bound (some parsed) = omega arith

  -- A job that gets an execution slot gets one of the at most five of the pool, which was free; it
  -- is noted there with a lease of five minutes, and no other slot changes.
  pub acquire-IsTaken :
      (configured : Option ℕ) (slots slots' : Docs ImmediateAuditSlot) (id : String)
      → acquire_immediate_audit_slot M configured job_id now slots ≡ (some id, slots')
      → IsTaken 1 max_slot_count slots id slots'
  unfolding acquire_immediate_audit_slot
  acquire-IsTaken configured slots slots' id e =
      let t = try_slots-IsTaken 1 (slot_count configured) slots slots' id e in
      record {
        number = t.number;
        named = t.named;
        from = t.from;
        below = omega (arith, t.below, slot_count_bound configured);
        was_free = t.was_free;
        stored = t.stored;
      }

  -- Whether the audit returns or throws, its execution slot is free again when the dispatch ends,
  -- provided that nobody else wrote the slot meanwhile.
  pub dispatch-is_free :
      {A : Type 0} (configured : Option ℕ) (later : ℕ)
      (process : Docs ImmediateAuditSlot → Option A × Docs ImmediateAuditSlot)
      (slots slots' : Docs ImmediateAuditSlot) (id : String)
      → acquire_immediate_audit_slot M configured job_id now slots ≡ (some id, slots')
      → find_one (process slots').1 id ≡ find_one slots' id
      → is_free later
          (find_one (dispatch_immediate_audit_job M configured job_id now later process slots).1 id)
        ≡ true
  unfolding dispatch_immediate_audit_job release_immediate_audit_slot
  dispatch-is_free configured later process slots slots' id e kept =
      let t = acquire-IsTaken configured slots slots' id e in
      let held = taken job_id now (find_one slots id) in
      let there : find_one slots' id ≡ some held =
        rw t.stored (rw (find_one-write, eq_refl) refl) in
      let freed : ImmediateAuditSlot = record held {
        job_id = none;
        expires_at = some later;
        updated_at = some later;
      } in
      ground (
        arith,
        e,
        kept,
        there,
        eq_refl job_id,
        eq_refl id,
        find_one-write (process slots').1 id freed id,
      )
