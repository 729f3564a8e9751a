-- ===== src/ImmediateAudit/Tests.antt =====
-- Two jobs and one execution slot of lib/jobs/immediate-audit.ts.
use growth_sent.Prelude.{ℕ, ◌≡◌, refl, true, none, some, List, [], ◌∷◌, String, decimal}
use growth_sent.Mongo.Memory.{memory, find}
use growth_sent.ImmediateAudit.{
  ImmediateAuditSlot, taken, acquire_immediate_audit_slot, try_slot, try_slots, slot_count,
  dispatch_immediate_audit_job,
}
use growth_sent.ImmediateAudit.Dispatch.{is_free, dispatch-is_free}

abbrev busy : List (String × ImmediateAuditSlot)
busy = ("immediate-audit-1", taken "job1" 1000 none) ∷ []

abbrev both : List (String × ImmediateAuditSlot)
both =
    ("immediate-audit-1", taken "job1" 1000 none)
    ∷ ("immediate-audit-2", taken "job2" 2000 none)
    ∷ []

second_slot :
    acquire_immediate_audit_slot memory (some 2) "job2" 2000 busy ≡ (some "immediate-audit-2", both)
unfolding acquire_immediate_audit_slot try_slot try_slots slot_count decimal
second_slot = refl

dispatch-is_free_example :
    is_free 9000 (
      find
        (dispatch_immediate_audit_job memory {A = ℕ}
          (some 2)
          "job2"
          2000
          9000
          (λ slots. (some 7, slots))
          busy).1
        "immediate-audit-2")
    ≡ true
dispatch-is_free_example =
    dispatch-is_free memory "job2" 2000 {A = ℕ} (some 2) 9000 (λ slots. (some 7, slots)) busy both
      "immediate-audit-2" second_slot refl
