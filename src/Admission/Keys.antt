-- ===== src/Admission/Keys.antt =====
-- The document keys of lib/jobs/crawl-admission.ts: those of different kinds are never equal.
use growth_sent.Prelude.{
  ℕ, ◌≡◌, refl, ◌≢◌, some, false, String, ◌===◌, codes, get_elem?, codes-append, arith, eq_iff,
}
use growth_sent.Admission.{
  quota_document_id, active_claim_document_id, target_document_id, queue_document_id,
}

tell_apart :
    (s t : String) (x y : ℕ)
    → get_elem? (codes s) 2 ≡ some x
    → get_elem? (codes t) 2 ≡ some y
    → x ≢ y
    → (s === t) ≡ false
tell_apart s t x y hs ht ne = ground (arith, eq_iff s t)

turn : (s t : String) → (s === t) ≡ false → (t === s) ≡ false
turn s t h = ground (arith, eq_iff s t, eq_iff t s)

third_quota : (a : String) (n : ℕ) → get_elem? (codes (quota_document_id a n)) 2 ≡ some b'o'
unfolding quota_document_id
third_quota a n = rw codes-append refl

third_active : (a t : String) → get_elem? (codes (active_claim_document_id a t)) 2 ≡ some b't'
unfolding active_claim_document_id
third_active a t = rw codes-append refl

third_target : (t : String) → get_elem? (codes (target_document_id t)) 2 ≡ some b'r'
unfolding target_document_id
third_target t = rw codes-append refl

third_queue : get_elem? (codes queue_document_id) 2 ≡ some b'e'
unfolding queue_document_id
third_queue = refl

module _ (a b t u : String) (n : ℕ) where
  pub active-ne-quota : (active_claim_document_id a t === quota_document_id b n) ≡ false
  active-ne-quota = tell_apart _ _ b't' b'o' (third_active a t) (third_quota b n) (omega arith)

  pub active-ne-target : (active_claim_document_id a t === target_document_id u) ≡ false
  active-ne-target = tell_apart _ _ b't' b'r' (third_active a t) (third_target u) (omega arith)

  pub active-ne-queue : (active_claim_document_id a t === queue_document_id) ≡ false
  active-ne-queue = tell_apart _ _ b't' b'e' (third_active a t) third_queue (omega arith)

  pub quota-ne-target : (quota_document_id a n === target_document_id t) ≡ false
  quota-ne-target = tell_apart _ _ b'o' b'r' (third_quota a n) (third_target t) (omega arith)

  pub quota-ne-queue : (quota_document_id a n === queue_document_id) ≡ false
  quota-ne-queue = tell_apart _ _ b'o' b'e' (third_quota a n) third_queue (omega arith)

  pub target-ne-queue : (target_document_id t === queue_document_id) ≡ false
  target-ne-queue = tell_apart _ _ b'r' b'e' (third_target t) third_queue (omega arith)

  pub quota-ne-active : (quota_document_id b n === active_claim_document_id a t) ≡ false
  quota-ne-active = turn _ _ active-ne-quota

  pub target-ne-active : (target_document_id u === active_claim_document_id a t) ≡ false
  target-ne-active = turn _ _ active-ne-target

  pub queue-ne-active : (queue_document_id === active_claim_document_id a t) ≡ false
  queue-ne-active = turn _ _ active-ne-queue

  pub target-ne-quota : (target_document_id t === quota_document_id a n) ≡ false
  target-ne-quota = turn _ _ quota-ne-target

  pub queue-ne-quota : (queue_document_id === quota_document_id a n) ≡ false
  queue-ne-quota = turn _ _ quota-ne-queue

  pub queue-ne-target : (queue_document_id === target_document_id t) ≡ false
  queue-ne-target = turn _ _ target-ne-queue
