-- ===== src/CommonCrawl/Tests.antt =====
-- Two workers and the leases of lib/crawler/common-crawl-admission.ts.
use growth_sent.Prelude.{◌≡◌, refl, true, false, List, [], ◌∷◌, String, arith}
use growth_sent.Mongo.Memory.{memory}
use growth_sent.CommonCrawl.{
  Lease, slot, Request, leased, try_acquire_lease, release_requester_lease, release_slot_lease,
  acquire_common_crawl_admission,
}
use growth_sent.CommonCrawl.Exclusive.{lease_exclusive}
use growth_sent.CommonCrawl.Acquire.{acquire-decision, decision}

abbrev mine : Request
mine = record {
  document_id = "slot:0";
  kind = slot;
  job_id = "job1";
  lease_id = "lease1";
  requester_key = "ccr_1";
}

abbrev theirs : Request
theirs = record mine { job_id = "job2"; lease_id = "lease2"; requester_key = "ccr_2" }

abbrev held : List (String × Lease)
held = ("slot:0", leased mine 1000) ∷ []

lease_exclusive_example :
    (try_acquire_lease memory theirs 2000 held ≡ (false, held))
    × (release_requester_lease memory theirs held ≡ held)
    × (release_slot_lease memory theirs 2000 held ≡ held)
unfolding try_acquire_lease
lease_exclusive_example =
    lease_exclusive memory [] held mine theirs 1000 2000 refl refl (omega arith) refl

acquire-decision_example :
    acquire_common_crawl_admission memory true "job1" "ccr_1" "lease1" 1000 (λ n. 1001) []
    ≡ decision memory (λ n. 1001) "job1" "ccr_1" "lease1" 1000 []
acquire-decision_example = acquire-decision memory (λ n. 1001) "job1" "ccr_1" "lease1" 1000 [] true
