-- ===== src/CommonCrawl/Acquire.antt =====
-- The two leases that lib/crawler/common-crawl-admission.ts takes for one job.
use growth_sent.Prelude.{
  ℕ, ◌≡◌, refl, Bool, true, false, Option, none, some, String, ◌===◌, codes, codes-append,
  get_elem?, if◌then◌else◌, arith, eq_refl, eq_iff, Result, ok, err,
}
use growth_sent.Mongo.{Mongo}
use growth_sent.CommonCrawl.{
  Lease, requester, AdmissionError, identity_invalid, Request, Held, leased, requester_document_id,
  slot_document_id, slot_request, global_slot_count, acquire_slot, acquire_common_crawl_admission,
  release_requester_lease,
}
use growth_sent.CommonCrawl.Exclusive.{is_free, try_acquire_lease-eq}

slot-ne-requester :
    (n : ℕ) (key : String) → (slot_document_id n === requester_document_id key) ≡ false
slot-ne-requester n key =
    let first : get_elem? (codes (slot_document_id n)) 0 ≡ some b's' = rw codes-append refl in
    let other : get_elem? (codes (requester_document_id key)) 0 ≡ some b'r' =
      rw codes-append refl in
    ground (arith, eq_iff (slot_document_id n) (requester_document_id key))

module _ (M : Mongo) (clock : ℕ → ℕ) where
  open M use {Docs, find_one, write, find_one-write}

  abbrev pub slot_is_free : Docs Lease → Request → ℕ → Bool
  slot_is_free c input n =
      is_free M c (slot_request M input n) (clock n) (find_one c (slot_document_id n))

  abbrev pub with_slot : Docs Lease → Request → ℕ → Docs Lease
  with_slot c input n = write c (slot_document_id n) (leased (slot_request M input n) (clock n))

  acquire_slot-eq :
      (input : Request) (c : Docs Lease)
      → acquire_slot M input 0 global_slot_count clock c ≡ (
          if slot_is_free c input 0
          then (some 0, with_slot c input 0)
          else if slot_is_free c input 1
          then (some 1, with_slot c input 1)
          else (none, c))
  unfolding acquire_slot
  acquire_slot-eq input c = ground (
    arith,
    try_acquire_lease-eq M c (slot_request M input 0) (clock 0),
    try_acquire_lease-eq M c (slot_request M input 1) (clock 1),
  )

  module _ (job_id requester_key lease_id : String) (now : ℕ) (c : Docs Lease) where
    abbrev pub request : Request
    request = record {
      document_id = requester_document_id requester_key;
      kind = requester;
      job_id = job_id;
      lease_id = lease_id;
      requester_key = requester_key;
    }

    abbrev pub own_key : String
    own_key = requester_document_id requester_key

    abbrev pub with_requester : Docs Lease
    with_requester = write c own_key (leased request now)

    abbrev pub held : ℕ → Held
    held n = record { requester = request; slot = slot_request M request n }

    -- The decision, read off the state before.
    abbrev pub decision : Result AdmissionError (Option Held) × Docs Lease
    decision =
        if is_free M c request now (find_one c own_key)
        then if slot_is_free c request 0
          then (ok (some (held 0)), with_slot with_requester request 0)
          else if slot_is_free c request 1
          then (ok (some (held 1)), with_slot with_requester request 1)
          else (ok none, M.delete_one with_requester own_key)
        else (ok none, c)

    slot_kept :
        (n : ℕ) → find_one with_requester (slot_document_id n) ≡ find_one c (slot_document_id n)
    slot_kept n = ground (
      arith,
      find_one-write c own_key (leased request now) (slot_document_id n),
      slot-ne-requester n requester_key,
      eq_iff own_key (slot_document_id n),
      eq_iff (slot_document_id n) own_key,
    )

    -- A job with sound identities is admitted exactly when its requester's document and one of the
    -- two slots are free at the times at which they are tried; it then holds both with its own lease
    -- id. A busy requester changes nothing, and where both slots are busy the requester's document,
    -- just taken, is deleted again. Unsound identities change nothing.
    pub acquire-decision :
        (is_valid : Bool)
        → acquire_common_crawl_admission M is_valid job_id requester_key lease_id now clock c
          ≡ (if is_valid then decision else (err identity_invalid, c))
    unfolding acquire_common_crawl_admission release_requester_lease
    acquire-decision false = refl
    acquire-decision true = ground (
      arith,
      try_acquire_lease-eq M c request now,
      acquire_slot-eq request with_requester,
      slot_kept 0,
      slot_kept 1,
      find_one-write c own_key (leased request now) own_key,
      eq_refl own_key,
      eq_refl job_id,
      eq_refl lease_id,
    )
