-- ===== src/CommonCrawl/Exclusive.antt =====
-- A lease of lib/crawler/common-crawl-admission.ts has one owner until it ends.
use growth_sent.Prelude.{
  ℕ, ◌+◌, ◌<◌, ◌≡◌, refl, inl, inr, Bool, true, false, Option, none, some, ◌===◌, if◌then◌else◌,
  arith, eq_refl, eq_iff, Option-cases,
}
use growth_sent.Mongo.{Mongo}
use growth_sent.CommonCrawl.{
  Lease, LeaseKind, requester, slot, Request, leased, lease_duration_ms, can_take, same_kind,
  released, try_acquire_lease, release_requester_lease, release_slot_lease,
}

same_kind_refl : (k : LeaseKind) → same_kind k k ≡ true
same_kind_refl requester = refl
same_kind_refl slot = refl

same_kind_iff : (j k : LeaseKind) → same_kind j k ≡ true → j ≡ k
same_kind_iff requester requester e = refl
same_kind_iff requester slot e = cc
same_kind_iff slot requester e = cc
same_kind_iff slot slot e = refl

module _ (M : Mongo) (c : M.Docs Lease) where
  open M use {find_one, write, find_one-write}

  abbrev pub is_free : Request → ℕ → Option Lease → Bool
  is_free input now none = true
  is_free input now (some d) = can_take input now d

  -- A lease is taken exactly when its document is missing or has ended, and nothing else changes.
  pub try_acquire_lease-eq :
      (input : Request) (now : ℕ)
      → try_acquire_lease M input now c ≡ (
          if is_free input now (find_one c input.document_id)
          then (true, write c input.document_id (leased input now))
          else (false, c))
  unfolding try_acquire_lease
  try_acquire_lease-eq input now = elim (Option-cases (find_one c input.document_id)) [
    | inl missing ↦ ground arith
    | inr (d, found) ↦ ground (arith, eq_refl input.lease_id, same_kind_iff d.kind input.kind)
  ]

  module _ (input : Request) (now : ℕ) (c' : M.Docs Lease)
      (got : try_acquire_lease M input now c ≡ (true, c')) where
    pub got-stored : find_one c' input.document_id ≡ some (leased input now)
    got-stored = ground (
      arith,
      try_acquire_lease-eq input now,
      find_one-write c input.document_id (leased input now) input.document_id,
      eq_refl input.document_id,
    )

module _ (M : Mongo) (c c' : M.Docs Lease) (input input' : Request) (now later : ℕ) where
  open M use {find_one, write, find_one-write, find_one-delete_one}

  -- While a lease lasts, every further request for its document is refused and changes nothing, and
  -- a release by a worker with another lease id changes nothing either.
  pub lease_exclusive :
      try_acquire_lease M input now c ≡ (true, c')
      → input'.document_id ≡ input.document_id
      → later < now + lease_duration_ms
      → (input'.lease_id === input.lease_id) ≡ false
      → (try_acquire_lease M input' later c' ≡ (false, c'))
        × (release_requester_lease M input' c' ≡ c')
        × (release_slot_lease M input' later c' ≡ c')
  unfolding release_requester_lease release_slot_lease
  lease_exclusive got same early other =
      let stored = got-stored M c input now c' got in
      let eq = try_acquire_lease-eq M c' input' later in
      let turned : (input.lease_id === input'.lease_id) ≡ false =
        ground
          (arith, eq_iff input.lease_id input'.lease_id, eq_iff input'.lease_id input.lease_id) in
      (ground arith, ground arith, ground arith)

  -- The owner's release gives the document back at once: the next request for it is served.
  pub lease_returned :
      try_acquire_lease M input now c ≡ (true, c')
      → input'.document_id ≡ input.document_id
      → input'.kind ≡ input.kind
      → ((try_acquire_lease M input' later (release_requester_lease M input c')).0 ≡ true)
        × ((try_acquire_lease M input' later (release_slot_lease M input later c')).0 ≡ true)
  unfolding release_requester_lease release_slot_lease
  lease_returned got same kind =
      let stored = got-stored M c input now c' got in
      let kinds = same_kind_refl input.kind in
      let freed = released later (leased input now) in
      (
        ground (
          arith,
          try_acquire_lease-eq M (M.delete_one c' input.document_id) input' later,
          find_one-delete_one c' input.document_id input.document_id,
          eq_refl input.document_id,
          eq_refl input.job_id,
          eq_refl input.lease_id,
        ),
        ground (
          arith,
          try_acquire_lease-eq M (write c' input.document_id freed) input' later,
          find_one-write c' input.document_id freed input.document_id,
          eq_refl input.document_id,
          eq_refl input.job_id,
          eq_refl input.lease_id,
        ),
      )
