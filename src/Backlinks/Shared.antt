-- ===== src/Backlinks/Shared.antt =====
-- The cache of lib/backlinks/shared-protection.ts that equal requests share.
use growth_sent.Prelude.{
  ℕ, ◌+◌, ◌<◌, ◌≡◌, true, false, Option, none, some, String, ◌===◌, arith, eq_refl, eq_iff,
  Option-cases, inl, inr,
}
use growth_sent.Mongo.{Mongo}
use growth_sent.Backlinks.{
  ProtectionDocument, claimed, published, lease_ttl_ms, cache_ttl_ms, cache_hit, coalesced_pending,
  read_ready, claim_lease, publish_rows, release_lease, get_shared_backlink_rows,
}

module _ (M : Mongo) (Rows : Type 0) (key lease : String) (now : ℕ)
    (c c' : M.Docs (ProtectionDocument Rows)) where
  open M use {find_one, write, find_one-write}

  -- What a claim stored.
  claim_lease-stored :
      claim_lease M key lease now c ≡ (true, c')
      → (before : Option (ProtectionDocument Rows)) × (c' ≡ write c key (claimed lease now before))
  unfolding claim_lease
  claim_lease-stored got = elim (Option-cases (find_one c key)) [
    | inl missing ↦ (none, ground arith)
    | inr (d, found) ↦ (some d, ground arith)
  ]

  module _ (got : claim_lease M key lease now c ≡ (true, c')) where
    claimed_found :
        (before : Option (ProtectionDocument Rows)) × (find_one c' key
          ≡ some (claimed lease now before))
    claimed_found =
        let (before, stored) = claim_lease-stored got in
        (before, ground (arith, find_one-write c key (claimed lease now before) key, eq_refl key))

  -- While a request loads the rows, and its lease lasts, no equal request loads them too: it is told
  -- that they are pending, and neither it nor an old holder of the lease changes the document.
  pub lease_coalesces :
      (lease' : String) (later later' : ℕ) (load : Option Rows) (rows : Rows)
      → claim_lease M key lease now c ≡ (true, c')
      → later < now + lease_ttl_ms
      → (lease' === lease) ≡ false
      → (get_shared_backlink_rows M key lease' later later' load (λ d. d) c'
          ≡ (some (none, coalesced_pending), c'))
        × (publish_rows M key lease' rows later' c' ≡ c')
        × (release_lease M key lease' c' ≡ c')
  unfolding get_shared_backlink_rows claim_lease read_ready publish_rows release_lease
  lease_coalesces lease' later later' load rows got early other =
      let (before, found) = claimed_found got in
      let turned : (lease === lease') ≡ false =
        ground (arith, eq_iff lease' lease, eq_iff lease lease') in
      (ground arith, ground arith, ground arith)

  -- The rows that a request publishes under its lease answer every equal request of the next minute.
  pub publish-cache_hit :
      (lease' : String) (later soon soon' : ℕ) (rows : Rows) (load : Option Rows)
      (other : M.Docs (ProtectionDocument Rows) → M.Docs (ProtectionDocument Rows))
      → claim_lease M key lease now c ≡ (true, c')
      → soon < later + cache_ttl_ms
      → get_shared_backlink_rows M key lease' soon soon' load other
          (publish_rows M key lease rows later c')
        ≡ (some (some rows, cache_hit), publish_rows M key lease rows later c')
  unfolding get_shared_backlink_rows read_ready publish_rows
  publish-cache_hit lease' later soon soon' rows load other got in_time =
      let (before, found) = claimed_found got in
      let d = published rows later (claimed lease now before) in
      ground (arith, find_one-write c' key d key, eq_refl key, eq_refl lease)
