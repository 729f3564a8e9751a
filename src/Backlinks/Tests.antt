-- ===== src/Backlinks/Tests.antt =====
-- Requests to lib/backlinks/shared-protection.ts.
use growth_sent.Prelude.{ℕ, ◌≡◌, refl, none, some, List, [], ◌∷◌, String, arith}
use growth_sent.Mongo.Memory.{memory}
use growth_sent.Backlinks.{
  ProtectionDocument, claimed, claim_lease, publish_rows, release_lease, get_shared_backlink_rows,
  coalesced_pending,
}
use growth_sent.Backlinks.Quota.{let_through, let_through-min}
use growth_sent.Backlinks.Shared.{lease_coalesces}

let_through-min_example : let_through memory ℕ "u1" (60000 ∷ 60001 ∷ 119999 ∷ []) [] ≡ 3
let_through-min_example =
    let_through-min memory ℕ "u1" 1 (60000 ∷ 60001 ∷ 119999 ∷ []) [] (refl, (refl, (refl, tt)))

abbrev loading : List (String × ProtectionDocument ℕ)
loading = ("key", claimed "lease1" 1000 none) ∷ []

lease_coalesces_example :
    (get_shared_backlink_rows memory "key" "lease2" 2000 2750 (some 7) (λ d. d) loading
      ≡ (some (none, coalesced_pending), loading))
    × (publish_rows memory "key" "lease2" 8 2750 loading ≡ loading)
    × (release_lease memory "key" "lease2" loading ≡ loading)
unfolding claim_lease
lease_coalesces_example =
    lease_coalesces memory ℕ "key" "lease1" 1000 [] loading "lease2" 2000 2750 (some 7) 8 refl
      (omega arith) refl
