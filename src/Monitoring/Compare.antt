-- ===== src/Monitoring/Compare.antt =====
-- What lib/monitoring/engine.ts says of two scans, against the sets of their findings.
use growth_sent.Prelude.{
  ℕ, zero, suc, ◌+◌, ◌≤◌, ◌≡◌, refl, true, false, ◌&&◌, ◌||◌, not, Option, none, some, List, [],
  ◌∷◌, String, ◌===◌, if◌then◌else◌, length, map, take, arith, eq_iff, eq_refl, Bool-cases, inl,
  inr, ap, ◌∙◌, if-elim,
}
use growth_sent.Monitoring.{
  Page, Scans, MonitoringSnapshot, has, added, set_of, missing_in, key_of_issue, previous_scan,
  issue_keys, page_urls, compare_scans_and_snapshot,
}

abbrev Distinct : List String → Type 0
Distinct [] = Unit
Distinct (key ∷ keys) = (has key keys ≡ false) × Distinct keys

has-same : (j k : String) (keys : List String) → (j === k) ≡ true → has j keys ≡ has k keys
has-same j k keys same = ap (λ key. has key keys) ((eq_iff j k).0 same)

has-added :
    (seen keys : List String) (k : String)
    → has k (added seen keys) ≡ (has k keys && not (has k seen))
unfolding added
has-added seen [] k = ground arith
has-added seen (key ∷ keys) k =
    ground (arith, has-added (key ∷ seen) keys k, has-added seen keys k, has-same key k seen)

added-Distinct : (seen keys : List String) → Distinct (added seen keys)
unfolding added
added-Distinct seen [] = tt
added-Distinct seen (key ∷ keys) =
    if-elim Distinct (has key seen) (λ there. added-Distinct seen keys)
      (λ new. (
        ground (arith, has-added (key ∷ seen) keys key, eq_refl key),
        added-Distinct (key ∷ seen) keys,
      ))

has-set_of : (keys : List String) (k : String) → has k (set_of keys) ≡ has k keys
unfolding set_of
has-set_of keys k = ground (arith, has-added [] keys k)

has-missing_in :
    (others keys : List String) (k : String)
    → has k (missing_in others keys) ≡ (has k keys && not (has k others))
unfolding missing_in
has-missing_in others [] k = refl
has-missing_in others (key ∷ keys) k =
    ground (arith, has-missing_in others keys k, has-same key k others)

-- How many keys the other set has as well.
shared : List String → List String → ℕ
shared others [] = 0
shared others (key ∷ keys) = (if has key others then 1 else 0) + shared others keys

length-missing_in :
    (others keys : List String) → length (missing_in others keys) + shared others keys ≡ length keys
unfolding missing_in shared
length-missing_in others [] = refl
length-missing_in others (key ∷ keys) = ground (arith, length-missing_in others keys)

shared-absent :
    (key : String) (others keys : List String)
    → has key keys ≡ false
    → shared (key ∷ others) keys ≡ shared others keys
unfolding shared
shared-absent key others [] h = refl
shared-absent key others (k ∷ keys) h =
    ground (arith, shared-absent key others keys, eq_iff key k, eq_iff k key)

shared-cons :
    (key : String) (others keys : List String)
    → has key others ≡ false
    → Distinct keys
    → shared (key ∷ others) keys ≡ (if has key keys then 1 else 0) + shared others keys
unfolding shared
shared-cons key others [] new distinct = refl
shared-cons key others (k ∷ keys) new (fresh, distinct) = elim (Bool-cases (key === k)) [
  | inl same ↦ ground (
    arith,
    has-same key k others same,
    has-same key k keys same,
    shared-absent key others keys,
    eq_iff key k,
    eq_iff k key,
  )
  | inr differs ↦
      ground (arith, shared-cons key others keys new distinct, eq_iff key k, eq_iff k key)
]

shared-nil : (keys : List String) → shared [] keys ≡ 0
unfolding shared
shared-nil [] = refl
shared-nil (key ∷ keys) = omega (arith, shared-nil keys)

shared_comm :
    (left right : List String)
    → Distinct left
    → Distinct right
    → shared left right ≡ shared right left
unfolding shared
shared_comm [] right d e = shared-nil right
shared_comm (key ∷ left) right (fresh, d) e =
    omega (arith, shared-cons key left right fresh e, shared_comm left right d e)

-- Two sets differ in size as they differ in what they have alone.
missing_in_balance :
    (left right : List String)
    → length (missing_in (set_of left) (set_of right)) + length (set_of left)
      ≡ length (missing_in (set_of right) (set_of left)) + length (set_of right)
unfolding set_of
missing_in_balance left right = omega (
  arith,
  length-missing_in (set_of left) (set_of right),
  length-missing_in (set_of right) (set_of left),
  shared_comm (set_of left) (set_of right) (added-Distinct [] left) (added-Distinct [] right),
)

has-take :
    (n : ℕ) (keys : List String) (k : String) → length keys ≤ n → has k (take n keys) ≡ has k keys
has-take n [] k h = refl
has-take zero (key ∷ keys) k h = absurd (omega (arith, h))
has-take (suc n) (key ∷ keys) k h = ap (λ b. key === k || b) (has-take n keys k (omega (arith, h)))

-- The first 50 of at most 50 are the keys that one list has and the other has not.
listed :
    (others keys others_set keys_set : List String) (k : String)
    → others_set ≡ set_of others
    → keys_set ≡ set_of keys
    → length (missing_in others_set keys_set) ≤ 50
    → has k (take 50 (missing_in others_set keys_set)) ≡ (has k keys && not (has k others))
listed others keys others_set keys_set k o e few =
    has-take 50 (missing_in others_set keys_set) k few
    ∙ ground (
      arith,
      has-missing_in others_set keys_set k,
      ap (has k) o,
      ap (has k) e,
      has-set_of others k,
      has-set_of keys k,
    )

module _ (scans : Scans) where
  -- The keys of the findings of a scan, and the addresses of its pages.
  abbrev pub findings : Option String → List String
  findings none = []
  findings (some scan) = map key_of_issue (scans.issues_of scan)

  abbrev pub addresses : Option String → List String
  addresses none = []
  addresses (some scan) = map (λ (p : Page). p.url) (scans.pages_of scan)

  issue_keys-eq : (scan : Option String) → issue_keys scans scan ≡ set_of (findings scan)
  issue_keys-eq none = refl
  issue_keys-eq (some scan) = refl

  page_urls-eq : (scan : Option String) → page_urls scans scan ≡ set_of (addresses scan)
  page_urls-eq none = refl
  page_urls-eq (some scan) = refl

  module _ (website current : String) (given : Option String) (now : ℕ) where
    abbrev pub snapshot : MonitoringSnapshot
    snapshot = compare_scans_and_snapshot scans website current given now

    abbrev pub before : Option String
    before = previous_scan scans given

    pub record IsCompared : Type 0 where
      pub issues_balance :
          snapshot.new_issues_count + length (set_of (findings before))
          ≡ snapshot.resolved_issues_count + length (set_of (findings (some current)))
      pub pages_balance :
          snapshot.new_pages_count + length (set_of (addresses before))
          ≡ snapshot.removed_pages_count + length (set_of (addresses (some current)))
      pub came :
          (k : String)
          → snapshot.new_issues_count ≤ 50
          → has k snapshot.new_issues
            ≡ (has k (findings (some current)) && not (has k (findings before)))
      pub went :
          (k : String)
          → snapshot.resolved_issues_count ≤ 50
          → has k snapshot.resolved_issues
            ≡ (has k (findings before) && not (has k (findings (some current))))
      pub page_came :
          (k : String)
          → snapshot.new_pages_count ≤ 50
          → has k snapshot.new_pages
            ≡ (has k (addresses (some current)) && not (has k (addresses before)))
      pub page_went :
          (k : String)
          → snapshot.removed_pages_count ≤ 50
          → has k snapshot.removed_pages
            ≡ (has k (addresses before) && not (has k (addresses (some current))))

    -- What a snapshot says agrees with the scans: the counts of what came and of what went balance
    -- the numbers of distinct findings and of distinct addresses, and as long as there are at most
    -- 50, a finding is listed as new when only the current scan has it, as resolved when only the
    -- previous one has it, and so is an address.
    pub compare-IsCompared : IsCompared
    unfolding compare_scans_and_snapshot
    compare-IsCompared = record {
      issues_balance =
          rw issue_keys-eq (missing_in_balance (findings before) (findings (some current)));
      pages_balance =
          rw page_urls-eq (missing_in_balance (addresses before) (addresses (some current)));
      came = λ k few.
          listed (findings before) (findings (some current)) _ _ k (issue_keys-eq before)
            (issue_keys-eq (some current)) few;
      went = λ k few.
          listed (findings (some current)) (findings before) _ _ k (issue_keys-eq (some current))
            (issue_keys-eq before) few;
      page_came = λ k few.
          listed (addresses before) (addresses (some current)) _ _ k (page_urls-eq before)
            (page_urls-eq (some current)) few;
      page_went = λ k few.
          listed (addresses (some current)) (addresses before) _ _ k (page_urls-eq (some current))
            (page_urls-eq before) few;
    }
