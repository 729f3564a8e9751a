-- ===== src/TopHeap/Up.antt =====
-- `bubbleUp` of workers/link-intelligence/src/heap.ts restores the order of the heap.
use growth_sent.Prelude.{
  ℕ, zero, suc, ◌<◌, ◌≤◌, ◌≡◌, ◌≢◌, refl, true, false, ◌||◌, leb, ◌==◌, if◌then◌else◌, arith,
  if-elim, Bool-cases, ==→≡, inl, inr, subst, sym, ◌∙◌,
}
use growth_sent.TopHeap.{HeapItem, swapped, parent, bubble_up}
use growth_sent.TopHeap.Count.{count_above, count-swapped}

pub ≠→≢ : (a b : ℕ) → (a == b) ≡ false → a ≢ b
≠→≢ a b h = λ e. ground arith

pub lt→≠ : (a b : ℕ) → a < b → (a == b) ≡ false
lt→≠ a b h = ground arith

pub gt→≠ : (a b : ℕ) → b < a → (a == b) ≡ false
gt→≠ a b h = ground arith

pub lt→≢ : (a b : ℕ) → a < b → a ≢ b
lt→≢ a b h = λ e. omega (arith, h, e)

pub lt_trans : (a b c : ℕ) → a < b → b < c → a < c
lt_trans a b c h g = omega (arith, h, g)

-- No item of the first `n` scores less than its parent. The order is one of the scores.
abbrev pub IsHeap : ℕ → (ℕ → ℕ) → Type 0
IsHeap n s = (j : ℕ) → 0 < j → j < n → s (parent j) ≤ s j

-- It may be broken at `i`, whose children are in order with its parent.
pub record IsUpHeap (n i : ℕ) (s : ℕ → ℕ) : Type 0 where
  pub others : (j : ℕ) → 0 < j → j < n → j ≢ i → s (parent j) ≤ s j
  pub children : (j : ℕ) → 0 < j → j < n → parent j ≡ i → 0 < i → s (parent i) ≤ s j

-- The scores after two are exchanged.
abbrev pub Exchanged : ℕ → ℕ → (ℕ → ℕ) → (ℕ → ℕ) → Type 0
Exchanged i j s s' = (k : ℕ) → s' k ≡ (if k == j then s i else if k == i then s j else s k)

pub parent-lt : (j : ℕ) → 0 < j → parent j < j
parent-lt j h = omega (arith, h)

module _ (i j : ℕ) (s s' : ℕ → ℕ) (swap : Exchanged i j s s') where
  pub exchanged_right : s' j ≡ s i
  exchanged_right = ground (arith, swap j)

  pub exchanged_left : s' i ≡ s j
  exchanged_left = ground (arith, swap i)

  pub exchanged_other : (k : ℕ) → (k == i) ≡ false → (k == j) ≡ false → s' k ≡ s k
  exchanged_other k h g = ground (arith, swap k)

module _ (n i p : ℕ) (s s' : ℕ → ℕ) (swap : Exchanged p i s s') (inside : i < n) (under : p < i)
    (above : parent i ≡ p) (lower : s i < s p) (h : IsUpHeap n i s) where
  up-others : (j : ℕ) → 0 < j → j < n → j ≢ p → s' (parent j) ≤ s' j
  up-others j pj bj differs =
      let right = exchanged_right p i s s' swap in
      let left = exchanged_left p i s s' swap in
      let same_j : (j == i) ≡ false → s' j ≡ s j =
        λ other. exchanged_other p i s s' swap j (ground (arith, differs)) other in
      elim (Bool-cases (j == i)) [
        | inl same ↦
            let ji : j ≡ i = ground arith in
            subst (λ k. s' (parent k) ≤ s' k) (sym ji)
              (subst (λ q. s' q ≤ s' i) (sym above) (omega (arith, left, right, lower)))
        | inr other ↦ elim (Bool-cases (parent j == p)) [
          | inl child ↦
              let jp : parent j ≡ p = ==→≡ (parent j) p child in
              let below = h.others j pj bj (≠→≢ j i other) in
              subst (λ q. s' q ≤ s' j) (sym jp)
                (omega (arith, left, same_j other, lower, subst (λ q. s q ≤ s j) jp below))
          | inr not_child ↦ elim (Bool-cases (parent j == i)) [
            | inl grandchild ↦
                let ji : parent j ≡ i = ==→≡ (parent j) i grandchild in
                let below = h.children j pj bj ji (omega (arith, under)) in
                subst (λ q. s' q ≤ s' j) (sym ji)
                  (omega (arith, right, same_j other, subst (λ q. s q ≤ s j) above below))
            | inr elsewhere ↦
                let unmoved = exchanged_other p i s s' swap (parent j) not_child elsewhere in
                omega (arith, unmoved, same_j other, h.others j pj bj (≠→≢ j i other))
          ]
        ]
      ]

  up-children : (j : ℕ) → 0 < j → j < n → parent j ≡ p → 0 < p → s' (parent p) ≤ s' j
  up-children j pj bj child pp =
      let right = exchanged_right p i s s' swap in
      let unmoved =
        exchanged_other p i s s' swap (parent p) (lt→≠ (parent p) p (parent-lt p pp))
          (lt→≠ (parent p) i (lt_trans (parent p) p i (parent-lt p pp) under)) in
      let top = h.others p pp (lt_trans p i n under inside) (lt→≢ p i under) in
      elim (Bool-cases (j == i)) [
        | inl same ↦
            subst (λ k. s' (parent p) ≤ s' k) (sym (==→≡ j i same))
              (omega (arith, unmoved, right, top))
        | inr other ↦
            let same_j =
              exchanged_other p i s s' swap j (gt→≠ j p (subst (λ q. q < j) child (parent-lt j pj)))
                other in
            let below = subst (λ q. s q ≤ s j) child (h.others j pj bj (≠→≢ j i other)) in
            omega (arith, unmoved, same_j, below, top)
      ]

  pub up-IsUpHeap : IsUpHeap n p s'
  up-IsUpHeap = record { others = up-others; children = up-children }

in_order :
    (i : ℕ) (s : ℕ → ℕ) → (i == 0 || leb (s (parent i)) (s i)) ≡ true → 0 < i → s (parent i) ≤ s i
in_order i s stop positive = ground arith

out_of_order :
    (i : ℕ) (s : ℕ → ℕ)
    → (i == 0 || leb (s (parent i)) (s i)) ≡ false
    → (0 < i) × (s i < s (parent i))
out_of_order i s go = (ground arith, ground arith)

module _ {T : Type 0} where
  abbrev pub scores : (ℕ → HeapItem T) → ℕ → ℕ
  scores at k = (at k).score

  pub swapped-Exchanged :
      (i j : ℕ) (at : ℕ → HeapItem T) → Exchanged i j (scores at) (scores (swapped at i j))
  swapped-Exchanged i j at k = ground arith

  pub bubble_up-IsHeap :
      (fuel n i : ℕ) (at : ℕ → HeapItem T)
      → i ≤ fuel
      → i < n
      → IsUpHeap n i (scores at)
      → IsHeap n (scores (bubble_up fuel i at))
  unfolding bubble_up
  bubble_up-IsHeap zero n i at few inside h =
      λ j pj bj. h.others j pj bj (λ e. omega (arith, e, few, pj))
  bubble_up-IsHeap (suc fuel) n i at few inside h =
      if-elim (λ (a : ℕ → HeapItem T). IsHeap n (scores a))
        (i == 0 || leb (at (parent i)).score (at i).score)
        (λ stop j pj bj. elim (Bool-cases (j == i)) [
          | inr other ↦ h.others j pj bj (≠→≢ j i other)
          | inl same ↦
              subst (λ k. scores at (parent k) ≤ scores at k) (sym (==→≡ j i same))
                (in_order i (scores at) stop (subst (λ k. 0 < k) (==→≡ j i same) pj))
        ])
        (λ go.
          let (positive, lower) = out_of_order i (scores at) go in
          bubble_up-IsHeap fuel n (parent i) (swapped at (parent i) i)
            (omega (arith, few, positive)) (omega (arith, inside))
            (up-IsUpHeap n i (parent i) (scores at) (scores (swapped at (parent i) i))
              (swapped-Exchanged (parent i) i at) inside (parent-lt i positive) refl lower h))

  pub bubble_up-count :
      (fuel t n i : ℕ) (at : ℕ → HeapItem T)
      → i < n
      → count_above t (bubble_up fuel i at) n ≡ count_above t at n
  unfolding bubble_up
  bubble_up-count zero t n i at inside = refl
  bubble_up-count (suc fuel) t n i at inside =
      if-elim (λ (a : ℕ → HeapItem T). count_above t a n ≡ count_above t at n)
        (i == 0 || leb (at (parent i)).score (at i).score) (λ stop. refl)
        (λ go.
          bubble_up-count fuel t n (parent i) (swapped at (parent i) i) (omega (arith, inside))
          ∙ count-swapped t n (parent i) i at (omega (arith, inside)) inside)
