-- ===== src/TopHeap/Down.antt =====
-- `bubbleDown` of workers/link-intelligence/src/heap.ts restores the order of the heap.
use growth_sent.Prelude.{
  ℕ, zero, suc, ◌+◌, ◌*◌, ◌<◌, ◌≤◌, ◌≡◌, ◌≢◌, ◌⊎◌, refl, false, ◌&&◌, ltb, ◌==◌, arith, if-elim,
  Bool-cases, ==→≡, inl, inr, subst, sym, ap, ◌∙◌,
}
use growth_sent.TopHeap.{HeapItem, swapped, parent, bubble_down, lower, smallest_of}
use growth_sent.TopHeap.Count.{count_above, count-swapped}
use growth_sent.TopHeap.Up.{
  IsHeap, Exchanged, exchanged_left, exchanged_right, exchanged_other, scores, swapped-Exchanged,
  parent-lt, ≠→≢, lt→≠, gt→≠, lt→≢, lt_trans,
}

pub ≢→≠ : (a b : ℕ) → a ≢ b → (a == b) ≡ false
≢→≠ a b h = ground (arith, h)

-- The order may be broken between `i` and its children, which are in order with its parent.
pub record IsDownHeap (n i : ℕ) (s : ℕ → ℕ) : Type 0 where
  pub others : (j : ℕ) → 0 < j → j < n → parent j ≢ i → s (parent j) ≤ s j
  pub children : (j : ℕ) → 0 < j → j < n → parent j ≡ i → 0 < i → s (parent i) ≤ s j

module _ (n i m : ℕ) (s s' : ℕ → ℕ) (swap : Exchanged i m s s') (inside : m < n) (down : i < m)
    (child : parent m ≡ i) (lowest : (j : ℕ) → 0 < j → j < n → parent j ≡ i → s m ≤ s j)
    (less : s m < s i) (h : IsDownHeap n i s) where
  down-others : (j : ℕ) → 0 < j → j < n → parent j ≢ m → s' (parent j) ≤ s' j
  down-others j pj bj differs =
      let right = exchanged_right i m s s' swap in
      let left = exchanged_left i m s s' swap in
      elim (Bool-cases (j == m)) [
        | inl same ↦
            subst (λ k. s' (parent k) ≤ s' k) (sym (==→≡ j m same))
              (subst (λ q. s' q ≤ s' m) (sym child) (omega (arith, left, right, less)))
        | inr other ↦ elim (Bool-cases (j == i)) [
          | inl same ↦
              let ji : j ≡ i = ==→≡ j i same in
              let pi : 0 < i = subst (λ k. 0 < k) ji pj in
              let up = parent-lt i pi in
              let unmoved =
                exchanged_other i m s s' swap (parent i) (lt→≠ (parent i) i up)
                  (lt→≠ (parent i) m (lt_trans (parent i) i m up down)) in
              subst (λ k. s' (parent k) ≤ s' k) (sym ji)
                (omega (arith, unmoved, left, h.children m (omega (arith, down)) inside child pi))
          | inr not_top ↦
              let same_j = exchanged_other i m s s' swap j not_top other in
              elim (Bool-cases (parent j == i)) [
                | inl under ↦
                    let ji = ==→≡ (parent j) i under in
                    subst (λ q. s' q ≤ s' j) (sym ji)
                      (omega (arith, left, same_j, lowest j pj bj ji))
                | inr elsewhere ↦
                    let unmoved =
                      exchanged_other i m s s' swap (parent j) elsewhere
                        (≢→≠ (parent j) m differs) in
                    omega (arith, unmoved, same_j, h.others j pj bj (≠→≢ (parent j) i elsewhere))
              ]
        ]
      ]

  down-children : (j : ℕ) → 0 < j → j < n → parent j ≡ m → 0 < m → s' (parent m) ≤ s' j
  down-children j pj bj under pm =
      let mj : m < j = subst (λ q. q < j) under (parent-lt j pj) in
      let left = exchanged_left i m s s' swap in
      let same_j =
        exchanged_other i m s s' swap j (gt→≠ j i (lt_trans i m j down mj)) (gt→≠ j m mj) in
      let below =
        subst (λ q. s q ≤ s j) under
          (h.others j pj bj (subst (λ q. q ≢ i) (sym under) (λ e. lt→≢ i m down (sym e)))) in
      subst (λ q. s' q ≤ s' j) (sym child) (omega (arith, left, same_j, below))

  down-IsDownHeap : IsDownHeap n m s'
  down-IsDownHeap = record { others = down-others; children = down-children }

children-of : (i j : ℕ) → 0 < j → parent j ≡ i → (j ≡ 2 * i + 1) ⊎ (j ≡ 2 * i + 2)
children-of i j pj under = elim (Bool-cases (j == 2 * i + 1)) [
  | inl left ↦ inl (==→≡ j (2 * i + 1) left)
  | inr right ↦ inr (omega (arith, under, pj, ≠→≢ j (2 * i + 1) right))
]

-- What a comparison with one child finds.
abbrev Compared : ℕ → (ℕ → ℕ) → ℕ → ℕ → ℕ → Type 0
Compared n s child before after =
    ((after ≡ child) × (child < n) × (s child < s before))
    ⊎ ((after ≡ before) × (child < n → s before ≤ s child))

-- What the comparison with both children of `i` finds.
record IsSmallest (n i : ℕ) (s : ℕ → ℕ) (m : ℕ) : Type 0 where
  lowest : (j : ℕ) → 0 < j → j < n → parent j ≡ i → s m ≤ s j
  moved : (m ≡ i) ⊎ ((i < m) × (m < n) × (parent m ≡ i) × (s m < s i))

module _ (n i : ℕ) (s : ℕ → ℕ) where
  Compared-lowest :
      (l m : ℕ)
      → Compared n s (2 * i + 1) i l
      → Compared n s (2 * i + 2) l m
      → (2 * i + 1 < n → s m ≤ s (2 * i + 1)) × (2 * i + 2 < n → s m ≤ s (2 * i + 2))
  Compared-lowest l m (inl (el, bl, sl)) (inl (em, bm, sm)) =
      ((λ b. omega (arith, ap s el, ap s em, sm)), (λ b. omega (arith, ap s em)))
  Compared-lowest l m (inl (el, bl, sl)) (inr (em, sm)) =
      ((λ b. omega (arith, ap s el, ap s em)), (λ b. omega (arith, ap s em, sm b)))
  Compared-lowest l m (inr (el, sl)) (inl (em, bm, sm)) =
      ((λ b. omega (arith, ap s el, ap s em, sm, sl b)), (λ b. omega (arith, ap s em)))
  Compared-lowest l m (inr (el, sl)) (inr (em, sm)) =
      ((λ b. omega (arith, ap s el, ap s em, sl b)), (λ b. omega (arith, ap s em, sm b)))

  Compared-moved :
      (l m : ℕ)
      → Compared n s (2 * i + 1) i l
      → Compared n s (2 * i + 2) l m
      → (m ≡ i) ⊎ ((i < m) × (m < n) × (parent m ≡ i) × (s m < s i))
  Compared-moved l m (inl (el, bl, sl)) (inl (em, bm, sm)) = inr (
    omega (arith, em),
    omega (arith, em, bm),
    omega (arith, em),
    omega (arith, ap s em, ap s el, sm, sl),
  )
  Compared-moved l m (inl (el, bl, sl)) (inr (em, sm)) = inr (
    omega (arith, em, el),
    omega (arith, em, el, bl),
    omega (arith, em, el),
    omega (arith, ap s em, ap s el, sl),
  )
  Compared-moved l m (inr (el, sl)) (inl (em, bm, sm)) = inr (
    omega (arith, em),
    omega (arith, em, bm),
    omega (arith, em),
    omega (arith, ap s em, ap s el, sm),
  )
  Compared-moved l m (inr (el, sl)) (inr (em, sm)) = inl (em ∙ el)

  Compared-IsSmallest :
      (l m : ℕ) → Compared n s (2 * i + 1) i l → Compared n s (2 * i + 2) l m → IsSmallest n i s m
  Compared-IsSmallest l m cl cm = record {
    lowest = λ j pj bj under. elim (children-of i j pj under) [
      | inl left ↦
          subst (λ k. s m ≤ s k) (sym left)
            ((Compared-lowest l m cl cm).0 (subst (λ k. k < n) left bj))
      | inr right ↦
          subst (λ k. s m ≤ s k) (sym right)
            ((Compared-lowest l m cl cm).1 (subst (λ k. k < n) right bj))
    ];
    moved = Compared-moved l m cl cm;
  }

  restores : (m : ℕ) → IsSmallest n i s m → m ≡ i → IsDownHeap n i s → IsHeap n s
  restores m small same h j pj bj = elim (Bool-cases (parent j == i)) [
    | inl under ↦
        let ji = ==→≡ (parent j) i under in
        subst (λ q. s q ≤ s j) (sym ji) (subst (λ k. s k ≤ s j) same (small.lowest j pj bj ji))
    | inr elsewhere ↦ h.others j pj bj (≠→≢ (parent j) i elsewhere)
  ]

module _ {T : Type 0} where
  lower-Compared :
      (at : ℕ → HeapItem T) (n child before : ℕ)
      → Compared n (scores at) child before (lower at n child before)
  lower-Compared at n child before =
      elim (Bool-cases (ltb child n && ltb (at child).score (at before).score)) [
        | inl less ↦ inl (ground arith, ground arith, ground arith)
        | inr not_less ↦ inr (ground arith, λ b. ground arith)
      ]

  smallest_of-IsSmallest :
      (n i : ℕ) (at : ℕ → HeapItem T) → IsSmallest n i (scores at) (smallest_of at n i)
  smallest_of-IsSmallest n i at =
      Compared-IsSmallest n i (scores at) (lower at n (2 * i + 1) i) (smallest_of at n i)
        (lower-Compared at n (2 * i + 1) i)
        (lower-Compared at n (2 * i + 2) (lower at n (2 * i + 1) i))

  pub bubble_down-IsHeap :
      (fuel n i : ℕ) (at : ℕ → HeapItem T)
      → n ≤ i + fuel
      → IsDownHeap n i (scores at)
      → IsHeap n (scores (bubble_down fuel n i at))
  unfolding bubble_down
  bubble_down-IsHeap zero n i at few h =
      λ j pj bj. h.others j pj bj (λ e. omega (arith, e, few, bj, parent-lt j pj))
  bubble_down-IsHeap (suc fuel) n i at few h =
      let m = smallest_of at n i in
      let small = smallest_of-IsSmallest n i at in
      if-elim (λ (a : ℕ → HeapItem T). IsHeap n (scores a)) (m == i)
        (λ same. restores n i (scores at) m small (==→≡ m i same) h)
        (λ other. elim small.moved [
          | inl same ↦ absurd (≠→≢ m i other same)
          | inr (down, inside, child, less) ↦
              bubble_down-IsHeap fuel n m (swapped at i m) (omega (arith, few, down)) (
                down-IsDownHeap n i m (scores at) (scores (swapped at i m))
                  (swapped-Exchanged i m at) inside down child small.lowest less h)
        ])

  pub bubble_down-count :
      (fuel t n i : ℕ) (at : ℕ → HeapItem T)
      → i < n
      → count_above t (bubble_down fuel n i at) n ≡ count_above t at n
  unfolding bubble_down
  bubble_down-count zero t n i at inside = refl
  bubble_down-count (suc fuel) t n i at inside =
      let m = smallest_of at n i in
      if-elim (λ (a : ℕ → HeapItem T). count_above t a n ≡ count_above t at n) (m == i)
        (λ same. refl)
        (λ other. elim (smallest_of-IsSmallest n i at).moved [
          | inl same ↦ absurd (≠→≢ m i other same)
          | inr (down, below, child, less) ↦
              bubble_down-count fuel t n m (swapped at i m) below
              ∙ count-swapped t n i m at inside below
        ])
