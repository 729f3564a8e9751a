-- ===== src/TopHeap/Push.antt =====
-- The heap of workers/link-intelligence/src/heap.ts holds the highest scores of a stream.
use growth_sent.Prelude.{
  ℕ, zero, suc, ◌+◌, ◌<◌, ◌≤◌, ◌≡◌, min, true, false, ltb, ◌==◌, arith, if-elim, Bool-cases, ==→≡,
  inl, inr, subst, sym, ◌∙◌,
}
use growth_sent.TopHeap.{HeapItem, TopHeap, put, parent, push}
use growth_sent.TopHeap.Count.{
  above, count_above, count-added, count-put, count-le, count-all, count-first,
}
use growth_sent.TopHeap.Up.{
  IsHeap, IsUpHeap, scores, bubble_up-IsHeap, bubble_up-count, parent-lt, lt→≠,
}
use growth_sent.TopHeap.Down.{≢→≠, IsDownHeap, bubble_down-IsHeap, bubble_down-count}

-- The root has the lowest score.
root-least : (fuel n : ℕ) (s : ℕ → ℕ) → IsHeap n s → (j : ℕ) → j ≤ fuel → j < n → s 0 ≤ s j
root-least zero n s h j few inside = subst (λ k. s 0 ≤ s k) (sym (zero_of j few)) (omega arith)
  where
    zero_of : (j : ℕ) → j ≤ 0 → j ≡ 0
    zero_of j few = omega (arith, few)
root-least (suc fuel) n s h j few inside = elim (Bool-cases (j == 0)) [
  | inl root ↦ subst (λ k. s 0 ≤ s k) (sym (==→≡ j 0 root)) (omega arith)
  | inr below ↦
      let positive : 0 < j = ground arith in
      let up = parent-lt j positive in
      omega (
        arith,
        root-least fuel n s h (parent j) (omega (arith, few, up)) (omega (arith, inside, up)),
        h j positive inside,
      )
]

module _ {T : Type 0} where
  pub record IsTopHeap (h : TopHeap T) : Type 0 where
    pub holds_one : 0 < h.capacity
    pub fits : h.size ≤ h.capacity
    pub ordered : IsHeap h.size (scores h.at)

  put-other :
      (at : ℕ → HeapItem T) (i : ℕ) (x : HeapItem T) (k : ℕ)
      → (k == i) ≡ false
      → scores (put at i x) k ≡ scores at k
  put-other at i x k h = ground arith

  module _ (h : TopHeap T) (v : IsTopHeap h) (x : HeapItem T) where
    added-IsUpHeap : IsUpHeap (h.size + 1) h.size (scores (put h.at h.size x))
    added-IsUpHeap = record {
      others = λ j pj bj differs. omega (
        arith,
        put-other h.at h.size x j (≢→≠ j h.size differs),
        put-other h.at h.size x (parent j)
            (lt→≠ (parent j) h.size (omega (arith, parent-lt j pj, bj))),
        v.ordered j pj (omega (arith, bj, differs)),
      );
      children = λ j pj bj under positive. absurd (omega (arith, under, bj, parent-lt j pj));
    }

    replaced-IsDownHeap : IsDownHeap h.size 0 (scores (put h.at 0 x))
    replaced-IsDownHeap = record {
      others = λ j pj bj differs. omega (
        arith,
        put-other h.at 0 x j (ground arith),
        put-other h.at 0 x (parent j) (≢→≠ (parent j) 0 differs),
        v.ordered j pj bj,
      );
      children = λ j pj bj under positive. absurd (omega (arith, positive));
    }

    pub push-IsTopHeap : IsTopHeap (push h x.score x.item)
    unfolding push
    push-IsTopHeap =
        if-elim IsTopHeap (ltb h.size h.capacity)
          (λ room. record {
            holds_one = v.holds_one;
            fits = ground arith;
            ordered =
                bubble_up-IsHeap h.size (h.size + 1) h.size (put h.at h.size x) (omega arith)
                  (omega arith) added-IsUpHeap;
          })
          (λ full.
            if-elim IsTopHeap (ltb (h.at 0).score x.score)
              (λ higher. record {
                holds_one = v.holds_one;
                fits = v.fits;
                ordered =
                    bubble_down-IsHeap h.size h.size 0 (put h.at 0 x) (omega arith)
                      replaced-IsDownHeap;
              })
              (λ not_higher. v))

    full-count : (t : ℕ) → t < (h.at 0).score → count_above t h.at h.size ≡ h.size
    full-count t low =
        count-all t h.size h.at
          (λ j b. omega (arith, low, root-least j h.size (scores h.at) v.ordered j (omega arith) b))

    replaced :
        (t : ℕ)
        → h.size ≡ h.capacity
        → 0 < h.size
        → ltb (h.at 0).score x.score ≡ true
        → count_above t (put h.at 0 x) h.size
          ≡ min h.capacity (count_above t h.at h.size + above t x)
    replaced t full positive higher = elim (Bool-cases (ltb t (h.at 0).score)) [
      | inl low ↦ ground (arith, full-count t (ground arith), count-put t h.size 0 h.at x positive)
      | inr high ↦ ground (
        arith,
        count-first t h.size h.at (ground arith) positive,
        count-put t h.size 0 h.at x positive,
      )
    ]

    kept :
        (t : ℕ)
        → h.size ≡ h.capacity
        → 0 < h.size
        → ltb (h.at 0).score x.score ≡ false
        → count_above t h.at h.size ≡ min h.capacity (count_above t h.at h.size + above t x)
    kept t full positive not_higher = elim (Bool-cases (ltb t (h.at 0).score)) [
      | inl low ↦ ground (arith, full-count t (ground arith))
      | inr high ↦ ground (arith, count-le t h.size h.at)
    ]

    pub push-count :
        (t : ℕ)
        → count_above t (push h x.score x.item).at (push h x.score x.item).size
          ≡ min h.capacity (count_above t h.at h.size + above t x)
    unfolding push
    push-count t =
        if-elim
          (λ (g : TopHeap T).
            count_above t g.at g.size ≡ min h.capacity (count_above t h.at h.size + above t x))
          (ltb h.size h.capacity)
          (λ room.
            bubble_up-count h.size t (h.size + 1) h.size (put h.at h.size x) (omega arith)
            ∙ count-added t h.size h.at x
            ∙ ground (arith, count-le t h.size h.at))
          (λ full.
            let size_eq : h.size ≡ h.capacity = ground (arith, v.fits) in
            let positive : 0 < h.size = omega (arith, size_eq, v.holds_one) in
            if-elim
              (λ (g : TopHeap T).
                count_above t g.at g.size ≡ min h.capacity (count_above t h.at h.size + above t x))
              (ltb (h.at 0).score x.score)
              (λ higher.
                bubble_down-count h.size t h.size 0 (put h.at 0 x) positive
                ∙ replaced t size_eq positive higher)
              (λ not_higher. kept t size_eq positive not_higher))
