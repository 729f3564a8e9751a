-- ===== src/TopHeap.antt =====
-- workers/link-intelligence/src/heap.ts: the heap that keeps the rows with the highest scores. The
-- array is its length and its item at each index; a score is a natural number.
pub mod Count
pub mod Up
pub mod Down
pub mod Push
pub mod Stream
mod Tests
use growth_sent.Prelude.{
  ℕ, zero, suc, ◌+◌, ◌-◌, ◌*◌, ◌/◌, Bool, true, false, ◌&&◌, ◌||◌, List, [], ◌∷◌, ◌++◌, Option,
  none, some, ltb, leb, ◌==◌, if◌then◌else◌,
}

pub record HeapItem (T : Type 0) : Type 0 where
  pub score : ℕ
  pub item : T

pub record TopHeap (T : Type 0) : Type 0 where
  pub capacity : ℕ
  pub size : ℕ
  pub at : ℕ → HeapItem T

abbrev pub parent : ℕ → ℕ
parent i = (i - 1) / 2

module _ {T : Type 0} where
  -- `heap[i] = x`
  abbrev pub put : (ℕ → HeapItem T) → ℕ → HeapItem T → ℕ → HeapItem T
  put at i x k = if k == i then x else at k

  -- `[heap[i], heap[j]] = [heap[j], heap[i]]`
  abbrev pub swapped : (ℕ → HeapItem T) → ℕ → ℕ → ℕ → HeapItem T
  swapped at i j = put (put at i (at j)) j (at i)

  -- The loop from `i` to the root. Each turn at least halves `i`, so that `i` turns are enough.
  unfoldable pub bubble_up : ℕ → ℕ → (ℕ → HeapItem T) → ℕ → HeapItem T
  bubble_up zero i at = at
  bubble_up (suc fuel) i at =
      let moved = bubble_up fuel (parent i) (swapped at (parent i) i) in
      if i == 0 || leb (at (parent i)).score (at i).score then at else moved

  -- The lowest of an item and its children.
  abbrev pub lower : (ℕ → HeapItem T) → ℕ → ℕ → ℕ → ℕ
  lower at n child smallest =
      if ltb child n && ltb (at child).score (at smallest).score then child else smallest

  abbrev pub smallest_of : (ℕ → HeapItem T) → ℕ → ℕ → ℕ
  smallest_of at n i = let left = lower at n (2 * i + 1) i in lower at n (2 * i + 2) left

  -- The loop from `i` down. Each turn goes to a greater index below `n`.
  unfoldable pub bubble_down : ℕ → ℕ → ℕ → (ℕ → HeapItem T) → ℕ → HeapItem T
  bubble_down zero n i at = at
  bubble_down (suc fuel) n i at =
      let smallest = smallest_of at n i in
      let moved = bubble_down fuel n smallest (swapped at i smallest) in
      if smallest == i then at else moved

  unfoldable pub push : TopHeap T → ℕ → T → TopHeap T
  unfolding bubble_up bubble_down
  push h score item =
      let added : HeapItem T = record { score = score; item = item } in
      if ltb h.size h.capacity
      then record h { size = h.size + 1; at = bubble_up h.size h.size (put h.at h.size added) }
      else if ltb (h.at 0).score score
      then record h { at = bubble_down h.size h.size 0 (put h.at 0 added) }
      else h

  -- The heap after a stream of rows, each with its score.
  abbrev pub push_all : TopHeap T → List (HeapItem T) → TopHeap T
  push_all h [] = h
  push_all h (x ∷ xs) = push_all (push h x.score x.item) xs

  -- The constructor: a heap with no items. What the array holds past its end is never read.
  unfoldable pub new_top_heap : ℕ → HeapItem T → Option (TopHeap T)
  new_top_heap zero blank = none
  new_top_heap (suc capacity) blank =
      some (record { capacity = suc capacity; size = 0; at = λ k. blank })

  abbrev pub items_of : (ℕ → HeapItem T) → ℕ → List (HeapItem T)
  items_of at zero = []
  items_of at (suc n) = items_of at n ++ (at n ∷ [])
