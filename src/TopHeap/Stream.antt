-- ===== src/TopHeap/Stream.antt =====
-- The heap of workers/link-intelligence/src/heap.ts after a whole stream of rows.
use growth_sent.Prelude.{
  ℕ, zero, suc, ◌+◌, ◌<◌, ◌≡◌, refl, min, true, false, ltb, leb, ◌==◌, ◌||◌, List, [], ◌∷◌, length,
  arith, if-elim, Bool-cases, inl, inr, subst, sym, some, All, OnSome,
}
use growth_sent.TopHeap.{
  HeapItem, TopHeap, put, swapped, parent, bubble_up, bubble_down, smallest_of, push, push_all,
  new_top_heap,
}
use growth_sent.TopHeap.Count.{above, count_above}
use growth_sent.TopHeap.Push.{IsTopHeap, push-IsTopHeap, push-count}

module _ {T : Type 0} where
  -- How many rows of the stream score above a bound.
  abbrev pub scoring_above : ℕ → List (HeapItem T) → ℕ
  scoring_above t [] = 0
  scoring_above t (x ∷ xs) = above t x + scoring_above t xs

  push-capacity : (h : TopHeap T) (x : HeapItem T) → (push h x.score x.item).capacity ≡ h.capacity
  unfolding push
  push-capacity h x = ground arith

  push-size :
      (h : TopHeap T) (x : HeapItem T)
      → IsTopHeap h
      → (push h x.score x.item).size ≡ min h.capacity (h.size + 1)
  unfolding push
  push-size h x v = ground (arith, v.fits)

  -- What the heap says of the rows that it has seen.
  pub record IsTopOf (capacity : ℕ) (h : TopHeap T) (rows : ℕ) (scoring : ℕ → ℕ) : Type 0 where
    pub sized : h.size ≡ min capacity rows
    pub counted : (t : ℕ) → count_above t h.at h.size ≡ min capacity (scoring t)

  push_all-IsTopOf :
      (h : TopHeap T) (xs : List (HeapItem T)) (rows : ℕ) (scoring : ℕ → ℕ)
      → IsTopHeap h
      → IsTopOf h.capacity h rows scoring
      → IsTopHeap (push_all h xs)
        × IsTopOf h.capacity
            (push_all h xs)
            (rows + length xs)
            (λ t. scoring t + scoring_above t xs)
  push_all-IsTopOf h [] rows scoring v top =
      (v, record { sized = omega (arith, top.sized); counted = λ t. omega (arith, top.counted t) })
  push_all-IsTopOf h (x ∷ xs) rows scoring v top =
      let next = push h x.score x.item in
      let (w, rest) =
        push_all-IsTopOf next xs (rows + 1) (λ t. scoring t + above t x) (push-IsTopHeap h v x)
          (record {
            sized = omega (arith, push-capacity h x, push-size h x v, top.sized);
            counted = λ t. omega (arith, push-capacity h x, push-count h v x t, top.counted t);
          }) in
      (
        w,
        record {
          sized = omega (arith, rest.sized, push-capacity h x);
          counted = λ t. omega (arith, rest.counted t, push-capacity h x);
        },
      )

  -- A new heap with room for at least one row, after any stream: it holds as many rows as there were
  -- and fit, for every bound as many that score above it as the stream had and fit, which are
  -- therefore the highest scores; and no row scores less than its parent.
  pub stream-IsTopOf :
      (capacity : ℕ) (blank : HeapItem T) (h : TopHeap T) (xs : List (HeapItem T))
      → new_top_heap capacity blank ≡ some h
      → IsTopHeap (push_all h xs)
        × IsTopOf capacity (push_all h xs) (length xs) (λ t. scoring_above t xs)
  unfolding new_top_heap count_above
  stream-IsTopOf zero blank h xs e = absurd (ground arith)
  stream-IsTopOf (suc room) blank h xs e =
      let empty : TopHeap T = record { capacity = suc room; size = 0; at = λ k. blank } in
      let all =
        push_all-IsTopOf empty xs 0 (λ t. 0)
          (record {
            holds_one = omega arith;
            fits = omega arith;
            ordered = λ j pj bj. absurd (omega (arith, bj));
          })
          (record { sized = omega arith; counted = λ t. omega arith }) in
      subst
        (OnSome (λ (h : TopHeap T).
          IsTopHeap (push_all h xs)
          × IsTopOf (suc room) (push_all h xs) (length xs) (λ t. scoring_above t xs)))
        e
        (
          all.0,
          record {
            sized = omega (arith, all.1.sized);
            counted = λ t. omega (arith, all.1.counted t);
          },
        )

  smallest-lt : (n i : ℕ) (at : ℕ → HeapItem T) → i < n → smallest_of at n i < n
  smallest-lt n i at b = ground arith

  put-here : (at : ℕ → HeapItem T) (i j : ℕ) (x : HeapItem T) → (j == i) ≡ true → put at i x j ≡ x
  put-here at i j x h = rw h refl

  put-there :
      (at : ℕ → HeapItem T) (i j : ℕ) (x : HeapItem T) → (j == i) ≡ false → put at i x j ≡ at j
  put-there at i j x h = rw h refl

  module _ (P : HeapItem T → Type 0) where
    abbrev pub Inside : ℕ → (ℕ → HeapItem T) → Type 0
    Inside n at = (j : ℕ) → j < n → P (at j)

    put-Inside :
        (n i : ℕ) (at : ℕ → HeapItem T) (x : HeapItem T) → Inside n at → P x → Inside n (put at i x)
    put-Inside n i at x h p j b = if-elim P (j == i) (λ here. p) (λ there. h j b)

    swapped-Inside :
        (n i k : ℕ) (at : ℕ → HeapItem T) → i < n → k < n → Inside n at → Inside n (swapped at i k)
    swapped-Inside n i k at bi bk h =
        put-Inside n k (put at i (at k)) (at i) (put-Inside n i at (at k) h (h k bk)) (h i bi)

    bubble_up-Inside :
        (fuel n i : ℕ) (at : ℕ → HeapItem T) → i < n → Inside n at → Inside n (bubble_up fuel i at)
    unfolding bubble_up
    bubble_up-Inside zero n i at b h = h
    bubble_up-Inside (suc fuel) n i at b h =
        if-elim (λ (a : ℕ → HeapItem T). Inside n a)
          (i == 0 || leb (at (parent i)).score (at i).score) (λ stop. h)
          (λ go.
            bubble_up-Inside fuel n (parent i) (swapped at (parent i) i) (omega (arith, b))
              (swapped-Inside n (parent i) i at (omega (arith, b)) b h))

    bubble_down-Inside :
        (fuel n i : ℕ) (at : ℕ → HeapItem T)
        → i < n
        → Inside n at
        → Inside n (bubble_down fuel n i at)
    unfolding bubble_down
    bubble_down-Inside zero n i at b h = h
    bubble_down-Inside (suc fuel) n i at b h =
        let m = smallest_of at n i in
        let inside : m < n = smallest-lt n i at b in
        if-elim (λ (a : ℕ → HeapItem T). Inside n a) (m == i) (λ stop. h)
          (λ go.
            bubble_down-Inside fuel n m (swapped at i m) inside
              (swapped-Inside n i m at b inside h))

    push-Inside :
        (h : TopHeap T) (x : HeapItem T)
        → 0 < h.capacity
        → Inside h.size h.at
        → P x
        → Inside (push h x.score x.item).size (push h x.score x.item).at
    unfolding push
    push-Inside h x positive inside p =
        if-elim (λ (g : TopHeap T). Inside g.size g.at) (ltb h.size h.capacity)
          (λ room.
            bubble_up-Inside h.size (h.size + 1) h.size (put h.at h.size x) (omega arith) (λ j b.
              elim (Bool-cases (j == h.size)) [
                | inl last ↦ subst P (sym (put-here h.at h.size j x last)) p
                | inr before ↦
                    subst P (sym (put-there h.at h.size j x before)) (inside j (ground (arith, b)))
              ]))
          (λ full.
            if-elim (λ (g : TopHeap T). Inside g.size g.at) (ltb (h.at 0).score x.score)
              (λ higher.
                bubble_down-Inside h.size h.size 0 (put h.at 0 x) (ground arith)
                  (put-Inside h.size 0 h.at x inside p))
              (λ not_higher. inside))

    -- What holds of every row that a heap with room for one has, and of every row of a stream, holds
    -- of every row that the heap has after the stream: no other row gets in.
    pub push_all-Inside :
        (h : TopHeap T) (xs : List (HeapItem T))
        → 0 < h.capacity
        → Inside h.size h.at
        → All P xs
        → Inside (push_all h xs).size (push_all h xs).at
    push_all-Inside h [] positive inside ps = inside
    push_all-Inside h (x ∷ xs) positive inside (p, ps) =
        push_all-Inside (push h x.score x.item) xs (omega (arith, positive, push-capacity h x))
          (push-Inside h x positive inside p) ps
