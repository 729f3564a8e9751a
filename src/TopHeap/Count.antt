-- ===== src/TopHeap/Count.antt =====
-- How many items of the array of workers/link-intelligence/src/heap.ts score above a bound.
use growth_sent.Prelude.{
  ℕ, zero, suc, ◌+◌, ◌<◌, ◌≤◌, ◌≡◌, refl, ltb, ◌==◌, if◌then◌else◌, arith, Bool-cases, inl, inr,
}
use growth_sent.TopHeap.{HeapItem, put, swapped}

module _ {T : Type 0} where
  abbrev pub above : ℕ → HeapItem T → ℕ
  above t x = if ltb t x.score then 1 else 0

  -- Of the first `n` items.
  unfoldable pub count_above : ℕ → (ℕ → HeapItem T) → ℕ → ℕ
  count_above t at zero = 0
  count_above t at (suc n) = count_above t at n + above t (at n)

  count-outside :
      (t n i : ℕ) (at : ℕ → HeapItem T) (x : HeapItem T)
      → n ≤ i
      → count_above t (put at i x) n ≡ count_above t at n
  unfolding count_above
  count-outside t zero i at x h = refl
  count-outside t (suc n) i at x h = ground (arith, count-outside t n i at x)

  pub count-added :
      (t n : ℕ) (at : ℕ → HeapItem T) (x : HeapItem T)
      → count_above t (put at n x) (n + 1) ≡ count_above t at n + above t x
  unfolding count_above
  count-added t n at x = ground (arith, count-outside t n n at x)

  pub count-put :
      (t n i : ℕ) (at : ℕ → HeapItem T) (x : HeapItem T)
      → i < n
      → count_above t (put at i x) n + above t (at i) ≡ count_above t at n + above t x
  unfolding count_above
  count-put t zero i at x h = absurd (omega (arith, h))
  count-put t (suc n) i at x h = elim (Bool-cases (n == i)) [
    | inl same ↦ ground (arith, count-outside t n i at x)
    | inr differs ↦ ground (arith, count-put t n i at x)
  ]

  pub count-swapped :
      (t n i j : ℕ) (at : ℕ → HeapItem T)
      → i < n
      → j < n
      → count_above t (swapped at i j) n ≡ count_above t at n
  count-swapped t n i j at hi hj =
      ground (arith, count-put t n i at (at j) hi, count-put t n j (put at i (at j)) (at i) hj)

  pub count-le : (t n : ℕ) (at : ℕ → HeapItem T) → count_above t at n ≤ n
  unfolding count_above
  count-le t zero at = omega arith
  count-le t (suc n) at = ground (arith, count-le t n at)

  -- All of them, if the lowest does.
  pub count-all :
      (t n : ℕ) (at : ℕ → HeapItem T)
      → ((j : ℕ) → j < n → t < (at j).score)
      → count_above t at n ≡ n
  unfolding count_above
  count-all t zero at h = refl
  count-all t (suc n) at h =
      ground (arith, count-all t n at (λ j b. h j (omega (arith, b))), h n (omega arith))

  -- Not all, if the first does not.
  pub count-first :
      (t n : ℕ) (at : ℕ → HeapItem T) → (at 0).score ≤ t → 0 < n → count_above t at n < n
  unfolding count_above
  count-first t zero at h positive = absurd (omega (arith, positive))
  count-first t (suc zero) at h positive = ground arith
  count-first t (suc (suc n)) at h positive =
      ground (arith, count-first t (suc n) at h (omega arith))
