-- ===== src/TopHeap/Tests.antt =====
-- The heap of workers/link-intelligence/src/heap.ts on a short stream.
use growth_sent.Prelude.{◌≡◌, refl, List, [], ◌∷◌, String, ℕ, length, map}
use growth_sent.TopHeap.{
  HeapItem, TopHeap, items_of, push, push_all, new_top_heap, bubble_up, bubble_down,
}
use growth_sent.TopHeap.Push.{IsTopHeap}
use growth_sent.TopHeap.Stream.{IsTopOf, scoring_above, stream-IsTopOf}

abbrev row : ℕ → String → HeapItem String
row score item = record { score = score; item = item }

abbrev empty : TopHeap String
empty = record { capacity = 3; size = 0; at = λ k. row 0 "" }

abbrev rows : List (HeapItem String)
rows = row 5 "e" ∷ row 2 "b" ∷ row 9 "i" ∷ row 1 "a" ∷ row 7 "g" ∷ []

abbrev kept : List ℕ
kept =
    map (λ (x : HeapItem String). x.score)
      (items_of (push_all empty rows).at (push_all empty rows).size)

kept_test : kept ≡ 5 ∷ 7 ∷ 9 ∷ []
unfolding push bubble_up bubble_down
kept_test = refl

stream-IsTopOf_example :
    IsTopHeap (push_all empty rows)
    × IsTopOf 3 (push_all empty rows) (length rows) (λ t. scoring_above t rows)
unfolding new_top_heap
stream-IsTopOf_example = stream-IsTopOf 3 (row 0 "") empty rows refl
