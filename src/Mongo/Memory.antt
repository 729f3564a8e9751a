-- ===== src/Mongo/Memory.antt =====
-- An association list meets what is assumed of a collection.
use growth_sent.Prelude.{
  ℕ, ◌+◌, ◌≤◌, ◌≡◌, refl, Bool, Option, none, some, List, [], ◌∷◌, String, ◌===◌, if◌then◌else◌,
  arith, eq_iff,
}
use growth_sent.Mongo.{Mongo, weigh}

module _ {D : Type 0} where
  abbrev pub find : List (String × D) → String → Option D
  find [] k = none
  find ((j, d) ∷ c) k = if j === k then some d else find c k

  abbrev pub insert : List (String × D) → String → D → List (String × D)
  insert [] k d = (k, d) ∷ []
  insert ((j, e) ∷ c) k d = if j === k then (k, d) ∷ c else (j, e) ∷ insert c k d

  abbrev pub erase : List (String × D) → String → List (String × D)
  erase [] k = []
  erase ((j, e) ∷ c) k = if j === k then erase c k else (j, e) ∷ erase c k

  abbrev pub count : (D → Bool) → List (String × D) → ℕ
  count p [] = 0
  count p ((j, d) ∷ c) = (if p d then 1 else 0) + count p c

  pub find-insert :
      (c : List (String × D)) (k : String) (d : D) (j : String)
      → find (insert c k d) j ≡ (if k === j then some d else find c j)
  find-insert [] k d j = refl
  find-insert ((i, e) ∷ c) k d j =
      ground (arith, eq_iff k j, eq_iff i k, eq_iff i j, find-insert c k d j)

  pub find-erase :
      (c : List (String × D)) (k j : String)
      → find (erase c k) j ≡ (if k === j then none else find c j)
  find-erase [] k j = ground arith
  find-erase ((i, e) ∷ c) k j = ground (arith, eq_iff k j, eq_iff i k, eq_iff i j, find-erase c k j)

  pub count-insert :
      (p : D → Bool) (c : List (String × D)) (k : String) (d : D)
      → count p (insert c k d) + weigh p (find c k) ≡ count p c + (if p d then 1 else 0)
  count-insert p [] k d = ground arith
  count-insert p ((i, e) ∷ c) k d = ground (arith, count-insert p c k d)

  pub count-erase :
      (p : D → Bool) (c : List (String × D)) (k : String) → count p (erase c k) ≤ count p c
  count-erase p [] k = omega arith
  count-erase p ((j, e) ∷ c) k = ground (arith, count-erase p c k)

abbrev pub memory : Mongo
memory = record {
  Docs = λ D. List (String × D);
  find_one = find;
  write = insert;
  delete_one = erase;
  count_documents = count;
  find_one-write = find-insert;
  find_one-delete_one = find-erase;
  count_documents-write = count-insert;
  count_documents-delete_one = count-erase;
}
