-- ===== src/Mongo/Listing.antt =====
-- `find` of a collection: every document that the filter takes, each under its key.
use growth_sent.Prelude.{
  ◌≡◌, refl, Bool, some, List, [], ◌∷◌, String, ◌===◌, if◌then◌else◌, arith, All, eq_iff, eq_refl,
  if-elim, false,
}
use growth_sent.Mongo.{Mongo}
use growth_sent.Mongo.Commands.{find_one_where}
use growth_sent.Mongo.Memory
use growth_sent.Mongo.Memory.{memory, erase, find-erase}

pub record Listing (M : Mongo) : Type 1 where
  pub find : {D : Type 0} → (D → Bool) → M.Docs D → List (String × D)
  -- The documents that are listed are the ones that the filter takes,
  pub find-lookup :
      {D : Type 0} (p : D → Bool) (c : M.Docs D) (k : String)
      → Memory.find (find p c) k ≡ find_one_where M c k p
  -- each as it stands in the collection.
  pub find-All :
      {D : Type 0} (p : D → Bool) (c : M.Docs D)
      → All (λ (e : String × D). find_one_where M c e.0 p ≡ some e.1) (find p c)

module _ {D : Type 0} (p : D → Bool) where
  abbrev pub list : List (String × D) → List (String × D)
  list [] = []
  list ((k, d) ∷ c) = let rest = erase (list c) k in if p d then (k, d) ∷ rest else rest

  pub list-lookup :
      (c : List (String × D)) (k : String) → Memory.find (list c) k ≡ find_one_where memory c k p
  list-lookup [] k = refl
  list-lookup ((j, d) ∷ c) k = ground (arith, eq_iff j k, find-erase (list c) j k, list-lookup c k)

  -- What is known of the entries under other keys is known after one key is erased.
  erase-All :
      (Q R : String × D → Type 0) (j : String) (c : List (String × D))
      → ((e : String × D) → (e.0 === j) ≡ false → Q e → R e)
      → All Q c
      → All R (erase c j)
  erase-All Q R j [] f h = tt
  erase-All Q R j ((k, d) ∷ c) f (q, h) =
      if-elim (All R) (k === j) (λ same. erase-All Q R j c f h)
        (λ other. (f (k, d) other q, erase-All Q R j c f h))

  pub list-All :
      (c : List (String × D))
      → All (λ (e : String × D). find_one_where memory c e.0 p ≡ some e.1) (list c)
  list-All [] = tt
  list-All ((k, d) ∷ c) =
      let rest =
        erase-All (λ (e : String × D). find_one_where memory c e.0 p ≡ some e.1)
          (λ (e : String × D). find_one_where memory ((k, d) ∷ c) e.0 p ≡ some e.1) k (list c)
          (λ e other q. ground (arith, eq_iff k e.0, eq_iff e.0 k)) (list-All c) in
      if-elim (All (λ (e : String × D). find_one_where memory ((k, d) ∷ c) e.0 p ≡ some e.1)) (p d)
        (λ taken. (ground (arith, eq_refl k), rest)) (λ left. rest)

abbrev pub memory_listing : Listing memory
memory_listing = record { find = list; find-lookup = list-lookup; find-All = list-All }
