-- ===== src/IssueHistory/Filled.antt =====
-- The two `Map`s that `syncIssueLifecycle` of lib/services/audit.service.ts fills: what they hold
-- under each key.
use growth_sent.Prelude.{
  ◌≡◌, refl, Option, none, some, List, [], ◌∷◌, String, ◌===◌, arith, eq_iff, Option-cases, inl,
  inr, All, if-elim, Bool-cases,
}
use growth_sent.Mongo.Memory
use growth_sent.Mongo.Memory.{find-insert}
use growth_sent.IssueHistory.{filled}

module _ {A : Type 0} where
  -- No key has two entries.
  abbrev pub Distinct : List (String × A) → Type 0
  Distinct [] = Unit
  Distinct ((k, a) ∷ entries) = (Memory.find entries k ≡ none) × Distinct entries

  insert-Distinct :
      (entries : List (String × A)) (k : String) (a : A)
      → Distinct entries
      → Distinct (Memory.insert entries k a)
  insert-Distinct [] k a h = (refl, tt)
  insert-Distinct ((j, b) ∷ entries) k a (fresh, h) =
      if-elim Distinct (j === k) (λ same. (ground (arith, eq_iff j k), h))
        (λ other. (
          ground (arith, find-insert entries k a j, eq_iff k j, eq_iff j k),
          insert-Distinct entries k a h,
        ))

  module _ (key : A → String) where
    -- An entry stands under its own key.
    abbrev pub Keyed : List (String × A) → Type 0
    Keyed = All (λ (e : String × A). e.0 ≡ key e.1)

    pub find-Keyed :
        (entries : List (String × A)) (k : String) (a : A)
        → Keyed entries
        → Memory.find entries k ≡ some a
        → k ≡ key a
    find-Keyed [] k a h e = absurd (ground arith)
    find-Keyed ((j, b) ∷ entries) k a (keyed, h) e =
        ground (arith, eq_iff j k, find-Keyed entries k a h)

    insert-Keyed :
        (entries : List (String × A)) (a : A)
        → Keyed entries
        → Keyed (Memory.insert entries (key a) a)
    insert-Keyed [] a h = (refl, tt)
    insert-Keyed ((j, b) ∷ entries) a (keyed, h) =
        if-elim Keyed (j === key a) (λ same. (refl, h)) (λ other. (keyed, insert-Keyed entries a h))

    pub filled-Distinct :
        (entries : List (String × A)) (items : List A)
        → Distinct entries
        → Distinct (filled key entries items)
    filled-Distinct entries [] h = h
    filled-Distinct entries (a ∷ items) h =
        filled-Distinct (Memory.insert entries (key a) a) items
          (insert-Distinct entries (key a) a h)

    pub filled-Keyed :
        (entries : List (String × A)) (items : List A)
        → Keyed entries
        → Keyed (filled key entries items)
    filled-Keyed entries [] h = h
    filled-Keyed entries (a ∷ items) h =
        filled-Keyed (Memory.insert entries (key a) a) items (insert-Keyed entries a h)

module _ {D : Type 0} (key : D → String) (at : String → Option D) where
  -- The items are those at their keys.
  abbrev pub IsListing : List (String × D) → Type 0
  IsListing = All (λ (e : String × D). (at e.0 ≡ some e.1) × (e.0 ≡ key e.1))

  pub find-listed :
      (items : List (String × D)) (k : String) {d : D}
      → IsListing items
      → Memory.find items k ≡ some d
      → at k ≡ some d
  find-listed [] k h e = absurd (ground arith)
  find-listed ((j, b) ∷ items) k ((listed, keyed), h) e = elim (Bool-cases (j === k)) [
    | inl same ↦ ground (arith, eq_iff j k)
    | inr other ↦ find-listed items k h (ground arith)
  ]

  -- The `Map` of the items by their keys has the item that the list has.
  pub find-filled :
      (entries : List (String × (String × D))) (items : List (String × D)) (k : String)
      → IsListing items
      → Memory.find (filled (λ (e : String × D). key e.1) entries items) k
        ≡ elim (Memory.find items k) [ none ↦ Memory.find entries k | some d ↦ some (k, d) ]
  find-filled entries [] k h = refl
  find-filled entries ((j, b) ∷ items) k ((listed, keyed), h) =
      elim (Option-cases (Memory.find items k)) [
        | inl missing ↦ ground (
          arith,
          find-filled (Memory.insert entries (key b) (j, b)) items k h,
          find-insert entries (key b) (j, b) k,
          eq_iff j k,
        )
        | inr (d, found) ↦ ground (
          arith,
          find-filled (Memory.insert entries (key b) (j, b)) items k h,
          find-listed items k h found,
          eq_iff j k,
        )
      ]
