-- ===== src/Mongo/Commands.antt =====
-- The commands that the services send. Each is one step on one document.
use growth_sent.Prelude.{ℕ, Bool, Option, none, some, String, if◌then◌else◌}
use growth_sent.Mongo.{Mongo}

module _ (M : Mongo) {D : Type 0} where
  open M use {Docs, find_one, write, delete_one}

  -- `insertOne`: a second document under a key is refused with E11000, here `none`.
  abbrev pub insert_one : Docs D → String → D → Option (Docs D)
  insert_one c k d = elim (find_one c k) [ none ↦ some (write c k d) | some _ ↦ none ]

  -- `updateOne`: the matched count, and the collection.
  abbrev pub update_one : Docs D → String → (D → Bool) → (D → D) → ℕ × Docs D
  update_one c k filter set = elim (find_one c k) [
    | none ↦ (0, c)
    | some d ↦ if filter d then (1, write c k (set d)) else (0, c)
  ]

  -- `updateOne` with `upsert` and a filter on the key alone: a missing document is inserted.
  abbrev pub upsert_one : Docs D → String → D → (D → D) → Docs D
  upsert_one c k inserted set = elim (find_one c k) [
    | none ↦ write c k inserted
    | some d ↦ write c k (set d)
  ]

  -- `findOneAndUpdate` with `returnDocument: "after"`.
  abbrev pub find_one_and_update : Docs D → String → (D → Bool) → (D → D) → Option D × Docs D
  find_one_and_update c k filter set = elim (find_one c k) [
    | none ↦ (none, c)
    | some d ↦ if filter d then (some (set d), write c k (set d)) else (none, c)
  ]

  -- `findOne` with a filter besides the key.
  abbrev pub find_one_where : Docs D → String → (D → Bool) → Option D
  find_one_where c k filter = elim (find_one c k) [
    | none ↦ none
    | some d ↦ if filter d then some d else none
  ]

  -- `deleteOne` with a filter besides the key.
  abbrev pub delete_one_where : Docs D → String → (D → Bool) → Docs D
  delete_one_where c k filter = elim (find_one c k) [
    | none ↦ c
    | some d ↦ if filter d then delete_one c k else c
  ]
