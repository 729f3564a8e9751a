-- ===== src/Mongo.antt =====
-- What the program relies on of a MongoDB collection. Every collection is addressed by one unique
-- key, and a command reads and writes one document in one step.
pub mod Commands
pub mod Memory
pub mod Listing
use growth_sent.Prelude.{
  ℕ, ◌+◌, ◌≤◌, ◌≡◌, Bool, true, false, Option, none, some, String, ◌===◌, if◌then◌else◌,
}

-- Whether a document is counted by a filter.
abbrev pub weigh : {D : Type 0} → (D → Bool) → Option D → ℕ
weigh p none = 0
weigh p (some d) = if p d then 1 else 0

pub record Mongo : Type 1 where
  pub Docs : Type 0 → Type 0
  pub find_one : {D : Type 0} → Docs D → String → Option D
  pub write : {D : Type 0} → Docs D → String → D → Docs D
  pub delete_one : {D : Type 0} → Docs D → String → Docs D
  pub count_documents : {D : Type 0} → (D → Bool) → Docs D → ℕ
  pub find_one-write :
      {D : Type 0} (c : Docs D) (k : String) (d : D) (j : String)
      → find_one (write c k d) j ≡ (if k === j then some d else find_one c j)
  pub find_one-delete_one :
      {D : Type 0} (c : Docs D) (k j : String)
      → find_one (delete_one c k) j ≡ (if k === j then none else find_one c j)
  pub count_documents-write :
      {D : Type 0} (p : D → Bool) (c : Docs D) (k : String) (d : D)
      → count_documents p (write c k d) + weigh p (find_one c k)
        ≡ count_documents p c + (if p d then 1 else 0)
  pub count_documents-delete_one :
      {D : Type 0} (p : D → Bool) (c : Docs D) (k : String)
      → count_documents p (delete_one c k) ≤ count_documents p c
