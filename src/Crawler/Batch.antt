-- ===== src/Crawler/Batch.antt =====
-- The batches that `runCrawl` of lib/crawler/crawler.ts takes from its queue.
use growth_sent.Prelude.{
  ℕ, suc, ◌+◌, ◌≤◌, ◌≡◌, refl, sym, ◌∙◌, ap, Bool, true, false, not, ◌&&◌, ◌||◌, List, [], ◌∷◌,
  ◌++◌, String, ◌===◌, length, ltb, leb, arith, All, eq_iff, Bool-cases, inl, inr,
}
use growth_sent.Crawler.{Item, Limits, take_batch, has}

abbrev pub Distinct : List String → Type 0
Distinct [] = Unit
Distinct (x ∷ xs) = (has x xs ≡ false) × Distinct xs

abbrev pub urls : List Item → List String
urls [] = []
urls (item ∷ items) = item.url ∷ urls items

pub has-snoc : (x y : String) (xs : List String) → has x (xs ++ y ∷ []) ≡ (has x xs || y === x)
has-snoc x y [] = ground arith
has-snoc x y (z ∷ xs) = ground (arith, has-snoc x y xs)

pub Distinct-snoc :
    (xs : List String) (y : String) → Distinct xs → has y xs ≡ false → Distinct (xs ++ y ∷ [])
Distinct-snoc [] y d n = (refl, tt)
Distinct-snoc (x ∷ xs) y (n', d) n =
    (ground (arith, has-snoc x y xs, eq_iff y x, eq_iff x y), Distinct-snoc xs y d (ground arith))

pub snoc-append :
    {A : Type 0} (xs : List A) (y : A) (ys : List A) → (xs ++ y ∷ []) ++ ys ≡ xs ++ y ∷ ys
snoc-append [] y ys = refl
snoc-append (x ∷ xs) y ys = ap (◌∷◌ x) (snoc-append xs y ys)

pub append_nil : {A : Type 0} (xs : List A) → xs ++ [] ≡ xs
append_nil [] = refl
append_nil (x ∷ xs) = ap (◌∷◌ x) (append_nil xs)

module _ (limits : Limits) (pages : ℕ) where
  abbrev pub Taken : Type 0
  Taken = List Item × List String × List Item

  abbrev pub has_room : ℕ → Bool
  has_room taken = ltb taken limits.concurrency && ltb (pages + taken) limits.max_pages

  abbrev pub is_wanted : Item → List String → Bool
  is_wanted item visited = not (has item.url visited) && leb item.depth limits.max_depth

  module _ (taken : ℕ) (item : Item) (queue : List Item) (visited : List String) where
    full_eq :
        has_room taken ≡ false
        → take_batch limits pages taken (item ∷ queue) visited ≡ ([], visited, item ∷ queue)
    unfolding take_batch
    full_eq full = ground arith

    skip_eq :
        has_room taken ≡ true
        → is_wanted item visited ≡ false
        → take_batch limits pages taken (item ∷ queue) visited
          ≡ take_batch limits pages taken queue visited
    unfolding take_batch
    skip_eq room unwanted = ground arith

    pub take_eq :
        has_room taken ≡ true
        → is_wanted item visited ≡ true
        → take_batch limits pages taken (item ∷ queue) visited ≡ (
            let (batch, seen, left) =
              take_batch limits pages (suc taken) queue (visited ++ item.url ∷ []) in
            (item ∷ batch, seen, left))
    unfolding take_batch
    take_eq room wanted = ground arith

  -- A batch that takes nothing, though there is room, has seen the whole queue.
  pub take_batch-exhausted :
      (taken : ℕ) (queue : List Item) (visited : List String)
      → has_room taken ≡ true
      → length (take_batch limits pages taken queue visited).0 ≡ 0
      → (take_batch limits pages taken queue visited).2 ≡ []
  unfolding take_batch
  take_batch-exhausted taken [] visited room empty = refl
  take_batch-exhausted taken (item ∷ queue) visited room empty =
      ground (arith, take_batch-exhausted taken queue visited room)

  module _ (P : Item → Type 0) where
    -- What a batch takes and what it leaves.
    pub record IsBatch (taken : ℕ) (visited : List String) (r : Taken) : Type 0 where
      pub seen : r.1 ≡ visited ++ urls r.0
      pub distinct : Distinct r.1
      pub fits : pages + taken + length r.0 ≤ limits.max_pages
      pub wanted : All P r.0
      pub left : All P r.2

    pub take_batch-IsBatch :
        (taken : ℕ) (queue : List Item) (visited : List String)
        → All P queue
        → Distinct visited
        → pages + taken ≤ limits.max_pages
        → IsBatch taken visited (take_batch limits pages taken queue visited)
    unfolding take_batch
    take_batch-IsBatch taken [] visited h d fits = record {
      seen = sym (append_nil visited);
      distinct = d;
      fits = omega (arith, fits);
      wanted = tt;
      left = tt;
    }
    take_batch-IsBatch taken (item ∷ queue) visited (h, hs) d fits =
        elim (Bool-cases (has_room taken)) [
          | inr full ↦ rw (full_eq taken item queue visited full) (record {
            seen = sym (append_nil visited);
            distinct = d;
            fits = omega (arith, fits);
            wanted = tt;
            left = (h, hs);
          })
          | inl room ↦ elim (Bool-cases (is_wanted item visited)) [
            | inr unwanted ↦
                rw (skip_eq taken item queue visited room unwanted)
                  (take_batch-IsBatch taken queue visited hs d fits)
            | inl wanted ↦
                let r =
                  take_batch-IsBatch (suc taken) queue (visited ++ item.url ∷ []) hs
                    (Distinct-snoc visited item.url d (ground arith)) (ground arith) in
                rw (take_eq taken item queue visited room wanted) (record {
                  seen = r.seen ∙ snoc-append visited item.url _;
                  distinct = r.distinct;
                  fits = omega (arith, r.fits);
                  wanted = (h, r.wanted);
                  left = r.left;
                })
          ]
        ]
