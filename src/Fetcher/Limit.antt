-- ===== src/Fetcher/Limit.antt =====
-- `readBodyWithLimit` of lib/crawler/fetcher.ts against the whole body.
use growth_sent.Prelude.{
  ℕ, ◌+◌, ◌≤◌, ◌<◌, ◌≡◌, refl, ap, sym, true, false, none, some, List, [], ◌∷◌, ◌++◌, ltb, length,
  length-append, map, Result, ok, err, arith, inl, inr, OnSome, if-elim, ltb→lt, Option-cases,
  subst,
}
use growth_sent.Ssrf.Address.{Text}
use growth_sent.Fetcher.Body.{
  Chunk, bytes, broken, BoundedBody, Response, BodyError, read_chunks, read_body_with_limit,
  read_http_response, encodings_of, decoded_stream, declared_content_length,
}

-- The whole body.
abbrev pub joined : List (List ℕ) → List ℕ
joined [] = []
joined (b ∷ bs) = b ++ joined bs

-- What was read of a body of at most so many bytes, and of a longer one.
pub data IsKept (most : ℕ) (whole : List ℕ) : Result BodyError BoundedBody → Type 0 where
  complete :
      length whole ≤ most
      → IsKept most whole
          (ok (record { body = some whole; page_size_bytes = length whole; exceeded = false }))
  cut :
      (size : ℕ)
      → most < size
      → size ≤ length whole
      → IsKept most whole (ok (record { body = none; page_size_bytes = size; exceeded = true }))

append_assoc : (xs ys zs : List ℕ) → xs ++ (ys ++ zs) ≡ (xs ++ ys) ++ zs
append_assoc [] ys zs = refl
append_assoc (x ∷ xs) ys zs = ap (◌∷◌ x) (append_assoc xs ys zs)

append_nil : (xs : List ℕ) → xs ++ [] ≡ xs
append_nil [] = refl
append_nil (x ∷ xs) = ap (◌∷◌ x) (append_nil xs)

kept_fits :
    (most : ℕ) (kept b : List ℕ)
    → ltb most (length kept + length b) ≡ false
    → length (kept ++ b) ≤ most
kept_fits most kept b within = ground (arith, length-append kept b)

read_chunks-IsKept :
    (most : ℕ) (kept : List ℕ) (bs : List (List ℕ))
    → length kept ≤ most
    → IsKept most (kept ++ joined bs) (read_chunks most kept (length kept) (map bytes bs))
unfolding read_chunks
read_chunks-IsKept most kept [] fits =
    subst
      (λ whole.
        IsKept most whole
          (ok (record { body = some kept; page_size_bytes = length kept; exceeded = false })))
      (sym (append_nil kept)) (complete fits)
read_chunks-IsKept most kept (b ∷ bs) fits =
    if-elim (IsKept most (kept ++ (b ++ joined bs))) (ltb most (length kept + length b))
      (λ over.
        cut (length kept + length b) (ltb→lt most (length kept + length b) over)
          (omega (arith, length-append kept (b ++ joined bs), length-append b (joined bs))))
      (λ within.
        subst
          (λ n.
            IsKept most (kept ++ (b ++ joined bs)) (read_chunks most (kept ++ b) n (map bytes bs)))
          (length-append kept b)
          (subst
            (λ whole.
              IsKept most whole (read_chunks most (kept ++ b) (length (kept ++ b)) (map bytes bs)))
            (sym (append_assoc kept b (joined bs)))
            (read_chunks-IsKept most (kept ++ b) bs (kept_fits most kept b within))))

-- A body that can be read is read whole if it has at most so many bytes, and then its length is
-- reported; of a longer body nothing is kept.
pub read_body-IsKept :
    (most : ℕ) (bs : List (List ℕ))
    → IsKept most (joined bs) (read_body_with_limit (map bytes bs) most)
unfolding read_body_with_limit
read_body-IsKept most bs = read_chunks-IsKept most [] bs (omega arith)

-- A body that is returned is within the limit, and its length is reported.
abbrev pub IsWithin : ℕ → Result BodyError BoundedBody → Type 0
IsWithin most (err _) = Unit
IsWithin most (ok r) = OnSome (λ b. (length b ≡ r.page_size_bytes) × (length b ≤ most)) r.body

read_chunks-IsWithin :
    (most : ℕ) (kept : List ℕ) (chunks : List Chunk)
    → length kept ≤ most
    → IsWithin most (read_chunks most kept (length kept) chunks)
unfolding read_chunks
read_chunks-IsWithin most kept [] fits = (refl, fits)
read_chunks-IsWithin most kept (broken ∷ chunks) fits = tt
read_chunks-IsWithin most kept (bytes b ∷ chunks) fits =
    if-elim (IsWithin most) (ltb most (length kept + length b)) (λ over. tt)
      (λ within.
        subst (λ n. IsWithin most (read_chunks most (kept ++ b) n chunks)) (length-append kept b)
          (read_chunks-IsWithin most (kept ++ b) chunks (kept_fits most kept b within)))

pub read_http_response-IsWithin :
    (decompress : Text → List Chunk → List Chunk) (response : Response) (most : ℕ)
    → IsWithin most (read_http_response decompress response most)
unfolding read_http_response read_body_with_limit
read_http_response-IsWithin decompress response most =
    let limited = read_chunks-IsWithin most [] in
    if-elim (IsWithin most)
      (elim (declared_content_length response.content_length) [
        | none ↦ false
        | some size ↦ ltb most size
      ])
      (λ declared. tt)
      (λ not_declared.
        elim (Option-cases
          (decoded_stream decompress (encodings_of response.content_encoding) response.chunks)) [
            | inl unsupported ↦ rw unsupported tt
            | inr (chunks, decoded) ↦ rw decoded (limited chunks (omega arith))
          ])
