-- ===== src/Fetcher/Body.antt =====
-- How lib/crawler/fetcher.ts reads a body: `readBodyWithLimit` and `readHttpResponse`.
use growth_sent.Prelude.{
  ℕ, ◌+◌, ◌*◌, ◌-◌, Bool, true, false, ◌&&◌, ◌||◌, not, Option, none, some, List, [], ◌∷◌, ◌++◌,
  if◌then◌else◌, ltb, leb, any, all, length, map, lower, same_text, codes, trim, is_empty, Result,
  ok, err,
}
use growth_sent.Ssrf.Address.{Text, split_on}

-- What a stream yields: bytes, or something that cannot be read.
pub data Chunk : Type 0 where
  bytes : List ℕ → Chunk
  broken : Chunk

pub record BoundedBody : Type 0 where
  pub body : Option (List ℕ)
  pub page_size_bytes : ℕ
  pub exceeded : Bool

pub record Response : Type 0 where
  pub status_code : ℕ
  pub content_type : Option Text
  pub location : Option Text
  pub content_length : Option Text
  pub content_encoding : Option Text
  pub chunks : List Chunk

pub data BodyError : Type 0 where
  unsupported_encoding unreadable : BodyError

-- The loop, with the chunks that were kept and the bytes that were counted.
unfoldable pub read_chunks : ℕ → List ℕ → ℕ → List Chunk → Result BodyError BoundedBody
read_chunks most kept count [] =
    ok (record { body = some kept; page_size_bytes = count; exceeded = false })
read_chunks most kept count (broken ∷ chunks) = err unreadable
read_chunks most kept count (bytes b ∷ chunks) =
    let rest = read_chunks most (kept ++ b) (count + length b) chunks in
    if ltb most (count + length b)
    then ok (record { body = none; page_size_bytes = count + length b; exceeded = true })
    else rest

unfoldable pub read_body_with_limit : List Chunk → ℕ → Result BodyError BoundedBody
unfolding read_chunks
read_body_with_limit chunks most = read_chunks most [] 0 chunks

abbrev pub is_digit : ℕ → Bool
is_digit c = leb b'0' c && leb c b'9'

abbrev pub digits_value : ℕ → Text → ℕ
digits_value value [] = value
digits_value value (c ∷ s) = digits_value (value * 10 + (c - b'0')) s

-- The greatest safe integer.
abbrev pub max_safe_integer : ℕ
max_safe_integer = 9_007_199_254_740_991

unfoldable pub declared_content_length : Option Text → Option ℕ
declared_content_length none = none
declared_content_length (some header) =
    if not (is_empty header) && all is_digit header && leb (digits_value 0 header) max_safe_integer
    then some (digits_value 0 header)
    else none

abbrev pub is_supported : Text → Bool
is_supported encoding =
    any (λ name. same_text encoding (codes name)) ("gzip" ∷ "x-gzip" ∷ "deflate" ∷ "br" ∷ [])

-- The encodings of the header that are not empty and not `identity`.
abbrev pub kept_encodings : List Text → List Text
kept_encodings [] = []
kept_encodings (e ∷ es) =
    let rest = kept_encodings es in
    if is_empty (trim e) || same_text (trim e) (codes "identity") then rest else trim e ∷ rest

abbrev pub encodings_of : Option Text → List Text
encodings_of none = []
encodings_of (some header) = kept_encodings (split_on b',' (map lower header))

module _ (decompress : Text → List Chunk → List Chunk) where
  -- The last encoding is taken off first.
  unfoldable pub decoded_stream : List Text → List Chunk → Option (List Chunk)
  decoded_stream [] chunks = some chunks
  decoded_stream (encoding ∷ encodings) chunks =
      let rest = decoded_stream encodings chunks in
      if is_supported encoding
      then elim rest [ none ↦ none | some inner ↦ some (decompress encoding inner) ]
      else none

  unfoldable pub read_http_response : Response → ℕ → Result BodyError BoundedBody
  unfolding decoded_stream read_body_with_limit declared_content_length
  read_http_response response most =
      if declares_more (declared_content_length response.content_length)
      then ok (record { body = none; page_size_bytes = most; exceeded = true })
      else elim (decoded_stream (encodings_of response.content_encoding) response.chunks) [
        | none ↦ err unsupported_encoding
        | some chunks ↦ read_body_with_limit chunks most
      ]
    where
      declares_more : Option ℕ → Bool
      declares_more none = false
      declares_more (some size) = ltb most size
