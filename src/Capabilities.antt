-- ===== src/Capabilities.antt =====
-- lib/security/access-token.ts and lib/security/common-crawl-requester.ts: the bearer capability of
-- an anonymous audit, of which the program stores a digest, and the admission identity of a
-- requester. SHA-256, the HMAC and `net.isIP` are parameters.
pub mod Tokens
mod Tests
use growth_sent.Prelude.{
  ℕ, ◌+◌, ◌*◌, ◌-◌, Bool, true, false, ◌&&◌, ◌||◌, not, Option, none, some, List, [], ◌∷◌, String,
  ◌<>◌, ◌≡◌, ◌===◌, ◌==◌, if◌then◌else◌, leb, ltb, codes, all, length, same_text, from_codes,
  to_lower_case, trim, text_length, Result, ok, err,
}

abbrev pub is_lower_hex : ℕ → Bool
is_lower_hex c = (leb b'0' c && leb c b'9') || (leb b'a' c && leb c b'f')

abbrev pub is_hex : ℕ → Bool
is_hex c = is_lower_hex c || (leb b'A' c && leb c b'F')

-- `createHash("sha256").update(text, "utf8").digest("hex")`
pub record Sha256 : Type 0 where
  pub digest : String → String
  pub digest-length : (text : String) → length (codes (digest text)) ≡ 64
  pub digest-all : (text : String) → all is_lower_hex (codes (digest text)) ≡ true

-- The value of a digit.
abbrev pub nibble : ℕ → ℕ
nibble c = if leb c b'9' then c - b'0' else if leb c b'F' then c - b'A' + 10 else c - b'a' + 10

-- `Buffer.from(text, "hex")`: it stops at what is no pair of digits.
unfoldable pub from_hex : List ℕ → List ℕ
from_hex [] = []
from_hex (a ∷ []) = []
from_hex (a ∷ b ∷ s) =
    let rest = from_hex s in if is_hex a && is_hex b then (nibble a * 16 + nibble b) ∷ rest else []

module _ (h : Sha256) where
  unfoldable pub hash_opaque_access_token : String → String
  hash_opaque_access_token token = h.digest token

  unfoldable pub verify_opaque_access_token : Option String → Option String → Bool
  unfolding from_hex hash_opaque_access_token
  verify_opaque_access_token none stored = false
  verify_opaque_access_token (some token) none = false
  verify_opaque_access_token (some token) (some stored) =
      not (token === "")
      && not (stored === "")
      && (length (codes stored) == 64 && all is_hex (codes stored))
      && same_text (from_hex (codes (hash_opaque_access_token token))) (from_hex (codes stored))

-- Why a requester has no key.
pub data RequesterError : Type 0 where
  invalid_identity invalid_ip no_session_secret : RequesterError

-- What the key is made with: the HMAC, `net.isIP(text) !== 0`, and the trimmed SESSION_SECRET.
pub record RequesterHost : Type 0 where
  pub hmac_sha256 : String → String → String
  pub is_ip : String → Bool
  pub session_secret : Option String

unfoldable pub user_subject : String → Result RequesterError String
unfolding to_lower_case
user_subject user_id =
    if length (codes user_id) == 24 && all is_hex (codes user_id)
    then ok ("user:" <> to_lower_case user_id)
    else err invalid_identity

module _ (h : RequesterHost) where
  unfoldable pub ip_subject : Option String → Result RequesterError String
  ip_subject none = err invalid_ip
  ip_subject (some request_ip) =
      let normalized = to_lower_case (from_codes (trim (codes request_ip))) in
      if normalized === "" || not (h.is_ip normalized)
      then err invalid_ip
      else ok ("ip:" <> normalized)

  unfoldable pub keyed : Result RequesterError String → Result RequesterError String
  keyed (err e) = err e
  keyed (ok subject) = elim h.session_secret [
    | none ↦ err no_session_secret
    | some secret ↦
        if ltb (text_length secret) 32
        then err no_session_secret
        else ok ("ccr_" <> h.hmac_sha256 secret subject)
  ]

  unfoldable pub create_common_crawl_requester_key :
      Option String → Option String → Result RequesterError String
  unfolding ip_subject keyed
  create_common_crawl_requester_key none request_ip = keyed (ip_subject request_ip)
  create_common_crawl_requester_key (some user_id) request_ip =
      if user_id === "" then keyed (ip_subject request_ip) else keyed (user_subject user_id)
