-- ===== src/Fetcher/Headers.antt =====
-- `firstPartyAuditHeaders` of lib/crawler/fetcher.ts: which hosts are shown the audit token.
use growth_sent.Prelude.{
  ℕ, Bool, false, ◌&&◌, ◌||◌, not, Option, none, some, List, [], ◌∷◌, if◌then◌else◌, leb, ◌==◌, all,
  length, map, lower, same_text, trim, is_empty,
}
use growth_sent.Ssrf.Address.{Text, split_on}
use growth_sent.Ssrf.Validate.{drop_dot}

pub record FirstPartyAuditConfig : Type 0 where
  pub hosts : Option Text
  pub token : Option Text

abbrev pub is_letter_or_digit : ℕ → Bool
is_letter_or_digit c = (leb b'a' c && leb c b'z') || (leb b'0' c && leb c b'9')

abbrev pub last_is : (ℕ → Bool) → Text → Bool
last_is p [] = false
last_is p (c ∷ []) = p c
last_is p (c ∷ d ∷ s) = last_is p (d ∷ s)

abbrev pub first_is : (ℕ → Bool) → Text → Bool
first_is p [] = false
first_is p (c ∷ s) = p c

-- One to 63 letters, digits and dashes, with no dash at an end.
abbrev pub is_label : Text → Bool
is_label label =
    leb (length label) 63
    && first_is is_letter_or_digit label
    && last_is is_letter_or_digit label
    && all (λ c. is_letter_or_digit c || c == b'-') label

unfoldable pub normalized_hostname : Text → Option Text
normalized_hostname value =
    let hostname = drop_dot (map lower (trim value)) in
    if all is_label (split_on b'.' hostname) then some hostname else none

abbrev pub is_permitted : Text → List Text → Bool
is_permitted hostname [] = false
is_permitted hostname (entry ∷ entries) =
    elim (normalized_hostname entry) [ none ↦ false | some host ↦ same_text host hostname ]
    || is_permitted hostname entries

abbrev pub hosts_of : Option Text → Text
hosts_of none = []
hosts_of (some hosts) = hosts

-- The token that the request carries, if any.
unfoldable pub first_party_audit_headers : FirstPartyAuditConfig → Text → Option Text
unfolding normalized_hostname
first_party_audit_headers config hostname = elim config.token [
  | none ↦ none
  | some token ↦ elim (normalized_hostname hostname) [
    | none ↦ none
    | some requested ↦
        if not (is_empty token) && is_permitted requested (split_on b',' (hosts_of config.hosts))
        then some token
        else none
  ]
]
