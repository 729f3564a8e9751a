-- ===== src/Fetcher/Tests.antt =====
-- Fetches of lib/crawler/fetcher.ts over a small network.
use growth_sent.Prelude.{ℕ, ◌≡◌, refl, false, none, some, [], ◌∷◌, ◌==◌, codes, if◌then◌else◌}
use growth_sent.Types.{blocked_by_safety_policy}
use growth_sent.Ssrf.{is_blocked_ipv4}
use growth_sent.Ssrf.Address.{Text, split_on}
use growth_sent.Ssrf.Validate.{
  Network, ParsedUrl, https, validate_url_for_scan, is_blocked_ip, is_blocked_hostname,
  normalize_hostname,
}
use growth_sent.Fetcher.Body.{bytes, Response, read_body_with_limit}
use growth_sent.Fetcher.Headers.{first_party_audit_headers}
use growth_sent.Fetcher.{Web, responded, fetch_url}
use growth_sent.Fetcher.Limit.{IsKept, read_body-IsKept}
use growth_sent.Fetcher.Token.{IsListed, token-IsListed}
use growth_sent.Fetcher.Pinned.{IsFetched, fetch_url-IsFetched}

abbrev parsed : Text → ParsedUrl
parsed text = record {
  protocol = https;
  port = [];
  username = [];
  password = [];
  hostname = text;
  href = text;
}

-- The first answer for a name is public, the second is not.
abbrev rebinding : ℕ → Network
rebinding hop = record {
  parse_url = λ text. some (parsed text);
  ipv4_parts = λ text. elim text [
    | [] ↦ none
    | c ∷ _ ↦
        if c == b'9'
        then some (93, 184, 216, 34)
        else if c == b'1'
        then some (10, 0, 0, 7)
        else none
  ];
  is_ipv6 = λ text. false;
  lookup = λ host. some ((codes (if hop == 0 then "93.184.216.34" else "10.0.0.7"), 4) ∷ []);
}

abbrev moved : Response
moved = record {
  status_code = 302;
  content_type = none;
  location = some (codes "b.example");
  content_length = none;
  content_encoding = none;
  chunks = [];
}

abbrev web : Web
web = record {
  network_at = rebinding;
  exchange = λ request. responded moved;
  resolve = λ location base. some ([], [], location);
  decompress = λ encoding chunks. chunks;
  decode_utf8 = λ b. b;
  audit_config = record { hosts = some (codes "a.example, c.example"); token = some (codes "t") };
}

rebound_test :
    (fetch_url web (codes "https://a.example") 100 5).0.failure_category
    ≡ some blocked_by_safety_policy
unfolding fetch_url validate_url_for_scan normalize_hostname is_blocked_hostname is_blocked_ip
    is_blocked_ipv4
rebound_test = refl

token_test : first_party_audit_headers web.audit_config (codes "c.example") ≡ some (codes "t")
unfolding first_party_audit_headers split_on
token_test = refl

no_token_test : first_party_audit_headers web.audit_config (codes "x.c.example") ≡ none
unfolding first_party_audit_headers split_on
no_token_test = refl

fetch_url-IsFetched_example :
    IsFetched web 100
      (codes "https://a.example")
      6
      0
      (fetch_url web (codes "https://a.example") 100 5)
fetch_url-IsFetched_example = fetch_url-IsFetched web (codes "https://a.example") 100 5

read_body-IsKept_example :
    IsKept 3
      (1 ∷ 2 ∷ 3 ∷ 4 ∷ [])
      (read_body_with_limit (bytes (1 ∷ 2 ∷ []) ∷ bytes (3 ∷ 4 ∷ []) ∷ []) 3)
read_body-IsKept_example = read_body-IsKept 3 ((1 ∷ 2 ∷ []) ∷ (3 ∷ 4 ∷ []) ∷ [])

token-IsListed_example : IsListed web.audit_config (codes "c.example") (codes "t")
token-IsListed_example = token-IsListed web.audit_config (codes "c.example") (codes "t") token_test
