-- ===== src/Ssrf/Tests.antt =====
-- Addresses and URLs that lib/security/ssrf.ts is asked about.
use growth_sent.Prelude.{◌≡◌, refl, true, false, none, some, [], ◌∷◌, codes, any, arith, ◌==◌}
use growth_sent.Ssrf.{Bytes, is_blocked_ipv4}
use growth_sent.Ssrf.Ipv4.{number, in_block, blocks, is_blocked_ipv4-blocks}
use growth_sent.Ssrf.Validate.{
  Network, Target, ParsedUrl, https, validate_url_for_scan, check_host, choose, is_ip,
  is_blocked_ip, is_blocked_hostname, normalize_hostname,
}
use growth_sent.Ssrf.Allowed.{IsAllowed, validate_url_for_scan-IsAllowed}

is_blocked_ipv4-blocks_example :
    is_blocked_ipv4 172 20 0 ≡ any (in_block (number 172 20 0 1)) blocks
is_blocked_ipv4-blocks_example =
    is_blocked_ipv4-blocks 172 20 0 1 (omega arith) (omega arith) (omega arith) (omega arith)

-- ::ffff:127.0.0.1
abbrev mapped_loopback : Bytes
mapped_loopback = record {
  b0 = 0;
  b1 = 0;
  b2 = 0;
  b3 = 0;
  b4 = 0;
  b5 = 0;
  b6 = 0;
  b7 = 0;
  b8 = 0;
  b9 = 0;
  b10 = 255;
  b11 = 255;
  b12 = 127;
  b13 = 0;
  b14 = 0;
  b15 = 1;
}

abbrev resolved : ParsedUrl
resolved = record {
  protocol = https;
  port = [];
  username = [];
  password = [];
  hostname = codes "example.com";
  href = codes "https://example.com/";
}

-- A resolver that knows one host, at 93.184.216.34.
abbrev small_net : Network
small_net = record {
  parse_url = λ text. some resolved;
  ipv4_parts = λ text. elim text [
    | [] ↦ none
    | c ∷ _ ↦ elim (c == b'9') [ true ↦ some (93, 184, 216, 34) | false ↦ none ]
  ];
  is_ipv6 = λ text. false;
  lookup = λ host. some ((codes "93.184.216.34", 4) ∷ []);
}

abbrev target : Target
target = record {
  normalized_url = codes "https://example.com/";
  hostname = codes "example.com";
  address = codes "93.184.216.34";
  family = 4;
}

validate_url_for_scan-IsAllowed_example : IsAllowed small_net (codes "example.com") target
unfolding validate_url_for_scan check_host choose is_ip is_blocked_ip is_blocked_hostname
    is_blocked_ipv4 normalize_hostname
validate_url_for_scan-IsAllowed_example =
    validate_url_for_scan-IsAllowed small_net (codes "example.com") target refl
