-- ===== src/Ssrf/Validate.antt =====
-- `isBlockedIp` and `validateUrlForScan` of lib/security/ssrf.ts. The URL parser, `net.isIP` and the
-- resolver are parameters.
use growth_sent.Prelude.{
  lower, same_text, ℕ, Bool, true, false, not, ◌&&◌, ◌||◌, Option, none, some, List, [], ◌∷◌, ◌++◌,
  codes, ◌==◌, if◌then◌else◌, any, map, Result, ok, err,
}
use growth_sent.Ssrf.{is_blocked_ipv4, is_blocked_bytes}
use growth_sent.Ssrf.Address.{Text, ipv6_to_bytes}

pub data Protocol : Type 0 where
  http https other_scheme : Protocol

-- The parts of a parsed URL, and the whole of it with no fragment.
pub record ParsedUrl : Type 0 where
  pub protocol : Protocol
  pub port : Text
  pub username : Text
  pub password : Text
  pub hostname : Text
  pub href : Text

pub record Network : Type 0 where
  pub parse_url : Text → Option ParsedUrl
  -- `net.isIPv4`, with the four numbers
  pub ipv4_parts : Text → Option (ℕ × ℕ × ℕ × ℕ)
  pub is_ipv6 : Text → Bool
  -- `dns.lookup` with all answers and their families
  pub lookup : Text → Option (List (Text × ℕ))

-- The ways in which a URL is turned down, by their messages.
pub data Reason : Type 0 where
  not_a_text invalid_format only_http only_standard_ports credentials no_hostname : Reason
  local_hostname private_ip unresolved restricted_answer unsupported_family : Reason

pub record Target : Type 0 where
  pub normalized_url : Text
  pub hostname : Text
  pub address : Text
  pub family : ℕ

abbrev pub ends_with : Text → Text → Bool
ends_with [] suffix = same_text [] suffix
ends_with (x ∷ s) suffix = same_text (x ∷ s) suffix || ends_with s suffix

abbrev pub is_empty : Text → Bool
is_empty [] = true
is_empty _ = false

abbrev pub drop_dot : Text → Text
drop_dot [] = []
drop_dot (x ∷ []) = if x == b'.' then [] else x ∷ []
drop_dot (x ∷ y ∷ s) = x ∷ drop_dot (y ∷ s)

abbrev drop_last : Text → Text
drop_last [] = []
drop_last (x ∷ []) = []
drop_last (x ∷ y ∷ s) = x ∷ drop_last (y ∷ s)

abbrev unbracket : Text → Text
unbracket [] = []
unbracket (x ∷ s) = if x == b'[' && ends_with (x ∷ s) (b']' ∷ []) then drop_last s else x ∷ s

unfoldable pub normalize_hostname : Text → Text
normalize_hostname hostname = drop_dot (map lower (unbracket hostname))

unfoldable pub is_blocked_hostname : Text → Bool
is_blocked_hostname hostname =
    any (λ name. same_text hostname (codes name))
      ("localhost" ∷ "localhost.localdomain" ∷ "loopback" ∷ "metadata.google.internal"
        ∷ "metadata.aws.internal" ∷ [])
    || any (λ suffix. ends_with hostname (codes suffix))
        (".localhost" ∷ ".local" ∷ ".localdomain" ∷ ".internal" ∷ ".home" ∷ [])

abbrev pub starts_scheme : Text → Bool
starts_scheme (a ∷ b ∷ c ∷ _) = a == b':' && b == b'/' && c == b'/'
starts_scheme _ = false

abbrev pub has_scheme : Text → Bool
has_scheme [] = false
has_scheme (x ∷ s) = starts_scheme (x ∷ s) || has_scheme s

-- A text with no scheme is taken for https. The text has been trimmed.
abbrev pub with_scheme : Text → Text
with_scheme input = if has_scheme input then input else codes "https://" ++ input

abbrev pub is_web : Protocol → Bool
is_web other_scheme = false
is_web _ = true

module _ (net : Network) where
  unfoldable pub is_blocked_ip : Text → Bool
  is_blocked_ip ip =
      let normalized = normalize_hostname ip in
      elim (net.ipv4_parts normalized) [
        | some (a, b, c, d) ↦ is_blocked_ipv4 a b c
        | none ↦
            if net.is_ipv6 normalized
            then elim (ipv6_to_bytes net.ipv4_parts normalized) [
              | none ↦ true
              | some bytes ↦ is_blocked_bytes bytes
            ]
            else true
      ]

  -- `net.isIP`: 4, 6, or 0 for a name.
  unfoldable pub is_ip : Text → ℕ
  is_ip hostname = elim (net.ipv4_parts hostname) [
    | some _ ↦ 4
    | none ↦ if net.is_ipv6 hostname then 6 else 0
  ]

  -- The answers of the resolver for a name.
  unfoldable pub choose : ParsedUrl → Text → Option (List (Text × ℕ)) → Result Reason Target
  choose url hostname none = err unresolved
  choose url hostname (some []) = err restricted_answer
  choose url hostname (some ((address, family) ∷ records)) =
      if is_blocked_ip address || any (λ r. is_blocked_ip r.0) records
      then err restricted_answer
      else if family == 6 || family == 4
      then ok (record {
        normalized_url = url.href;
        hostname = hostname;
        address = address;
        family = family;
      })
      else err unsupported_family

  unfoldable pub check_host : ParsedUrl → Text → Result Reason Target
  unfolding choose is_ip
  check_host url hostname =
      if is_empty hostname
      then err no_hostname
      else if is_blocked_hostname hostname
      then err local_hostname
      else if is_ip hostname == 0
      then choose url hostname (net.lookup hostname)
      else if is_blocked_ip hostname
      then err private_ip
      else ok (record {
        normalized_url = url.href;
        hostname = hostname;
        address = hostname;
        family = is_ip hostname;
      })

  -- `input` is the trimmed text of the caller.
  unfoldable pub validate_url_for_scan : Text → Result Reason Target
  unfolding check_host
  validate_url_for_scan input =
      if is_empty input then err not_a_text else elim (net.parse_url (with_scheme input)) [
        | none ↦ err invalid_format
        | some url ↦
            if not (is_web url.protocol)
            then err only_http
            else if not (is_empty url.port)
            then err only_standard_ports
            else if not (is_empty url.username) || not (is_empty url.password)
            then err credentials
            else check_host url (normalize_hostname url.hostname)
      ]
