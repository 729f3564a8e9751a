-- ===== src/Ssrf/Allowed.antt =====
-- What `validateUrlForScan` of lib/security/ssrf.ts promises of the targets it lets through.
use growth_sent.Prelude.{
  ℕ, ◌≡◌, refl, ◌⊎◌, inl, inr, true, false, Option, none, some, List, [], ◌∷◌, ◌==◌, any, arith, ok,
  Option-cases,
}
use growth_sent.Ssrf.Address.{Text}
use growth_sent.Ssrf.Validate.{
  ParsedUrl, Network, Target, is_empty, normalize_hostname, is_blocked_hostname, with_scheme,
  is_web, is_blocked_ip, is_ip, choose, check_host, validate_url_for_scan,
}

module _ (net : Network) where
  -- The address is the host itself, or the resolver's first answer, and none of its answers is
  -- blocked.
  unfoldable pub IsVetted : Text → Target → Type 0
  IsVetted hostname target =
      (target.address ≡ hostname)
      ⊎ ((rest : List (Text × ℕ)) × (net.lookup hostname
            ≡ some ((target.address, target.family) ∷ rest))
          × (any (λ r. is_blocked_ip net r.0) rest ≡ false))

  unfoldable pub IsPublic : Text → Target → Type 0
  IsPublic hostname target =
      (target.hostname ≡ hostname)
      × (target.family ≡ 4 ⊎ target.family ≡ 6)
      × (is_blocked_hostname hostname ≡ false)
      × (is_blocked_ip net target.address ≡ false)
      × IsVetted hostname target

  -- What is known of a target that was let through.
  pub record IsAllowed (input : Text) (target : Target) : Type 0 where
    pub url : ParsedUrl
    pub parsed : net.parse_url (with_scheme input) ≡ some url
    pub web : is_web url.protocol ≡ true
    pub standard_port : is_empty url.port ≡ true
    pub no_username : is_empty url.username ≡ true
    pub no_password : is_empty url.password ≡ true
    pub public : IsPublic (normalize_hostname url.hostname) target

  first-IsVetted :
      (hostname : Text) (target : Target) (address : Text) (family : ℕ) (rest : List (Text × ℕ))
      → net.lookup hostname ≡ some ((address, family) ∷ rest)
      → any (λ r. is_blocked_ip net r.0) rest ≡ false
      → target.address ≡ address
      → target.family ≡ family
      → IsVetted hostname target
  unfolding IsVetted
  first-IsVetted hostname target address family rest l e a f = inr (rest, cc, e)

  choose-ok :
      (url : ParsedUrl) (hostname : Text) (answers : Option (List (Text × ℕ))) (target : Target)
      → net.lookup hostname ≡ answers
      → is_blocked_hostname hostname ≡ false
      → choose net url hostname answers ≡ ok target
      → IsPublic hostname target
  unfolding IsPublic choose
  choose-ok url hostname none target l public e = cc
  choose-ok url hostname (some []) target l public e = cc
  choose-ok url hostname (some ((address, family) ∷ records)) target l public e =
      ground (arith, first-IsVetted hostname target address family records l)

  is_ip-family :
      (hostname : Text)
      → (is_ip net hostname == 0) ≡ false
      → (is_ip net hostname ≡ 4) ⊎ (is_ip net hostname ≡ 6)
  unfolding is_ip
  is_ip-family hostname e = ground arith

  check_host-ok :
      (url : ParsedUrl) (hostname : Text) (target : Target)
      → check_host net url hostname ≡ ok target
      → IsPublic hostname target
  unfolding check_host IsPublic IsVetted
  check_host-ok url hostname target e =
      ground
        (arith, choose-ok url hostname (net.lookup hostname) target refl, is_ip-family hostname)

  -- A URL that the validation lets through is a web URL on a standard port with no credentials,
  -- whose host is no local name, and whose address is public; where the address comes from the
  -- resolver, it is the first answer, and every further answer is public too.
  pub validate_url_for_scan-IsAllowed :
      (input : Text) (target : Target)
      → validate_url_for_scan net input ≡ ok target
      → IsAllowed input target
  unfolding validate_url_for_scan
  validate_url_for_scan-IsAllowed input target e =
      elim (Option-cases (net.parse_url (with_scheme input))) [
        | inl parsed ↦ ground arith
        | inr (url, parsed) ↦ record {
          url = url;
          parsed = parsed;
          web = ground arith;
          standard_port = ground arith;
          no_username = ground arith;
          no_password = ground arith;
          public = check_host-ok url (normalize_hostname url.hostname) target (ground arith);
        }
      ]
