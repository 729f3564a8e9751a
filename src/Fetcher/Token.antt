-- ===== src/Fetcher/Token.antt =====
-- Which hosts `firstPartyAuditHeaders` of lib/crawler/fetcher.ts shows the audit token.
use growth_sent.Prelude.{
  ◌≡◌, refl, true, false, ◌&&◌, not, some, List, [], ◌∷◌, ◌==◌, same_text, is_empty, Option-cases,
  Bool-cases, inl, inr, arith, &&-both, ==→≡, ap, ap₂, ◌∙◌,
}
use growth_sent.Ssrf.Address.{Text, split_on}
use growth_sent.Fetcher.Headers.{
  FirstPartyAuditConfig, normalized_hostname, is_permitted, hosts_of, first_party_audit_headers,
}

-- One of the entries is this host, once both are normalized.
pub data HasHost (host : Text) : List Text → Type 0 where
  here :
      {entry : Text} {entries : List Text}
      → normalized_hostname entry ≡ some host
      → HasHost host (entry ∷ entries)
  there :
      {entry : Text} {entries : List Text} → HasHost host entries → HasHost host (entry ∷ entries)

-- The token is the configured one, and the host is one of those in the configuration.
pub record IsListed (config : FirstPartyAuditConfig) (hostname token : Text) : Type 0 where
  pub host : Text
  pub normal : normalized_hostname hostname ≡ some host
  pub configured : config.token ≡ some token
  pub filled : is_empty token ≡ false
  pub listed : HasHost host (split_on b',' (hosts_of config.hosts))

same_text→≡ : (s t : Text) → same_text s t ≡ true → s ≡ t
same_text→≡ [] [] h = refl
same_text→≡ [] (d ∷ t) h = absurd (ground arith)
same_text→≡ (c ∷ s) [] h = absurd (ground arith)
same_text→≡ (c ∷ s) (d ∷ t) h =
    let (first, rest) = &&-both (c == d) (same_text s t) h in
    ap₂ ◌∷◌ (==→≡ c d first) (same_text→≡ s t rest)

is_permitted-HasHost :
    (host : Text) (entries : List Text) → is_permitted host entries ≡ true → HasHost host entries
is_permitted-HasHost host [] h = absurd (ground arith)
is_permitted-HasHost host (entry ∷ entries) h = elim (Option-cases (normalized_hostname entry)) [
  | inl unusable ↦ there (is_permitted-HasHost host entries (ground arith))
  | inr (other, found) ↦ elim (Bool-cases (same_text other host)) [
    | inl same ↦ here (found ∙ ap some (same_text→≡ other host same))
    | inr differs ↦ there (is_permitted-HasHost host entries (ground arith))
  ]
]

-- A request carries the token only if it is the configured one, is not empty, and the host of the
-- request is, once normalized, one of the hosts of the configuration.
pub token-IsListed :
    (config : FirstPartyAuditConfig) (hostname token : Text)
    → first_party_audit_headers config hostname ≡ some token
    → IsListed config hostname token
unfolding first_party_audit_headers
token-IsListed config hostname token shown = elim (Option-cases config.token) [
  | inl missing ↦ absurd (ground arith)
  | inr (configured, c) ↦ elim (Option-cases (normalized_hostname hostname)) [
    | inl unusable ↦ absurd (ground arith)
    | inr (host, normal) ↦
        elim (Bool-cases (
          not (is_empty configured) && is_permitted host (split_on b',' (hosts_of config.hosts)))) [
            | inr refused ↦ absurd (ground arith)
            | inl permitted ↦
                let (filled, listed) =
                  &&-both (not (is_empty configured))
                    (is_permitted host (split_on b',' (hosts_of config.hosts))) permitted in
                record {
                  host = host;
                  normal = normal;
                  configured = ground arith;
                  filled = ground arith;
                  listed = is_permitted-HasHost host (split_on b',' (hosts_of config.hosts)) listed;
                }
          ]
  ]
]
