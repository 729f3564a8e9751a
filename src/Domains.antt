-- ===== src/Domains.antt =====
-- lib/domain/registrable.ts: host names that belong to one site. The public suffix list and the URL
-- parser are parameters.
use growth_sent.Prelude.{
  Bool, false, not, ◌&&◌, ◌||◌, Option, none, some, [], ◌∷◌, ◌++◌, ◌==◌, if◌then◌else◌, codes, map,
  lower, trim, is_empty, is_prefix, same_text, drop,
}
use growth_sent.Ssrf.Address.{Text}

-- The parts of a parsed URL that are read.
pub record Url : Type 0 where
  pub protocol : Text
  pub host : Text
  pub hostname : Text

-- `${url.protocol}//${url.host}/`
abbrev pub origin_of : Url → Text
origin_of url = url.protocol ++ (codes "//" ++ (url.host ++ codes "/"))

-- The dots at the end taken off.
abbrev drop_dots : Text → Text
drop_dots [] = []
drop_dots (c ∷ s) = let rest = drop_dots s in if c == b'.' && is_empty rest then [] else c ∷ rest

unfoldable pub normalize_comparable_hostname : Text → Text
normalize_comparable_hostname hostname = drop_dots (map lower (trim hostname))

abbrev pub unless_empty : Text → Option Text
unless_empty text = if is_empty text then none else some text

abbrev without_www : Text → Text
without_www hostname = if is_prefix (codes "www.") hostname then drop 4 hostname else hostname

-- `getDomain` of the package tldts, for the domains of ICANN.
module _ (get_domain : Text → Option Text) where
  unfoldable pub registrable_domain : Text → Option Text
  unfolding normalize_comparable_hostname
  registrable_domain hostname = elim (get_domain (normalize_comparable_hostname hostname)) [
    | none ↦ none
    | some domain ↦ unless_empty (map lower domain)
  ]

  unfoldable pub has_same_registrable_domain : Text → Text → Bool
  unfolding registrable_domain
  has_same_registrable_domain left right = elim (registrable_domain left) [
    | none ↦ false
    | some a ↦ elim (registrable_domain right) [ none ↦ false | some b ↦ same_text a b ]
  ]

  unfoldable pub is_within_crawl_origin_scope : Text → Text → Bool
  unfolding has_same_registrable_domain
  is_within_crawl_origin_scope origin_hostname candidate_hostname =
      let origin = normalize_comparable_hostname origin_hostname in
      let candidate = normalize_comparable_hostname candidate_hostname in
      not (is_empty origin || is_empty candidate)
      && (same_text origin candidate
          || (has_same_registrable_domain origin candidate
              && same_text (without_www origin) (without_www candidate)))

  -- `new URL(url).hostname` is `hostname_of url`.
  unfoldable pub is_url_within_crawl_origin_scope : (Text → Option Text) → Text → Text → Bool
  unfolding is_within_crawl_origin_scope
  is_url_within_crawl_origin_scope hostname_of origin_url candidate_url =
      elim (hostname_of origin_url) [
        | none ↦ false
        | some origin ↦ elim (hostname_of candidate_url) [
          | none ↦ false
          | some candidate ↦ is_within_crawl_origin_scope origin candidate
        ]
      ]
