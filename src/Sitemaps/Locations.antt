-- ===== src/Sitemaps/Locations.antt =====
-- lib/crawler/sitemap.ts: the locations of a sitemap, as its regular expression finds them.
use growth_sent.Prelude.{
  Bool, not, ◌&&◌, ◌||◌, Option, none, some, List, [], ◌∷◌, ◌==◌, if◌then◌else◌, codes, map, lower,
  trim, is_empty, is_blank, is_prefix, drop,
}
use growth_sent.Ssrf.Address.{Text}

abbrev skip_blanks : Text → Text
skip_blanks [] = []
skip_blanks (c ∷ s) = let rest = skip_blanks s in if is_blank c then rest else c ∷ s

-- What stands before the next `<`, and from it on.
abbrev cut_tag : Text → Text × Text
cut_tag [] = ([], [])
cut_tag (c ∷ s) =
    let (before, rest) = cut_tag s in if c == b'<' then ([], c ∷ s) else (c ∷ before, rest)

abbrev begins : Text → Text → Bool
begins prefix s = is_prefix prefix (map lower s)

-- Something follows the scheme.
abbrev is_address : Text → Bool
is_address s =
    (begins (codes "http://") s && not (is_empty (drop 7 s)))
    || (begins (codes "https://") s && not (is_empty (drop 8 s)))

-- The location in an element `loc` that begins here.
abbrev pub location_at : Text → Option Text
location_at s =
    let (content, rest) = cut_tag (drop 5 s) in
    if begins (codes "<loc>") s && is_address (skip_blanks content) && begins (codes "</loc>") rest
    then some (trim content)
    else none

-- No two matches overlap, since the content of one has no `<`.
unfoldable pub locations : Text → List Text
locations [] = []
locations (c ∷ s) =
    let rest = locations s in elim (location_at (c ∷ s)) [ none ↦ rest | some url ↦ url ∷ rest ]
