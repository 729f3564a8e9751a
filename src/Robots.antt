-- ===== src/Robots.antt =====
-- lib/crawler/robots.ts: the rules of a robots.txt, and the paths that they close. A text is the list
-- of its code points; a fetch that does not bring a text has no rules.
pub mod Groups
mod Tests
use growth_sent.Prelude.{
  ℕ, Bool, true, false, not, ◌&&◌, ◌||◌, Option, none, some, List, [], ◌∷◌, ◌++◌, String, codes,
  ◌==◌, if◌then◌else◌, any, leb, is_prefix, occurs_in, lower, same_text, map, trim, is_empty,
}

abbrev pub Text : Type 0
Text = List ℕ

abbrev add_to_line : ℕ → List Text → List Text
add_to_line c [] = (c ∷ []) ∷ []
add_to_line c (line ∷ lines) = (c ∷ line) ∷ lines

-- The split at line feeds. The trimming of each line takes off a carriage return before one.
unfoldable pub lines_of : Text → List Text
lines_of [] = [] ∷ []
lines_of (c ∷ s) = let rest = lines_of s in if c == 10 then [] ∷ rest else add_to_line c rest

-- What stands before and behind the first colon, if there is one.
abbrev pub cut_colon : Text → Option (Text × Text)
cut_colon [] = none
cut_colon (c ∷ s) =
    let later = cut_colon s in
    if c == b':'
    then some ([], s)
    else elim later [ none ↦ none | some (key, value) ↦ some (c ∷ key, value) ]

abbrev starts_comment : Text → Bool
starts_comment [] = true
starts_comment (c ∷ _) = c == b'#'

-- The key, in lower case, and the value of a line that has both.
unfoldable pub directive : Text → Option (Text × Text)
directive raw =
    let line = trim raw in
    if starts_comment line then none else elim (cut_colon line) [
      | none ↦ none
      | some (key, value) ↦ some (map lower (trim key), trim value)
    ]

pub record Rules : Type 0 where
  pub is_target_agent : Bool
  pub sitemaps : List Text
  pub disallowed_paths : List Text
  pub allowed_paths : List Text

abbrev pub no_rules : Rules
no_rules = record {
  is_target_agent = true;
  sitemaps = [];
  disallowed_paths = [];
  allowed_paths = [];
}

abbrev pub is_key : String → Text → Bool
is_key name key = same_text key (codes name)

abbrev pub is_for_us : Text → Bool
is_for_us agent = same_text agent (codes "*") || occurs_in (codes "growthsent") (map lower agent)

abbrev pub follow : Text × Text → Rules → Rules
follow (key, value) r =
    if is_key "user-agent" key
    then record r { is_target_agent = is_for_us value }
    else if is_key "sitemap" key
    then if is_prefix (codes "http://") value || is_prefix (codes "https://") value
      then record r { sitemaps = r.sitemaps ++ value ∷ [] }
      else r
    else if r.is_target_agent && not (is_empty value)
    then if is_key "disallow" key
      then record r { disallowed_paths = r.disallowed_paths ++ value ∷ [] }
      else if is_key "allow" key
      then record r { allowed_paths = r.allowed_paths ++ value ∷ [] }
      else r
    else r

unfoldable pub parse_lines : List Text → Rules → Rules
parse_lines [] r = r
parse_lines (line ∷ lines) r = elim (directive line) [
  | none ↦ parse_lines lines r
  | some d ↦ parse_lines lines (follow d r)
]

-- `Array.from(new Set(sitemaps))`
abbrev pub without : Text → List Text → List Text
without x [] = []
without x (y ∷ ys) = let rest = without x ys in if same_text x y then rest else y ∷ rest

abbrev pub distinct : List Text → List Text
distinct [] = []
distinct (x ∷ xs) = let rest = distinct xs in x ∷ without x rest

unfoldable pub parse_robots_txt : Text → Rules
parse_robots_txt body =
    let r = parse_lines (lines_of body) no_rules in record r { sitemaps = distinct r.sitemaps }

unfoldable pub is_path_disallowed_by_robots : Text → List Text → List Text → Bool
is_path_disallowed_by_robots path disallowed_paths allowed_paths =
    not (any (λ allow. not (is_empty allow) && is_prefix allow path) allowed_paths)
    && any
        (λ disallow.
          same_text disallow (codes "/") || (not (is_empty disallow) && is_prefix disallow path))
        disallowed_paths
