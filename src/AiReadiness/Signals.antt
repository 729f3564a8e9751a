-- ===== src/AiReadiness/Signals.antt =====
-- lib/ai-readiness/service.ts: what the checks look for in a text that was fetched.
use growth_sent.Prelude.{
  ℕ, ◌-◌, Bool, true, false, ◌&&◌, ◌||◌, not, Option, none, some, List, [], ◌∷◌, ◌++◌, String, ◌==◌,
  if◌then◌else◌, ltb, leb, codes, map, lower, same_text, trim, is_empty, is_blank, is_prefix,
  occurs_in, drop, all, any, length,
}
use growth_sent.Ssrf.Address.{Text}
use growth_sent.Robots.{lines_of, cut_colon, distinct}
use growth_sent.Fetcher.{FetchResult}

-- The fields of an object that are texts.
pub record JsonObject : Type 0 where
  pub is_text_field : String → Bool

-- What the HTML parsers find in the homepage.
pub record Page : Type 0 where
  pub is_noindex : Bool
  pub h1_count : ℕ
  pub json_ld_syntax_valid : Bool
  pub structured_data_types : List Text
  -- the lengths of the text of the main regions, and of the body
  pub main_length : ℕ
  pub body_length : ℕ

-- The code points of the first so many units of a text.
abbrev pub first_units : ℕ → Text → Text
first_units n [] = []
first_units n (c ∷ s) =
    let size = if ltb c 65536 then 1 else 2 in
    let rest = first_units (n - size) s in if leb size n then c ∷ rest else []

-- Does the text go on with a blank or a `>`?
abbrev ends_name : Text → Bool
ends_name [] = false
ends_name (c ∷ s) = is_blank c || c == b'>'

-- Does the text hold a tag with this name, in any case?
abbrev pub has_tag : Text → Text → Bool
has_tag name [] = false
has_tag name (c ∷ s) =
    let rest = has_tag name s in
    (c == b'<' && is_prefix name (map lower s) && ends_name (drop (length name) s)) || rest

unfoldable pub is_html_result : FetchResult → Bool
is_html_result result =
    occurs_in (codes "html") (map lower result.content_type)
    || has_tag (codes "html") (first_units 512 result.body)

abbrev starts_json : Text → Bool
starts_json [] = false
starts_json (c ∷ s) = if is_blank c then starts_json s else (c == b'[' || c == b'{')

unfoldable pub is_json_result : FetchResult → Bool
is_json_result result =
    occurs_in (codes "json") (map lower result.content_type) || starts_json result.body

unfoldable pub is_sitemap_document : FetchResult → Bool
is_sitemap_document result =
    result.status_code == 200
    && (has_tag (codes "urlset") result.body || has_tag (codes "sitemapindex") result.body)

abbrev is_line_end : ℕ → Bool
is_line_end c = any (λ e. c == e) (10 ∷ 13 ∷ 8232 ∷ 8233 ∷ [])

abbrev skip_comment : Text → Text
skip_comment [] = []
skip_comment (c ∷ s) = let rest = skip_comment s in if is_line_end c then c ∷ s else rest

-- A line without its comment, trimmed.
abbrev pub without_comment : Text → Text
without_comment line = trim (cut line)
  where
    cut : Text → Text
    cut [] = []
    cut (c ∷ s) = let rest = cut s in if c == b'#' then skip_comment s else c ∷ rest

-- The text after an `http://` or `https://`, in any case, is not empty and has no blank.
abbrev is_location : Text → Bool
is_location s =
    (is_prefix (codes "http://") (map lower s) && is_rest (drop 7 s))
    || (is_prefix (codes "https://") (map lower s) && is_rest (drop 8 s))
  where
    is_rest : Text → Bool
    is_rest rest = not (is_empty rest) && all (λ c. not (is_blank c)) rest

-- The location that a line `sitemap: ...` declares.
abbrev pub declared_sitemap : Text → Option Text
declared_sitemap line = elim (cut_colon line) [
  | none ↦ none
  | some (key, value) ↦
      if same_text (map lower (trim key)) (codes "sitemap") && is_location (trim value)
      then some (trim value)
      else none
]

abbrev sitemaps_of : List Text → List Text
sitemaps_of [] = []
sitemaps_of (line ∷ lines) =
    let rest = sitemaps_of lines in
    elim (declared_sitemap (without_comment line)) [ none ↦ rest | some url ↦ url ∷ rest ]

unfoldable pub declared_sitemap_count : Text → ℕ
declared_sitemap_count robots_text = length (distinct (sitemaps_of (lines_of robots_text)))

-- `AI_CRAWLER_AGENTS`
abbrev pub ai_crawler_agents : List Text
ai_crawler_agents = map codes (
    "GPTBot" ∷ "OAI-SearchBot" ∷ "ChatGPT-User" ∷ "ClaudeBot" ∷ "Claude-SearchBot" ∷ "PerplexityBot"
    ∷ "Google-Extended" ∷ [])

-- The agents named so far, whether the group has a directive, and the agents of the group.
pub record Groups : Type 0 where
  pub named_agents : List Text
  pub has_directive : Bool
  pub group_agents : List Text

abbrev pub has_text : Text → List Text → Bool
has_text x xs = any (same_text x) xs

abbrev keep : (Text → Bool) → List Text → List Text
keep p [] = []
keep p (x ∷ xs) = let rest = keep p xs in if p x then x ∷ rest else rest

-- One directive of robots.txt, by its key and its value.
abbrev pub read_directive : Text → Text → Groups → Groups
read_directive key value g =
    if same_text key (codes "user-agent")
    then start
        (if g.has_directive then record g { group_agents = []; has_directive = false } else g)
    else if same_text key (codes "allow") || same_text key (codes "disallow")
    then record g {
      has_directive = true;
      named_agents =
          g.named_agents
          ++ keep (λ agent. has_text (map lower agent) g.group_agents) ai_crawler_agents;
    }
    else g
  where
    start : Groups → Groups
    start g =
        if is_empty value
        then g
        else record g { group_agents = g.group_agents ++ (map lower value ∷ []) }

abbrev pub read_line : Text → Groups → Groups
read_line line g = elim (cut_colon line) [
  | none ↦ g
  | some (key, value) ↦
      if is_empty key then g else read_directive (map lower (trim key)) (trim value) g
]

abbrev pub read_lines : List Text → Groups → Groups
read_lines [] g = g
read_lines (line ∷ lines) g = read_lines lines (read_line (without_comment line) g)

unfoldable pub explicit_ai_crawler_agents : Text → List Text
explicit_ai_crawler_agents robots_text =
    let g =
      read_lines (lines_of robots_text)
        (record { named_agents = []; has_directive = false; group_agents = [] }) in
    keep (λ agent. has_text agent g.named_agents) ai_crawler_agents
