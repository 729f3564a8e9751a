-- ===== src/Robots/Groups.antt =====
-- Which lines of a robots.txt lib/crawler/robots.ts follows.
use growth_sent.Prelude.{
  ◌≡◌, refl, Bool, true, false, not, ◌&&◌, none, some, List, [], ◌∷◌, ◌++◌, all, arith,
  Option-cases, inl, inr,
}
use growth_sent.Robots.{Text, Rules, directive, follow, parse_lines, is_key, is_for_us, no_rules}

-- Does the line leave the group of agents as it is?
abbrev pub keeps_group : Text → Bool
keeps_group line = elim (directive line) [
  | none ↦ true
  | some (key, _) ↦ not (is_key "user-agent" key)
]

abbrev pub names_another_agent : Text → Bool
names_another_agent line = elim (directive line) [
  | none ↦ false
  | some (key, value) ↦ is_key "user-agent" key && not (is_for_us value)
]

abbrev SamePaths : Rules → Rules → Type 0
SamePaths r s = (r.disallowed_paths ≡ s.disallowed_paths) × (r.allowed_paths ≡ s.allowed_paths)

closed_group :
    (lines : List Text) (r : Rules)
    → r.is_target_agent ≡ false
    → all keeps_group lines ≡ true
    → SamePaths (parse_lines lines r) r
unfolding parse_lines
closed_group [] r closed h = (refl, refl)
closed_group (line ∷ lines) r closed h = elim (Option-cases (directive line)) [
  | inl nothing ↦ ground (arith, closed_group lines r)
  | inr (d, read) ↦ ground (arith, closed_group lines (follow d r))
]

parse_lines-append :
    (before after : List Text) (r : Rules)
    → parse_lines (before ++ after) r ≡ parse_lines after (parse_lines before r)
unfolding parse_lines
parse_lines-append [] after r = refl
parse_lines-append (line ∷ before) after r =
    elim (directive line)
      as (λ d.
        elim d [
          | none ↦ parse_lines (before ++ after) r
          | some d ↦ parse_lines (before ++ after) (follow d r)
        ]
        ≡ parse_lines after
            (elim d [ none ↦ parse_lines before r | some d ↦ parse_lines before (follow d r) ])) [
              | none ↦ parse_lines-append before after r
              | some d ↦ parse_lines-append before after (follow d r)
            ]

follow-shut :
    (d : Text × Text) (r : Rules)
    → is_key "user-agent" d.0 ≡ true
    → is_for_us d.1 ≡ false
    → follow d r ≡ record r { is_target_agent = false }
follow-shut (key, value) r named other = rw (named, other) refl

closing :
    (agent : Text) (group : List Text) (r : Rules)
    → names_another_agent agent ≡ true
    → all keeps_group group ≡ true
    → SamePaths (parse_lines (agent ∷ group) r) r
unfolding parse_lines
closing agent group r other h = elim (Option-cases (directive agent)) [
  | inl nothing ↦ absurd (ground arith)
  | inr (d, read) ↦
      let shut : Rules = record r { is_target_agent = false } in
      let followed : follow d r ≡ shut = follow-shut d r (ground arith) (ground arith) in
      let read_on : parse_lines (agent ∷ group) r ≡ parse_lines group (follow d r) =
        rw (parse_lines, read) refl in
      rw (read_on, followed) (closed_group group shut refl h)
]

-- A line that names another crawler closes the rules that follow it, up to the next line that names
-- an agent: whatever they say, the paths stay those of the lines before.
pub parse_lines-other_agent :
    (before : List Text) (agent : Text) (group : List Text)
    → names_another_agent agent ≡ true
    → all keeps_group group ≡ true
    → SamePaths (parse_lines (before ++ agent ∷ group) no_rules) (parse_lines before no_rules)
parse_lines-other_agent before agent group other h =
    rw (parse_lines-append before (agent ∷ group) no_rules)
      (closing agent group (parse_lines before no_rules) other h)
