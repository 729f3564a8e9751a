-- ===== src/Robots/Tests.antt =====
-- A robots.txt for lib/crawler/robots.ts.
use growth_sent.Prelude.{◌≡◌, refl, [], ◌∷◌, codes}
use growth_sent.Robots.{parse_robots_txt, parse_lines, lines_of, directive}

parse_test :
    (parse_robots_txt (
      codes
        "User-Agent: *\r\nDisallow: /private\n# note\nUser-agent: other\nDisallow: /\n")).disallowed_paths
    ≡ codes "/private" ∷ []
unfolding parse_robots_txt parse_lines lines_of directive
parse_test = refl
