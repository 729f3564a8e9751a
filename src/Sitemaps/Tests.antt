-- ===== src/Sitemaps/Tests.antt =====
-- lib/crawler/sitemap.ts: a run on a concrete site.
use growth_sent.Prelude.{
  ◌≡◌, refl, Option, none, some, List, [], ◌∷◌, if◌then◌else◌, codes, same_text, is_prefix,
}
use growth_sent.Ssrf.Address.{Text}
use growth_sent.Fetcher.{FetchResult}
use growth_sent.AiReadiness.{empty_fetch_result}
use growth_sent.Domains.{
  Url, normalize_comparable_hostname, registrable_domain, has_same_registrable_domain,
  is_within_crawl_origin_scope, is_url_within_crawl_origin_scope,
}
use growth_sent.Sitemaps.{
  SitemapParseResult, visit_candidate, visit_candidates, visit_child, visit_children,
  visit_sitemaps, is_sitemap_url_within_audited_scope, fetch_and_parse_sitemap,
}
use growth_sent.Sitemaps.Locations.{locations}
use growth_sent.Sitemaps.Scope.{IsParsed, fetch_and_parse-IsParsed}

abbrev origin : Text
origin = codes "https://a.com/"

abbrev origin_parts : Url
origin_parts = record { protocol = codes "https:"; host = codes "a.com"; hostname = codes "a.com" }

abbrev parse : Text → Option Url
parse url =
    if is_prefix origin url
    then some origin_parts
    else some (record { protocol = codes "https:"; host = codes "b.org"; hostname = codes "b.org" })

abbrev domain : Text → Option Text
domain hostname = some hostname

abbrev answer : Text → Text → FetchResult
answer url body = record (empty_fetch_result url) { status_code = 200; body = body }

-- An index with a child here and a child elsewhere.
abbrev fetch : Text → FetchResult
fetch url =
    if same_text url (codes "https://a.com/sitemap.xml")
    then answer url (
        codes
          "<LOC> https://a.com/c.xml </loc><loc>https://b.org/d.xml</loc><loc>ftp://a.com</loc>")
    else if same_text url (codes "https://a.com/c.xml")
    then answer url (codes "<loc>https://a.com/p</loc><loc>https://b.org/q</loc>")
    else record (empty_fetch_result url) { status_code = 404 }

abbrev seen : Option (SitemapParseResult × List Text) → Option (List Text × List Text)
seen none = none
seen (some (result, fetched)) = some (result.urls, fetched)

parse_test :
    seen (fetch_and_parse_sitemap parse domain fetch origin [])
    ≡ some (
      codes "https://a.com/p" ∷ [],
      codes "https://a.com/sitemap.xml"
          ∷ codes "https://a.com/sitemap_index.xml"
          ∷ codes "https://a.com/c.xml"
          ∷ [],
    )
unfolding fetch_and_parse_sitemap visit_sitemaps visit_candidates visit_candidate visit_children
    visit_child is_sitemap_url_within_audited_scope is_url_within_crawl_origin_scope
    is_within_crawl_origin_scope has_same_registrable_domain registrable_domain
    normalize_comparable_hostname locations
parse_test = refl

-- A site with a sitemap index in the first place.
fetch_and_parse-IsParsed_example :
    (result : SitemapParseResult × List Text) × (fetch_and_parse_sitemap parse domain fetch origin
        []
      ≡ some result)
    × IsParsed fetch
        (is_sitemap_url_within_audited_scope parse domain origin)
        origin_parts
        []
        result
fetch_and_parse-IsParsed_example =
    fetch_and_parse-IsParsed fetch parse domain origin [] origin_parts refl
