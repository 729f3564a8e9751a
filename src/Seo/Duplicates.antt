-- ===== src/Seo/Duplicates.antt =====
-- The titles that several pages share, in lib/seo/engine.ts.
use growth_sent.Prelude.{
  ℕ, ◌+◌, ◌≡◌, refl, ◌∙◌, Bool, false, ◌||◌, none, some, List, [], ◌∷◌, ◌++◌, String, ◌===◌,
  if◌then◌else◌, if-elim, length, length-append, ltb, arith, eq_iff, Option-cases, inl, inr,
}
use growth_sent.Crawler.{CrawledPageResult, has}
use growth_sent.Crawler.Batch.{Distinct}
use growth_sent.Seo.{Issue, add_title, title_of, title_to_urls, shared_by, duplicate_issues}

abbrev pub is_titled : String → CrawledPageResult → Bool
is_titled title page = elim (title_of page) [ none ↦ false | some t ↦ t === title ]

abbrev pub pages_titled : String → List CrawledPageResult → ℕ
pages_titled title [] = 0
pages_titled title (page ∷ pages) =
    (if is_titled title page then 1 else 0) + pages_titled title pages

abbrev pub is_about : String → Issue → Bool
is_about title i = elim i.evidence [ none ↦ false | some t ↦ t === title ]

abbrev pub issues_about : String → List Issue → ℕ
issues_about title [] = 0
issues_about title (i ∷ issues) = (if is_about title i then 1 else 0) + issues_about title issues

abbrev Titles : Type 0
Titles = List (String × List String)

abbrev keys : Titles → List String
keys [] = []
keys ((t, urls) ∷ titles) = t ∷ keys titles

abbrev found : String → Titles → ℕ
found title [] = 0
found title ((t, urls) ∷ titles) = if t === title then length urls else found title titles

issues_about-append :
    (title : String) (xs ys : List Issue)
    → issues_about title (xs ++ ys) ≡ issues_about title xs + issues_about title ys
issues_about-append title [] ys = omega arith
issues_about-append title (x ∷ xs) ys = omega (arith, issues_about-append title xs ys)

issues_about-shared_by :
    (title t : String) (urls : List String)
    → issues_about title (shared_by t urls) ≡ (if t === title then length urls else 0)
issues_about-shared_by title t [] = ground arith
issues_about-shared_by title t (url ∷ urls) = ground (arith, issues_about-shared_by title t urls)

has-keys :
    (x title url : String) (titles : Titles)
    → has x (keys (add_title title url titles)) ≡ (has x (keys titles) || title === x)
has-keys x title url [] = ground arith
has-keys x title url ((t, urls) ∷ titles) =
    ground (arith, has-keys x title url titles, eq_iff t title)

add_title-Distinct :
    (title url : String) (titles : Titles)
    → Distinct (keys titles)
    → Distinct (keys (add_title title url titles))
add_title-Distinct title url [] d = (refl, tt)
add_title-Distinct title url ((t, urls) ∷ titles) (n, d) =
    if-elim (λ (ts : Titles). Distinct (keys ts)) (t === title) (λ _. (n, d))
      (λ other. (
        ground (arith, has-keys t title url titles, eq_iff t title, eq_iff title t),
        add_title-Distinct title url titles d,
      ))

found-add_title :
    (x title url : String) (titles : Titles)
    → found x (add_title title url titles) ≡ found x titles + (if title === x then 1 else 0)
found-add_title x title url [] = ground arith
found-add_title x title url ((t, urls) ∷ titles) = ground (
  arith,
  found-add_title x title url titles,
  eq_iff t title,
  eq_iff t x,
  eq_iff title x,
  length-append urls (url ∷ []),
)

missing :
    (title : String) (titles : Titles)
    → has title (keys titles) ≡ false
    → issues_about title (duplicate_issues titles) ≡ 0
missing title [] h = refl
missing title ((t, urls) ∷ titles) h = ground (
  arith,
  issues_about-append title (if ltb 1 (length urls) then shared_by t urls else [])
      (duplicate_issues titles),
  missing title titles,
  issues_about-shared_by title t urls,
)

issues_about-duplicates :
    (title : String) (titles : Titles)
    → Distinct (keys titles)
    → issues_about title (duplicate_issues titles)
      ≡ (if ltb 1 (found title titles) then found title titles else 0)
issues_about-duplicates title [] d = refl
issues_about-duplicates title ((t, urls) ∷ titles) (n, d) = ground (
  arith,
  issues_about-append title (if ltb 1 (length urls) then shared_by t urls else [])
      (duplicate_issues titles),
  missing title titles,
  issues_about-shared_by title t urls,
  issues_about-duplicates title titles d,
  eq_iff t title,
)

titles-Distinct :
    (pages : List CrawledPageResult) (titles : Titles)
    → Distinct (keys titles)
    → Distinct (keys (title_to_urls pages titles))
titles-Distinct [] titles d = d
titles-Distinct (page ∷ pages) titles d =
    elim (title_of page)
      as (λ t. Distinct (
        keys (
          title_to_urls pages
            (elim t [ none ↦ titles | some title ↦ add_title title page.url titles ])))) [
              | none ↦ titles-Distinct pages titles d
              | some title ↦
                  titles-Distinct pages (add_title title page.url titles)
                    (add_title-Distinct title page.url titles d)
            ]

found-title_to_urls :
    (x : String) (pages : List CrawledPageResult) (titles : Titles)
    → found x (title_to_urls pages titles) ≡ found x titles + pages_titled x pages
found-title_to_urls x [] titles = ground arith
found-title_to_urls x (page ∷ pages) titles = elim (Option-cases (title_of page)) [
  | inl untitled ↦ ground (arith, found-title_to_urls x pages titles)
  | inr (title, titled) ↦ ground (
    arith,
    found-title_to_urls x pages (add_title title page.url titles),
    found-add_title x title page.url titles,
  )
]

-- A title that one page has, or none, is not reported as shared; one that several pages have is
-- reported once for each of them.
pub duplicate_issues-titled :
    (title : String) (pages : List CrawledPageResult)
    → issues_about title (duplicate_issues (title_to_urls pages []))
      ≡ (if ltb 1 (pages_titled title pages) then pages_titled title pages else 0)
duplicate_issues-titled title pages =
    issues_about-duplicates title (title_to_urls pages []) (titles-Distinct pages [] tt)
    ∙ rw (found-title_to_urls title pages []) (ground arith)
