-- ===== src/Crawler/Record.antt =====
-- How `runCrawl` of lib/crawler/crawler.ts records the results of a batch.
use growth_sent.Prelude.{
  ℕ, ◌+◌, ◌*◌, ◌≡◌, refl, sym, ◌∙◌, ap, ◌⊎◌, inr, true, not, ◌&&◌, List, [], ◌∷◌, ◌++◌, map, String,
  ◌==◌, if◌then◌else◌, if-elim, length, ltb, leb, arith, All, All-append, Option, none, some,
}
use growth_sent.Crawler.{
  Item, Limits, Web, Visit, CrawledPageResult, State, visit, record_visit, record_all, enqueue,
  count_code, has, only_in_scope, is_disallowed, links_of, ParsedPageData,
}
use growth_sent.Crawler.Batch.{snoc-append, append_nil}

-- How many pages answered with a code, and what a list of counts says of it.
abbrev pub pages_with : ℕ → List CrawledPageResult → ℕ
pages_with code [] = 0
pages_with code (p ∷ ps) = (if p.status_code == code then 1 else 0) + pages_with code ps

abbrev pub count_of : ℕ → List (ℕ × ℕ) → ℕ
count_of code [] = 0
count_of code ((c, n) ∷ counts) = if c == code then n else count_of code counts

abbrev pub bytes_of : List CrawledPageResult → ℕ
bytes_of [] = 0
bytes_of (p ∷ ps) = p.page_size_bytes + bytes_of ps

count_of-count_code :
    (limits : Limits) (code c : ℕ) (counts : List (ℕ × ℕ))
    → count_of code (count_code limits c counts)
      ≡ count_of code counts + (if c == code then 1 else 0)
count_of-count_code limits code c [] = ground arith
count_of-count_code limits code c ((c', n) ∷ counts) =
    ground (arith, count_of-count_code limits code c counts)

pages_with-snoc :
    (code : ℕ) (ps : List CrawledPageResult) (p : CrawledPageResult)
    → pages_with code (ps ++ p ∷ []) ≡ pages_with code ps + (if p.status_code == code then 1 else 0)
pages_with-snoc code [] p = ground arith
pages_with-snoc code (q ∷ ps) p = ground (arith, pages_with-snoc code ps p)

bytes_of-snoc :
    (ps : List CrawledPageResult) (p : CrawledPageResult)
    → bytes_of (ps ++ p ∷ []) ≡ bytes_of ps + p.page_size_bytes
bytes_of-snoc [] p = ground arith
bytes_of-snoc (q ∷ ps) p = ground (arith, bytes_of-snoc ps p)

module _ (web : Web) where
  -- The page at a URL, which does not depend on the depth at which the URL was found.
  abbrev pub page_at : String → CrawledPageResult
  page_at url = (visit web (record { url = url; depth = 0 })).page

  abbrev pub InScope : String → Type 0
  InScope url = (url ≡ web.start_url) ⊎ (web.is_in_scope url ≡ true)

  abbrev pub Reachable : Item → Type 0
  Reachable item = InScope item.url

  abbrev pub IsFound : CrawledPageResult → Type 0
  IsFound page = (page ≡ page_at page.url) × InScope page.url

  pub visit-page : (item : Item) → (visit web item).page ≡ page_at item.url
  unfolding visit
  visit-page item = ground arith

  pub page_at-url : (url : String) → (page_at url).url ≡ url
  unfolding visit
  page_at-url url = ground arith

  abbrev LinksInScope : List String → Type 0
  LinksInScope links = All (λ link. web.is_in_scope link ≡ true) links

  only_in_scope-All : (links : List String) → LinksInScope (only_in_scope web.is_in_scope links)
  only_in_scope-All [] = tt
  only_in_scope-All (link ∷ links) =
      if-elim LinksInScope (web.is_in_scope link) (λ e. (e, only_in_scope-All links))
        (λ _. only_in_scope-All links)

  links_of-All : (parsed : Option ParsedPageData) → LinksInScope (links_of web parsed)
  links_of-All none = tt
  links_of-All (some parsed) = only_in_scope-All parsed.internal_links

  visit-links : (item : Item) → LinksInScope (visit web item).discovered_links
  unfolding visit
  visit-links item =
      if-elim (λ (v : Visit). LinksInScope v.discovered_links) (is_disallowed web item.url)
        (λ _. tt) (λ _. links_of-All _)

  module _ (limits : Limits) where
    enqueue-All :
        (pages : ℕ) (visited : List String) (depth : ℕ) (links : List String) (queue : List Item)
        → LinksInScope links
        → All Reachable queue
        → All Reachable (enqueue limits pages visited depth links queue)
    enqueue-All pages visited depth [] queue l h = h
    enqueue-All pages visited depth (link ∷ links) queue (e, l) h =
        enqueue-All pages visited depth links _ l (
          if-elim (All Reachable)
            (not (has link visited) && ltb (pages + length queue) (limits.max_pages * 2))
            (λ _. All-append Reachable queue _ h (inr e, tt)) (λ _. h))

    -- What the loop keeps: the pages are those of the URLs seen, each is what its URL answers, and
    -- the counts and the bytes are those of the pages.
    pub record IsRecorded (s : State) : Type 0 where
      pub reachable : All Reachable s.queue
      pub found : All IsFound s.pages
      pub bytes : s.total_bytes_downloaded ≡ bytes_of s.pages
      pub counts : (code : ℕ) → count_of code s.status_codes_count ≡ pages_with code s.pages

    record_visit-IsRecorded :
        (item : Item) (s : State)
        → Reachable item
        → IsRecorded s
        → IsRecorded (record_visit limits (visit web item) s)
    unfolding record_visit
    record_visit-IsRecorded item s r h = record {
      reachable =
          if-elim (All Reachable) (leb ((visit web item).depth + 1) limits.max_depth)
            (λ _.
              enqueue-All _ s.visited _ (visit web item).discovered_links s.queue (visit-links item)
                h.reachable)
            (λ _. h.reachable);
      found = All-append IsFound s.pages _ h.found (rw (visit-page, page_at-url) (refl, r), tt);
      bytes = rw (bytes_of-snoc, h.bytes) refl;
      counts = λ code. rw (count_of-count_code, pages_with-snoc, h.counts) refl;
    }

    abbrev pub pages_of : List Item → List CrawledPageResult
    pages_of [] = []
    pages_of (item ∷ items) = page_at item.url ∷ pages_of items

    abbrev pub after : List Item → State → State
    after batch s = record_all limits (map (visit web) batch) s

    pub after-IsRecorded :
        (batch : List Item) (s : State)
        → All Reachable batch
        → IsRecorded s
        → IsRecorded (after batch s)
    after-IsRecorded [] s rs h = h
    after-IsRecorded (item ∷ batch) s (r, rs) h =
        after-IsRecorded batch (record_visit limits (visit web item) s) rs
          (record_visit-IsRecorded item s r h)

    pub after-visited : (batch : List Item) (s : State) → (after batch s).visited ≡ s.visited
    unfolding record_visit
    after-visited [] s = refl
    after-visited (item ∷ batch) s = after-visited batch (record_visit limits (visit web item) s)

    pub after-pages :
        (batch : List Item) (s : State) → (after batch s).pages ≡ s.pages ++ pages_of batch
    unfolding record_visit
    after-pages [] s = sym (append_nil s.pages)
    after-pages (item ∷ batch) s =
        after-pages batch (record_visit limits (visit web item) s)
        ∙ snoc-append s.pages (visit web item).page (pages_of batch)
        ∙ ap (λ p. s.pages ++ p ∷ pages_of batch) (visit-page item)

    pub after-nothing : (batch : List Item) (s : State) → length batch ≡ 0 → after batch s ≡ s
    after-nothing [] s e = refl
    after-nothing (item ∷ batch) s e = absurd (omega (arith, e))
