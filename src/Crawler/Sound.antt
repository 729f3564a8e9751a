-- ===== src/Crawler/Sound.antt =====
-- What the crawl of lib/crawler/crawler.ts returns.
use growth_sent.Prelude.{
  ℕ, zero, suc, ◌≤◌, ◌≡◌, refl, ◌∙◌, ap, inl, inr, true, false, List, [], ◌∷◌, ◌++◌, String,
  if-elim, length, length-append, ltb, arith, All, All-append, ◌&&◌,
}
use growth_sent.Crawler.{
  Item, Limits, Web, CrawledPageResult, State, take_batch, crawl_batch, crawl_loop, run_crawl,
  initial, add_sitemap, is_done,
}
use growth_sent.Crawler.Batch.{Distinct, urls, take_batch-IsBatch}
use growth_sent.Crawler.Record.{
  IsRecorded, Reachable, after-IsRecorded, after-visited, after-pages, pages_of, page_at-url,
}

abbrev pub page_urls : List CrawledPageResult → List String
page_urls [] = []
page_urls (p ∷ ps) = p.url ∷ page_urls ps

page_urls-append :
    (ps qs : List CrawledPageResult) → page_urls (ps ++ qs) ≡ page_urls ps ++ page_urls qs
page_urls-append [] qs = refl
page_urls-append (p ∷ ps) qs = ap (◌∷◌ p.url) (page_urls-append ps qs)

module _ (web : Web) (limits : Limits) where
  pub record IsSoundCrawl (s : State) : Type 0 where
    pub recorded : IsRecorded web limits s
    pub seen : s.visited ≡ page_urls s.pages
    pub distinct : Distinct s.visited
    pub fits : length s.pages ≤ limits.max_pages

  page_urls-pages_of : (items : List Item) → page_urls (pages_of web limits items) ≡ urls items
  page_urls-pages_of [] = refl
  page_urls-pages_of (item ∷ items) =
      rw (page_at-url web item.url) (ap (◌∷◌ item.url) (page_urls-pages_of items))

  pub length-pages_of : (items : List Item) → length (pages_of web limits items) ≡ length items
  length-pages_of [] = refl
  length-pages_of (item ∷ items) = omega (arith, length-pages_of items)

  pub crawl_batch-IsSoundCrawl :
      (s : State) → IsSoundCrawl s → IsSoundCrawl (crawl_batch web limits s)
  unfolding crawl_batch
  crawl_batch-IsSoundCrawl s h =
      let r = take_batch limits (length s.pages) 0 s.queue s.visited in
      let b =
        take_batch-IsBatch limits (length s.pages) (Reachable web) 0 s.queue s.visited
          h.recorded.reachable h.distinct (omega (arith, h.fits)) in
      let s1 : State = record s { queue = r.2; visited = r.1 } in
      let same = after-visited web limits r.0 s1 in
      let pages = after-pages web limits r.0 s1 in
      record {
        recorded = after-IsRecorded web limits r.0 s1 b.wanted (record {
          reachable = b.left;
          found = h.recorded.found;
          bytes = h.recorded.bytes;
          counts = h.recorded.counts;
        });
        seen = same ∙ b.seen ∙ rw (pages, page_urls-append, page_urls-pages_of, h.seen) refl;
        distinct = rw same b.distinct;
        fits = rw (pages, length-append, length-pages_of) (omega (arith, b.fits));
      }

  pub crawl_loop-IsSoundCrawl :
      (fuel : ℕ) (s : State) → IsSoundCrawl s → IsSoundCrawl (crawl_loop web limits fuel s)
  unfolding crawl_loop
  crawl_loop-IsSoundCrawl zero s h = h
  crawl_loop-IsSoundCrawl (suc fuel) s h =
      elim (is_done limits s)
        as (λ b.
          IsSoundCrawl
            (elim b [ true ↦ s | false ↦ crawl_loop web limits fuel (crawl_batch web limits s) ])) [
              | true ↦ h
              | false ↦
                  crawl_loop-IsSoundCrawl fuel (crawl_batch web limits s)
                    (crawl_batch-IsSoundCrawl s h)
            ]

  add_sitemap-Reachable :
      (found : List String) (queue : List Item)
      → All (Reachable web) queue
      → All (Reachable web) (add_sitemap web limits.max_pages found queue)
  add_sitemap-Reachable [] queue h = h
  add_sitemap-Reachable (url ∷ found) queue h = add_sitemap-Reachable found _ (
      if-elim (All (Reachable web)) (web.is_in_scope url && ltb (length queue) limits.max_pages)
        (λ e. All-append (Reachable web) queue _ h (inr (ground arith), tt)) (λ _. h))

  pub initial-IsSoundCrawl : IsSoundCrawl (initial web limits)
  initial-IsSoundCrawl = record {
    recorded = record {
      reachable = add_sitemap-Reachable web.sitemap_urls _ (inl refl, tt);
      found = tt;
      bytes = refl;
      counts = λ code. refl;
    };
    seen = refl;
    distinct = tt;
    fits = omega arith;
  }

  -- A crawl returns at most the permitted number of pages, no URL twice, each page as its own URL
  -- answered, and each URL the start URL or one in its scope; its byte total and its count of each
  -- status code are those of the pages.
  pub run_crawl-IsSoundCrawl : IsSoundCrawl (run_crawl web limits)
  unfolding run_crawl
  run_crawl-IsSoundCrawl =
      crawl_loop-IsSoundCrawl (suc limits.max_pages) (initial web limits) initial-IsSoundCrawl
