-- ===== src/Crawler/Root.antt =====
-- The root page in lib/crawler/crawler.ts: `runCrawl` and `evaluateRootPage` together.
use growth_sent.Prelude.{
  ℕ, zero, suc, ◌≤◌, ◌≡◌, refl, ◌∙◌, ap, Bool, true, false, ◌||◌, Option, none, some, if◌then◌else◌,
  includes_in_lower_case, not, ◌&&◌, ◌==◌, ◌===◌, is_some, List, [], ◌∷◌, ◌++◌, map, length,
  if-elim, codes, includes, is_prefix, occurs_in, lower, ltb, arith, eq_refl, String,
}
use growth_sent.Crawler.{
  Item, Limits, Web, CrawledPageResult, State, visit, crawl_batch, crawl_loop, run_crawl, initial,
  add_sitemap, is_done, is_disallowed, take_batch,
}
use growth_sent.Types.{
  FailureCategory, missing_root_result, unexpected_http_status, non_html_response,
}
use growth_sent.Crawler.Batch.{take_eq}
use growth_sent.Crawler.Record.{after-pages, page_at, pages_of}
use growth_sent.Crawler.Finish.{crawl_loop-next}

abbrev pub find_page : String → List CrawledPageResult → Option CrawledPageResult
find_page url [] = none
find_page url (page ∷ pages) =
    let rest = find_page url pages in if page.url === url then some page else rest

pub record RootPageEvaluation : Type 0 where
  pub evaluable : Bool
  pub status_code : Option ℕ
  pub failure_category : Option FailureCategory

unfoldable pub evaluate_root_page : String → List CrawledPageResult → RootPageEvaluation
evaluate_root_page start_url pages = elim (find_page start_url pages) [
  | none ↦ record {
    evaluable = false;
    status_code = none;
    failure_category = some missing_root_result;
  }
  | some root ↦ elim root.fetch_failure_category [
    | some category ↦ record {
      evaluable = false;
      status_code = some root.status_code;
      failure_category = some category;
    }
    | none ↦
        if not (root.status_code == 200)
        then record {
          evaluable = false;
          status_code = some root.status_code;
          failure_category = some unexpected_http_status;
        }
        else if not (includes_in_lower_case root.content_type "html")
            || not (is_some root.parsed_data)
        then record {
          evaluable = false;
          status_code = some root.status_code;
          failure_category = some non_html_response;
        }
        else record {
          evaluable = true;
          status_code = some root.status_code;
          failure_category = none;
        }
  ]
]

prefix-lower :
    (s : List ℕ) → is_prefix (codes "html") s ≡ true → is_prefix (codes "html") (map lower s) ≡ true
prefix-lower [] e = e
prefix-lower (a ∷ []) e = ground arith
prefix-lower (a ∷ b ∷ []) e = ground arith
prefix-lower (a ∷ b ∷ c ∷ []) e = ground arith
prefix-lower (a ∷ b ∷ c ∷ d ∷ s) e = ground arith

occurs-lower :
    (s : List ℕ) → occurs_in (codes "html") s ≡ true → occurs_in (codes "html") (map lower s) ≡ true
occurs-lower [] e = e
occurs-lower (a ∷ s) e = ground (arith, prefix-lower (a ∷ s), occurs-lower s)

module _ (web : Web) (limits : Limits) where
  -- The start URL's page stands first.
  abbrev StartsAtRoot : State → Type 0
  StartsAtRoot s = (rest : List CrawledPageResult) × (s.pages ≡ page_at web web.start_url ∷ rest)

  add_sitemap-first :
      (n : ℕ) (found : List String) (x : Item) (queue : List Item)
      → (rest : List Item) × (add_sitemap web n found (x ∷ queue) ≡ x ∷ rest)
  add_sitemap-first n [] x queue = (queue, refl)
  add_sitemap-first n (url ∷ found) x queue =
      if-elim (λ q. (rest : List Item) × (add_sitemap web n found q ≡ x ∷ rest))
        (web.is_in_scope url && ltb (length (x ∷ queue)) n)
        (λ _. add_sitemap-first n found x (queue ++ record { url = url; depth = 1 } ∷ []))
        (λ _. add_sitemap-first n found x queue)

  crawl_batch-StartsAtRoot : (s : State) → StartsAtRoot s → StartsAtRoot (crawl_batch web limits s)
  unfolding crawl_batch
  crawl_batch-StartsAtRoot s (rest, e) =
      let r = take_batch limits (length s.pages) 0 s.queue s.visited in
      (
        rest ++ pages_of web limits r.0,
        after-pages web limits r.0 (record s { queue = r.2; visited = r.1 })
            ∙ ap (λ ps. ps ++ pages_of web limits r.0) e,
      )

  crawl_loop-StartsAtRoot :
      (fuel : ℕ) (s : State) → StartsAtRoot s → StartsAtRoot (crawl_loop web limits fuel s)
  unfolding crawl_loop
  crawl_loop-StartsAtRoot zero s h = h
  crawl_loop-StartsAtRoot (suc fuel) s h =
      elim (is_done limits s)
        as (λ b.
          StartsAtRoot
            (elim b [ true ↦ s | false ↦ crawl_loop web limits fuel (crawl_batch web limits s) ])) [
              | true ↦ h
              | false ↦
                  crawl_loop-StartsAtRoot fuel (crawl_batch web limits s)
                    (crawl_batch-StartsAtRoot s h)
            ]

  module _ (working : 1 ≤ limits.concurrency) (wanted : 1 ≤ limits.max_pages) where
    root : Item
    root = record { url = web.start_url; depth = 0 }

    -- The state before the first batch, with what the sitemap adds.
    begun : List Item → State
    begun rest = record {
      queue = root ∷ rest;
      visited = [];
      pages = [];
      status_codes_count = [];
      total_bytes_downloaded = 0;
    }

    first_batch : (rest : List Item) → StartsAtRoot (crawl_batch web limits (begun rest))
    unfolding crawl_batch root begun
    first_batch rest =
        let r = take_batch limits 0 0 (root ∷ rest) [] in
        let t = take_eq limits 0 0 root rest [] (ground arith) (ground arith) in
        let later = take_batch limits 0 1 rest (web.start_url ∷ []) in
        (
          pages_of web limits later.0,
          after-pages web limits r.0 (record (begun rest) { queue = r.2; visited = r.1 })
              ∙ ap (λ (b : List Item × List String × List Item). pages_of web limits b.0) t,
        )

    begun_running : (rest : List Item) → is_done limits (begun rest) ≡ false
    unfolding is_done begun
    begun_running rest = ground arith

    run_crawl-StartsAtRoot : StartsAtRoot (run_crawl web limits)
    unfolding run_crawl begun root
    run_crawl-StartsAtRoot =
        let (rest, e) = add_sitemap-first limits.max_pages web.sitemap_urls root [] in
        let start : initial web limits ≡ begun rest =
          ap (λ q. record (initial web limits) { queue = q }) e in
        rw (start, crawl_loop-next web limits limits.max_pages (begun rest) (begun_running rest))
          (crawl_loop-StartsAtRoot limits.max_pages (crawl_batch web limits (begun rest))
            (first_batch rest))

    -- The audit can score the site exactly when robots.txt permits its start URL and the fetch of it
    -- met no failure, answered 200 and brought a body that the content type calls HTML. This needs
    -- limits of at least one page and one fetch at a time.
    pub run_crawl-evaluable :
        (evaluate_root_page web.start_url (run_crawl web limits).pages).evaluable ≡ (
          let r = web.fetch_url web.start_url in
          not (is_disallowed web web.start_url)
          && not (is_some r.failure_category)
          && r.status_code == 200
          && not (r.body === "")
          && includes r.content_type "html")
    unfolding evaluate_root_page visit
    run_crawl-evaluable =
        let (rest, e) = run_crawl-StartsAtRoot in
        let r = web.fetch_url web.start_url in
        rw e (ground (arith, eq_refl web.start_url, occurs-lower (codes r.content_type)))
