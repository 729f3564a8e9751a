-- ===== src/Crawler.antt =====
-- lib/crawler/crawler.ts: the pages of one site that are fetched for an audit. Fetching, parsing and
-- the scope of a URL are parameters; an address is fetched at most once in a crawl, so a fetch is a
-- function of the address.
pub mod Batch
pub mod Record
pub mod Sound
pub mod Finish
pub mod Root
mod Tests
use growth_sent.Prelude.{
  ℕ, zero, suc, ◌+◌, ◌*◌, Bool, true, false, not, ◌&&◌, ◌||◌, Option, none, some, List, [], ◌∷◌,
  ◌++◌, String, codes, ◌==◌, ◌===◌, if◌then◌else◌, any, length, ltb, leb, arith, starts_with,
  includes, includes_in_lower_case, map, is_some,
}
use growth_sent.Robots.{Text, is_path_disallowed_by_robots}
use growth_sent.Types.{
  FailureCategory, missing_root_result, unexpected_http_status, non_html_response,
}

pub record FetchResult : Type 0 where
  pub final_url : String
  pub status_code : ℕ
  pub response_time_ms : ℕ
  pub content_type : String
  pub body : String
  pub page_size_bytes : ℕ
  pub failure_category : Option FailureCategory
  pub error : Option String

-- What the crawler and the rules read of a parsed page.
pub record ParsedPageData : Type 0 where
  pub title : Option String
  pub meta_description : Option String
  pub h1 : List String
  pub canonical_url : Option String
  pub canonical_error : Option String
  pub is_noindex : Bool
  pub json_ld_syntax_valid : Bool
  pub internal_links : List String

pub record CrawledPageResult : Type 0 where
  pub url : String
  pub normalized_url : String
  pub status_code : ℕ
  pub response_time_ms : ℕ
  pub content_type : String
  pub page_size_bytes : ℕ
  pub fetch_failure_category : Option FailureCategory
  pub error : Option String
  pub parsed_data : Option ParsedPageData
  pub has_robots_txt_disallow : Bool

pub record Item : Type 0 where
  pub url : String
  pub depth : ℕ

-- What the crawl takes from the other modules for its start URL.
pub record Web : Type 0 where
  pub start_url : String
  pub pathname : String → Text
  pub fetch_url : String → FetchResult
  pub parse_page_html : String → String → ParsedPageData
  -- `isUrlWithinCrawlOriginScope` of the start URL
  pub is_in_scope : String → Bool
  pub disallowed_paths : List Text
  pub allowed_paths : List Text
  pub sitemap_urls : List String

pub record Limits : Type 0 where
  pub max_pages : ℕ
  pub max_depth : ℕ
  pub concurrency : ℕ

abbrev pub default_limits : Limits
default_limits = record { max_pages = 25; max_depth = 5; concurrency = 5 }

pub record Visit : Type 0 where
  pub page : CrawledPageResult
  pub discovered_links : List String
  pub depth : ℕ

-- `visited` is in the order of insertion; the status codes are an association list.
pub record State : Type 0 where
  pub queue : List Item
  pub visited : List String
  pub pages : List CrawledPageResult
  pub status_codes_count : List (ℕ × ℕ)
  pub total_bytes_downloaded : ℕ

abbrev pub has : String → List String → Bool
has url visited = any (λ seen. seen === url) visited

abbrev pub only_in_scope : (String → Bool) → List String → List String
only_in_scope p [] = []
only_in_scope p (link ∷ links) =
    let rest = only_in_scope p links in if p link then link ∷ rest else rest

module _ (web : Web) where
  abbrev pub blocked_page : String → CrawledPageResult
  blocked_page url = record {
    url = url;
    normalized_url = url;
    status_code = 403;
    response_time_ms = 0;
    content_type = "";
    page_size_bytes = 0;
    fetch_failure_category = none;
    error = some "Blocked by robots.txt Disallow directive.";
    parsed_data = none;
    has_robots_txt_disallow = true;
  }

  abbrev pub is_parsed : FetchResult → Bool
  is_parsed r = r.status_code == 200 && not (r.body === "") && includes r.content_type "html"

  abbrev pub parsed_of : FetchResult → Option ParsedPageData
  parsed_of r = if is_parsed r then some (web.parse_page_html r.body r.final_url) else none

  abbrev fetched_page : String → FetchResult → CrawledPageResult
  fetched_page url r = record {
    url = url;
    normalized_url = r.final_url;
    status_code = r.status_code;
    response_time_ms = r.response_time_ms;
    content_type = r.content_type;
    page_size_bytes = r.page_size_bytes;
    fetch_failure_category = r.failure_category;
    error = r.error;
    parsed_data = parsed_of r;
    has_robots_txt_disallow = false;
  }

  abbrev pub links_of : Option ParsedPageData → List String
  links_of none = []
  links_of (some parsed) = only_in_scope web.is_in_scope parsed.internal_links

  abbrev pub is_disallowed : String → Bool
  is_disallowed url =
      is_path_disallowed_by_robots (web.pathname url) web.disallowed_paths web.allowed_paths

  -- One URL of a batch.
  unfoldable pub visit : Item → Visit
  visit current =
      if is_disallowed current.url
      then record { page = blocked_page current.url; discovered_links = []; depth = current.depth }
      else record {
        page = fetched_page current.url (web.fetch_url current.url);
        discovered_links = links_of (parsed_of (web.fetch_url current.url));
        depth = current.depth;
      }

  abbrev pub add_sitemap : ℕ → List String → List Item → List Item
  add_sitemap max_pages [] queue = queue
  add_sitemap max_pages (url ∷ urls) queue = add_sitemap max_pages urls (
      if web.is_in_scope url && ltb (length queue) max_pages
      then queue ++ record { url = url; depth = 1 } ∷ []
      else queue)

module _ (limits : Limits) where
  -- The queued items that the next batch takes, `taken` of which it has, with the URLs seen and the
  -- queue that they leave.
  unfoldable pub take_batch : ℕ → ℕ → List Item → List String → List Item × List String × List Item
  take_batch pages taken [] visited = ([], visited, [])
  take_batch pages taken (item ∷ queue) visited =
      elim (ltb taken limits.concurrency && ltb (pages + taken) limits.max_pages) [
        | false ↦ ([], visited, item ∷ queue)
        | true ↦ elim (not (has item.url visited) && leb item.depth limits.max_depth) [
          | false ↦ take_batch pages taken queue visited
          | true ↦
              let (batch, visited, queue) =
                take_batch pages (suc taken) queue (visited ++ item.url ∷ []) in
              (item ∷ batch, visited, queue)
        ]
      ]

  abbrev pub enqueue : ℕ → List String → ℕ → List String → List Item → List Item
  enqueue pages visited depth [] queue = queue
  enqueue pages visited depth (link ∷ links) queue = enqueue pages visited depth links (
      if not (has link visited) && ltb (pages + length queue) (limits.max_pages * 2)
      then queue ++ record { url = link; depth = depth } ∷ []
      else queue)

  abbrev pub count_code : ℕ → List (ℕ × ℕ) → List (ℕ × ℕ)
  count_code code [] = (code, 1) ∷ []
  count_code code ((c, n) ∷ counts) =
      if c == code then (c, n + 1) ∷ counts else (c, n) ∷ count_code code counts

  unfoldable pub record_visit : Visit → State → State
  record_visit result s =
      let pages = s.pages ++ result.page ∷ [] in
      record {
        queue =
            if leb (result.depth + 1) limits.max_depth
            then enqueue (length pages) s.visited (result.depth + 1) result.discovered_links s.queue
            else s.queue;
        visited = s.visited;
        pages = pages;
        status_codes_count = count_code result.page.status_code s.status_codes_count;
        total_bytes_downloaded = s.total_bytes_downloaded + result.page.page_size_bytes;
      }

  abbrev pub record_all : List Visit → State → State
  record_all [] s = s
  record_all (result ∷ results) s = record_all results (record_visit result s)

  unfoldable pub is_done : State → Bool
  is_done s = leb (length s.queue) 0 || leb limits.max_pages (length s.pages)

module _ (web : Web) (limits : Limits) where
  -- One batch: taken from the queue, visited in parallel, recorded in order.
  unfoldable pub crawl_batch : State → State
  crawl_batch s =
      let (batch, visited, queue) = take_batch limits (length s.pages) 0 s.queue s.visited in
      record_all limits (map (visit web) batch) (record s { queue = queue; visited = visited })

  -- The loop, on fuel.
  unfoldable pub crawl_loop : ℕ → State → State
  crawl_loop zero s = s
  crawl_loop (suc fuel) s = elim (is_done limits s) [
    | true ↦ s
    | false ↦ crawl_loop fuel (crawl_batch s)
  ]

  abbrev pub initial : State
  initial = record {
    queue =
        add_sitemap web limits.max_pages web.sitemap_urls
          (record { url = web.start_url; depth = 0 } ∷ []);
    visited = [];
    pages = [];
    status_codes_count = [];
    total_bytes_downloaded = 0;
  }

  -- A batch that is not the last adds a page, so that one batch more than pages is enough.
  unfoldable pub run_crawl : State
  run_crawl = crawl_loop (suc limits.max_pages) initial
