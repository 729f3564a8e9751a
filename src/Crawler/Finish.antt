-- ===== src/Crawler/Finish.antt =====
-- The loop of `runCrawl` in lib/crawler/crawler.ts ends.
use growth_sent.Prelude.{
  ℕ, zero, suc, ◌+◌, ◌≤◌, ◌≡◌, ◌⊎◌, refl, inl, inr, true, false, length, length-append, leb, arith,
  Bool-cases,
}
use growth_sent.Crawler.{
  Limits, Web, State, take_batch, crawl_batch, crawl_loop, run_crawl, initial, is_done,
}
use growth_sent.Crawler.Batch.{take_batch-exhausted}
use growth_sent.Crawler.Record.{after-pages, after-nothing, after}
use growth_sent.Crawler.Sound.{
  IsSoundCrawl, crawl_batch-IsSoundCrawl, initial-IsSoundCrawl, length-pages_of,
}

module _ (web : Web) (limits : Limits) where
  pub crawl_loop-done :
      (fuel : ℕ) (s : State) → is_done limits s ≡ true → crawl_loop web limits fuel s ≡ s
  unfolding crawl_loop
  crawl_loop-done zero s d = refl
  crawl_loop-done (suc fuel) s d = ground arith

  pub crawl_loop-next :
      (fuel : ℕ) (s : State)
      → is_done limits s ≡ false
      → crawl_loop web limits (suc fuel) s ≡ crawl_loop web limits fuel (crawl_batch web limits s)
  unfolding crawl_loop
  crawl_loop-next fuel s d = ground arith

  module _ (working : 1 ≤ limits.concurrency) where
    -- A batch adds a page or is the last one.
    crawl_batch-advances :
        (s : State)
        → is_done limits s ≡ false
        → (is_done limits (crawl_batch web limits s) ≡ true)
          ⊎ (length s.pages + 1 ≤ length (crawl_batch web limits s).pages)
    unfolding crawl_batch is_done
    crawl_batch-advances s running =
        let r = take_batch limits (length s.pages) 0 s.queue s.visited in
        let s1 : State = record s { queue = r.2; visited = r.1 } in
        let grown : length (after web limits r.0 s1).pages ≡ length s.pages + length r.0 =
          rw (after-pages web limits r.0 s1, length-append, length-pages_of web limits) refl in
        elim (Bool-cases (leb (length r.0) 0)) [
          | inr some_taken ↦ inr (ground arith)
          | inl empty ↦ inl (
              ground (
                arith,
                after-nothing web limits r.0 s1,
                take_batch-exhausted limits (length s.pages) 0 s.queue s.visited,
              ))
        ]

    crawl_loop-is_done :
        (fuel : ℕ) (s : State)
        → IsSoundCrawl web limits s
        → limits.max_pages + 1 ≤ length s.pages + fuel
        → is_done limits (crawl_loop web limits fuel s) ≡ true
    crawl_loop-is_done zero s h enough = absurd (omega (arith, h.fits, enough))
    crawl_loop-is_done (suc fuel) s h enough = elim (Bool-cases (is_done limits s)) [
      | inl over ↦ rw (crawl_loop-done (suc fuel) s over) over
      | inr running ↦ rw (crawl_loop-next fuel s running) (elim (crawl_batch-advances s running) [
        | inl last ↦ rw (crawl_loop-done fuel (crawl_batch web limits s) last) last
        | inr more ↦
            crawl_loop-is_done fuel (crawl_batch web limits s)
              (crawl_batch-IsSoundCrawl web limits s h) (omega (arith, more, enough))
      ])
    ]

    -- With a concurrency of at least one, the crawl ends by itself: when it stops, its queue is empty
    -- or it has all the pages that it may have.
    pub run_crawl-is_done : is_done limits (run_crawl web limits) ≡ true
    unfolding run_crawl
    run_crawl-is_done =
        crawl_loop-is_done (suc limits.max_pages) (initial web limits)
          (initial-IsSoundCrawl web limits) (omega arith)
