-- ===== src/Fetcher/Pinned.antt =====
-- Where the requests of `fetchUrl` in lib/crawler/fetcher.ts go, how many there are, and what a
-- fetch returns.
use growth_sent.Prelude.{
  ℕ, zero, suc, ◌+◌, ◌≤◌, ◌≡◌, refl, ap, ◌∙◌, false, Option, none, some, List, [], ◌∷◌, ◌++◌,
  length, length-append, Result, ok, err, Result-cases, inl, inr, arith, All, trim, OnSome, if-elim,
}
use growth_sent.Ssrf.Address.{Text}
use growth_sent.Ssrf.Validate.{validate_url_for_scan}
use growth_sent.Ssrf.Allowed.{IsAllowed, validate_url_for_scan-IsAllowed}
use growth_sent.Fetcher.Headers.{first_party_audit_headers}
use growth_sent.Fetcher.Limit.{IsWithin, read_http_response-IsWithin}
use growth_sent.Fetcher.Body.{BodyError, BoundedBody, Response, read_http_response}
use growth_sent.Fetcher.{
  Web, Request, FetchResult, Exchange, aborted, failed, responded, is_redirect, request_to,
  redirect_target, finish_body, fetch_loop, fetch_url, respond, follow, page,
}

module _ (w : Web) (max_size : ℕ) (input : Text) where
  -- The request goes to the address that was validated for its URL, at the time of the request.
  pub record IsPinned (r : Request) : Type 0 where
    pub url : Text
    pub allowed : IsAllowed (w.network_at r.hop) (trim url) r.target
    pub token : r.audit_token ≡ first_party_audit_headers w.audit_config r.target.hostname

  -- A result without a failure has a body of as many bytes as it reports, within the limit, and is
  -- no redirect.
  abbrev pub IsDecoded : FetchResult → Type 0
  IsDecoded r =
      r.failure_category ≡ none
      → (b : List ℕ) × (r.body ≡ w.decode_utf8 b)
        × (length b ≡ r.page_size_bytes)
        × (length b ≤ max_size)
        × (is_redirect r.status_code ≡ false)

  -- A result of at most `left` further requests that begin with `hop` redirects behind them.
  pub record IsFetched (left hop : ℕ) (r : FetchResult × List Request) : Type 0 where
    pub pinned : All IsPinned r.1
    pub bounded : length r.1 ≤ left
    pub chained : length r.0.redirect_chain ≤ hop + left + 1
    pub read : IsDecoded r.0

  finish_body-IsDecoded :
      (response : Response) (url : Text) (chain : List Text) (body : Result BodyError BoundedBody)
      → is_redirect response.status_code ≡ false
      → IsWithin max_size body
      → IsDecoded (finish_body w max_size input response url chain body)
  finish_body-IsDecoded response url chain (err x) direct within = λ e. absurd (ground arith)
  finish_body-IsDecoded response url chain (ok read) direct within =
      page-IsDecoded read.page_size_bytes read.body within
    where
      page-IsDecoded :
          (size : ℕ) (body : Option (List ℕ))
          → OnSome (λ b. (length b ≡ size) × (length b ≤ max_size)) body
          → IsDecoded (page w max_size input response url chain size body)
      page-IsDecoded size none within = λ e. absurd (ground arith)
      page-IsDecoded size (some b) (same, fits) = λ e. (b, refl, same, fits, direct)

  finish_body-chain :
      (response : Response) (url : Text) (chain : List Text) (body : Result BodyError BoundedBody)
      → (finish_body w max_size input response url chain body).redirect_chain ≡ chain
  finish_body-chain response url chain (err x) = refl
  finish_body-chain response url chain (ok read) = page-chain read.page_size_bytes read.body
    where
      page-chain :
          (size : ℕ) (body : Option (List ℕ))
          → (page w max_size input response url chain size body).redirect_chain ≡ chain
      page-chain size none = refl
      page-chain size (some b) = refl

  -- A result after which no request follows.
  stop :
      (left hop : ℕ) (r : FetchResult)
      → length r.redirect_chain ≡ hop + 1
      → IsDecoded r
      → IsFetched left hop (r, [])
  stop left hop r long read = record {
    pinned = tt;
    bounded = omega arith;
    chained = omega (arith, long);
    read = read;
  }

  module _ (left hop : ℕ) (chain : List Text) (url : Text) (long : length chain ≡ hop + 1)
      (go : Text → List Text → FetchResult × List Request)
      (goes : (next : Text) (chain : List Text)
        → length chain ≡ (hop + 1) + 1
        → IsFetched left (hop + 1) (go next chain)) where
    -- One redirect more is one request less.
    earlier :
        {r : FetchResult × List Request} → IsFetched left (hop + 1) r → IsFetched (suc left) hop r
    earlier f = record {
      pinned = f.pinned;
      bounded = omega (arith, f.bounded);
      chained = omega (arith, f.chained);
      read = f.read;
    }

    follow-IsFetched :
        (response : Response) (next : Option Text)
        → length (follow w max_size input go response url chain next).1 ≤ left
          × IsFetched (suc left) hop (follow w max_size input go response url chain next)
    follow-IsFetched response none =
        (omega arith, stop (suc left) hop _ long (λ e. absurd (ground arith)))
    follow-IsFetched response (some next) =
        let f =
          goes next (chain ++ (next ∷ [])) (omega (arith, long, length-append chain (next ∷ []))) in
        (f.bounded, earlier f)

    respond-IsFetched :
        (exchange : Exchange)
        → (length (respond w max_size input go url chain exchange).1 ≤ left)
          × IsFetched (suc left) hop (respond w max_size input go url chain exchange)
    unfolding respond
    respond-IsFetched aborted =
        (omega arith, stop (suc left) hop _ long (λ e. absurd (ground arith)))
    respond-IsFetched failed =
        (omega arith, stop (suc left) hop _ long (λ e. absurd (ground arith)))
    respond-IsFetched (responded response) =
        if-elim
          (λ (r : FetchResult × List Request). (length r.1 ≤ left) × IsFetched (suc left) hop r)
          (is_redirect response.status_code)
          (λ redirect. follow-IsFetched response (redirect_target w max_size input response url))
          (λ direct.
            let body = read_http_response w.decompress response max_size in
            (
              omega arith,
              stop (suc left) hop _ (ap length (finish_body-chain response url chain body) ∙ long) (
                  finish_body-IsDecoded response url chain body direct
                    (read_http_response-IsWithin w.decompress response max_size)),
            ))

  sent :
      (left hop : ℕ) (request : Request) (r : FetchResult × List Request)
      → IsPinned request
      → (length r.1 ≤ left) × IsFetched (suc left) hop r
      → IsFetched (suc left) hop (r.0, request ∷ r.1)
  sent left hop request r pin (few, f) = record {
    pinned = (pin, f.pinned);
    bounded = omega (arith, few);
    chained = f.chained;
    read = f.read;
  }

  fetch_loop-IsFetched :
      (left hop : ℕ) (current : Text) (chain : List Text)
      → length chain ≡ hop + 1
      → IsFetched left hop (fetch_loop w max_size input left hop current chain)
  unfolding fetch_loop
  fetch_loop-IsFetched zero hop current chain long =
      stop zero hop _ long (λ e. absurd (ground arith))
  fetch_loop-IsFetched (suc left) hop current chain long =
      elim (Result-cases (validate_url_for_scan (w.network_at hop) (trim current))) [
        | inr (reason, refused) ↦
            rw (fetch_loop, refused) (stop (suc left) hop _ long (λ e. absurd (ground arith)))
        | inl (target, valid) ↦
            let pin : IsPinned (request_to w max_size input hop target) = record {
              url = current;
              allowed =
                  validate_url_for_scan-IsAllowed (w.network_at hop) (trim current) target valid;
              token = refl;
            } in
            rw (fetch_loop, valid)
              (sent left hop (request_to w max_size input hop target) _ pin (
                respond-IsFetched left hop chain target.normalized_url long _
                  (λ next chain long. fetch_loop-IsFetched left (hop + 1) next chain long)
                  (w.exchange (request_to w max_size input hop target))))
      ]

-- Every request of a fetch goes to a target that was let through for its URL at the time of the
-- request, with the audit token exactly as that target's host permits; there is at most one request
-- more than the permitted redirects, and the chain of redirects has at most two addresses more; a
-- result without a failure is no redirect, and has the decoded bytes of a body within the limit.
pub fetch_url-IsFetched :
    (w : Web) (input : Text) (max_size max_redirects : ℕ)
    → IsFetched w max_size input (max_redirects + 1) 0 (fetch_url w input max_size max_redirects)
unfolding fetch_url
fetch_url-IsFetched w input max_size max_redirects =
    fetch_loop-IsFetched w max_size input (max_redirects + 1) 0 input (input ∷ []) (omega arith)
