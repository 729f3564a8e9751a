-- ===== src/Fetcher.antt =====
-- lib/crawler/fetcher.ts: `fetchUrl`, which validates every address it is led to before it asks for
-- it. A request goes to the address that was validated; what comes back from the network, the
-- resolver at the time of each request, the URL parser and the decoders are parameters. Times are
-- left out.
pub mod Body
pub mod Limit
pub mod Headers
pub mod Token
pub mod Pinned
mod Tests
use growth_sent.Prelude.{
  ℕ, zero, suc, ◌+◌, Bool, true, false, ◌&&◌, ◌||◌, not, Option, none, some, List, [], ◌∷◌, ◌++◌,
  ◌==◌, if◌then◌else◌, any, codes, trim, is_empty, Result, ok, err,
}
use growth_sent.Types.{
  FailureCategory, blocked_by_safety_policy, invalid_redirect, response_body_unavailable,
  response_size_limit, timeout, network, redirect_limit,
}
use growth_sent.Ssrf.Address.{Text}
use growth_sent.Ssrf.Validate.{Network, Target, validate_url_for_scan}
use growth_sent.Fetcher.Body.{Chunk, BoundedBody, BodyError, Response, read_http_response}
use growth_sent.Fetcher.Headers.{FirstPartyAuditConfig, first_party_audit_headers}

-- A request that was sent: the number of redirects before it, its target, and the audit token, if
-- it carries one.
pub record Request : Type 0 where
  pub hop : ℕ
  pub target : Target
  pub audit_token : Option Text

pub data Exchange : Type 0 where
  aborted failed : Exchange
  responded : Response → Exchange

-- What the fetcher meets outside.
pub record Web : Type 0 where
  -- the resolver and the parser at the time of each request
  pub network_at : ℕ → Network
  pub exchange : Request → Exchange
  -- `new URL(location, base)`: user name, password, and the whole
  pub resolve : Text → Text → Option (Text × Text × Text)
  pub decompress : Text → List Chunk → List Chunk
  pub decode_utf8 : List ℕ → Text
  pub audit_config : FirstPartyAuditConfig

pub record FetchResult : Type 0 where
  pub url : Text
  pub final_url : Text
  pub status_code : ℕ
  pub content_type : Text
  pub body : Text
  pub page_size_bytes : ℕ
  pub redirect_chain : List Text
  pub failure_category : Option FailureCategory

abbrev pub is_redirect : ℕ → Bool
is_redirect status = any (λ code. status == code) (301 ∷ 302 ∷ 303 ∷ 307 ∷ 308 ∷ [])

abbrev pub or_empty : Option Text → Text
or_empty none = []
or_empty (some text) = text

-- A result with no body.
abbrev pub without_body : Text → Text → ℕ → Text → ℕ → List Text → FailureCategory → FetchResult
without_body input current status content_type size chain category = record {
  url = input;
  final_url = current;
  status_code = status;
  content_type = content_type;
  body = [];
  page_size_bytes = size;
  redirect_chain = chain;
  failure_category = some category;
}

module _ (w : Web) (max_size : ℕ) (input : Text) where
  -- Where a redirect leads, if its Location can be followed.
  unfoldable pub redirect_target : Response → Text → Option Text
  redirect_target response current =
      if is_empty (or_empty response.location)
      then none
      else elim (w.resolve (or_empty response.location) current) [
        | none ↦ none
        | some (username, password, href) ↦
            if not (is_empty username) || not (is_empty password) then none else some href
      ]

  -- The result of a response whose body was read, or not.
  abbrev pub page : Response → Text → List Text → ℕ → Option (List ℕ) → FetchResult
  page response current chain size none =
      without_body input current response.status_code (or_empty response.content_type) size chain
        response_size_limit
  page response current chain size (some bytes) = record {
    url = input;
    final_url = current;
    status_code = response.status_code;
    content_type = or_empty response.content_type;
    body = w.decode_utf8 bytes;
    page_size_bytes = size;
    redirect_chain = chain;
    failure_category = none;
  }

  abbrev pub finish_body : Response → Text → List Text → Result BodyError BoundedBody → FetchResult
  finish_body response current chain (err _) =
      without_body input current response.status_code (or_empty response.content_type) 0 chain
        response_body_unavailable
  finish_body response current chain (ok read) =
      page response current chain read.page_size_bytes read.body

  abbrev pub request_to : ℕ → Target → Request
  request_to hop target = record {
    hop = hop;
    target = target;
    audit_token = first_party_audit_headers w.audit_config target.hostname;
  }

  -- What follows a redirect, if it leads anywhere; `go` is the rest of the loop.
  abbrev pub follow :
      (Text → List Text → FetchResult × List Request)
      → Response
      → Text
      → List Text
      → Option Text
      → FetchResult × List Request
  follow go response url chain none = (
    without_body input url response.status_code (or_empty response.content_type) 0 chain
        invalid_redirect,
    [],
  )
  follow go response url chain (some next) = go next (chain ++ (next ∷ []))

  -- What follows a request.
  unfoldable pub respond :
      (Text → List Text → FetchResult × List Request)
      → Text
      → List Text
      → Exchange
      → FetchResult × List Request
  unfolding redirect_target
  respond go url chain aborted = (without_body input url 0 [] 0 chain timeout, [])
  respond go url chain failed = (without_body input url 0 [] 0 chain network, [])
  respond go url chain (responded response) =
      if is_redirect response.status_code
      then follow go response url chain (redirect_target response url)
      else (finish_body response url chain (read_http_response w.decompress response max_size), [])

  -- The loop with the requests that are left, and the requests that it sends.
  unfoldable pub fetch_loop : ℕ → ℕ → Text → List Text → FetchResult × List Request
  unfolding respond
  fetch_loop zero hop current chain = (without_body input current 0 [] 0 chain redirect_limit, [])
  fetch_loop (suc left) hop current chain =
      elim (validate_url_for_scan (w.network_at hop) (trim current)) [
        | err _ ↦ (without_body input current 0 [] 0 chain blocked_by_safety_policy, [])
        | ok target ↦
            let request = request_to hop target in
            let (result, requests) =
              respond (λ next chain. fetch_loop left (hop + 1) next chain) target.normalized_url
                chain (w.exchange request) in
            (result, request ∷ requests)
      ]

-- `maxSizeBytes` and `maxRedirects`, with their defaults put in.
unfoldable pub fetch_url : Web → Text → ℕ → ℕ → FetchResult × List Request
unfolding fetch_loop
fetch_url w input max_size max_redirects =
    fetch_loop w max_size input (max_redirects + 1) 0 input (input ∷ [])
