-- ===== src/Lib.antt =====
-- GrowthSent audits web sites: a request is admitted as a durable crawl job, a worker claims the job
-- under a lease, crawls the site, analyses the pages and publishes the result. This library models
-- that path, and the guards around it, over an interface to the database.
--
-- Parts and files:
-- - lib/jobs/crawl-admission.ts: Admission (the gates, one function each, named
--   as in the code), with Keys, Gates, Decision and Effects on one run of the transaction, Release on
--   releaseCrawlAdmission, Retry on runAdmissionTransactionWithRetry, Service on
--   admitAndInsertCrawlJob.
-- - lib/services/audit.service.ts: Audit (filters and retry policy), Audit/Claim (claimCrawlJob),
--   Audit/Lease (the commands a worker sends), Audit/Process (processCrawlJob). Audit/System has the
--   collections with any number of workers as a state; its steps are the single commands of the
--   workers, the transactions, the deletions by requests and the expiry of admissions. Sound, Tame,
--   Moves, Steps, ClaimSteps, SiteSteps, EndSteps and ReleaseSteps carry the invariant to Queue, Kept
--   and Final; Runs leads from the calls to the steps. Exclusive, Fence, Policy and Stuck are on leases, fences,
--   retries and lost jobs. Audit/Create (createCrawlJob) with Created and Capability, Audit/Access (canAccessJob, getCrawlJobStatus)
--   with Entitled, and Audit/Next (processNextCrawlJob) are the ends of a job's life that callers
--   and the scheduler see; a creation is a step of Audit/System.
-- - lib/services/audit.service.ts, syncIssueLifecycle: IssueHistory (its four updates and two
--   loops), with Filled on the maps it fills, Entry and Sync on each document, Refine on the set of
--   open issues, Sound on what every document keeps, and Again.
-- - lib/security/access-token.ts, lib/security/common-crawl-requester.ts: Capabilities, with Tokens.
-- - lib/jobs/cron-worker.ts, lib/jobs/runner.ts, lib/jobs/worker-health.ts: Workers, with Cron.
-- - lib/monitoring/engine.ts: Monitoring, with Compare.
-- - workers/link-intelligence/src/heap.ts: TopHeap, with Count, Up (bubbleUp), Down (bubbleDown),
--   Push, and Stream on a whole stream of rows.
-- - lib/security/ssrf.ts: Ssrf (address ranges), with Ipv4, Ipv6, Address (parsing), Validate
--   (validateUrlForScan) and Allowed.
-- - lib/services/audit-errors.ts: AuditErrors.
-- - lib/jobs/immediate-audit.ts: ImmediateAudit, with Dispatch.
-- - lib/crawler/fetcher.ts: Fetcher (fetchUrl), with Body (readBodyWithLimit, readHttpResponse),
--   Headers (firstPartyAuditHeaders), Limit, Token and Pinned.
-- - lib/domain/registrable.ts: Domains.
-- - lib/crawler/sitemap.ts: Sitemaps, with Locations (its regular expression), Missing, Fetched,
--   Listed and Scope.
-- - lib/ai-readiness/service.ts: AiReadiness (buildAiReadinessReport), with Signals (what is looked
--   for in a text), Checks (the eight checks), Judged, Score and Report.
-- - lib/crawler/robots.ts: Robots, with Groups.
-- - lib/crawler/crawler.ts: Crawler, with Batch, Record, Sound, Finish and Root.
-- - lib/crawler/common-crawl-admission.ts: CommonCrawl, with Exclusive and Acquire.
-- - lib/backlinks/shared-protection.ts: Backlinks, with Quota and Shared.
-- - lib/ratelimit/limiter.ts: RateLimit.
-- - lib/seo: Seo (rules.ts, engine.ts) and Seo/Scoring (scoring.ts), with Archive, Clean, Duplicates
--   and Score.
-- - lib/db/types.ts: Types. The documents have the fields that these parts read or write.
-- Each part has a module Tests with runs on concrete data.
--
-- How the code is modelled: a collection is a parameter with the laws of Mongo, one unique key and
-- one document per command, and of Mongo/Listing for a query of many; Mongo/Memory shows that an
-- association list meets them. A command that
-- the code sends is one function on the collections; a transaction is a function that returns the
-- collections or an error. What others do between two commands is a sequence of steps or an
-- argument. Times are numbers of milliseconds, and each reading of the clock and each fresh id is an
-- argument. A text is a native string, or a list of code points where it is parsed.
--
-- Fuel: the crawl's loop has one step more than the permitted pages, which is enough since a batch
-- that is not the last adds a page; the retry loop of a transaction has the three attempts of the
-- code; the digits of a number are at most as many as its value plus one; bubbleUp halves an index
-- and has that index as fuel, bubbleDown raises one below the size and has the size;
-- the loop of fetchUrl runs once for each permitted redirect and once more, as in the code.
--
-- Not modelled: sockets, HTML parsing, hashing, random bytes, the URL parser, the resolver and the public suffix
-- list, which are parameters; the documents of scans, pages and findings that a publication writes
-- beside the job and the history; the requests that delete a site or a user, of which the deletion of
-- the jobs is a step; in processCrawlJob the second validation of the URL, the choice of the provider
-- and the crawl, which are one argument; account handling, the HTTP routes, the web interface and the deployment scripts.
mod Prelude
pub mod Mongo
pub mod Types
pub mod Admission
pub mod Audit
pub mod Ssrf
pub mod AuditErrors
pub mod ImmediateAudit
pub mod Robots
pub mod Fetcher
pub mod Domains
pub mod AiReadiness
pub mod Sitemaps
pub mod Crawler
pub mod Backlinks
pub mod RateLimit
pub mod Seo
pub mod CommonCrawl
pub mod IssueHistory
pub mod Capabilities
pub mod Workers
pub mod Monitoring
pub mod TopHeap
