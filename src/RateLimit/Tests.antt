-- ===== src/RateLimit/Tests.antt =====
-- Requests that lib/ratelimit/limiter.ts counts.
use growth_sent.Prelude.{some}
use growth_sent.RateLimit.{RateLimitOptions}

abbrev two_per_second : RateLimitOptions
two_per_second = record { window_ms = some 1000; max_requests = some 2 }
