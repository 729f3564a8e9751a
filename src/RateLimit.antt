-- ===== src/RateLimit.antt =====
-- lib/ratelimit/limiter.ts: the requests of one process, counted per identifier in windows that a
-- first request opens. A time is a number of milliseconds.
mod Tests
use growth_sent.Prelude.{
  ℕ, zero, suc, ◌+◌, ◌*◌, ◌-◌, ◌≤◌, ◌≡◌, refl, Bool, true, false, not, Option, none, some, List, [],
  ◌∷◌, String, ◌===◌, ◌==◌, if◌then◌else◌, min, All, length, leb, ltb, arith, eq_refl,
}

pub record RateLimitEntry : Type 0 where
  pub count : ℕ
  pub reset_at : ℕ

pub record RateLimitOptions : Type 0 where
  pub window_ms : Option ℕ
  pub max_requests : Option ℕ

pub record RateLimitResult : Type 0 where
  pub allowed : Bool
  pub remaining : ℕ
  pub reset_ms : ℕ

-- `value || default`: zero counts as absent.
abbrev or_default : Option ℕ → ℕ → ℕ
or_default none default = default
or_default (some zero) default = default
or_default (some (suc n)) default = suc n

abbrev pub window_of : RateLimitOptions → ℕ
window_of options = or_default options.window_ms (60 * 1000)

abbrev pub max_of : RateLimitOptions → ℕ
max_of options = or_default options.max_requests 60

abbrev pub Store : Type 0
Store = List (String × RateLimitEntry)

abbrev pub get : Store → String → Option RateLimitEntry
get [] key = none
get ((k, entry) ∷ store) key = let rest = get store key in if k === key then some entry else rest

abbrev pub set : Store → String → RateLimitEntry → Store
set [] key entry = (key, entry) ∷ []
set ((k, e) ∷ store) key entry =
    let rest = set store key entry in if k === key then (key, entry) ∷ store else (k, e) ∷ rest

unfoldable pub check_rate_limit : String → RateLimitOptions → ℕ → Store → RateLimitResult × Store
check_rate_limit identifier options now store =
    let fresh : RateLimitResult × Store = (
      record { allowed = true; remaining = max_of options - 1; reset_ms = window_of options },
      set store identifier (record { count = 1; reset_at = now + window_of options }),
    ) in
    elim (get store identifier) [
      | none ↦ fresh
      | some entry ↦
          if ltb entry.reset_at now
          then fresh
          else if leb (max_of options) entry.count
          then (record { allowed = false; remaining = 0; reset_ms = entry.reset_at - now }, store)
          else (
            record {
              allowed = true;
              remaining = max_of options - (entry.count + 1);
              reset_ms = entry.reset_at - now;
            },
            set store identifier (record { count = entry.count + 1; reset_at = entry.reset_at }),
          )
    ]

get-set :
    (store : Store) (key : String) (entry : RateLimitEntry)
    → get (set store key entry) key ≡ some entry
get-set [] key entry = ground (arith, eq_refl key)
get-set ((k, e) ∷ store) key entry = ground (arith, eq_refl key, get-set store key entry)

-- The requests of an identifier that are let through, at the times of the list.
unfoldable pub let_pass : String → RateLimitOptions → List ℕ → Store → ℕ
let_pass identifier options [] store = 0
let_pass identifier options (now ∷ times) store =
    let (result, store) = check_rate_limit identifier options now store in
    (if result.allowed then 1 else 0) + let_pass identifier options times store

module _ (identifier : String) (options : RateLimitOptions) where
  -- In an open window, as many requests are let through as it still admits.
  let_pass-open :
      (times : List ℕ) (store : Store) (entry : RateLimitEntry)
      → get store identifier ≡ some entry
      → All (λ now. now ≤ entry.reset_at) times
      → let_pass identifier options times store ≡ min (length times) (max_of options - entry.count)
  unfolding let_pass check_rate_limit
  let_pass-open [] store entry found h = ground arith
  let_pass-open (now ∷ times) store entry found (h, hs) =
      let next : RateLimitEntry = record { count = entry.count + 1; reset_at = entry.reset_at } in
      ground (
        arith,
        let_pass-open times store entry found hs,
        let_pass-open times (set store identifier next) next (get-set store identifier next) hs,
      )

  max_of_positive : 1 ≤ max_of options
  max_of_positive = ground arith

  -- A request that opens a window and those that follow before its end are let through up to the
  -- limit, at least one and no more, whenever in the window they come.
  pub let_pass-min :
      (now : ℕ) (times : List ℕ) (store : Store)
      → get store identifier ≡ none
      → All (λ later. later ≤ now + window_of options) times
      → let_pass identifier options (now ∷ times) store ≡ min (suc (length times)) (max_of options)
  unfolding let_pass check_rate_limit
  let_pass-min now times store unseen h =
      let first : RateLimitEntry = record { count = 1; reset_at = now + window_of options } in
      ground (
        arith,
        max_of_positive,
        let_pass-open times (set store identifier first) first (get-set store identifier first) h,
      )
