-- ===== src/Backlinks/Quota.antt =====
-- The quota of lib/backlinks/shared-protection.ts over a run of requests.
use growth_sent.Prelude.{
  ℕ, suc, ◌+◌, ◌-◌, ◌/◌, ◌≡◌, not, ap, subst, Option, none, some, List, [], ◌∷◌, String,
  if◌then◌else◌, min, All, length, leb, arith, eq_refl, Option-cases, inl, inr,
}
use growth_sent.Mongo.{Mongo}
use growth_sent.Backlinks.{
  ProtectionDocument, enforce_backlink_request_quota, quota_document_id, window_document_id,
  quota_window_ms, requests_per_user_per_minute, first_request, counted,
}

step_min : (n r : ℕ) → (if not (leb r 0) then 1 else 0) + min n (r - 1) ≡ min (suc n) r
step_min n r = ground arith

module _ (M : Mongo) (Rows : Type 0) (user : String) where
  open M use {Docs, find_one, write, find_one-write}

  abbrev Store : Type 0
  Store = Docs (ProtectionDocument Rows)

  -- The requests of one user that are let through, at the times of the list.
  pub let_through : List ℕ → Store → ℕ
  let_through [] c = 0
  let_through (now ∷ times) c =
      let (passed, c1) = enforce_backlink_request_quota M user now c in
      (if passed then 1 else 0) + let_through times c1

  abbrev In : ℕ → ℕ → Type 0
  In window now = now / quota_window_ms ≡ window

  -- The requests that a document still admits.
  abbrev pub room : Option (ProtectionDocument Rows) → ℕ
  room none = requests_per_user_per_minute
  room (some d) = elim d.count [ none ↦ 0 | some n ↦ requests_per_user_per_minute - n ]

  module _ (now : ℕ) (c : Store) where
    abbrev key : String
    key = quota_document_id user now

    enforce-room :
        ((enforce_backlink_request_quota M user now c).0 ≡ not (leb (room (find_one c key)) 0))
        × (room (find_one (enforce_backlink_request_quota M user now c).1 key)
            ≡ room (find_one c key) - 1)
    unfolding enforce_backlink_request_quota
    enforce-room = elim (Option-cases (find_one c key)) [
      | inl missing ↦ ground (arith, find_one-write c key (first_request now) key, eq_refl key)
      | inr (d, found) ↦ elim (Option-cases d.count) [
        | inl uncounted ↦ ground arith
        | inr (n, counts) ↦ ground (arith, find_one-write c key (counted now d) key, eq_refl key)
      ]
    ]

  -- Of a user's requests within one minute's window, as many are let through as the window still
  -- admits: twenty where it has no request yet, and never more, whenever in the window they come.
  pub let_through-min :
      (window : ℕ) (times : List ℕ) (c : Store)
      → All (In window) times
      → let_through times c
        ≡ min (length times) (room (find_one c (window_document_id user window)))
  unfolding let_through
  let_through-min window [] c h = ground arith
  let_through-min window (now ∷ times) c (h, hs) =
      let step = enforce-room now c in
      let rest = let_through-min window times (enforce_backlink_request_quota M user now c).1 hs in
      let same : quota_document_id user now ≡ window_document_id user window =
        ap (window_document_id user) h in
      let passed =
        subst
          (λ k. (enforce_backlink_request_quota M user now c).0 ≡ not (leb (room (find_one c k)) 0))
          same step.0 in
      let less =
        subst
          (λ k.
            room (find_one (enforce_backlink_request_quota M user now c).1 k)
            ≡ room (find_one c k) - 1)
          same step.1 in
      rw (rest, passed, less)
        (step_min (length times) (room (find_one c (window_document_id user window))))
