-- ===== src/AiReadiness/Score.antt =====
-- lib/ai-readiness/service.ts: the score and the coverage of a report.
use native.Mathlib.Nat.{mul-le-mul_left}
use growth_sent.Prelude.{
  ℕ, ◌+◌, ◌*◌, ◌≤◌, ◌<◌, ◌≡◌, refl, ap, ◌∙◌, ◌↔◌, true, Bool-cases, Option, none, some, List, [],
  ◌∷◌, if◌then◌else◌, if-elim, ltb, leb, length, inl, inr, arith,
}
use growth_sent.AiReadiness.{
  Dependencies, weight_where, count_where, is_ready, is_needy, is_unavailable, is_observed,
}
use growth_sent.AiReadiness.Checks.{
  CheckId, Check, Status, ready, needs_attention, unavailable, weight_of,
}

-- The rounded quotient is a nearest number to the exact one, for weights as they occur.
abbrev pub IsNearest : (ℕ → ℕ → ℕ) → Type 0
IsNearest percent =
    (part whole : ℕ)
    → part ≤ whole
    → 0 < whole
    → whole ≤ 100
    → (whole * percent part whole * 2 ≤ 200 * part + whole)
      × (200 * part ≤ whole * percent part whole * 2 + whole)

nearest_bound : (n p a : ℕ) → a ≤ n → 0 < n → n * p * 2 ≤ 200 * a + n → p ≤ 100
nearest_bound n p a less some_weight above = elim (Bool-cases (leb p 100)) [
  | inl small ↦ ground arith
  | inr large ↦
      let past : 101 ≤ p = ground arith in
      let more : n * 101 ≤ n * p = mul-le-mul_left n past in absurd (omega (arith, more))
]

nearest_all : (n p a : ℕ) → a ≤ n → n ≤ 100 → n * p * 2 ≤ 200 * a + n → p ≡ 100 → a ≡ n
nearest_all n p a less few above full =
    let same : n * p ≡ n * 100 = ap (◌*◌ n) full in omega (arith, same)

all_nearest : (n p a : ℕ) → a ≡ n → 0 < n → 200 * a ≤ n * p * 2 + n → p ≤ 100 → p ≡ 100
all_nearest n p a full some_weight below small = elim (Bool-cases (leb 100 p)) [
  | inl enough ↦ ground arith
  | inr short ↦
      let under : p ≤ 99 = ground arith in
      let fewer : n * p ≤ n * 99 = mul-le-mul_left n under in absurd (omega (arith, fewer))
]

-- The statuses split the weights and the checks.
pub ready_needy :
    (checks : List Check)
    → weight_where is_observed checks ≡ weight_where is_ready checks + weight_where is_needy checks
ready_needy [] = refl
ready_needy (c ∷ checks) = grind (arith, ready_needy checks)

pub observed_unavailable :
    (checks : List Check)
    → weight_where (λ status. true) checks
      ≡ weight_where is_observed checks + weight_where is_unavailable checks
observed_unavailable [] = refl
observed_unavailable (c ∷ checks) = grind (arith, observed_unavailable checks)

pub count_all :
    (checks : List Check)
    → count_where is_ready checks + count_where is_needy checks + count_where is_unavailable checks
      ≡ length checks
count_all [] = refl
count_all (c ∷ checks) = grind (arith, count_all checks)

weight_positive : (id : CheckId) → 0 < weight_of id
weight_positive id = ground arith

-- No check needs attention exactly if those that do have no weight.
needy_count :
    (checks : List Check) → (count_where is_needy checks ≡ 0) ↔ (weight_where is_needy checks ≡ 0)
needy_count [] = (λ e. e, λ e. e)
needy_count (c ∷ checks) =
    let (to, from) = needy_count checks in
    let heavy = weight_positive c.id in (grind arith, grind arith)

-- Sums over the checks that are ready, that need attention, and that are unavailable.
abbrev pub add_to : Status → ℕ → ℕ × ℕ × ℕ → ℕ × ℕ × ℕ
add_to ready n (a, b, c) = (n + a, b, c)
add_to needs_attention n (a, b, c) = (a, n + b, c)
add_to unavailable n (a, b, c) = (a, b, n + c)

abbrev pub tally : (CheckId → ℕ) → List Check → ℕ × ℕ × ℕ
tally f [] = (0, 0, 0)
tally f (c ∷ checks) = add_to c.status (f c.id) (tally f checks)

added_weights :
    (status : Status) (n a b c : ℕ)
    → add_to status n (a, b, c) ≡ (
      (if is_ready status then n else 0) + a,
      (if is_needy status then n else 0) + b,
      (if is_unavailable status then n else 0) + c,
    )
added_weights ready n a b c = ground arith
added_weights needs_attention n a b c = ground arith
added_weights unavailable n a b c = ground arith

pub tally-weights :
    (checks : List Check)
    → tally weight_of checks ≡ (
      weight_where is_ready checks,
      weight_where is_needy checks,
      weight_where is_unavailable checks,
    )
tally-weights [] = refl
tally-weights (c ∷ checks) =
    ap (add_to c.status (weight_of c.id)) (tally-weights checks)
    ∙ added_weights c.status (weight_of c.id) (weight_where is_ready checks)
        (weight_where is_needy checks) (weight_where is_unavailable checks)

pub tally-counts :
    (checks : List Check)
    → tally (λ id. 1) checks ≡ (
      count_where is_ready checks,
      count_where is_needy checks,
      count_where is_unavailable checks,
    )
tally-counts [] = refl
tally-counts (c ∷ checks) =
    ap (add_to c.status 1) (tally-counts checks)
    ∙ added_weights c.status 1 (count_where is_ready checks) (count_where is_needy checks)
        (count_where is_unavailable checks)

-- There is a score exactly if a check was observed; it is at most 100, a nearest number to the share
-- of the ready weight in hundredths, and 100 exactly if no check needs attention.
abbrev pub IsScore : ℕ → ℕ → ℕ → Option ℕ → Type 0
IsScore ready_weight observed needy none = observed ≡ 0
IsScore ready_weight observed needy (some score) =
    (0 < observed)
    × (score ≤ 100)
    × ((score ≡ 100) ↔ (needy ≡ 0))
    × (observed * score * 2 ≤ 200 * ready_weight + observed)
    × (200 * ready_weight ≤ observed * score * 2 + observed)

module _ (w : Dependencies) where
  pub percent-IsScore :
      IsNearest w.percent
      → (checks : List Check) → weight_where (λ status. true) checks ≡ 100
      → IsScore
          (weight_where is_ready checks)
          (weight_where is_observed checks)
          (count_where is_needy checks)
          (if ltb 0 (weight_where is_observed checks)
            then some (w.percent (weight_where is_ready checks) (weight_where is_observed checks))
            else none)
  percent-IsScore nearest checks total =
      let n = weight_where is_observed checks in
      let a = weight_where is_ready checks in
      let p = w.percent a n in
      let split = ready_needy checks in
      let within = observed_unavailable checks in
      if-elim (IsScore a n (count_where is_needy checks)) (ltb 0 n)
        (λ positive.
          let some_weight : 0 < n = ground arith in
          let less : a ≤ n = omega (arith, split) in
          let few : n ≤ 100 = omega (arith, within, total) in
          let (above, below) = nearest a n less some_weight few in
          let small = nearest_bound n p a less some_weight above in
          let (to, from) = needy_count checks in
          (
            some_weight,
            small,
            (
              λ full. from (omega (arith, nearest_all n p a less few above full, split)),
              λ none_needy.
                  all_nearest n p a (omega (arith, to none_needy, split)) some_weight below small,
            ),
            above,
            below,
          ))
        (λ zero_weight. ground arith)

  pub coverage-observed :
      IsNearest w.percent
      → (observed total : ℕ) → observed ≤ total
      → total ≡ 100
      → (if ltb 0 total then w.percent observed total else 0) ≡ observed
  coverage-observed nearest observed total less full =
      if-elim (λ p. p ≡ observed) (ltb 0 total)
        (λ positive.
          let (above, below) =
            nearest observed total less (omega (arith, full)) (omega (arith, full)) in
          let p = w.percent observed total in
          let same : total * p ≡ 100 * p = ap (λ x. x * p) full in
          omega (arith, above, below, same, full))
        (λ none_left. absurd (ground arith))
