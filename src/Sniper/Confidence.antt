-- ===== src/Sniper/Confidence.antt =====
-- backend/src/sniper/application/services/confidence-scorer.ts: scoreConfidence. Scores and weights
-- are numbers of thousandths, in which the code's are whole, so its rounding is exact here.
use autoforge.Common.{
  ◌+◌, ◌*◌, ◌/◌, ◌≤◌, ◌≡◌, ◌↔◌, ◌∷◌, ◌++◌, if◌then◌else◌, ℕ, Bool, true, List, [], leb, nat_eqb,
  ◌⊎◌, refl, inl, inr, false, arith, Bool-cases, leb→le, all,
}
use autoforge.Sniper.{
  ConfidenceFactorCategory, ConfidenceFactor, ConfidenceBreakdown, tool_confirmation,
  reproducibility, response_behavior, static_correlation, endpoint_reachability,
}
use autoforge.Common.Decimal.{show_ℕ}
use autoforge.Common.Texts.{Text, codes}

pub data StaticCorrelationLevel : Type 0 where
  full partial absent : StaticCorrelationLevel

pub record ConfidenceSignals : Type 0 where
  pub tool_confirmed : Bool
  pub technique_count : ℕ
  pub response_matched : Bool
  pub endpoint_reachable : Bool
  pub static_correlation_level : StaticCorrelationLevel

-- `WEIGHTS`.
abbrev pub weight : ConfidenceFactorCategory → ℕ
weight tool_confirmation = 350
weight reproducibility = 200
weight response_behavior = 150
weight static_correlation = 200
weight endpoint_reachability = 100

abbrev factor : ConfidenceFactorCategory → ℕ → Text → ConfidenceFactor
factor category score reason = record { category = category; score = score; reason = reason }

abbrev pub score_of_count : ℕ → ℕ
score_of_count count = if leb 2 count then 1_000 else if nat_eqb count 1 then 500 else 0

unfoldable reason_of_count : ℕ → Text
unfolding show_ℕ
reason_of_count count =
    if nat_eqb count 0
    then codes "no payload technique reproduced"
    else if nat_eqb count 1
    then codes "single payload technique reproduced"
    else show_ℕ count ++ codes " independent payload techniques reproduced"

abbrev pub score_of_level : StaticCorrelationLevel → ℕ
score_of_level full = 1_000
score_of_level partial = 500
score_of_level absent = 0

abbrev reason_of_level : StaticCorrelationLevel → Text
reason_of_level full = codes "static scan finding of the same type with high confidence"
reason_of_level partial = codes "static scan finding of the same type with low confidence"
reason_of_level absent = codes "no correlated static finding"

abbrev pub score_of_test : Bool → ℕ
score_of_test b = if b then 1_000 else 0

unfoldable pub factors_of : ConfidenceSignals → List ConfidenceFactor
unfolding reason_of_count
factors_of signals =
    factor tool_confirmation (score_of_test signals.tool_confirmed) (
      if signals.tool_confirmed
      then codes "verification tool reported a confirmed injection point"
      else codes "verification tool reported no injectable parameter")
    ∷ factor reproducibility (score_of_count signals.technique_count)
        (reason_of_count signals.technique_count)
    ∷ factor response_behavior (score_of_test signals.response_matched) (
        if signals.response_matched
        then codes "observed back-end DBMS / expected error behavior"
        else codes "response behavior did not match an expected database indicator")
    ∷ factor static_correlation (score_of_level signals.static_correlation_level)
        (reason_of_level signals.static_correlation_level)
    ∷ factor endpoint_reachability (score_of_test signals.endpoint_reachable) (
        if signals.endpoint_reachable
        then codes "endpoint reachable from the sandbox"
        else codes "endpoint unreachable from the sandbox")
    ∷ []

-- The loop over the factors, in millionths.
abbrev pub weighted_sum : List ConfidenceFactor → ℕ
weighted_sum [] = 0
weighted_sum (f ∷ factors) = f.score * weight f.category + weighted_sum factors

-- `scoreConfidence`; `Math.round` is the division by a thousand, rounded half up.
unfoldable pub score_confidence : ConfidenceSignals → ConfidenceBreakdown
unfolding factors_of
score_confidence signals = record {
  score = (weighted_sum (factors_of signals) + 500) / 1_000;
  weighted = true;
  factors = factors_of signals;
}

-- Every score is full or at most a half.
abbrev Halved : ℕ → Type 0
Halved n = (n ≡ 1_000) ⊎ (n ≤ 500)

test_scores : (b : Bool) → Halved (score_of_test b) × ((score_of_test b ≡ 1_000) ↔ (b ≡ true))
test_scores true = (inl refl, (λ _. refl, λ _. refl))
test_scores false = (inr (omega arith), (λ h. absurd (omega arith), λ h. cc))

count_scores : (n : ℕ) → Halved (score_of_count n) × ((score_of_count n ≡ 1_000) ↔ (2 ≤ n))
count_scores n = elim (Bool-cases (leb 2 n)) [
  | inl many ↦ rw many (inl refl, (λ _. leb→le 2 n many, λ _. refl))
  | inr few ↦ ground arith
]

level_scores :
    (l : StaticCorrelationLevel)
    → Halved (score_of_level l) × ((score_of_level l ≡ 1_000) ↔ (l ≡ full))
level_scores full = (inl refl, (λ _. refl, λ _. refl))
level_scores partial = (inr (omega arith), (λ h. absurd (omega arith), λ h. cc))
level_scores absent = (inr (omega arith), (λ h. absurd (omega arith), λ h. cc))

abbrev rounded : ℕ → ℕ → ℕ → ℕ → ℕ → ℕ
rounded t c r l e = (t * 350 + (c * 200 + (r * 150 + (l * 200 + (e * 100 + 0)))) + 500) / 1_000

Halved-le : (n : ℕ) → Halved n → n ≤ 1_000
Halved-le n (inl e) = omega arith
Halved-le n (inr small) = omega arith

full_or : (n : ℕ) → Halved n → 501 ≤ n → n ≡ 1_000
full_or n (inl e) big = e
full_or n (inr small) big = absurd (omega arith)

full_sum :
    (t c r l e : ℕ)
    → Halved t
    → Halved c
    → Halved r
    → Halved l
    → Halved e
    → (rounded t c r l e ≤ 1_000)
      × (rounded t c r l e ≡ 1_000
          → (t ≡ 1_000) × (c ≡ 1_000) × (r ≡ 1_000) × (l ≡ 1_000) × (e ≡ 1_000))
full_sum t c r l e ht hc hr hl he =
    let t1 = Halved-le t ht in
    let c1 = Halved-le c hc in
    let r1 = Halved-le r hr in
    let l1 = Halved-le l hl in
    let e1 = Halved-le e he in
    (
      omega arith,
      λ sum. (
        full_or t ht (omega arith),
        full_or c hc (omega arith),
        full_or r hr (omega arith),
        full_or l hl (omega arith),
        full_or e he (omega arith),
      ),
    )

-- The score is within 0 and 1, and reaches 1 exactly when every signal is at its best.
pub score_confidence_full :
    (signals : ConfidenceSignals)
    → ((score_confidence signals).score ≤ 1_000)
      × (((score_confidence signals).score ≡ 1_000) ↔ (
          (signals.tool_confirmed ≡ true)
          × (2 ≤ signals.technique_count)
          × (signals.response_matched ≡ true)
          × (signals.static_correlation_level ≡ full)
          × (signals.endpoint_reachable ≡ true)))
unfolding score_confidence
score_confidence_full signals =
    let (ht, et) = test_scores signals.tool_confirmed in
    let (hc, ec) = count_scores signals.technique_count in
    let (hr, er) = test_scores signals.response_matched in
    let (hl, el) = level_scores signals.static_correlation_level in
    let (he, ee) = test_scores signals.endpoint_reachable in
    let (bound, all) = full_sum _ _ _ _ _ ht hc hr hl he in
    (
      bound,
      (
        λ h. let (t, c, r, l, e) = all h in (et.0 t, ec.0 c, er.0 r, el.0 l, ee.0 e),
        λ (t, c, r, l, e). rw (et.1 t, ec.1 c, er.1 r, el.1 l, ee.1 e) refl,
      ),
    )
