-- ===== src/Fallback/Order.antt =====
-- Which provider the outcome of fallback-llm-provider.ts comes from.
use autoforge.Common.{
  ◌≡◌, ◌⊎◌, ◌∷◌, ◌++◌, true, false, List, [], refl, sym, ap, inl, inr, Bool-cases,
}
use autoforge.Fallback.{
  LlmProvider, generate_from, LlmFault, Result, is_fallback_eligible, after_answer, generate,
}
use autoforge.Common.Result.{Result, err, ok}

module _ {W Q A : Type 0} (request : Q) where
  -- The providers were asked one after the other, and each failed in a way that lets the next be tried.
  unfoldable pub Fell : List (LlmProvider W Q A) → W → W → Type 0
  Fell [] w last = w ≡ last
  Fell (provider ∷ providers) w last =
      ((error : LlmFault) × ((provider.generate request w).0 ≡ err error)
        × (is_fallback_eligible error ≡ true))
      × Fell providers (provider.generate request w).1 last

  -- An outcome that is final: a response, an error that is not passed over, or the last provider's.
  unfoldable pub IsFinal : List (LlmProvider W Q A) → Result LlmFault A → Type 0
  IsFinal after (ok response) = Unit {0}
  IsFinal after (err error) = (is_fallback_eligible error ≡ false) ⊎ (after ≡ [])

  -- The outcome is that of one of the providers: those before it were asked once each, in their order,
  -- and fell; it was asked in the world that they left; those after it were not asked.
  pub record FromOne (providers : List (LlmProvider W Q A)) (w : W) (out : Result LlmFault A × W)
      : Type 0 where
    pub before : List (LlmProvider W Q A)
    pub provider : LlmProvider W Q A
    pub after : List (LlmProvider W Q A)
    pub world : W
    pub is_split : providers ≡ before ++ provider ∷ after
    pub fell : Fell before w world
    pub answered : out ≡ provider.generate request world
    pub is_final : IsFinal after out.0

  -- A provider that stands before the others, and fell.
  behind :
      (provider : LlmProvider W Q A) (providers : List (LlmProvider W Q A)) (w w' : W)
      (error : LlmFault) (out : Result LlmFault A × W)
      → provider.generate request w ≡ (err error, w')
      → is_fallback_eligible error ≡ true
      → FromOne providers w' out
      → FromOne (provider ∷ providers) w out
  unfolding Fell
  behind provider providers w w' error out e eligible from = record {
    before = provider ∷ from.before;
    provider = from.provider;
    after = from.after;
    world = from.world;
    is_split = ap (λ ps. provider ∷ ps) from.is_split;
    fell = ((error, ap (λ x. x.0) e, eligible), rw e from.fell);
    answered = from.answered;
    is_final = from.is_final;
  }

  at_head :
      (provider : LlmProvider W Q A) (providers : List (LlmProvider W Q A)) (w : W)
      (out : Result LlmFault A × W)
      → provider.generate request w ≡ out
      → IsFinal providers out.0
      → FromOne (provider ∷ providers) w out
  unfolding Fell
  at_head provider providers w out e final = record {
    before = [];
    provider = provider;
    after = providers;
    world = w;
    is_split = refl;
    fell = refl;
    answered = sym e;
    is_final = final;
  }

  after_answer-FromOne :
      (provider : LlmProvider W Q A) (providers : List (LlmProvider W Q A)) (w : W)
      (answer : Result LlmFault A) (w' : W)
      → provider.generate request w ≡ (answer, w')
      → FromOne
          (provider ∷ providers)
          w
          (after_answer providers (generate_from request providers) (answer, w'))
  unfolding IsFinal generate_from
  after_answer-FromOne provider providers w (ok response) w' e =
      at_head provider providers w (ok response, w') e tt
  after_answer-FromOne provider [] w (err error) w' e =
      at_head provider [] w (err error, w') e (inr refl)
  after_answer-FromOne provider (other ∷ providers) w (err error) w' e =
      elim (Bool-cases (is_fallback_eligible error)) [
        | inl eligible ↦ rw eligible (
            behind provider (other ∷ providers) w w' error
              (after_answer providers (generate_from request providers) (other.generate request w'))
              e eligible
              (after_answer-FromOne other providers w' (other.generate request w').0
                (other.generate request w').1 refl))
        | inr final ↦
            rw final (at_head provider (other ∷ providers) w (err error, w') e (inl final))
      ]

  -- generate asks the providers in their order, each at most once. Its outcome, and the world that it
  -- leaves, are those of one of them: all before it failed with an error that lets the next be tried,
  -- each in the world that the one before it had left; none after it was asked; and its answer is a
  -- response, an error that must not be passed over, or the answer of the last provider.
  pub generate-FromOne :
      (provider : LlmProvider W Q A) (providers : List (LlmProvider W Q A)) (w : W)
      → FromOne (provider ∷ providers) w (generate request (provider ∷ providers) w)
  unfolding generate_from
  generate-FromOne provider providers w =
      after_answer-FromOne provider providers w (provider.generate request w).0
        (provider.generate request w).1 refl
