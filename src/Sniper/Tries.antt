-- ===== src/Sniper/Tries.antt =====
-- What the loop of attempt-loop.ts tries, and what it records.
use mathlib.Core.List.{map-append}
use autoforge.Common.{
  ◌+◌, ◌≡◌, ◌⊎◌, ◌∷◌, ◌++◌, if◌then◌else◌, ℕ, zero, suc, ap, Bool, true, false, List, [], map,
  length, ◌∙◌, refl, sym, append-nil, append_assoc, arith, ◌≤◌, subst, inl, inr, leb, Bool-cases,
  leb→le,
}
use autoforge.Sniper.{
  VerificationOutcome, SaveAttemptPayload, SniperRun, SniperRunDeps, VerificationStatus,
  SniperError, codes,
}
use autoforge.Common.Result.{Result, ok, err}
use autoforge.Sniper.Attempts.{
  retry_allowed, AttemptParts, round_of, record_attempt, attempt_payload, attempts_from,
  after_round, run_attempts, failed_outcome,
}
use autoforge.Common.Effect.{◌>>=◌, return, Effect}
use autoforge.Sniper.Peel.{passed-cases, step-cases}
use autoforge.Common.Texts.{codes}

-- The outcomes of a loop with so many attempts left: it goes on after those that may be retried, and
-- ends with the first other one, or with the last attempt.
abbrev pub Tries : ℕ → List VerificationOutcome → VerificationOutcome → Type 0
Tries zero outcomes last = ⊥
Tries (suc left) [] last = ⊥
Tries (suc left) (outcome ∷ []) last =
    (outcome ≡ last) × ((retry_allowed outcome ≡ false) ⊎ (left ≡ 0))
Tries (suc left) (outcome ∷ next ∷ outcomes) last =
    (retry_allowed outcome ≡ true) × Tries left (next ∷ outcomes) last

-- What is recorded of an attempt: its number and its status.
abbrev pub numbered : ℕ → List VerificationOutcome → List (ℕ × VerificationStatus)
numbered attempts [] = []
numbered attempts (outcome ∷ outcomes) =
    (suc attempts, outcome.status) ∷ numbered (suc attempts) outcomes

abbrev pub record_of : SaveAttemptPayload → ℕ × VerificationStatus
record_of payload = (payload.attempt_number, payload.status)

abbrev pub recorded : Bool → ℕ → List VerificationOutcome → List (ℕ × VerificationStatus)
recorded persist attempts outcomes = if persist then numbered attempts outcomes else []

Tries-cons :
    (left : ℕ) (outcome : VerificationOutcome) (outcomes : List VerificationOutcome)
    (last : VerificationOutcome)
    → retry_allowed outcome ≡ true
    → Tries left outcomes last
    → Tries (suc left) (outcome ∷ outcomes) last
Tries-cons zero outcome outcomes last retry tries = absurd tries
Tries-cons (suc left) outcome [] last retry tries = absurd tries
Tries-cons (suc left) outcome (next ∷ outcomes) last retry tries = (retry, tries)

recorded-cons :
    (persist : Bool) (attempts : ℕ) (outcome : VerificationOutcome)
    (outcomes : List VerificationOutcome)
    → recorded persist attempts (outcome ∷ []) ++ recorded persist (suc attempts) outcomes
      ≡ recorded persist attempts (outcome ∷ outcomes)
recorded-cons true attempts outcome outcomes = refl
recorded-cons false attempts outcome outcomes = refl

module _ {W : Type 0} where
  -- What some attempts leave in the run.
  pub record Adds (persist : Bool) (attempts : ℕ) (run after : SniperRun W)
      (outcomes : List VerificationOutcome) : Type 0 where
    pub payloads : List SaveAttemptPayload
    pub tried : after.tried ≡ run.tried ++ outcomes
    pub saved_attempts : after.saved_attempts ≡ run.saved_attempts ++ payloads
    pub is_recorded : map record_of payloads ≡ recorded persist attempts outcomes
    pub saved : after.saved ≡ run.saved

  unfoldable pub RoundEnds :
      Bool → ℕ → SniperRun W → Result SniperError VerificationOutcome × SniperRun W → Type 0
  RoundEnds persist attempts run (ok outcome, after) =
      Adds persist attempts run after (outcome ∷ [])
  RoundEnds persist attempts run (err thrown, after) = persist ≡ true

  -- Throws come from the records only; otherwise the loop has tried what `Tries` says.
  unfoldable pub LoopEnds :
      Bool
      → ℕ
      → ℕ
      → SniperRun W
      → Result SniperError (VerificationOutcome × ℕ) × SniperRun W
      → Type 0
  LoopEnds persist left attempts run (ok (outcome, count), after) =
      (outcomes : List VerificationOutcome) × Tries left outcomes outcome
      × (count ≡ attempts + length outcomes)
      × Adds persist attempts run after outcomes
  LoopEnds persist left attempts run (err thrown, after) = persist ≡ true

  module _ (deps : SniperRunDeps W) where
    -- Once the verifier has answered.
    record_attempt-RoundEnds :
        (persist : Bool) (parts : AttemptParts W) (attempts duration started : ℕ)
        (outcome : VerificationOutcome) (run mid : SniperRun W)
        → mid.tried ≡ run.tried ++ outcome ∷ []
        → mid.saved_attempts ≡ run.saved_attempts
        → mid.saved ≡ run.saved
        → RoundEnds persist attempts run (
            (record_attempt deps persist parts outcome (suc attempts) duration started >>= λ _.
            return outcome)
              mid)
    unfolding RoundEnds
    record_attempt-RoundEnds false parts attempts duration started outcome run mid t a s = record {
      payloads = [];
      tried = t;
      saved_attempts = a ∙ sym (append-nil run.saved_attempts);
      is_recorded = refl;
      saved = s;
    }
    record_attempt-RoundEnds true parts attempts duration started outcome run mid t a s =
        let payload =
          attempt_payload parts outcome (suc attempts) duration started (deps.now mid.world) in
        let noted : SniperRun W = record mid {
          saved_attempts = mid.saved_attempts ++ payload ∷ [];
        } in
        passed-cases (RoundEnds true attempts run) (λ _. return outcome) (deps.save_attempt payload)
          noted (λ thrown world e. refl)
          (λ value world e. record {
            payloads = payload ∷ [];
            tried = t;
            saved_attempts = ap (λ ps. ps ++ payload ∷ []) a;
            is_recorded = refl;
            saved = s;
          })

    round_of-RoundEnds :
        (parts : AttemptParts W) (attempts : ℕ) (run : SniperRun W)
        → RoundEnds parts.persist attempts run (round_of deps parts (suc attempts) run)
    round_of-RoundEnds parts attempts run =
        record_attempt-RoundEnds parts.persist parts attempts _ _ _ run _ refl refl refl

    Adds-chain :
        (persist : Bool) (attempts : ℕ) (outcome : VerificationOutcome)
        (outcomes : List VerificationOutcome) (run mid after : SniperRun W)
        → Adds persist attempts run mid (outcome ∷ [])
        → Adds persist (suc attempts) mid after outcomes
        → Adds persist attempts run after (outcome ∷ outcomes)
    Adds-chain persist attempts outcome outcomes run mid after first rest = record {
      payloads = first.payloads ++ rest.payloads;
      tried =
          rest.tried
          ∙ ap (λ os. os ++ outcomes) first.tried
          ∙ append_assoc run.tried (outcome ∷ []) outcomes;
      saved_attempts =
          rest.saved_attempts
          ∙ ap (λ ps. ps ++ rest.payloads) first.saved_attempts
          ∙ append_assoc run.saved_attempts first.payloads rest.payloads;
      is_recorded =
          map-append record_of first.payloads rest.payloads
          ∙ rw (first.is_recorded, rest.is_recorded)
              (recorded-cons persist attempts outcome outcomes);
      saved = rest.saved ∙ first.saved;
    }

    -- A retry: the rest of the loop has one attempt less.
    LoopEnds-retry :
        (persist : Bool) (left attempts : ℕ) (outcome : VerificationOutcome) (run mid : SniperRun W)
        → retry_allowed outcome ≡ true
        → Adds persist attempts run mid (outcome ∷ [])
        → (out : Result SniperError (VerificationOutcome × ℕ) × SniperRun W)
        → LoopEnds persist left (suc attempts) mid out
        → LoopEnds persist (suc left) attempts run out
    unfolding LoopEnds
    LoopEnds-retry persist left attempts outcome run mid retry first (err thrown, after) end = end
    LoopEnds-retry persist left attempts outcome run mid retry first (ok (last, count), after)
          (outcomes, tries, counted, rest) =
        (
          outcome ∷ outcomes,
          Tries-cons left outcome outcomes last retry tries,
          omega arith,
          Adds-chain persist attempts outcome outcomes run mid after first rest,
        )

    -- After a round: the loop ends, or the rest has its end.
    after_round-LoopEnds :
        (persist : Bool) (left attempts : ℕ) (outcome : VerificationOutcome) (run mid : SniperRun W)
        (rest : Effect (SniperRun W) SniperError (VerificationOutcome × ℕ))
        → Adds persist attempts run mid (outcome ∷ [])
        → (1 ≤ left
            → (state : SniperRun W) → LoopEnds persist left (suc attempts) state (rest state))
        → LoopEnds persist
            (suc left)
            attempts
            run
            (after_round deps left (suc attempts) rest outcome mid)
    unfolding LoopEnds
    after_round-LoopEnds persist left attempts outcome run mid rest first more =
        elim (Bool-cases (retry_allowed outcome)) [
          | inr stop ↦ rw stop (outcome ∷ [], (refl, inl stop), omega arith, first)
          | inl retry ↦ elim (Bool-cases (leb 1 left)) [
            | inr last ↦
                rw (retry, last) (outcome ∷ [], (refl, inr (ground arith)), omega arith, first)
            | inl again ↦
                let paused : SniperRun W = record mid {
                  world = deps.sleep deps.config.retry_delay_ms mid.world;
                } in
                let adds : Adds persist attempts run paused (outcome ∷ []) = record {
                  payloads = first.payloads;
                  tried = first.tried;
                  saved_attempts = first.saved_attempts;
                  is_recorded = first.is_recorded;
                  saved = first.saved;
                } in
                rw (retry, again)
                  (LoopEnds-retry persist left attempts outcome run paused retry adds (rest paused)
                    (more (leb→le 1 left again) paused))
          ]
        ]

    pub attempts_from-LoopEnds :
        (parts : AttemptParts W) (left attempts : ℕ) (last : VerificationOutcome)
        (run : SniperRun W)
        → 1 ≤ left
        → LoopEnds parts.persist left attempts run (attempts_from deps parts left attempts last run)
    unfolding attempts_from LoopEnds RoundEnds
    attempts_from-LoopEnds parts zero attempts last run some_left = absurd (omega arith)
    attempts_from-LoopEnds parts (suc left) attempts last run some_left =
        let round = round_of-RoundEnds parts attempts run in
        let rest = attempts_from-LoopEnds parts left (suc attempts) in
        step-cases (LoopEnds parts.persist (suc left) attempts run)
          (λ outcome.
            after_round deps left (suc attempts)
              (attempts_from deps parts left (suc attempts) outcome) outcome)
          (round_of deps parts (suc attempts) run)
          (λ thrown mid e. subst (RoundEnds parts.persist attempts run) e round)
          (λ outcome mid e.
            after_round-LoopEnds parts.persist left attempts outcome run mid
              (attempts_from deps parts left (suc attempts) outcome)
              (subst (RoundEnds parts.persist attempts run) e round)
              (λ some_more state. rest outcome state some_more))

    -- A loop that may make at least one attempt makes at most as many as it may: it goes on exactly
    -- while an outcome may be retried, its result is the last outcome with the number of attempts, it
    -- stores each attempt with its number and status if it is to persist, and none otherwise. It
    -- throws only where it persists.
    pub run_attempts-LoopEnds :
        (parts : AttemptParts W) (run : SniperRun W)
        → 1 ≤ parts.max_attempts
        → LoopEnds parts.persist parts.max_attempts 0 run (run_attempts deps parts run)
    run_attempts-LoopEnds parts run some_left =
        attempts_from-LoopEnds parts parts.max_attempts 0
          (failed_outcome (codes "verification did not complete") false) run some_left
