-- ===== src/Sniper/DryRun.antt =====
-- A run of sniper-run.ts that is not to persist, as the Critic asks for: `persist: false`.
use autoforge.Common.Effect.{◌>>=◌, catch_from, continue_with, Effect, return}
use autoforge.Common.{
  ◌≡◌, ◌⊎◌, ◌++◌, ℕ, refl, inl, false, Option, List, length, ◌∙◌, ◌∷◌, ap, subst, inr, true, [],
  map, append-nil, arith, ◌==◌, sym, none, some,
}
use autoforge.Sniper.{
  SniperRunDeps, Text, RunSniperInput, SniperRun, TargetRunOutcome, Result, PlannedTargetSnapshot,
  not_tested, VerificationOutcome, SniperError, CorrelatedFinding, VulnerabilityType,
  VulnerabilityVerifier, SaveExploitPayload, SaveAttemptPayload, clock, message_of,
  target_not_found, authentication_unavailable, type_text,
}
use autoforge.Common.Texts.{Text, text_eq}
use autoforge.Sniper.Origin.{Url, or_throw, require, resolve_same_origin_endpoint}
use autoforge.Sniper.Records.{
  is_persisted, in_memory_poc, label_of, seed_payload, selected_event, unsupported_reason,
}
use autoforge.Common.Result.{Result, ok, err}
use autoforge.Sniper.Target.{
  refusal_record, max_attempts_of, attack, settle_verdict, parts_of, choose, body_of, run_target,
  store, refuse, check_target, may_authenticate, mismatch, pick_candidate_vulnerability,
  verify_target,
}
use autoforge.Sniper.Tries.{Tries, LoopEnds, record_of, run_attempts-LoopEnds, recorded}
use autoforge.Sniper.Peel.{step-cases, lift-cases, passed-cases}
use autoforge.Sniper.Attempts.{run_attempts}

no_payloads : (payloads : List SaveAttemptPayload) → map record_of payloads ≡ [] → payloads ≡ []
no_payloads [] h = refl
no_payloads (payload ∷ payloads) h = cc

module _ {W : Type 0} (deps : SniperRunDeps W) (parse_url : Text → Option Url → Option Url)
    (input : RunSniperInput) where
  -- The repository is not written.
  abbrev pub Unwritten : SniperRun W → SniperRun W → Type 0
  Unwritten run after = (after.saved ≡ run.saved) × (after.saved_attempts ≡ run.saved_attempts)

  -- A refusal: nothing has been tried.
  abbrev pub Refused : SniperRun W → TargetRunOutcome → SniperRun W → Type 0
  Refused run result after = (after.tried ≡ run.tried) × (result.exploit.status ≡ not_tested)

  -- A verdict: that of the last of the attempts.
  abbrev pub Judged : SniperRun W → TargetRunOutcome → SniperRun W → Type 0
  Judged run result after =
      (outcomes : List VerificationOutcome) × (last : VerificationOutcome) × (after.tried
        ≡ run.tried ++ outcomes)
      × Tries (max_attempts_of deps input) outcomes last
      × (result.exploit.status ≡ last.status)
      × (result.exploit.attacks ≡ length outcomes)

  unfoldable pub DryEnds : SniperRun W → Result SniperError TargetRunOutcome × SniperRun W → Type 0
  DryEnds run (ok result, after) =
      Unwritten run after × (Refused run result after ⊎ Judged run result after)
  DryEnds run (err thrown, after) = ⊥

  -- Within the `try` an error may be thrown, before anything is tried.
  unfoldable BodyEnds : SniperRun W → Result SniperError TargetRunOutcome × SniperRun W → Type 0
  BodyEnds run (ok result, after) = DryEnds run (ok result, after)
  BodyEnds run (err thrown, after) = Unwritten run after × (after.tried ≡ run.tried)

  -- The same of a pending result: what it comes to, or what is thrown before.
  unfoldable PendingEnds :
      SniperRun W
      → Result SniperError (Effect (SniperRun W) SniperError TargetRunOutcome) × SniperRun W
      → Type 0
  PendingEnds run (ok pending, after) = DryEnds run (pending after)
  PendingEnds run (err thrown, after) = Unwritten run after × (after.tried ≡ run.tried)

  module _ (target_id : Text) (dry : is_persisted input ≡ false) where
    refusal-DryEnds :
        (run mid : SniperRun W) (started : ℕ) (label reason : Text)
        (findings : List CorrelatedFinding) (planned : Option PlannedTargetSnapshot)
        → Unwritten run mid
        → mid.tried ≡ run.tried
        → DryEnds run
            (refusal_record deps input target_id started label reason findings planned mid)
    unfolding DryEnds refusal_record
    refusal-DryEnds run mid started label reason findings planned unwritten same =
        rw dry (unwritten, inl (same, refl))

    settle_verdict-BodyEnds :
        (run mid : SniperRun W) (seed : SaveExploitPayload) (final : VerificationOutcome × ℕ)
        (outcomes : List VerificationOutcome)
        → Unwritten run mid
        → mid.tried ≡ run.tried ++ outcomes
        → Tries (max_attempts_of deps input) outcomes final.0
        → final.1 ≡ length outcomes
        → BodyEnds run (settle_verdict deps input target_id seed final mid)
    unfolding BodyEnds DryEnds
    settle_verdict-BodyEnds run mid seed (last, attempts) outcomes unwritten tried tries count =
        rw dry (unwritten, inr (outcomes, last, tried, tries, refl, count))

    attack-BodyEnds :
        (run mid : SniperRun W) (planned : PlannedTargetSnapshot) (url : Text)
        (type : VulnerabilityType) (verifier : VulnerabilityVerifier W)
        (findings : List CorrelatedFinding) (seed : SaveExploitPayload)
        → Unwritten run mid
        → mid.tried ≡ run.tried
        → BodyEnds run (attack deps input planned target_id url type verifier findings seed mid)
    unfolding LoopEnds
    attack-BodyEnds run mid planned url type verifier findings seed unwritten same =
        let parts =
          parts_of deps input planned target_id url type verifier findings
            (in_memory_poc seed verifier.id).id in
        let ends = run_attempts-LoopEnds deps parts mid (omega arith) in
        let tried =
          step-cases (BodyEnds run) (settle_verdict deps input target_id seed)
            (run_attempts deps parts mid)
            (λ thrown after e.
              let persisted : is_persisted input ≡ true =
                subst (LoopEnds (is_persisted input) (max_attempts_of deps input) 0 mid) e ends in
              absurd (cc (dry, persisted)))
            (λ final after e.
              let (outcomes, tries, count, adds) =
                subst (LoopEnds (is_persisted input) (max_attempts_of deps input) 0 mid) e ends in
              let none_recorded : map record_of adds.payloads ≡ [] =
                adds.is_recorded ∙ ap (λ b. recorded b 0 outcomes) dry in
              settle_verdict-BodyEnds run after seed final outcomes
                (
                  adds.saved ∙ unwritten.0,
                  adds.saved_attempts
                      ∙ ap (λ ps. mid.saved_attempts ++ ps)
                          (no_payloads adds.payloads none_recorded)
                      ∙ append-nil mid.saved_attempts
                      ∙ unwritten.1,
                )
                (adds.tried ∙ ap (λ os. os ++ outcomes) same) tries (count ∙ omega arith)) in
        let stored : store deps (is_persisted input) seed verifier.id mid
            ≡ (ok (in_memory_poc seed verifier.id), mid) =
          ap (λ b. store deps b seed verifier.id mid) dry in
        subst
          (λ out. BodyEnds run (
            continue_with
              (λ reserved.
                run_attempts deps
                  (parts_of deps input planned target_id url type verifier findings reserved.id)
                >>= settle_verdict deps input target_id seed)
              out))
          (sym stored) tried

    verify_target-BodyEnds :
        (run mid : SniperRun W) (started : ℕ) (url : Text) (findings : List CorrelatedFinding)
        (type : VulnerabilityType) (planned : PlannedTargetSnapshot)
        (verifier : VulnerabilityVerifier W)
        → Unwritten run mid
        → mid.tried ≡ run.tried
        → BodyEnds run
            (verify_target deps input planned target_id started url type verifier findings mid)
    unfolding BodyEnds
    verify_target-BodyEnds run mid started url findings type planned verifier unwritten same =
        lift-cases (BodyEnds run)
          (λ _. clock deps >>= λ completed_at.
            attack deps input planned target_id url type verifier findings (
              seed_payload input planned target_id started findings type url verifier.tool
                completed_at))
          (require (may_authenticate deps input planned) (authentication_unavailable target_id))
          (record mid { published = mid.published ++ selected_event target_id type ∷ [] })
          (λ thrown e. (unwritten, same))
          (λ passed e.
            attack-BodyEnds run
              (record mid { published = mid.published ++ selected_event target_id type ∷ [] })
              planned url type verifier findings
              (seed_payload input planned target_id started findings type url verifier.tool
                (deps.now mid.world))
              unwritten same)

    choose-PendingEnds :
        (run mid : SniperRun W) (started : ℕ) (url : Text) (findings : List CorrelatedFinding)
        (label : Text) (type : VulnerabilityType) (planned : PlannedTargetSnapshot)
        (picked : Option (VulnerabilityVerifier W))
        → Unwritten run mid
        → mid.tried ≡ run.tried
        → PendingEnds run
            (choose deps input planned target_id started url findings label type picked mid)
    unfolding PendingEnds BodyEnds
    choose-PendingEnds run mid started url findings label type planned none unwritten same =
        refusal-DryEnds run mid started (type_text type) (unsupported_reason type label) findings
          (some planned) unwritten same
    choose-PendingEnds run mid started url findings label type planned (some verifier) unwritten
          same =
        let verified =
          verify_target-BodyEnds run mid started url findings type planned verifier unwritten
            same in
        step-cases (PendingEnds run) (λ result. return (return result))
          (verify_target deps input planned target_id started url type verifier findings mid)
          (λ thrown after e. subst (BodyEnds run) e verified)
          (λ result after e. subst (BodyEnds run) e verified)

    body_of-PendingEnds :
        (run mid : SniperRun W) (started : ℕ) (findings : List CorrelatedFinding)
        → Unwritten run mid
        → mid.tried ≡ run.tried
        → PendingEnds run (body_of deps parse_url input target_id started findings mid)
    unfolding PendingEnds
    body_of-PendingEnds run mid started findings unwritten same =
        passed-cases (PendingEnds run) _ (deps.load_planned_target target_id) mid
          (λ thrown world e. (unwritten, same))
          (λ loaded world e.
            let now : SniperRun W = record mid { world = world; planned = loaded } in
            lift-cases (PendingEnds run)
              (λ planned. check_target deps parse_url input target_id started findings planned)
              (or_throw (target_not_found target_id) loaded) now (λ thrown e. (unwritten, same))
              (λ planned found.
                lift-cases (PendingEnds run) _
                  (require (planned.scan_id == input.scan_id)
                    (mismatch deps parse_url input target_id planned))
                  now (λ thrown e. (unwritten, same))
                  (λ passed of_scan.
                    lift-cases (PendingEnds run) _
                      (resolve_same_origin_endpoint parse_url planned.endpoint input.base_url) now
                      (λ thrown e. (unwritten, same))
                      (λ resolved is_resolved.
                        let picked =
                          pick_candidate_vulnerability deps planned.candidate_vulnerabilities in
                        choose-PendingEnds run now started resolved.url findings picked.label
                          picked.type planned picked.verifier unwritten same))))

    refuse-PendingEnds :
        (run : SniperRun W) (started : ℕ) (findings : List CorrelatedFinding)
        (out : Result SniperError (Effect (SniperRun W) SniperError TargetRunOutcome) × SniperRun W)
        → PendingEnds run out
        → DryEnds run (
            continue_with
              (λ pending. pending)
              (catch_from (refuse deps parse_url input target_id started findings) out))
    unfolding PendingEnds
    refuse-PendingEnds run started findings (ok pending, after) given = given
    refuse-PendingEnds run started findings (err thrown, after) (unwritten, same) =
        refusal-DryEnds run after started (label_of after.planned) (message_of thrown) findings none
          unwritten same

    -- A run that is not to persist never throws and leaves the repository as it was, whatever its
    -- collaborators answer and throw: it is refused as NOT_TESTED with no verifier called, or its
    -- status is that of the last of its attempts, which are as many as it reports.
    pub run_target-DryEnds :
        (findings : List CorrelatedFinding) (run : SniperRun W)
        → DryEnds run (run_target deps parse_url input target_id findings run)
    unfolding run_target
    run_target-DryEnds findings run =
        let started = deps.now run.world in
        let mid : SniperRun W = record run { planned = none } in
        refuse-PendingEnds run started findings
          (body_of deps parse_url input target_id started findings mid)
          (body_of-PendingEnds run mid started findings (refl, refl) refl)
