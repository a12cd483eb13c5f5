-- ===== src/Sniper/Admission.antt =====
-- What a target has passed in sniper-run.ts before a verifier is called.
use autoforge.Common.{
  ◌≡◌, ◌⊎◌, ℕ, true, Option, some, List, ◌∙◌, refl, inl, Bool, false, none, ◌∷◌, ◌++◌, ◌==◌, inr,
  [], ==_iff, subst,
}
use autoforge.Sniper.{
  SniperRunDeps, Text, RunSniperInput, PlannedTargetSnapshot, SniperRun, Result, CorrelatedFinding,
  VulnerabilityVerifier, SniperError, TargetRunOutcome, SaveExploitPayload, VulnerabilityType,
  clock, type_text, emit_event, target_not_found, authentication_unavailable, message_of,
}
use autoforge.Common.Texts.{Text, codes, text_eq}
use autoforge.Sniper.Origin.{
  Url, ResolvedTargetEndpoint, resolve_same_origin_endpoint, require, or_throw,
}
use autoforge.Sniper.Target.{
  refusal_record, pick_candidate_vulnerability, may_authenticate, body_of, store, choose,
  check_target, run_target, attack, refuse, mismatch, verify_target,
}
use autoforge.Common.Result.{Result, ok, err}
use autoforge.Common.Effect.{
  IsPreorder, Keeps, bind-Keeps, ◌>>=◌, return, catch_from, Effect, continue_with,
}
use autoforge.Sniper.Peel.{step-cases, passed-cases, lift-cases, or_throw-ok, require-ok}
use autoforge.Sniper.Records.{
  is_persisted, unsupported_reason, refusal_payload, not_tested_event, seed_payload, label_of,
  selected_event,
}

-- A step that calls no verifier.
abbrev pub SameTried : {W : Type 0} → SniperRun W → SniperRun W → Type 0
SameTried before after = after.tried ≡ before.tried

module _ {W : Type 0} where
  tried-IsPreorder : IsPreorder {S = SniperRun W} SameTried
  tried-IsPreorder = record { same = λ s. refl; chain = λ s t u e f. f ∙ e }

  module _ (deps : SniperRunDeps W) where
    store-SameTried :
        (persist : Bool) (payload : SaveExploitPayload) (verifier : Text)
        → Keeps SameTried (store deps persist payload verifier)
    store-SameTried true payload verifier = record { keeps = λ run. refl }
    store-SameTried false payload verifier = record { keeps = λ run. refl }

    refusal_record-SameTried :
        (input : RunSniperInput) (target_id : Text) (started : ℕ) (label reason : Text)
        (findings : List CorrelatedFinding) (planned : Option PlannedTargetSnapshot)
        → Keeps SameTried
            (refusal_record deps input target_id started label reason findings planned)
    unfolding refusal_record
    refusal_record-SameTried input target_id started label reason findings planned =
        bind-Keeps tried-IsPreorder (clock deps) _ (record { keeps = λ run. refl })
          (λ completed_at.
            bind-Keeps tried-IsPreorder
              (store deps (is_persisted input)
                (refusal_payload input target_id started label reason findings planned completed_at)
                (codes "-"))
              (λ poc. emit_event (not_tested_event target_id reason) >>= λ _.
                return (record { target_id = target_id; exploit = poc }))
              (store-SameTried (is_persisted input) _ (codes "-"))
              (λ poc. record { keeps = λ run. refl }))

module _ {W : Type 0} (deps : SniperRunDeps W) (parse_url : Text → Option Url → Option Url)
    (input : RunSniperInput) (target_id : Text) where
  -- The target is planned for this scan, its endpoint is resolved against the sandbox, a candidate
  -- of it has a verifier, and it asks for no credentials that are not given.
  pub record Admitted (world : W) : Type 0 where
    pub planned : PlannedTargetSnapshot
    pub loaded_world : W
    pub resolved : ResolvedTargetEndpoint
    pub verifier : VulnerabilityVerifier W
    pub is_loaded : deps.load_planned_target target_id world ≡ (ok (some planned), loaded_world)
    pub of_scan : planned.scan_id ≡ input.scan_id
    pub is_resolved :
        resolve_same_origin_endpoint parse_url planned.endpoint input.base_url ≡ ok resolved
    pub is_picked :
        (pick_candidate_vulnerability deps planned.candidate_vulnerabilities).verifier
        ≡ some verifier
    pub may_authenticate : may_authenticate deps input planned ≡ true

  -- No verifier is called on the way, or the target is admitted.
  unfoldable pub Guarded : SniperRun W → Result SniperError TargetRunOutcome × SniperRun W → Type 0
  Guarded run (result, after) = (after.tried ≡ run.tried) ⊎ Admitted run.world

  -- Of the pending result: what it comes to is guarded, or it is thrown.
  unfoldable PendingGuarded :
      SniperRun W
      → Result SniperError (Effect (SniperRun W) SniperError TargetRunOutcome) × SniperRun W
      → Type 0
  PendingGuarded run (ok pending, after) = Guarded run (pending after)
  PendingGuarded run (err thrown, after) = (after.tried ≡ run.tried) ⊎ Admitted run.world

  -- From a state where no verifier has been called.
  refusal-Guarded :
      (run mid : SniperRun W) (started : ℕ) (label reason : Text)
      (findings : List CorrelatedFinding) (planned : Option PlannedTargetSnapshot)
      → mid.tried ≡ run.tried
      → Guarded run (refusal_record deps input target_id started label reason findings planned mid)
  unfolding Guarded
  refusal-Guarded run mid started label reason findings planned same = inl (
      (refusal_record-SameTried deps input target_id started label reason findings planned).keeps
        mid
      ∙ same)

  verify_target-Guarded :
      (run mid : SniperRun W) (started : ℕ) (url : Text) (findings : List CorrelatedFinding)
      (type : VulnerabilityType) (planned : PlannedTargetSnapshot)
      (verifier : VulnerabilityVerifier W)
      → mid.tried ≡ run.tried
      → (may_authenticate deps input planned ≡ true → Admitted run.world)
      → Guarded run
          (verify_target deps input planned target_id started url type verifier findings mid)
  unfolding Guarded
  verify_target-Guarded run mid started url findings type planned verifier same admitted =
      lift-cases (Guarded run)
        (λ _. clock deps >>= λ completed_at.
          attack deps input planned target_id url type verifier findings (
            seed_payload input planned target_id started findings type url verifier.tool
              completed_at))
        (require (may_authenticate deps input planned) (authentication_unavailable target_id))
        (record mid { published = mid.published ++ selected_event target_id type ∷ [] })
        (λ thrown e. inl same) (λ passed e. inr (admitted (require-ok _ _ e)))

  choose-Guarded :
      (run mid : SniperRun W) (started : ℕ) (url : Text) (findings : List CorrelatedFinding)
      (label : Text) (type : VulnerabilityType) (planned : PlannedTargetSnapshot)
      (picked : Option (VulnerabilityVerifier W))
      → mid.tried ≡ run.tried
      → ((verifier : VulnerabilityVerifier W)
          → picked ≡ some verifier
          → may_authenticate deps input planned ≡ true
          → Admitted run.world)
      → PendingGuarded run
          (choose deps input planned target_id started url findings label type picked mid)
  unfolding PendingGuarded Guarded
  choose-Guarded run mid started url findings label type planned none same admitted =
      refusal-Guarded run mid started (type_text type) (unsupported_reason type label) findings
        (some planned) same
  choose-Guarded run mid started url findings label type planned (some verifier) same admitted =
      let verified =
        verify_target-Guarded run mid started url findings type planned verifier same
          (admitted verifier refl) in
      step-cases (PendingGuarded run) (λ result. return (return result))
        (verify_target deps input planned target_id started url type verifier findings mid)
        (λ thrown after e. subst (Guarded run) e verified)
        (λ result after e. subst (Guarded run) e verified)

  check_target-Guarded :
      (run mid : SniperRun W) (started : ℕ) (findings : List CorrelatedFinding)
      (planned : PlannedTargetSnapshot) (loaded_world : W)
      → mid.tried ≡ run.tried
      → deps.load_planned_target target_id run.world ≡ (ok (some planned), loaded_world)
      → PendingGuarded run
          (check_target deps parse_url input target_id started findings planned mid)
  unfolding PendingGuarded
  check_target-Guarded run mid started findings planned loaded_world same loaded =
      lift-cases (PendingGuarded run) _
        (require (planned.scan_id == input.scan_id)
          (mismatch deps parse_url input target_id planned))
        mid (λ thrown e. inl same)
        (λ passed of_scan.
          lift-cases (PendingGuarded run) _
            (resolve_same_origin_endpoint parse_url planned.endpoint input.base_url) mid
            (λ thrown e. inl same)
            (λ resolved is_resolved.
              let picked = pick_candidate_vulnerability deps planned.candidate_vulnerabilities in
              choose-Guarded run mid started resolved.url findings picked.label picked.type planned
                picked.verifier same
                (λ verifier is_picked may. record {
                  planned = planned;
                  loaded_world = loaded_world;
                  resolved = resolved;
                  verifier = verifier;
                  is_loaded = loaded;
                  of_scan = (==_iff planned.scan_id input.scan_id).0 (require-ok _ _ of_scan);
                  is_resolved = is_resolved;
                  is_picked = is_picked;
                  may_authenticate = may;
                })))

  body_of-Guarded :
      (run mid : SniperRun W) (started : ℕ) (findings : List CorrelatedFinding)
      → mid.tried ≡ run.tried
      → mid.world ≡ run.world
      → PendingGuarded run (body_of deps parse_url input target_id started findings mid)
  unfolding PendingGuarded
  body_of-Guarded run mid started findings same world =
      passed-cases (PendingGuarded run) _ (deps.load_planned_target target_id) mid
        (λ thrown loaded_world e. inl same)
        (λ loaded loaded_world e.
          lift-cases (PendingGuarded run)
            (λ planned. check_target deps parse_url input target_id started findings planned)
            (or_throw (target_not_found target_id) loaded)
            (record mid { world = loaded_world; planned = loaded }) (λ thrown e. inl same)
            (λ planned found.
              check_target-Guarded run (record mid { world = loaded_world; planned = loaded })
                started findings planned loaded_world same
                (rw (← world, ← or_throw-ok _ _ found) e)))

  refuse-Guarded :
      (run : SniperRun W) (started : ℕ) (findings : List CorrelatedFinding)
      (out : Result SniperError (Effect (SniperRun W) SniperError TargetRunOutcome) × SniperRun W)
      → PendingGuarded run out
      → PendingGuarded run (catch_from (refuse deps parse_url input target_id started findings) out)
  unfolding PendingGuarded Guarded
  refuse-Guarded run started findings (ok pending, after) given = given
  refuse-Guarded run started findings (err thrown, after) (inr admitted) = inr admitted
  refuse-Guarded run started findings (err thrown, after) (inl same) =
      refusal-Guarded run after started (label_of after.planned) (message_of thrown) findings none
        same

  settle-Guarded :
      (run : SniperRun W)
      (out : Result SniperError (Effect (SniperRun W) SniperError TargetRunOutcome) × SniperRun W)
      → PendingGuarded run out
      → Guarded run (continue_with (λ pending. pending) out)
  unfolding PendingGuarded Guarded
  settle-Guarded run (ok pending, after) given = given
  settle-Guarded run (err thrown, after) given = given

  -- No verifier is called, whatever the collaborators answer and throw, unless the target is
  -- admitted.
  pub run_target-Guarded :
      (findings : List CorrelatedFinding) (run : SniperRun W)
      → Guarded run (run_target deps parse_url input target_id findings run)
  unfolding run_target
  run_target-Guarded findings run =
      let started = deps.now run.world in
      let mid : SniperRun W = record run { planned = none } in
      settle-Guarded run _ (
        refuse-Guarded run started findings
          (body_of deps parse_url input target_id started findings mid)
          (body_of-Guarded run mid started findings refl refl))
