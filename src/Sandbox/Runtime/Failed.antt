-- ===== src/Sandbox/Runtime/Failed.antt =====
-- How `fail` and `create` of runtime-sandbox.service.ts end.
use autoforge.Common.Effect.{continue_with, return, modify, throw}
use autoforge.Common.{◌≡◌, ◌⊎◌, if◌then◌else◌, refl, inl, inr, true, none, some, Bool-cases}
use autoforge.Sandbox.Runtime.{
  RuntimePorts, RuntimeOptions, Text, save_sandbox, Fault, Runtime, RuntimeSandbox, get,
  failed_status, err, tell, deregister, ready_status, RuntimeRequest, seed_runtime_sandbox,
  lifetime, provisioning_failed_event,
}
use autoforge.Sandbox.Runtime.Provision.{Durations}
use autoforge.Common.Texts.{Text, text_eq}
use autoforge.Sandbox.{Fault, creation_fault}
use autoforge.Sandbox.Runtime.Service.{
  fail, patch_or, collect_failure_logs, cleanup, saved_or, Creation,
}
use autoforge.Sandbox.Runtime.Calm.{OfTables, tell-Calm, collect_failure_logs-Calm, cleanup-Calm}
use autoforge.Common.Triple.{Post, Triple, bind-Triple}
use autoforge.Sandbox.Runtime.Faults.{is_runtime_error, classify_stage, reason_of}
use autoforge.Common.JsMap.{get-set_at, get-remove_at, get, is_some, set}
use autoforge.Common.Result.{err, Result, ok}
use autoforge.Sandbox.Runtime.Creation.{create_body}

module _ {W : Type 0} (ports : RuntimePorts W) (options : RuntimeOptions)
    (durations : Durations) where
  -- The row of a sandbox says FAILED, with a stage and a reason, or the database, as it was when the
  -- creation broke off, refused the query that saves such a row.
  unfoldable pub RowFailed : W → Text → Runtime W → Type 0
  RowFailed broke id m =
      ((r : RuntimeSandbox) × (get m.rows id ≡ some r)
        × (r.status ≡ failed_status)
        × (is_some r.failure_stage ≡ true)
        × (is_some r.failure_reason ≡ true))
      ⊎ ((r : RuntimeSandbox) × (thrown : Fault) × (r.id ≡ id)
          × (r.status ≡ failed_status)
          × ((ports.save_row r broke).0 ≡ err thrown))

  -- How a failed creation ends: with an error of this service, the sandbox out of the registry, and
  -- its row FAILED or refused. `broke` is the outside world when the creation broke off.
  pub record Failed (broke : W) (id : Text) (error : Fault) (m : Runtime W) : Type 0 where
    pub is_typed : is_runtime_error error ≡ true
    pub is_gone : get m.live id ≡ none
    pub row : RowFailed broke id m

  RowFailed-OfTables : (broke : W) (id : Text) → OfTables (RowFailed broke id)
  unfolding RowFailed
  RowFailed-OfTables broke id = record { transfer = λ m n quiet row. rw quiet.same_rows row }

  patch_or-Row :
      (broke : W) (id : Text) (sandbox updated : RuntimeSandbox) {X : Fault → Runtime W → Type 0}
      → sandbox.id ≡ id
      → updated.id ≡ id
      → updated.status ≡ failed_status
      → is_some updated.failure_stage ≡ true
      → is_some updated.failure_reason ≡ true
      → Triple
          (λ m. m.world ≡ broke)
          (patch_or ports options durations sandbox updated)
          (λ broken m. (broken.id ≡ id) × RowFailed broke id m)
          X
  unfolding save_sandbox Post RowFailed
  patch_or-Row broke id sandbox updated same named is_failed stage reason = record {
    triple =
        λ m at. go m at (ports.save_row updated m.world).0 (ports.save_row updated m.world).1 refl;
  }
    where
      go :
          (m : Runtime W)
          → m.world ≡ broke
          → (answer : Result Fault (Unit {0})) (w : W) → (ports.save_row updated m.world).0 ≡ answer
          → (let out =
                continue_with
                  (λ _. return updated)
                  (continue_with
                    (λ _. modify (λ n. record n { rows = set n.rows updated.id updated }))
                    (answer, record m { world = w })) in
              ((saved_or ports options durations sandbox out.0).id ≡ id) × RowFailed broke id out.1)
      go m at (ok saved) w e = (
        named,
        inl (updated, get-set_at m.rows updated.id id updated named, is_failed, stage, reason),
      )
      go m at (err thrown) w e = (same, inr (updated, thrown, named, is_failed, rw (← at) e))

  typed-error :
      (error : Fault)
      → is_runtime_error (
          if is_runtime_error error
          then error
          else creation_fault (classify_stage error) (reason_of error))
        ≡ true
  typed-error error = elim (Bool-cases (is_runtime_error error)) [
    | inl h ↦ rw h h
    | inr h ↦ rw h refl
  ]

  deregister-Row :
      (broke : W) (id : Text) (broken : RuntimeSandbox) {X : Fault → Runtime W → Type 0}
      → Triple
          (λ m. (broken.id ≡ id) × RowFailed broke id m)
          (deregister broken.id)
          (λ _ m. (get m.live id ≡ none) × RowFailed broke id m)
          X
  unfolding RowFailed Post
  deregister-Row broke id broken = record {
    triple = λ m (named, row). (get-remove_at m.live broken.id id named, row);
  }

  throw-Failed :
      (broke : W) (id : Text) (error : Fault)
      → is_runtime_error error ≡ true
      → Triple
          (λ m. (get m.live id ≡ none) × RowFailed broke id m)
          (throw {A = RuntimeSandbox} error)
          (λ _ _. ⊥)
          (Failed broke id)
  unfolding Post
  throw-Failed broke id error typed = record {
    triple = λ m (gone, row). record { is_typed = typed; is_gone = gone; row = row };
  }

  tables-Row :
      (broke : W) (id : Text) (broken : RuntimeSandbox)
      → OfTables (λ m. (broken.id ≡ id) × RowFailed broke id m)
  tables-Row broke id broken = record {
    transfer =
        λ m n quiet (named, row). (named, (RowFailed-OfTables broke id).transfer m n quiet row);
  }

  pub fail-Failed :
      (broke : W) (id : Text) (sandbox : RuntimeSandbox) (error : Fault)
      → sandbox.id ≡ id
      → Triple
          (λ m. m.world ≡ broke)
          (fail ports options durations sandbox error)
          (λ _ _. ⊥)
          (Failed broke id)
  unfolding fail
  fail-Failed broke id sandbox error same =
      bind-Triple (λ broken m. (broken.id ≡ id) × RowFailed broke id m)
        (patch_or ports options durations sandbox _) _
        (patch_or-Row broke id sandbox
          (record sandbox {
            status = failed_status;
            failure_stage = some (classify_stage error);
            failure_reason = some (reason_of error);
          })
          same same refl refl refl)
        λ broken.
          bind-Triple (λ _ m. (broken.id ≡ id) × RowFailed broke id m)
            (tell (
              ports.publish (
                provisioning_failed_event broken.scan_id broken.sandbox_id (reason_of error)
                  (classify_stage error))))
            _ (tell-Calm _ (tables-Row broke id broken))
            λ _.
              bind-Triple (λ _ m. (broken.id ≡ id) × RowFailed broke id m)
                (collect_failure_logs ports options durations broken) _
                (collect_failure_logs-Calm ports options durations broken
                  (tables-Row broke id broken))
                λ _.
                  bind-Triple (λ _ m. (broken.id ≡ id) × RowFailed broke id m)
                    (cleanup ports options durations broken) _
                    (cleanup-Calm ports options durations broken (tables-Row broke id broken))
                    λ _.
                      bind-Triple (λ _ m. (get m.live id ≡ none) × RowFailed broke id m)
                        (deregister broken.id) _ (deregister-Row broke id broken)
                        λ _. throw-Failed broke id _ (typed-error error)

  -- How a creation that comes to be READY ends: the sandbox that is returned is of the id that was
  -- made for it, its row says READY, and it is in the registry.
  unfoldable pub IsServed : Text → RuntimeSandbox → Runtime W → Type 0
  IsServed id s m =
      (s.id ≡ id)
      × (s.status ≡ ready_status)
      × (get m.rows id ≡ some s)
      × (is_some (get m.live id) ≡ true)

  -- Where the body of `create` ends, in `create_admitted`.
  unfoldable pub ended : Text → Text → RuntimeRequest → Runtime W → Creation W
  ended id_uuid image_uuid input m =
      (create_body ports options durations image_uuid input (record {
        runtime = m;
        sandbox = seed_runtime_sandbox id_uuid input (lifetime options input.max_age_ms) m.clock;
      })).1
