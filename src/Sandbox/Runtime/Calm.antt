-- ===== src/Sandbox/Runtime/Calm.antt =====
-- The steps of runtime-sandbox.service.ts that never throw and leave the rows and the registry alone:
-- what holds of those holds after the step.
use autoforge.Sandbox.Runtime.{
  Runtime, RuntimePorts, Fault, RuntimeOptions, Result, tell, tried, RuntimeSandbox, truthy, return,
}
use autoforge.Common.{refl, false, Option, none, some}
use autoforge.Common.Triple.{Post, Triple, modify-Triple, return-Triple, bind-Triple}
use autoforge.Sandbox.Runtime.Quiet.{Quiet}
use autoforge.Sandbox.{Fault, Text}
use autoforge.Common.Result.{Result}
use autoforge.Common.Texts.{Text}
use autoforge.Sandbox.Runtime.Provision.{Durations}
use autoforge.Sandbox.Runtime.Service.{guarded, cleanup, collect_failure_logs}
use autoforge.Common.JsMap.{is_some}
use autoforge.Common.Effect.{return}

module _ {W : Type 0} where
  -- A condition on the rows and the registry alone.
  pub record OfTables (C : Runtime W → Type 0) : Type 0 where
    pub transfer : (m n : Runtime W) → Quiet m n → C m → C n

  quiet : (m : Runtime W) (w : W) → Quiet m (record m { world = w })
  quiet m w = record { same_rows = refl; same_live = refl }

  pub tell-Calm :
      {C : Runtime W → Type 0} {X : Fault → Runtime W → Type 0} (operation : W → W)
      → OfTables C
      → Triple C (tell operation) (λ _. C) X
  tell-Calm operation tables =
      modify-Triple _ _ (λ m c. tables.transfer m _ (quiet m (operation m.world)) c)

  tried-Calm :
      {A : Type 0} {C : Runtime W → Type 0} {X : Fault → Runtime W → Type 0}
      (operation : W → Result Fault A × W)
      → OfTables C
      → Triple C (tried operation) (λ _. C) X
  unfolding Post
  tried-Calm operation tables = record {
    triple = λ m c. tables.transfer m _ (quiet m (operation m.world).1) c;
  }

  guarded-Calm :
      {C : Runtime W → Type 0} {X : Fault → Runtime W → Type 0} (name : Option Text)
      (operation : Text → W → Result Fault (Unit {0}) × W)
      → OfTables C
      → Triple C (guarded name operation) (λ _. C) X
  guarded-Calm {C = C} none operation tables = return-Triple (λ _. C) false
  guarded-Calm {C = C} (some name) operation tables =
      bind-Triple (λ _. C) (tried (operation name)) _ (tried-Calm (operation name) tables)
        λ done. return-Triple (λ _. C) (is_some done)

module _ {W : Type 0} (ports : RuntimePorts W) (options : RuntimeOptions)
    (durations : Durations) where
  pub cleanup-Calm :
      {C : Runtime W → Type 0} {X : Fault → Runtime W → Type 0} (sandbox : RuntimeSandbox)
      → OfTables C
      → Triple C (cleanup ports options durations sandbox) (λ _. C) X
  unfolding cleanup
  cleanup-Calm {C = C} sandbox tables =
      bind-Triple (λ _. C) (guarded (truthy sandbox.sandbox_id) ports.destroy_sandbox) _
        (guarded-Calm _ _ tables)
        λ container.
          bind-Triple (λ _. C) (guarded (truthy sandbox.image_id) ports.remove_image) _
            (guarded-Calm _ _ tables)
            λ image.
              bind-Triple (λ _. C) (guarded (truthy sandbox.workspace_path) ports.cleanup_workspace)
                _ (guarded-Calm _ _ tables) λ workspace. return-Triple (λ _. C) _

  pub collect_failure_logs-Calm :
      {C : Runtime W → Type 0} {X : Fault → Runtime W → Type 0} (sandbox : RuntimeSandbox)
      → OfTables C
      → Triple C (collect_failure_logs ports options durations sandbox) (λ _. C) X
  collect_failure_logs-Calm {C = C} sandbox tables = go (truthy sandbox.sandbox_id)
    where
      go :
          {X : Fault → Runtime W → Type 0} (id : Option Text)
          → Triple C
              (elim id [ none ↦ return tt | some i ↦ tell (ports.collect_logs i 50) ])
              (λ _. C)
              X
      go none = return-Triple (λ _. C) tt
      go (some i) = tell-Calm (ports.collect_logs i 50) tables
