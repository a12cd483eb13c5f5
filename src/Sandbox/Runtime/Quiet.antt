-- ===== src/Sandbox/Runtime/Quiet.antt =====
-- The steps of the runtime sandboxes that leave the rows and the registry alone.
use autoforge.Sandbox.Runtime.{
  call, Runtime, Result, RuntimePorts, Fault, tell, RuntimeOptions, tried, ProvisionRequest,
  RuntimeSandbox, HealthProbe, truthy, truthy_number, validate_ownership, RuntimeRequest,
  check_relation, Served,
}
use autoforge.Common.{
  ◌≡◌, ◌∙◌, ℕ, zero, suc, refl, ltb, Bool, true, false, Option, none, some, ◌+◌, ◌-◌, ◌&&◌,
  if◌then◌else◌, min,
}
use autoforge.Common.Effect.{
  IsPreorder, Keeps, bind-Keeps, reads, return-Keeps, reads-Keeps, if-Keeps, option-Keeps,
  throw-Keeps, return,
}
use autoforge.Common.Result.{Result}
use autoforge.Sandbox.{Fault, Text}
use autoforge.Sandbox.Runtime.Provision.{
  provision_container, health_probe, probe_from, Durations, probe_target, inspect_running, info_ip,
  exit_detail, ip_or, contact_of, probe_with_retries, probe_round,
}
use autoforge.Common.Texts.{Text}
use autoforge.Sandbox.Runtime.Service.{guarded, cleanup, collect_failure_logs}
use autoforge.Common.JsMap.{is_some}
use mathlib.Core.Option

module _ {W : Type 0} where
  -- The rows and the registry are as they were.
  pub record Quiet (before after : Runtime W) : Type 0 where
    pub same_rows : after.rows ≡ before.rows
    pub same_live : after.live ≡ before.live

  pub Quiet-order : IsPreorder Quiet
  Quiet-order = record {
    same = λ m. record { same_rows = refl; same_live = refl };
    chain = λ s t u first second. record {
      same_rows = second.same_rows ∙ first.same_rows;
      same_live = second.same_live ∙ first.same_live;
    };
  }

  pub call-Quiet : {A : Type 0} (operation : W → Result Fault A × W) → Keeps Quiet (call operation)
  call-Quiet operation = record { keeps = λ m. record { same_rows = refl; same_live = refl } }

  pub tried-Quiet :
      {A : Type 0} (operation : W → Result Fault A × W) → Keeps Quiet (tried operation)
  tried-Quiet operation = record { keeps = λ m. record { same_rows = refl; same_live = refl } }

  pub tell-Quiet : (operation : W → W) → Keeps Quiet (tell operation)
  tell-Quiet operation = record { keeps = λ m. record { same_rows = refl; same_live = refl } }

module _ {W : Type 0} (ports : RuntimePorts W) (options : RuntimeOptions) where
  pub provision_container-Quiet :
      (request : ProvisionRequest) → Keeps Quiet (provision_container ports options request)
  unfolding provision_container
  provision_container-Quiet request =
      bind-Keeps Quiet-order (call (ports.create_sandbox request)) _ (call-Quiet _) λ created.
        bind-Keeps Quiet-order (call (ports.wait_until_ready created.id options.start_timeout_ms)) _
          (call-Quiet _)
          λ _.
            bind-Keeps Quiet-order
              (tried (ports.inspect (Option.get_or created.container_id created.id))) _
              (tried-Quiet _)
              λ info.
                reads-Keeps Quiet-order (λ _.
                  contact_of request created (truthy (ip_or (info_ip info) created.ip_address)))

  pub health_probe-Quiet :
      (sandbox : RuntimeSandbox) (path : Text) (timeout_ms : ℕ)
      → Keeps Quiet (health_probe ports options sandbox path timeout_ms)
  unfolding health_probe
  health_probe-Quiet sandbox path timeout_ms =
      bind-Keeps Quiet-order (reads (λ _. probe_target sandbox)) _ (reads-Keeps Quiet-order _)
        λ target.
          option-Keeps (truthy_number sandbox.exposed_port) _ _
            (option-Keeps (truthy sandbox.network_id) _ _ (throw-Keeps Quiet-order _)
              (λ network. call-Quiet _))
            (λ exposed. call-Quiet _)

  inspect_running-Quiet :
      (sandbox : RuntimeSandbox) → Keeps Quiet (inspect_running ports options sandbox)
  inspect_running-Quiet sandbox =
      option-Keeps (truthy sandbox.sandbox_id) _ _ (return-Keeps Quiet-order _) (λ id.
        bind-Keeps Quiet-order (tried (ports.inspect id)) _ (tried-Quiet _)
          (λ info. return-Keeps Quiet-order (exit_detail info)))

  probe_round-Quiet :
      (sandbox : RuntimeSandbox) (path : Text) (inspected probed : ℕ)
      (next : HealthProbe → Served W (HealthProbe × ℕ))
      → ((probe : HealthProbe) → Keeps Quiet (next probe))
      → Keeps Quiet (probe_round ports options sandbox path inspected probed next)
  probe_round-Quiet sandbox path inspected probed next keep =
      bind-Keeps Quiet-order (inspect_running ports options sandbox) _
        (inspect_running-Quiet sandbox)
        λ detail.
          option-Keeps detail _ _
            (bind-Keeps Quiet-order (health_probe ports options sandbox path _) _
              (health_probe-Quiet sandbox path _)
              λ probe. if-Keeps _ _ _ (return-Keeps Quiet-order _) (keep probe))
            (λ text. return-Keeps Quiet-order _)

  pub probe_from-Quiet :
      (durations : Durations) (sandbox : RuntimeSandbox) (path : Text) (fuel round now : ℕ)
      (last : HealthProbe)
      → Keeps Quiet (probe_from ports options durations sandbox path fuel round now last)
  unfolding probe_from
  probe_from-Quiet durations sandbox path zero round now last = return-Keeps Quiet-order _
  probe_from-Quiet durations sandbox path (suc fuel) round now last =
      let total = options.health_timeout_ms in
      let inspected : ℕ = now + durations.inspect_ms round in
      let probed : ℕ = inspected + durations.probe_ms round in
      let pause : ℕ = min 1000 (total - probed) in
      if-Keeps (ltb now total) _ _
        (probe_round-Quiet sandbox path inspected probed _ (
          next-Quiet (ltb 0 pause && ltb (probed + pause) total)
            (probe_from ports options durations sandbox path fuel (suc round) (probed + pause))
            (λ probe. return (probe, probed))
            (probe_from-Quiet durations sandbox path fuel (suc round) (probed + pause))
            (λ probe. return-Keeps Quiet-order _)))
        (return-Keeps Quiet-order _)
    where
      next-Quiet :
          (more : Bool) (first second : HealthProbe → Served W (HealthProbe × ℕ))
          → ((probe : HealthProbe) → Keeps (Quiet {W = W}) (first probe))
          → ((probe : HealthProbe) → Keeps (Quiet {W = W}) (second probe))
          → (probe : HealthProbe) → Keeps (Quiet {W = W}) ((if more then first else second) probe)
      next-Quiet true first second keep other = keep
      next-Quiet false first second keep other = other

  pub probe_with_retries-Quiet :
      (durations : Durations) (sandbox : RuntimeSandbox) (path : Text)
      → Keeps Quiet (probe_with_retries ports options durations sandbox path)
  unfolding probe_with_retries
  probe_with_retries-Quiet durations sandbox path = probe_from-Quiet durations sandbox path _ 0 0 _

module _ {W : Type 0} (ports : RuntimePorts W) (options : RuntimeOptions)
    (durations : Durations) where
  guarded-Quiet :
      (name : Option Text) (operation : Text → W → Result Fault (Unit {0}) × W)
      → Keeps Quiet (guarded name operation)
  guarded-Quiet none operation = return-Keeps Quiet-order false
  guarded-Quiet (some name) operation =
      bind-Keeps Quiet-order (tried (operation name)) _ (tried-Quiet _)
        λ done. return-Keeps Quiet-order (is_some done)

  pub cleanup-Quiet :
      (sandbox : RuntimeSandbox) → Keeps Quiet (cleanup ports options durations sandbox)
  unfolding cleanup
  cleanup-Quiet sandbox =
      bind-Keeps Quiet-order (guarded (truthy sandbox.sandbox_id) ports.destroy_sandbox) _
        (guarded-Quiet _ _)
        λ container.
          bind-Keeps Quiet-order (guarded (truthy sandbox.image_id) ports.remove_image) _
            (guarded-Quiet _ _)
            λ image.
              bind-Keeps Quiet-order
                (guarded (truthy sandbox.workspace_path) ports.cleanup_workspace) _
                (guarded-Quiet _ _)
                λ workspace. return-Keeps Quiet-order (record {
                  image_removed = image;
                  container_removed = container;
                  workspace_removed = workspace;
                })

  pub collect_failure_logs-Quiet :
      (sandbox : RuntimeSandbox)
      → Keeps Quiet (collect_failure_logs ports options durations sandbox)
  collect_failure_logs-Quiet sandbox =
      option-Keeps (truthy sandbox.sandbox_id) _ _ (return-Keeps Quiet-order tt)
        (λ id. tell-Quiet (ports.collect_logs id 50))

  related-Quiet :
      (input : RuntimeRequest) (relation : Option Bool)
      → Keeps Quiet (check_relation {W = W} input relation)
  related-Quiet input none = return-Keeps Quiet-order tt
  related-Quiet input (some true) = return-Keeps Quiet-order tt
  related-Quiet input (some false) = throw-Keeps Quiet-order _

  pub validate_ownership-Quiet :
      (input : RuntimeRequest) → Keeps Quiet (validate_ownership ports input)
  unfolding validate_ownership
  validate_ownership-Quiet input =
      bind-Keeps Quiet-order (call (ports.scan_exists input.scan_id)) _ (call-Quiet _) λ is_known.
        bind-Keeps Quiet-order _ _
          (if-Keeps is_known _ _ (return-Keeps Quiet-order tt) (throw-Keeps Quiet-order _))
          λ _.
            bind-Keeps Quiet-order
              (call (ports.scan_repository_relation input.scan_id input.repository)) _
              (call-Quiet _) λ relation. related-Quiet input relation
