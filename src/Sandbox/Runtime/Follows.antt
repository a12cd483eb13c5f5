-- ===== src/Sandbox/Runtime/Follows.antt =====
-- The body of `create` of runtime-sandbox.service.ts, step by step, for the conditions that its steps
-- keep: one before the sandbox is registered, one after, one when it is READY, one after a throw.
use autoforge.Sandbox.Runtime.{
  call, RuntimePorts, RuntimeOptions, PreparedWorkspace, HealthProbe, ResolvedRuntime, Result,
  RuntimeSandbox, Fault, Text, save_sandbox, RuntimeRequest, register, Served, truthy, ready_status,
  building_status, health_checking_status, tell, ready_event,
}
use autoforge.Common.Effect.{Keeps, reads, bind-Keeps, option-Keeps, return-Keeps, throw-Keeps}
use autoforge.Common.{◌≡◌, ℕ, refl, none, some}
use autoforge.Sandbox.Runtime.Provision.{
  Durations, build_provision_request, provision_container, probe_with_retries,
}
use autoforge.Sandbox.Runtime.Service.{Creation, lift}
use autoforge.Sandbox.Runtime.Creation.{
  throw_unreachable, create_body, with_sandbox, write_dockerfile, patch, image_request,
  image_name_of, contacted,
}
use autoforge.Common.Triple.{Post, Triple, bind-Triple, if-Triple, return-Triple}
use autoforge.Common.Result.{Result, ok, err}
use autoforge.Sandbox.{Fault}
use autoforge.Common.Texts.{Text, codes}
use autoforge.Sandbox.Runtime.Quiet.{
  Quiet, Quiet-order, call-Quiet, tried-Quiet, provision_container-Quiet, probe_with_retries-Quiet,
  tell-Quiet,
}

module _ {W : Type 0} (ports : RuntimePorts W) (options : RuntimeOptions)
    (durations : Durations) where
  pub record Follows (N H R T : Creation W → Type 0) : Type 1 where
    pub saved : Triple N (with_sandbox (save_sandbox ports)) (λ _. N) (λ _. T)
    pub registered : Triple N (with_sandbox register) (λ _. H) (λ _. T)
    pub asked :
        {A : Type 0} (step : RuntimeSandbox → Served W A)
        → ((s : RuntimeSandbox) → Keeps Quiet (step s))
        → Triple H (with_sandbox step) (λ _. H) (λ _. T)
    pub patched :
        (change : RuntimeSandbox → RuntimeSandbox)
        → ((s : RuntimeSandbox) → (change s).id ≡ s.id)
        → Triple H (patch ports options durations change) (λ _. H) (λ _. T)
    pub readied :
        (change : RuntimeSandbox → RuntimeSandbox)
        → ((s : RuntimeSandbox) → (change s).id ≡ s.id)
        → ((s : RuntimeSandbox) → (change s).status ≡ ready_status)
        → Triple H (patch ports options durations change) (λ _. R) (λ _. T)
    pub served :
        {A : Type 0} (step : RuntimeSandbox → Served W A)
        → ((s : RuntimeSandbox) → Keeps Quiet (step s))
        → Triple R (with_sandbox step) (λ _. R) (λ _. T)
    pub weakened : (c : Creation W) → H c → T c

  throw_unreachable-Quiet :
      (probe : HealthProbe) (elapsed : ℕ) (s : RuntimeSandbox)
      → Keeps Quiet (throw_unreachable ports options durations probe elapsed s)
  unfolding throw_unreachable
  throw_unreachable-Quiet probe elapsed s =
      bind-Keeps Quiet-order _ _
        (option-Keeps (truthy s.sandbox_id) _ _ (return-Keeps Quiet-order none)
          (λ id. tried-Quiet (ports.inspect id)))
        λ info. throw-Keeps Quiet-order _

  write_dockerfile-Quiet :
      (prepared : PreparedWorkspace) (resolved : ResolvedRuntime)
      → Keeps Quiet (write_dockerfile ports options durations prepared resolved)
  write_dockerfile-Quiet prepared resolved =
      option-Keeps (truthy resolved.generated_dockerfile) _ _ (return-Keeps Quiet-order tt) (λ text.
        call-Quiet
          (ports.write_file (ports.join_path prepared.repo_path (codes "Dockerfile")) text))

  pub outcome :
      {A : Type 0} (H T : Creation W → Type 0) (answer : Result Fault A) (c : Creation W)
      → H c
      → T c
      → Post (λ _. H) (λ _. T) (answer, c)
  unfolding Post
  outcome H T (ok value) c h t = h
  outcome H T (err thrown) c h t = t

  reads-Follows :
      {A : Type 0} {N H R T : Creation W → Type 0} (get : Creation W → Result Fault A)
      → Follows N H R T
      → Triple H (reads get) (λ _. H) (λ _. T)
  reads-Follows {H = H} {T = T} get follows = record {
    triple = λ c h. outcome H T (get c) c h (follows.weakened c h);
  }

  reads-ready :
      {R T : Creation W → Type 0}
      → Triple R (reads {E = Fault} (λ c. ok c.sandbox)) (λ s c. R c × (c.sandbox ≡ s)) (λ _. T)
  unfolding Post
  reads-ready = record { triple = λ c ready. (ready, refl) }

  pub create_body-Follows :
      {N H R T : Creation W → Type 0} (uuid : Text) (input : RuntimeRequest)
      → Follows N H R T
      → Triple N
          (create_body ports options durations uuid input)
          (λ s c. R c × (c.sandbox ≡ s))
          (λ _. T)
  unfolding create_body
  create_body-Follows {N = N} {H = H} {R = R} {T = T} uuid input follows =
      bind-Triple (λ _. N) (with_sandbox (save_sandbox ports)) _ follows.saved
        λ _.
          bind-Triple (λ _. H) (with_sandbox register) _ follows.registered
            λ _.
              bind-Triple (λ _. H) (lift (call (ports.prepare input.repository))) _
                (follows.asked (λ _. call _) (λ _. call-Quiet (ports.prepare input.repository)))
                λ prepared.
                  bind-Triple (λ _. H) (patch ports options durations _) _
                    (follows.patched
                      (λ s. record s { workspace_path = some prepared.workspace_path }) (λ s. refl))
                    λ _.
                      bind-Triple (λ _. H)
                        (lift (
                          call
                            (ports.resolve_runtime_config prepared.repo_path input.port_override)))
                        _
                        (follows.asked (λ _. call _)
                          (λ _.
                            call-Quiet (
                              ports.resolve_runtime_config prepared.repo_path input.port_override)))
                        λ resolved.
                          bind-Triple (λ _. H)
                            (lift (write_dockerfile ports options durations prepared resolved)) _
                            (follows.asked _ (λ _. write_dockerfile-Quiet prepared resolved))
                            λ _.
                              bind-Triple (λ _. H) (patch ports options durations _) _
                                (follows.patched (λ s. record s { status = building_status })
                                  (λ s. refl))
                                λ _.
                                  bind-Triple (λ _. H)
                                    (lift (
                                      call (
                                        ports.build_image (
                                          image_request ports options durations uuid input prepared
                                            resolved))))
                                    _
                                    (follows.asked (λ _. call _)
                                      (λ _. call-Quiet (
                                        ports.build_image (
                                          image_request ports options durations uuid input prepared
                                            resolved))))
                                    λ image_id.
                                      bind-Triple (λ _. H) (patch ports options durations _) _
                                        (follows.patched
                                          (λ s. record s {
                                            image_id = some image_id;
                                            image_name = some (image_name_of input.scan_id uuid);
                                          })
                                          (λ s. refl))
                                        λ _.
                                          bind-Triple (λ _. H)
                                            (reads (λ c.
                                              build_provision_request c.sandbox resolved input
                                                options))
                                            _ (reads-Follows _ follows)
                                            λ request.
                                              bind-Triple (λ _. H)
                                                (lift (provision_container ports options request)) _
                                                (follows.asked _ (λ _.
                                                  provision_container-Quiet ports options request))
                                                λ contact.
                                                  bind-Triple (λ _. H)
                                                    (patch ports options durations (
                                                      contacted ports options durations contact
                                                        resolved))
                                                    _
                                                    (follows.patched
                                                      (contacted ports options durations contact
                                                        resolved)
                                                      (λ s. refl))
                                                    λ _.
                                                      bind-Triple (λ _. H)
                                                        (patch ports options durations _) _
                                                        (follows.patched
                                                          (λ s. record s {
                                                            status = health_checking_status;
                                                          })
                                                          (λ s. refl))
                                                        λ _.
                                                          bind-Triple (λ _. H)
                                                            (with_sandbox (λ s.
                                                            probe_with_retries ports options
                                                            durations s resolved.health_path))
                                                            _
                                                            (follows.asked _ (λ s.
                                                            probe_with_retries-Quiet ports options
                                                            durations s resolved.health_path))
                                                            λ probed.
                                                            bind-Triple (λ _. H) _ _
                                                            (if-Triple probed.0.reachable _ _
                                                            (return-Triple (λ _. H) tt)
                                                            (follows.asked _ (
                                                            throw_unreachable-Quiet probed.0
                                                            probed.1)))
                                                            λ _.
                                                            bind-Triple (λ _. R)
                                                            (patch ports options durations _) _
                                                            (follows.readied
                                                            (λ s. record s {
                                                            status = ready_status;
                                                            })
                                                            (λ s. refl) (λ s. refl))
                                                            λ _.
                                                            bind-Triple (λ _. R) (with_sandbox _) _
                                                            (follows.served
                                                            (λ s. tell (
                                                            ports.publish (
                                                            ready_event input.scan_id s.sandbox_id
                                                            s.target_url options.runtime)))
                                                            (λ s. tell-Quiet _))
                                                            λ _. reads-ready
