-- ===== src/Sandbox/Runtime/Creation.antt =====
-- `create` of application/services/runtime-sandbox.service.ts. Its body runs on the state together
-- with the variable `sandbox`, which the `catch` reads.
use mathlib.Core.Option
use autoforge.Common.Effect.{◌>>=◌, throw, return, modify, reads, ran}
use autoforge.Sandbox.Runtime.{
  call, Text, ContainerInfo, RuntimeSandbox, Result, RuntimePorts, truthy_number, Fault, Served,
  RuntimeOptions, sanitize_key, show_ℕ, patch_sandbox, PreparedWorkspace, RuntimeRequest,
  HealthProbe, count_active, ResolvedRuntime, truthy, save_sandbox, Runtime, seed_runtime_sandbox,
  BuildImageRequest, starting_status, register, lifetime, tried, build_target_url, building_status,
  validate_ownership, health_checking_status, tell, provisioning_event, ready_status, ready_event,
}
use autoforge.Common.{◌&&◌, ◌∷◌, ◌++◌, if◌then◌else◌, ℕ, not, Option, none, some, [], leb, take}
use autoforge.Common.Texts.{Text, codes}
use autoforge.Common.Result.{Result, ok, err}
use autoforge.Sandbox.{Fault, capacity_fault, host_exposure_denied_fault, other_fault}
use autoforge.Common.Decimal.{show_ℕ}
use autoforge.Sandbox.Runtime.Service.{Created, lift, Creation, fail, cleanup_expired}
use autoforge.Sandbox.Runtime.Provision.{
  Durations, ProvisionContact, build_provision_request, provision_container, probe_with_retries,
}

-- `amass-rt-<scan>-<eight characters>`.
abbrev pub image_name_of : Text → Text → Text
image_name_of scan_id uuid =
    codes "amass-rt-" ++ (sanitize_key scan_id ++ (codes "-" ++ take 8 uuid))

abbrev exit_text : Option ℕ → Text
exit_text none = []
exit_text (some code) = codes ", exitCode: " ++ show_ℕ code

-- `exposedPort ?? internalPort ?? 0`.
abbrev port_of : Option ℕ → Option ℕ → ℕ
port_of (some port) other = port
port_of none (some port) = port
port_of none none = 0

-- What the message of a failed health check tells of the container.
abbrev container_diagnostics : Option (Option ContainerInfo) → Text
container_diagnostics none = []
container_diagnostics (some none) = []
container_diagnostics (some (some info)) =
    codes " [status: "
    ++ (info.status
        ++ (codes (if info.running then ", running: true" else ", running: false")
            ++ (exit_text info.exit_code ++ codes "]")))

-- The target that the message names.
abbrev target_text : RuntimeSandbox → Text
target_text sandbox = elim (truthy_number sandbox.exposed_port) [
  | some port ↦ codes "127.0.0.1:" ++ show_ℕ port
  | none ↦
      Option.get_or sandbox.internal_host (codes "unknown")
      ++ (codes ":" ++ show_ℕ (port_of sandbox.exposed_port sandbox.internal_port))
]

abbrev pub assigned : RuntimeSandbox → Result Fault RuntimeSandbox → RuntimeSandbox
assigned sandbox (ok saved) = saved
assigned sandbox (err thrown) = sandbox

abbrev pub done : Result Fault RuntimeSandbox → Result Fault (Unit {0})
done (ok saved) = ok tt
done (err thrown) = err thrown

module _ {W : Type 0} where
  -- A step that reads the variable `sandbox`.
  abbrev pub with_sandbox : {A : Type 0} → (RuntimeSandbox → Served W A) → Created W A
  with_sandbox step c = lift (step c.sandbox) c

module _ {W : Type 0} (ports : RuntimePorts W) (options : RuntimeOptions)
    (durations : Durations) where
  -- `sandbox = await patchSandbox(...)`: a throw leaves the variable.
  unfoldable pub patch : (RuntimeSandbox → RuntimeSandbox) → Created W (Unit {0})
  patch change c =
      let out = patch_sandbox ports (change c.sandbox) c.runtime in
      (done out.0, record { runtime = out.1; sandbox = assigned c.sandbox out.0 })

  abbrev pub write_dockerfile : PreparedWorkspace → ResolvedRuntime → Served W (Unit {0})
  write_dockerfile prepared resolved = elim (truthy resolved.generated_dockerfile) [
    | none ↦ return tt
    | some text ↦
        call (ports.write_file (ports.join_path prepared.repo_path (codes "Dockerfile")) text)
  ]

  abbrev pub image_request :
      Text → RuntimeRequest → PreparedWorkspace → ResolvedRuntime → BuildImageRequest
  image_request uuid input prepared resolved = record {
    context_path = prepared.repo_path;
    dockerfile_path = Option.map (ports.join_path prepared.repo_path) resolved.dockerfile;
    image_name = image_name_of input.scan_id uuid;
    timeout_ms = options.build_timeout_ms;
    labels =
        (codes "amass.manager", codes "1")
        ∷ (codes "amass.scan", input.scan_id)
        ∷ (codes "amass.runtime", codes "1")
        ∷ [];
  }

  -- The container is inspected once more, and the failed health check is thrown.
  unfoldable pub throw_unreachable : HealthProbe → ℕ → RuntimeSandbox → Served W (Unit {0})
  throw_unreachable probe elapsed sandbox = do
    info ← elim (truthy sandbox.sandbox_id) [
      | none ↦ return none
      | some id ↦ tried (ports.inspect id)
    ]
    throw (
        other_fault (
          codes "application health check failed after "
          ++ (show_ℕ elapsed
              ++ (codes "ms: "
                  ++ (Option.get_or probe.detail (codes "unreachable")
                      ++ (codes " (target "
                          ++ (target_text sandbox
                              ++ (codes ")" ++ container_diagnostics info))))))))

  abbrev pub contacted : ProvisionContact → ResolvedRuntime → RuntimeSandbox → RuntimeSandbox
  contacted contact resolved sandbox = record sandbox {
    status = starting_status;
    sandbox_id = some contact.container_id;
    network_id = contact.network_id;
    internal_host = some contact.ip;
    internal_port = some resolved.port;
    exposed_port = contact.published_port;
    target_url = some (build_target_url contact.published_port contact.ip resolved.port);
  }

  -- The body of `try` in `create`.
  unfoldable pub create_body : Text → RuntimeRequest → Created W RuntimeSandbox
  create_body uuid input = do
    _ ← with_sandbox (save_sandbox ports)
    _ ← with_sandbox register
    prepared ← lift (call (ports.prepare input.repository))
    _ ← patch (λ s. record s { workspace_path = some prepared.workspace_path })
    resolved ← lift (call (ports.resolve_runtime_config prepared.repo_path input.port_override))
    _ ← lift (write_dockerfile prepared resolved)
    _ ← patch (λ s. record s { status = building_status })
    image_id ← lift (call (ports.build_image (image_request uuid input prepared resolved)))
    _ ← patch (λ s. record s {
      image_id = some image_id;
      image_name = some (image_name_of input.scan_id uuid);
    })
    request ← reads (λ c. build_provision_request c.sandbox resolved input options)
    contact ← lift (provision_container ports options request)
    _ ← patch (contacted contact resolved)
    _ ← patch (λ s. record s { status = health_checking_status })
    (probe, elapsed) ←
        with_sandbox (λ s. probe_with_retries ports options durations s resolved.health_path)
    _ ← (if probe.reachable then return tt else with_sandbox (throw_unreachable probe elapsed))
    _ ← patch (λ s. record s { status = ready_status })
    _ ← with_sandbox (λ s.
        tell (ports.publish (ready_event input.scan_id s.sandbox_id s.target_url options.runtime)))
    reads (λ c. ok c.sandbox)

  abbrev pub caught :
      Result Fault RuntimeSandbox × Creation W → Result Fault RuntimeSandbox × Runtime W
  caught (ok sandbox, c) = (ok sandbox, c.runtime)
  caught (err error, c) = fail ports options durations c.sandbox error c.runtime

  -- What `create` does once it has let the request in.
  unfoldable pub create_admitted : Text → Text → RuntimeRequest → Served W RuntimeSandbox
  create_admitted id_uuid image_uuid input m = caught (
      create_body image_uuid input (record {
        runtime = m;
        sandbox = seed_runtime_sandbox id_uuid input (lifetime options input.max_age_ms) m.clock;
      }))

  -- The capacity check of `create`.
  unfoldable pub check_capacity : Served W (Unit {0})
  check_capacity m =
      if leb options.max_concurrent (count_active m)
      then throw (capacity_fault (count_active m) options.max_concurrent) m
      else return tt m

  unfoldable pub create : Text → Text → RuntimeRequest → Served W RuntimeSandbox
  create id_uuid image_uuid input = do
    _ ←
        (if input.host_expose && not options.allow_host_expose
          then throw host_exposure_denied_fault
          else return tt)
    _ ← modify (ran (cleanup_expired ports options durations))
    _ ← check_capacity
    _ ← validate_ownership ports input
    _ ← tell (ports.publish (provisioning_event input.scan_id options.runtime))
    create_admitted id_uuid image_uuid input
