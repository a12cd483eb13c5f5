-- ===== src/Sandbox/Runtime/Provision.antt =====
-- The provisioning of runtime sandboxes: application/services/runtime-sandbox-provisioning.ts. Time is
-- counted from the start of a loop; how long the n-th inspection and probe take is given.
use mathlib.Core.Option
use autoforge.Sandbox.Runtime.{call, CreatedSandbox}
use autoforge.Sandbox.{runtime}
use autoforge.Common.Effect.{◌>>=◌, reads, return, throw}
use autoforge.Common.{
  ◌+◌, ◌-◌, ◌/◌, ◌&&◌, ◌++◌, if◌then◌else◌, ℕ, zero, suc, min, max, false, not, Option, none, some,
  [], ltb, ◌∷◌,
}
use autoforge.Common.Texts.{Text, codes}
use autoforge.Sandbox.Runtime.{
  RuntimeSandbox, ContainerInfo, RuntimePorts, ResolvedRuntime, Result, RuntimeOptions,
  RuntimeRequest, Fault, show_ℕ, ProvisionRequest, Served, HealthProbe, truthy_number, call, truthy,
  tried,
}
use autoforge.Common.Result.{Result, err, ok}
use autoforge.Sandbox.{Fault, host_exposure_denied_fault, runtime, other_fault, internal}
use autoforge.Common.Decimal.{show_ℕ}
use autoforge.Sandbox.Runtime.Environment.{build_runtime_container}

-- What the probes of a loop take, by their rounds.
pub record Durations : Type 0 where
  pub inspect_ms : ℕ → ℕ
  pub probe_ms : ℕ → ℕ

pub record ProvisionContact : Type 0 where
  pub container_id : Text
  pub network_id : Option Text
  pub ip : Text
  pub published_port : Option ℕ

-- `buildProvisionRequest`.
abbrev pub build_provision_request :
    RuntimeSandbox
    → ResolvedRuntime
    → RuntimeRequest
    → RuntimeOptions
    → Result Fault ProvisionRequest
build_provision_request sandbox runtime_config input options =
    if input.host_expose && not options.allow_host_expose
    then err host_exposure_denied_fault
    else ok (record {
      scan_id = sandbox.scan_id;
      type = runtime;
      repository_path = Option.get_or sandbox.workspace_path sandbox.id;
      image = Option.get_or sandbox.image_name [];
      egress = internal;
      limits = options.limits;
      mount_repository = false;
      env = build_runtime_container runtime_config.port none input.env;
      app_command = runtime_config.command;
      host_publish_port =
          if input.host_expose && options.allow_host_expose then some runtime_config.port else none;
    })

abbrev pub info_ip : Option (Option ContainerInfo) → Option Text
info_ip (some (some info)) = info.ip_address
info_ip (some none) = none
info_ip none = none

abbrev pub ip_or : Option Text → Option Text → Option Text
ip_or (some text) other = some text
ip_or none other = other

-- `probeTarget`.
abbrev pub probe_target : RuntimeSandbox → Result Fault (Text × ℕ)
probe_target sandbox = elim (truthy_number sandbox.exposed_port) [
  | some port ↦ ok (codes "127.0.0.1", port)
  | none ↦ elim (truthy sandbox.internal_host) [
    | none ↦ err (other_fault (codes "sandbox has no target coordinates"))
    | some host ↦ elim (truthy_number sandbox.internal_port) [
      | none ↦ err (other_fault (codes "sandbox has no target coordinates"))
      | some port ↦ ok (host, port)
    ]
  ]
]

-- `text || other`.
abbrev or_text : Text → Text → Text
or_text [] other = other
or_text (c ∷ cs) other = c ∷ cs

-- Why a container that was inspected is not to be probed any more.
abbrev pub exit_detail : Option (Option ContainerInfo) → Option Text
exit_detail none = none
exit_detail (some none) = none
exit_detail (some (some info)) = if info.running then none else elim info.exit_code [
  | some code ↦ some (
      codes "container exited with code "
      ++ (show_ℕ code
          ++ (codes " (status: " ++ (or_text info.status (codes "exited") ++ codes ")"))))
  | none ↦ some (
      codes "container is no longer running (status: "
      ++ (or_text info.status (codes "stopped") ++ codes ")"))
]

abbrev published : Option ℕ → Option ℕ → Option ℕ
published none exposed = none
published (some port) exposed = exposed

-- What `provisionContainer` gives, or throws for want of an address.
abbrev pub contact_of :
    ProvisionRequest → CreatedSandbox → Option Text → Result Fault ProvisionContact
contact_of request created none =
    err (other_fault (codes "container " ++ (created.id ++ codes " has no network address")))
contact_of request created (some ip) = ok (record {
  container_id = created.id;
  network_id = created.network_id;
  ip = ip;
  published_port = published request.host_publish_port created.exposed_port;
})

module _ {W : Type 0} (ports : RuntimePorts W) (options : RuntimeOptions) where
  -- `provisionContainer`.
  unfoldable pub provision_container : ProvisionRequest → Served W ProvisionContact
  provision_container request = do
    created ← call (ports.create_sandbox request)
    _ ← call (ports.wait_until_ready created.id options.start_timeout_ms)
    info ← tried (ports.inspect (Option.get_or created.container_id created.id))
    reads (λ _. contact_of request created (truthy (ip_or (info_ip info) created.ip_address)))

  -- `buildHealthProbe`, called.
  unfoldable pub health_probe : RuntimeSandbox → Text → ℕ → Served W HealthProbe
  health_probe sandbox path timeout_ms = do
    (host, port) ← reads (λ _. probe_target sandbox)
    elim (truthy_number sandbox.exposed_port) [
      | some exposed ↦ call (ports.probe host port path timeout_ms)
      | none ↦ elim (truthy sandbox.network_id) [
        | none ↦ throw (
            other_fault (
              codes "isolated sandbox "
              ++ (sandbox.id ++ codes " has no network for an in-network health probe")))
        | some network ↦
            call (ports.probe_network network host port path timeout_ms options.probe_image)
      ]
    ]

  -- The inspection that a round of `probeWithRetries` begins with.
  abbrev pub inspect_running : RuntimeSandbox → Served W (Option Text)
  inspect_running sandbox = elim (truthy sandbox.sandbox_id) [
    | none ↦ return none
    | some id ↦ do info ← tried (ports.inspect id); return (exit_detail info)
  ]

  -- The body of the loop of `probeWithRetries`: a container that has ended is not probed, and a probe
  -- that does not reach the application goes on as it is told.
  abbrev pub probe_round :
      RuntimeSandbox
      → Text
      → ℕ
      → ℕ
      → (HealthProbe → Served W (HealthProbe × ℕ))
      → Served W (HealthProbe × ℕ)
  probe_round sandbox path inspected probed next = do
    detail ← inspect_running sandbox
    elim detail [
      | some text ↦ return (
        record {
          reachable = false;
          latency_ms = inspected;
          status_code = none;
          detail = some text;
        },
        inspected,
      )
      | none ↦ do
        probe ←
            health_probe sandbox path (min 5000 (max 1000 (options.health_timeout_ms - inspected)))
        (if probe.reachable then return (probe, probed) else next probe)
    ]

  -- The rounds of `probeWithRetries`, from a time since its start and the result of the last probe.
  unfoldable pub probe_from :
      Durations → RuntimeSandbox → Text → ℕ → ℕ → ℕ → HealthProbe → Served W (HealthProbe × ℕ)
  probe_from durations sandbox path zero round now last = return (last, now)
  probe_from durations sandbox path (suc fuel) round now last =
      let total = options.health_timeout_ms in
      let inspected = now + durations.inspect_ms round in
      let probed = inspected + durations.probe_ms round in
      let pause = min 1000 (total - probed) in
      let rest = probe_from durations sandbox path fuel (suc round) (probed + pause) in
      let next =
        if ltb 0 pause && ltb (probed + pause) total
        then rest
        else (λ probe. return (probe, probed)) in
      if ltb now total then probe_round sandbox path inspected probed next else return (last, now)

  -- `probeWithRetries` as the service calls it: each pause before another round is of a second.
  unfoldable pub probe_with_retries : Durations → RuntimeSandbox → Text → Served W (HealthProbe × ℕ)
  probe_with_retries durations sandbox path =
      probe_from durations sandbox path (options.health_timeout_ms / 1000 + 1) 0 0 (record {
        reachable = false;
        latency_ms = 0;
        status_code = none;
        detail = some (codes "unreachable");
      })
