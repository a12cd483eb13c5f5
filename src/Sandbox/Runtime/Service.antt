-- ===== src/Sandbox/Runtime/Service.antt =====
-- The service of application/services/runtime-sandbox.service.ts with the coordinator of
-- runtime-cleanup.ts. The body of `create` runs on the state together with the variable `sandbox`,
-- which its `catch` reads.
use autoforge.Common.Effect.{◌>>=◌, Effect, return, modify, reads, throw, ran}
use autoforge.Sandbox.Runtime.{
  RuntimeStatus, Runtime, Served, Text, RuntimePorts, RuntimeSandbox, Fault, Result, RuntimeOptions,
  destroyed_status, ready_status, expired_status, tried, truthy, read_sandbox, patch_sandbox,
  list_by_status, deregister, failed_status, destroying_status, tell, runtime_live_statuses,
  status_text, destroying_event, expired_event, destroyed_event, provisioning_failed_event,
}
use autoforge.Common.{
  ◌+◌, ◌∷◌, ◌++◌, ◌==◌, if◌then◌else◌, ℕ, suc, min, Bool, true, false, Option, none, some, List, [],
  leb,
}
use autoforge.Common.Texts.{Text, codes, text_eq}
use autoforge.Sandbox.{Fault, not_found_fault, forbidden_fault, creation_fault}
use autoforge.Common.Result.{Result, ok, err}
use autoforge.Sandbox.Runtime.Provision.{Durations, health_probe}
use autoforge.Common.JsMap.{is_some}
use autoforge.Sandbox.Runtime.Faults.{classify_stage, reason_of, is_runtime_error}

pub record CleanupResult : Type 0 where
  pub image_removed : Bool
  pub container_removed : Bool
  pub workspace_removed : Bool

pub record HealthResult : Type 0 where
  pub is_ok : Bool
  pub status : RuntimeStatus
  pub latency_ms : Option ℕ
  pub status_code : Option ℕ
  pub detail : Option Text

-- The state of the body of `create`.
pub record Creation (W : Type 0) : Type 0 where
  pub runtime : Runtime W
  pub sandbox : RuntimeSandbox

abbrev pub Created : Type 0 → Type 0 → Type 0
Created W A = Effect (Creation W) Fault A

abbrev pub is_reclaimed : RuntimeStatus → Bool
is_reclaimed destroyed_status = true
is_reclaimed expired_status = true
is_reclaimed _ = false

abbrev pub is_ready : RuntimeStatus → Bool
is_ready ready_status = true
is_ready _ = false

-- `sandbox.expiresAt && Date.parse(sandbox.expiresAt) <= now`.
abbrev pub is_expired : ℕ → Option ℕ → Bool
is_expired now none = false
is_expired now (some at) = leb at now

module _ {W : Type 0} where
  -- A step of the service in the body of `create`.
  abbrev pub lift : {A : Type 0} → Served W A → Created W A
  lift step c = let out = step c.runtime in (out.0, record c { runtime = out.1 })

  -- `result.… = true` after a guarded call.
  abbrev pub guarded : Option Text → (Text → W → Result Fault (Unit {0}) × W) → Served W Bool
  guarded none operation = return false
  guarded (some name) operation = do done ← tried (operation name); return (is_some done)

module _ {W : Type 0} (ports : RuntimePorts W) (options : RuntimeOptions)
    (durations : Durations) where
  -- `cleanup`: every step is guarded on its own.
  unfoldable pub cleanup : RuntimeSandbox → Served W CleanupResult
  cleanup sandbox = do
    container ← guarded (truthy sandbox.sandbox_id) ports.destroy_sandbox
    image ← guarded (truthy sandbox.image_id) ports.remove_image
    workspace ← guarded (truthy sandbox.workspace_path) ports.cleanup_workspace
    return (record {
      image_removed = image;
      container_removed = container;
      workspace_removed = workspace;
    })

  -- The check of `get` that the sandbox is the scan's.
  abbrev pub in_scope : Text → Option Text → RuntimeSandbox → Served W RuntimeSandbox
  in_scope id none sandbox = return sandbox
  in_scope id (some scan) sandbox =
      if sandbox.scan_id == scan then return sandbox else throw (forbidden_fault id scan)

  abbrev pub found_in_scope : Text → Option Text → Option RuntimeSandbox → Served W RuntimeSandbox
  found_in_scope id scan_id none = throw (not_found_fault id)
  found_in_scope id scan_id (some sandbox) = in_scope id (truthy scan_id) sandbox

  unfoldable pub get_sandbox : Text → Option Text → Served W RuntimeSandbox
  get_sandbox id scan_id = do found ← read_sandbox ports id; found_in_scope id scan_id found

  unfoldable pub health_check : Text → Option Text → Served W HealthResult
  health_check id scan_id = do
    sandbox ← get_sandbox id scan_id
    (if is_ready sandbox.status
        then (do
          probe ←
              health_probe ports options sandbox (codes "/") (min 5000 options.health_timeout_ms)
          return (record {
            is_ok = probe.reachable;
            status = sandbox.status;
            latency_ms = some probe.latency_ms;
            status_code = probe.status_code;
            detail = probe.detail;
          }))
        else return (record {
          is_ok = false;
          status = sandbox.status;
          latency_ms = none;
          status_code = none;
          detail =
              some (codes "sandbox is '" ++ (status_text sandbox.status ++ codes "', not READY"));
        }))

  -- What `destroy` does to a sandbox that is not reclaimed yet.
  unfoldable pub destroy_live : RuntimeSandbox → Text → Served W RuntimeSandbox
  destroy_live sandbox id = do
    destroying ← patch_sandbox ports (record sandbox { status = destroying_status })
    _ ← tell (ports.publish (destroying_event sandbox.scan_id id sandbox.sandbox_id))
    _ ← cleanup destroying
    now ← reads (λ m. ok m.clock)
    gone ←
        patch_sandbox ports
          (record destroying { status = destroyed_status; destroyed_at = some now })
    _ ← tell (ports.publish (destroyed_event sandbox.scan_id id sandbox.sandbox_id))
    _ ← deregister id
    return gone

  unfoldable pub destroy : Text → Option Text → Served W RuntimeSandbox
  destroy id scan_id = do
    sandbox ← get_sandbox id scan_id
    (if is_reclaimed sandbox.status then return sandbox else destroy_live sandbox id)

  unfoldable pub expire_live : RuntimeSandbox → Text → Served W RuntimeSandbox
  expire_live sandbox id = do
    expiring ← patch_sandbox ports (record sandbox { status = expired_status })
    _ ← tell (ports.publish (expired_event sandbox.scan_id id sandbox.sandbox_id))
    _ ← cleanup expiring
    _ ← deregister id
    return expiring

  unfoldable pub expire : Text → Served W RuntimeSandbox
  expire id = do
    found ← read_sandbox ports id
    elim found [
      | none ↦ throw (not_found_fault id)
      | some sandbox ↦
          if is_reclaimed sandbox.status then return sandbox else expire_live sandbox id
    ]

  -- The sandboxes of one live status: those past their lifetime are expired, and counted.
  unfoldable pub expire_all : ℕ → List RuntimeSandbox → Served W ℕ
  expire_all now [] = return 0
  expire_all now (sandbox ∷ sandboxes) =
      let rest = expire_all now sandboxes in
      if is_expired now sandbox.expires_at
      then (do _ ← modify (ran (expire sandbox.id)); count ← rest; return (suc count))
      else rest

  unfoldable pub expire_statuses : ℕ → List RuntimeStatus → Served W ℕ
  expire_statuses now [] = return 0
  expire_statuses now (status ∷ statuses) = do
    sandboxes ← list_by_status ports status
    expired ← expire_all now sandboxes
    count ← expire_statuses now statuses
    return (expired + count)

  -- The FAILED records: cleaned, and counted.
  unfoldable pub clean_all : List RuntimeSandbox → Served W ℕ
  clean_all [] = return 0
  clean_all (sandbox ∷ sandboxes) = do
    _ ← cleanup sandbox
    _ ← deregister sandbox.id
    count ← clean_all sandboxes
    return (suc count)

  unfoldable pub cleanup_expired : Served W ℕ
  cleanup_expired = do
    now ← reads (λ m. ok m.clock)
    expired ← expire_statuses now runtime_live_statuses
    broken ← list_by_status ports failed_status
    cleaned ← clean_all broken
    return (expired + cleaned)

  abbrev pub saved_or : RuntimeSandbox → Result Fault RuntimeSandbox → RuntimeSandbox
  saved_or sandbox (ok saved) = saved
  saved_or sandbox (err thrown) = sandbox

  -- `patchSandbox(...).catch(() => sandbox)`.
  abbrev pub patch_or : RuntimeSandbox → RuntimeSandbox → Served W RuntimeSandbox
  patch_or sandbox updated m =
      let out = patch_sandbox ports updated m in (ok (saved_or sandbox out.0), out.1)

  abbrev pub collect_failure_logs : RuntimeSandbox → Served W (Unit {0})
  collect_failure_logs sandbox = elim (truthy sandbox.sandbox_id) [
    | none ↦ return tt
    | some id ↦ tell (ports.collect_logs id 50)
  ]

  unfoldable pub fail : RuntimeSandbox → Fault → Served W RuntimeSandbox
  fail sandbox error = do
    broken ← patch_or sandbox (record sandbox {
      status = failed_status;
      failure_stage = some (classify_stage error);
      failure_reason = some (reason_of error);
    })
    _ ← tell (
        ports.publish (
          provisioning_failed_event broken.scan_id broken.sandbox_id (reason_of error)
            (classify_stage error)))
    _ ← collect_failure_logs broken
    _ ← cleanup broken
    _ ← deregister broken.id
    throw (
        if is_runtime_error error
        then error
        else creation_fault (classify_stage error) (reason_of error))
