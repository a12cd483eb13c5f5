-- ===== src/Sandbox/Runtime.antt =====
-- The runtime sandboxes of backend/src/sandbox: the record of domain/entities/runtime-sandbox.ts, the
-- injected ports of application/services/runtime-sandbox-state.ts and its helpers, and those of
-- application/services/runtime-sandbox-utils.ts. A time is a number of milliseconds.
pub mod Calm
pub mod Capacity
pub mod Creation
pub mod Environment
pub mod Failed
pub mod Faults
pub mod Follows
pub mod Provision
pub mod Refusals
pub mod Reclaim
pub mod Probing
pub mod Quiet
pub mod Settled
pub mod Service
use mathlib.Core.Option
use autoforge.Common.{
  ◌+◌, ◌&&◌, ◌||◌, ◌∷◌, ◌++◌, ◌==◌, if◌then◌else◌, ℕ, zero, suc, min, max, Bool, true, false,
  Option, none, some, List, [], map, leb, nat_eqb, take, filter,
}
use autoforge.Common.Texts.{Text, codes, text_eq}
use autoforge.Common.Result.{Result, ok, err}
use autoforge.Common.JsMap.{JsMap, size, set, remove, get}
use autoforge.Common.Effect.{◌>>=◌, Effect, modify, reads, return, throw}
use autoforge.Sandbox.{RuntimeFailureStage, SandboxType, Fault, Egress, invalid_repository_fault}
use autoforge.Common.Decimal.{show_ℕ}

pub data RuntimeStatus : Type 0 where
  creating_status building_status starting_status health_checking_status : RuntimeStatus
  ready_status failed_status destroying_status destroyed_status expired_status : RuntimeStatus

pub record RepositoryRef : Type 0 where
  pub name : Option Text
  pub url : Option Text
  pub path : Option Text

pub record RuntimeSandbox : Type 0 where
  pub id : Text
  pub scan_id : Text
  pub status : RuntimeStatus
  pub repository : RepositoryRef
  pub sandbox_id : Option Text
  pub name : Option Text
  pub image_id : Option Text
  pub image_name : Option Text
  pub network_id : Option Text
  pub target_url : Option Text
  pub internal_host : Option Text
  pub internal_port : Option ℕ
  pub exposed_port : Option ℕ
  pub workspace_path : Option Text
  pub created_at : ℕ
  pub expires_at : Option ℕ
  pub destroyed_at : Option ℕ
  pub failure_stage : Option RuntimeFailureStage
  pub failure_reason : Option Text

pub record RuntimeRequest : Type 0 where
  pub scan_id : Text
  pub repository : RepositoryRef
  pub name : Option Text
  pub max_age_ms : Option ℕ
  pub host_expose : Bool
  pub port_override : Option ℕ
  pub env : List (Text × Text)

pub record ResourceLimits : Type 0 where
  pub cpus : ℕ
  pub memory : Text
  pub pids : ℕ

pub record RuntimeOptions : Type 0 where
  pub max_concurrent : ℕ
  pub lifetime_ms : ℕ
  pub build_timeout_ms : ℕ
  pub start_timeout_ms : ℕ
  pub health_timeout_ms : ℕ
  pub allow_host_expose : Bool
  pub probe_image : Text
  pub limits : ResourceLimits
  pub runtime : Text

pub record PreparedWorkspace : Type 0 where
  pub workspace_path : Text
  pub repo_path : Text

-- What the deterministic strategy gives for a repository.
pub record ResolvedRuntime : Type 0 where
  pub generated_dockerfile : Option Text
  pub dockerfile : Option Text
  pub command : List Text
  pub port : ℕ
  pub health_path : Text

pub record BuildImageRequest : Type 0 where
  pub context_path : Text
  pub dockerfile_path : Option Text
  pub image_name : Text
  pub timeout_ms : ℕ
  pub labels : List (Text × Text)

-- The container that the manager is asked for. It is of the type `runtime`, its egress is internal,
-- and the repository is not mounted.
pub record ProvisionRequest : Type 0 where
  pub scan_id : Text
  pub type : SandboxType
  pub repository_path : Text
  pub image : Text
  pub egress : Egress
  pub limits : ResourceLimits
  pub mount_repository : Bool
  pub env : List (Text × Text)
  pub app_command : List Text
  pub host_publish_port : Option ℕ

pub record CreatedSandbox : Type 0 where
  pub id : Text
  pub container_id : Option Text
  pub network_id : Option Text
  pub ip_address : Option Text
  pub exposed_port : Option ℕ

pub record ContainerInfo : Type 0 where
  pub status : Text
  pub running : Bool
  pub exit_code : Option ℕ
  pub ip_address : Option Text

pub record HealthProbe : Type 0 where
  pub reachable : Bool
  pub latency_ms : ℕ
  pub status_code : Option ℕ
  pub detail : Option Text

-- What the service publishes, by the event type and what the message and the metadata hold.
pub data RuntimeEvent : Type 0 where
  provisioning_event : Text → Text → RuntimeEvent
  ready_event : Text → Option Text → Option Text → Text → RuntimeEvent
  destroying_event : Text → Text → Option Text → RuntimeEvent
  destroyed_event : Text → Text → Option Text → RuntimeEvent
  expired_event : Text → Text → Option Text → RuntimeEvent
  provisioning_failed_event : Text → Option Text → Text → RuntimeFailureStage → RuntimeEvent

-- The collaborators, on a state of their own, which may throw. The database keeps the rows, so its
-- operations here say only whether a query goes through.
pub record RuntimePorts (W : Type 0) : Type 0 where
  pub save_row : RuntimeSandbox → W → Result Fault (Unit {0}) × W
  pub read_row : Text → W → Result Fault (Unit {0}) × W
  pub list_rows : W → Result Fault (Unit {0}) × W
  pub scan_exists : Text → W → Result Fault Bool × W
  pub scan_repository_relation : Text → RepositoryRef → W → Result Fault (Option Bool) × W
  pub prepare : RepositoryRef → W → Result Fault PreparedWorkspace × W
  pub cleanup_workspace : Text → W → Result Fault (Unit {0}) × W
  pub resolve_runtime_config : Text → Option ℕ → W → Result Fault ResolvedRuntime × W
  pub write_file : Text → Text → W → Result Fault (Unit {0}) × W
  pub join_path : Text → Text → Text
  pub build_image : BuildImageRequest → W → Result Fault Text × W
  pub remove_image : Text → W → Result Fault (Unit {0}) × W
  pub create_sandbox : ProvisionRequest → W → Result Fault CreatedSandbox × W
  pub wait_until_ready : Text → ℕ → W → Result Fault (Unit {0}) × W
  pub inspect : Text → W → Result Fault (Option ContainerInfo) × W
  pub probe : Text → ℕ → Text → ℕ → W → Result Fault HealthProbe × W
  pub probe_network : Text → Text → ℕ → Text → ℕ → Text → W → Result Fault HealthProbe × W
  pub collect_logs : Text → ℕ → W → W
  pub destroy_sandbox : Text → W → Result Fault (Unit {0}) × W
  pub publish : RuntimeEvent → W → W

-- The rows of the database, the registry of memory-runtime-registry.ts, and the rest of the world.
pub record Runtime (W : Type 0) : Type 0 where
  pub rows : JsMap Text RuntimeSandbox
  pub live : JsMap Text RuntimeSandbox
  pub world : W
  pub clock : ℕ

abbrev pub Served : Type 0 → Type 0 → Type 0
Served W A = Effect (Runtime W) Fault A

abbrev pub status_text : RuntimeStatus → Text
status_text creating_status = codes "CREATING"
status_text building_status = codes "BUILDING"
status_text starting_status = codes "STARTING"
status_text health_checking_status = codes "HEALTH_CHECKING"
status_text ready_status = codes "READY"
status_text failed_status = codes "FAILED"
status_text destroying_status = codes "DESTROYING"
status_text destroyed_status = codes "DESTROYED"
status_text expired_status = codes "EXPIRED"

abbrev pub runtime_live_statuses : List RuntimeStatus
runtime_live_statuses =
    creating_status ∷ building_status ∷ starting_status ∷ health_checking_status ∷ ready_status
    ∷ destroying_status ∷ []

abbrev min_lifetime_ms : ℕ
min_lifetime_ms = 60000

abbrev clamp : ℕ → ℕ → ℕ → ℕ
clamp value low high = min (max value low) high

-- `maxAgeMs` of `create`.
abbrev pub lifetime : RuntimeOptions → Option ℕ → ℕ
lifetime options asked =
    clamp (Option.get_or asked options.lifetime_ms) min_lifetime_ms options.lifetime_ms

-- The first twelve characters of a random UUID make the id.
abbrev pub seed_runtime_sandbox : Text → RuntimeRequest → ℕ → ℕ → RuntimeSandbox
seed_runtime_sandbox uuid input max_age_ms now = record {
  id = codes "rts_" ++ take 12 uuid;
  scan_id = input.scan_id;
  status = creating_status;
  repository = input.repository;
  name = input.name;
  sandbox_id = none;
  image_id = none;
  image_name = none;
  network_id = none;
  target_url = none;
  internal_host = none;
  internal_port = none;
  exposed_port = none;
  workspace_path = none;
  created_at = now;
  expires_at = some (now + max_age_ms);
  destroyed_at = none;
  failure_stage = none;
  failure_reason = none;
}

-- A text or a number as a condition: the empty text and zero do not hold.
abbrev pub truthy : Option Text → Option Text
truthy none = none
truthy (some []) = none
truthy (some (c ∷ cs)) = some (c ∷ cs)

abbrev pub truthy_number : Option ℕ → Option ℕ
truthy_number none = none
truthy_number (some zero) = none
truthy_number (some (suc n)) = some (suc n)

abbrev pub build_target_url : Option ℕ → Text → ℕ → Text
build_target_url published ip port = elim (truthy_number published) [
  | some host_port ↦ codes "http://127.0.0.1:" ++ show_ℕ host_port
  | none ↦ codes "http://" ++ (ip ++ (codes ":" ++ show_ℕ port))
]

-- `toLowerCase` where it gives a letter of ASCII: also for the Kelvin sign and the dotted capital I.
abbrev lower : ℕ → ℕ
lower c =
    if leb 65 c && leb c 90
    then c + 32
    else if nat_eqb c 8490
    then 107
    else if nat_eqb c 304
    then 105
    else c

abbrev pub is_key_unit : ℕ → Bool
is_key_unit c = (leb 97 c && leb c 122) || (leb 48 c && leb c 57)

unfoldable pub sanitize_key : Text → Text
sanitize_key value = take 12 (filter is_key_unit (map lower value))

abbrev pub answer : {A : Type 0} → Result Fault A → Option A
answer (ok value) = some value
answer (err thrown) = none

module _ {W : Type 0} where
  -- A call of a collaborator.
  abbrev pub call : {A : Type 0} → (W → Result Fault A × W) → Served W A
  call operation m = let out = operation m.world in (out.0, record m { world = out.1 })

  -- A call of a collaborator that does not throw, or whose throw is swallowed.
  abbrev pub tell : (W → W) → Served W (Unit {0})
  tell operation = modify (λ m. record m { world = operation m.world })

  -- `.catch(() => null)`.
  abbrev pub tried : {A : Type 0} → (W → Result Fault A × W) → Served W (Option A)
  tried operation m = let out = operation m.world in (ok (answer out.0), record m { world = out.1 })

  -- `registry.register` and `registry.remove`.
  abbrev pub register : RuntimeSandbox → Served W (Unit {0})
  register sandbox = modify (λ m. record m { live = set m.live sandbox.id sandbox })

  abbrev pub deregister : Text → Served W (Unit {0})
  deregister id = modify (λ m. record m { live = remove m.live id })

  -- `registry.countActive`.
  abbrev pub count_active : Runtime W → ℕ
  count_active m = size m.live

  -- A relation that is `false` is refused.
  abbrev pub check_relation : RuntimeRequest → Option Bool → Served W (Unit {0})
  check_relation input none = return tt
  check_relation input (some true) = return tt
  check_relation input (some false) =
      throw (invalid_repository_fault (codes "repository not linked to scan " ++ input.scan_id))

module _ {W : Type 0} (ports : RuntimePorts W) where
  -- `store.save`.
  unfoldable pub save_sandbox : RuntimeSandbox → Served W (Unit {0})
  save_sandbox sandbox = do
    _ ← call (ports.save_row sandbox)
    modify (λ m. record m { rows = set m.rows sandbox.id sandbox })

  -- `store.get`.
  unfoldable pub read_sandbox : Text → Served W (Option RuntimeSandbox)
  read_sandbox id = do _ ← call (ports.read_row id); reads (λ m. ok (get m.rows id))

  abbrev in_status : RuntimeStatus → Text × RuntimeSandbox → Bool
  in_status status (id, sandbox) = status_text sandbox.status == status_text status

  -- `store.listByStatus` of one status, in the order of creation.
  unfoldable pub list_by_status : RuntimeStatus → Served W (List RuntimeSandbox)
  list_by_status status = do
    _ ← call ports.list_rows
    reads (λ m. ok (map (λ row. row.1) (filter (in_status status) m.rows)))

  -- `patchSandbox`, given the record with its changes.
  abbrev pub patch_sandbox : RuntimeSandbox → Served W RuntimeSandbox
  patch_sandbox updated = do _ ← save_sandbox updated; return updated

  unfoldable pub validate_ownership : RuntimeRequest → Served W (Unit {0})
  validate_ownership input = do
    is_known ← call (ports.scan_exists input.scan_id)
    _ ←
        (if is_known
          then return tt
          else throw (
              invalid_repository_fault
                (codes "scan " ++ (input.scan_id ++ codes " does not exist"))))
    relation ← call (ports.scan_repository_relation input.scan_id input.repository)
    check_relation input relation
