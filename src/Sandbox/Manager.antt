-- ===== src/Sandbox/Manager.antt =====
-- sandbox/application/services/sandbox-manager.service.ts, over the store of
-- infrastructure/store/memory-sandbox-store.ts. The backend is a parameter: operations on a state of
-- its own, which may throw, be late, or do anything to that state.
pub mod Frame
pub mod Isolation
pub mod Stored
pub mod Lifecycle
pub mod Policy
use mathlib.Core.Option
use autoforge.Common.Effect.{
  ◌>>=◌, Effect, reads, modify, return, ran, throw, try_catch, try_finally,
}
use autoforge.Common.JsMap.{JsMap, get, set, remove}
use autoforge.Common.Texts.{Text, codes, text_eq}
use autoforge.Common.{
  ◌∷◌, ◌++◌, if◌then◌else◌, ℕ, Bool, Option, none, some, List, [], ltb, ◌+◌, ◌/◌, zero, suc, true,
  false, take,
}
use autoforge.Sandbox.{
  SandboxType, Egress, Sandbox, SandboxStatus, Fault, internal, pending, analysis, destroyed,
  no_egress, other_fault, egress, runtime, failed, creating, ready, executing, running, restarting,
  starting,
}
use autoforge.Common.Result.{Result, err, ok}
use autoforge.Common.Decimal.{show_ℕ}

-- What `createSandbox` is asked for.
pub record CreateSandboxInput : Type 0 where
  pub scan_id : Text
  pub type : SandboxType
  pub image : Text
  pub repository_path : Text
  pub egress : Option Egress
  pub egress_allowlist : Option (List Text)

pub record CreateResult : Type 0 where
  pub container_id : Text
  pub network_id : Option Text
  pub workspace_path : Option Text
  pub ip_address : Option Text
  pub host_port : Option ℕ

pub record ExecRequest : Type 0 where
  pub argv : List Text
  pub timeout_ms : Option ℕ
  pub env_allowlist : Option (List Text)
  pub network : Option Egress

pub record ExecResult : Type 0 where
  pub stdout : Text
  pub stderr : Text
  pub exit_code : Option ℕ
  pub timed_out : Bool

-- What a call that races a timer gives.
pub data Timed (A : Type 0) : Type 0 where
  in_time : Result Fault A → Timed A
  late : Timed A

-- The port `SandboxBackend`, on a state `B`.
pub record SandboxBackend (B : Type 0) : Type 0 where
  pub create : Sandbox → B → Timed CreateResult × B
  pub start : Text → B → Timed (Unit {0}) × B
  pub is_ready : Text → B → Result Fault Bool × B
  pub is_ready_within : Text → B → Timed Bool × B
  pub execute : Text → List Text → Egress → ℕ → List Text → B → Result Fault ExecResult × B
  pub write_file : Text → Text → Text → B → Result Fault (Unit {0}) × B
  pub copy_file : Text → Text → Text → B → Result Fault (Unit {0}) × B
  pub restart : Text → B → Result Fault (Unit {0}) × B
  pub destroy : Text → B → B

pub record Manager (B : Type 0) : Type 0 where
  pub sandboxes : JsMap Text Sandbox
  pub backend : B
  pub clock : ℕ

pub record Options : Type 0 where
  pub default_exec_timeout_ms : ℕ
  pub create_timeout_ms : ℕ

abbrev pub Managed : Type 0 → Type 0 → Type 0
Managed B A = Effect (Manager B) Fault A

abbrev pub timed : {A : Type 0} → Text → ℕ → Timed A → Result Fault A
timed label timeout_ms (in_time result) = result
timed label timeout_ms late =
    err (other_fault (label ++ (codes " timed out after " ++ (show_ℕ timeout_ms ++ codes "ms"))))

abbrev pub found : Text → Option Sandbox → Result Fault Sandbox
found id none = err (other_fault (codes "sandbox not found: " ++ id))
found id (some sandbox) = ok sandbox

abbrev pub handle_of : Text → Option Text → Result Fault Text
handle_of id none =
    err (other_fault (codes "sandbox " ++ (id ++ codes " has no backend handle yet")))
handle_of id (some []) =
    err (other_fault (codes "sandbox " ++ (id ++ codes " has no backend handle yet")))
handle_of id (some (c ∷ cs)) = ok (c ∷ cs)

abbrev pub rank : Egress → ℕ
rank no_egress = 0
rank internal = 1
rank egress = 2

abbrev pub egress_text : Egress → Text
egress_text no_egress = codes "none"
egress_text internal = codes "internal"
egress_text egress = codes "egress"

abbrev pub exceeds : Egress → Egress → Text → Fault
exceeds policy requested id = other_fault (
    codes "sandbox "
    ++ (id
        ++ (codes ": per-call egress '"
            ++ (egress_text requested
                ++ (codes "' exceeds policy '" ++ (egress_text policy ++ codes "'"))))))

-- What `waitUntilReady` throws after its deadline.
abbrev pub not_ready : Text → ℕ → Fault
not_ready id timeout_ms = other_fault (
    codes "sandbox "
    ++ (id ++ (codes " did not become ready within " ++ (show_ℕ timeout_ms ++ codes "ms"))))

abbrev network_egress : SandboxType → Option Egress → Egress
network_egress type (some requested) = requested
network_egress runtime none = internal
network_egress analysis none = no_egress

module _ {B : Type 0} where
  -- A call of the backend.
  abbrev pub with_backend : {A : Type 0} → (B → Result Fault A × B) → Managed B A
  with_backend operation m = let out = operation m.backend in (out.0, record m { backend = out.1 })

  -- `withTimeout(promise, timeoutMs, label)`: what was begun goes on behind.
  abbrev pub with_timeout : {A : Type 0} → Text → ℕ → (B → Timed A × B) → Managed B A
  with_timeout label timeout_ms operation m =
      let out = operation m.backend in (timed label timeout_ms out.0, record m { backend = out.1 })

  abbrev pub require : Text → Managed B Sandbox
  require id = reads (λ m. found id (get m.sandboxes id))

  -- `this.store.save(sandbox)`.
  abbrev pub save : Sandbox → Managed B (Unit {0})
  save sandbox = modify (λ m. record m { sandboxes = set m.sandboxes sandbox.id sandbox })

  -- `new Date()`, which reads the clock.
  abbrev pub at_clock : {A : Type 0} → (ℕ → Managed B A) → Managed B A
  at_clock next m = next m.clock m

  -- The stored record is read, changed and saved.
  unfoldable pub update : Text → (Sandbox → Sandbox) → Managed B Sandbox
  update id change = do sandbox ← require id; _ ← save (change sandbox); return (change sandbox)

  unfoldable pub transition : Text → SandboxStatus → Managed B Sandbox
  transition id status =
      at_clock λ now. update id (λ sandbox. record sandbox { status = status; updated_at = now })

  -- `transition(...).catch(() => undefined)`.
  abbrev pub try_transition : Text → SandboxStatus → Manager B → Manager B
  try_transition id status m = ran (transition id status) m

  -- `this.containerId(sandbox, id)`.
  abbrev pub container_id_of : Sandbox → Text → Managed B Text
  container_id_of sandbox id = reads (λ _. handle_of id sandbox.container_id)

  unfoldable pub assert_egress_allowed : Egress → Egress → Text → Managed B (Unit {0})
  assert_egress_allowed policy requested id =
      if ltb (rank policy) (rank requested) then throw (exceeds policy requested id) else return tt

-- The record that `createSandbox` begins with. Its id is made by `sandboxId`.
abbrev pub new_sandbox : Text → CreateSandboxInput → ℕ → Sandbox
new_sandbox id input now = record {
  id = id;
  scan_id = input.scan_id;
  type = input.type;
  status = pending;
  image = input.image;
  repository_path = input.repository_path;
  egress = network_egress input.type input.egress;
  allowlist = Option.get_or input.egress_allowlist [];
  container_id = none;
  network_id = none;
  workspace_path = none;
  ip_address = none;
  exposed_port = none;
  updated_at = now;
}

abbrev port_or : Option ℕ → Option ℕ → Option ℕ
port_or none other = other
port_or (some port) other = some port

-- `sbx_<scanId>_<eight characters>`.
abbrev pub sandbox_id : Text → Text → Text
sandbox_id scan_id uuid = codes "sbx_" ++ (scan_id ++ (codes "_" ++ take 8 uuid))

pub record SandboxHealth : Type 0 where
  pub is_up : Bool
  pub status : SandboxStatus

abbrev is_terminal : SandboxStatus → Bool
is_terminal destroyed = true
is_terminal failed = true
is_terminal _ = false

abbrev health_of : SandboxStatus → Timed Bool → SandboxHealth
health_of status (in_time (ok true)) = record { is_up = true; status = ready }
health_of status (in_time (ok false)) = record { is_up = false; status = status }
health_of status (in_time (err error)) = record { is_up = false; status = status }
health_of status late = record { is_up = false; status = status }

module _ {B : Type 0} (backend : SandboxBackend B) (options : Options) where
  -- The record of a sandbox that is not stored any more, which `destroy` saves and removes.
  abbrev unknown_sandbox : Text → ℕ → Sandbox
  unknown_sandbox id now = record {
    id = id;
    scan_id = codes "unknown";
    type = analysis;
    status = pending;
    image = [];
    repository_path = [];
    egress = no_egress;
    allowlist = [];
    container_id = none;
    network_id = none;
    workspace_path = none;
    ip_address = none;
    exposed_port = none;
    updated_at = now;
  }

  -- `(sandbox ? this.containerIdOr(sandbox) : undefined) ?? id`.
  abbrev backend_handle : Text → Option Sandbox → Text
  backend_handle id none = id
  backend_handle id (some sandbox) = Option.get_or sandbox.container_id id

  -- `destroy`, which never throws.
  unfoldable pub destroy : Text → Manager B → Manager B
  destroy id m =
      let existing = Option.get_or (get m.sandboxes id) (unknown_sandbox id m.clock) in
      record m {
        backend = backend.destroy (backend_handle id (get m.sandboxes id)) m.backend;
        sandboxes =
            remove
              (set m.sandboxes existing.id
                (record existing { status = destroyed; updated_at = m.clock }))
              id;
      }

  -- The body of `try` in `createSandbox`.
  unfoldable pub create_body : Text → Sandbox → Managed B Sandbox
  create_body id sandbox = do
    _ ← transition id creating
    made ←
        with_timeout (codes "create sandbox " ++ id) options.create_timeout_ms
          (backend.create sandbox)
    created ← update id (λ current. record current {
      container_id = some made.container_id;
      network_id = made.network_id;
      workspace_path = made.workspace_path;
      ip_address = made.ip_address;
      exposed_port = port_or made.host_port sandbox.exposed_port;
    })
    _ ← transition id starting
    handle ← container_id_of created id
    _ ← with_timeout (codes "start sandbox " ++ id) options.create_timeout_ms (backend.start handle)
    require id

  unfoldable pub create_sandbox : Text → CreateSandboxInput → Managed B Sandbox
  create_sandbox uuid input =
      let id = sandbox_id input.scan_id uuid in
      at_clock λ now. do
        _ ← save (new_sandbox id input now)
        try_catch (create_body id (new_sandbox id input now))
            (λ error. do _ ← modify (destroy id); throw error)

  -- The loop of `waitUntilReady`: a poll takes `poll_ms`, and the pause after it 250 milliseconds.
  unfoldable pub wait_from : (ℕ → ℕ) → Text → Text → ℕ → ℕ → ℕ → ℕ → Managed B Sandbox
  wait_from poll_ms id handle timeout_ms zero poll now = throw (not_ready id timeout_ms)
  wait_from poll_ms id handle timeout_ms (suc fuel) poll now =
      let rest =
        wait_from poll_ms id handle timeout_ms fuel (suc poll) (now + poll_ms poll + 250) in
      if ltb now timeout_ms
      then (do
        is_up ← with_backend (backend.is_ready handle)
        if is_up then transition id ready else rest)
      else throw (not_ready id timeout_ms)

  -- A round takes 250 milliseconds at least.
  unfoldable pub wait_until_ready : (ℕ → ℕ) → Text → ℕ → Managed B Sandbox
  wait_until_ready poll_ms id timeout_ms = do
    sandbox ← require id
    handle ← container_id_of sandbox id
    wait_from poll_ms id handle timeout_ms (timeout_ms / 250 + 1) 0 0

  unfoldable pub execute : Text → ExecRequest → Managed B ExecResult
  execute id request = do
    sandbox ← require id
    handle ← container_id_of sandbox id
    _ ← assert_egress_allowed sandbox.egress (Option.get_or request.network sandbox.egress) id
    _ ← transition id executing
    try_finally
        (with_backend (
          backend.execute handle request.argv (Option.get_or request.network sandbox.egress)
            (Option.get_or request.timeout_ms options.default_exec_timeout_ms)
            (Option.get_or request.env_allowlist (codes "PATH" ∷ codes "HOME" ∷ []))))
        (try_transition id running)

  unfoldable pub copy_file : Text → Text → Text → Managed B (Unit {0})
  copy_file id source_host_path dest_path = do
    sandbox ← require id
    handle ← container_id_of sandbox id
    with_backend (backend.copy_file handle source_host_path dest_path)

  -- The body of `try` in `restart`.
  unfoldable pub restart_body : Text → Managed B Sandbox
  restart_body id = do
    sandbox ← require id
    handle ← container_id_of sandbox id
    _ ← with_backend (backend.restart handle)
    transition id running

  unfoldable pub restart : Text → Managed B Sandbox
  restart id = do
    _ ← transition id restarting
    try_catch (restart_body id) (λ error. do _ ← modify (try_transition id failed); throw error)

  unfoldable pub write_files : Text → List (Text × Text) → Managed B (Unit {0})
  write_files handle [] = return tt
  write_files handle ((path, content) ∷ patches) = do
    _ ← with_backend (backend.write_file handle path content)
    write_files handle patches

  unfoldable pub apply_patch : Text → List (Text × Text) → Managed B Sandbox
  apply_patch id patches = do
    sandbox ← require id
    handle ← container_id_of sandbox id
    _ ← write_files handle patches
    restart id

  -- `healthCheck`, which never throws.
  unfoldable pub health_check : Text → Manager B → SandboxHealth × Manager B
  health_check id m = elim (get m.sandboxes id) [
    | none ↦ (record { is_up = false; status = pending }, m)
    | some sandbox ↦
        if is_terminal sandbox.status
        then (record { is_up = false; status = sandbox.status }, m)
        else elim (handle_of id sandbox.container_id) [
          | err error ↦ (record { is_up = false; status = sandbox.status }, m)
          | ok handle ↦
              let out = backend.is_ready_within handle m.backend in
              (health_of sandbox.status out.0, record m { backend = out.1 })
        ]
  ]
