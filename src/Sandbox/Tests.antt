-- ===== src/Sandbox/Tests.antt =====
-- Concrete runs of the sandboxes: a backend and collaborators that answer at once.
use autoforge.Sandbox.Manager.{
  Options, destroy, execute, SandboxBackend, Manager, create_sandbox, restart, CreateResult,
  in_time, CreateSandboxInput, wait_from, ExecRequest, wait_until_ready, require, container_id_of,
}
use autoforge.Sandbox.{
  runtime, Sandbox, codes, Egress, ready, egress, internal, running, other_fault, starting, failed,
}
use autoforge.Common.{
  ◌+◌, ◌/◌, ◌≡◌, ◌∷◌, ◌==◌, if◌then◌else◌, ℕ, suc, refl, inl, inr, true, false, none, some, [],
  Bool-cases, ◌≤◌, ◌∙◌, ◌++◌, sym, ap, List, arith, ==_iff,
}
use autoforge.Common.Texts.{codes, Text, text_eq}
use autoforge.Sandbox.Manager.Frame.{IsKeyed}
use autoforge.Sandbox.Manager.Isolation.{Alone, operations-Alone}
use autoforge.Common.Triple.{Post}
use autoforge.Common.JsMap.{get, size, set, remove}
use autoforge.Common.Result.{ok, err}
use autoforge.Sandbox.Manager.Stored.{Is, Stored}
use autoforge.Sandbox.Manager.Lifecycle.{
  IsUnknown, AsAskedIn, destroy_final, create_sandbox_lem, restart_lem,
}
use autoforge.Sandbox.Manager.Policy.{wait_until_ready_fuel, execute_policy}
use autoforge.Sandbox.Runtime.{
  ResolvedRuntime, CreatedSandbox, HealthProbe, RuntimePorts, ResourceLimits, RuntimeOptions,
  RuntimeRequest, RuntimeSandbox, seed_runtime_sandbox, Runtime, destroyed_status, ProvisionRequest,
  read_sandbox, list_by_status, save_sandbox,
}
use autoforge.Sandbox.Runtime.Provision.{Durations, probe_from, probe_with_retries}
use autoforge.Sandbox.Runtime.Failed.{Failed}
use autoforge.Common.Effect.{ran, ◌>>=◌}
use autoforge.Sandbox.Runtime.Service.{
  destroy as destroy_runtime, get_sandbox, cleanup_expired, expire_statuses, destroy_live,
  expire_all, cleanup, clean_all,
}
use autoforge.Sandbox.Runtime.Creation.{create}
use autoforge.Sandbox.Runtime.Capacity.Ceiling.{create-capacity}
use autoforge.Sandbox.Runtime.Reclaim.{Reclaimed, destroy-again, AnyEnd, destroy-Reclaimed}
use autoforge.Sandbox.Runtime.Environment.{build_runtime_container}
use autoforge.Sandbox.Runtime.Probing.{probe_with_retries_fuel}

abbrev made : CreateResult
made = record {
  container_id = codes "c1";
  network_id = none;
  workspace_path = none;
  ip_address = none;
  host_port = none;
}

-- A backend that counts the commands it ran.
abbrev test_backend : SandboxBackend ℕ
test_backend = record {
  create = λ s b. (in_time (ok made), b);
  start = λ handle b. (in_time (ok tt), b);
  is_ready = λ handle b. (ok true, b);
  is_ready_within = λ handle b. (in_time (ok true), b);
  execute = λ handle argv network timeout env b.
      (ok (record { stdout = []; stderr = []; exit_code = some 0; timed_out = false }), suc b);
  write_file = λ handle path content b. (ok tt, b);
  copy_file = λ handle source dest b. (ok tt, b);
  restart = λ handle b. (err (other_fault (codes "no")), b);
  destroy = λ handle b. b;
}

abbrev test_options : Options
test_options = record { default_exec_timeout_ms = 1000; create_timeout_ms = 1000 }

abbrev test_sandbox : Sandbox
test_sandbox = record {
  id = codes "s1";
  scan_id = codes "a";
  type = runtime;
  status = ready;
  image = [];
  repository_path = [];
  egress = internal;
  allowlist = [];
  container_id = some (codes "c1");
  network_id = none;
  workspace_path = none;
  ip_address = none;
  exposed_port = none;
  updated_at = 0;
}

abbrev test_manager : Manager ℕ
test_manager = record { sandboxes = (codes "s1", test_sandbox) ∷ []; backend = 0; clock = 5 }

abbrev test_input : CreateSandboxInput
test_input = record {
  scan_id = codes "a";
  type = runtime;
  image = [];
  repository_path = [];
  egress = none;
  egress_allowlist = none;
}

abbrev test_request : Egress → ExecRequest
test_request network = record {
  argv = codes "ls" ∷ [];
  timeout_ms = none;
  env_allowlist = none;
  network = some network;
}

test_manager-IsKeyed : IsKeyed test_manager
unfolding IsKeyed get
test_manager-IsKeyed j s e = elim (Bool-cases (codes "s1" == j)) [
  | inl hit ↦ keyed_one j s hit e
  | inr miss ↦ absurd (cc (rw miss at e))
]
  where
    keyed_one :
        (j : Text) (s : Sandbox)
        → (codes "s1" == j) ≡ true
        → (if codes "s1" == j then some test_sandbox else none) ≡ some s
        → s.id ≡ j
    keyed_one j s hit e =
        let found : some test_sandbox ≡ some s = rw hit at e in
        let same : test_sandbox ≡ s = cc found in
        ap (λ r. r.id) (sym same) ∙ (==_iff (codes "s1") j).0 hit

operations-Alone_example :
    Alone test_backend test_options
      (codes "s1")
      test_manager
      (destroy test_backend test_options (codes "s1") test_manager)
operations-Alone_example =
    (operations-Alone test_backend test_options (codes "s1") test_manager test_manager-IsKeyed).6

create_sandbox_lem_example :
    Post
      (Is (codes "sbx_a_12345678") (AsAskedIn (codes "sbx_a_12345678") test_input starting))
      (λ _ after. get after.sandboxes (codes "sbx_a_12345678") ≡ none)
      (create_sandbox test_backend test_options (codes "123456789") test_input test_manager)
create_sandbox_lem_example =
    create_sandbox_lem test_backend test_options (codes "123456789") test_input test_manager

restart_lem_example :
    Post
      (Is (codes "s1") (λ s. (s.id ≡ codes "s1") × (s.status ≡ running)))
      (λ _. Stored (codes "s1") (λ s. (s.id ≡ codes "s1") × (s.status ≡ failed)))
      (restart test_backend test_options (codes "s1") test_manager)
unfolding get
restart_lem_example =
    restart_lem test_backend test_options (codes "s1") test_manager test_sandbox refl refl

destroy_final_example :
    (get (destroy test_backend test_options (codes "s1") test_manager).sandboxes (codes "s1")
      ≡ none)
    × IsUnknown test_backend test_options
        (codes "s1")
        (destroy test_backend test_options (codes "s1") test_manager)
destroy_final_example = destroy_final test_backend test_options (codes "s1") test_manager

execute_policy_example :
    execute test_backend test_options (codes "s1") (test_request egress) test_manager ≡ (
      err (other_fault (codes "sandbox s1: per-call egress 'egress' exceeds policy 'internal'")),
      test_manager,
    )
unfolding get
execute_policy_example =
    execute_policy test_backend test_options (codes "s1") test_manager test_sandbox (codes "c1")
      (test_request egress) refl refl refl

wait_until_ready_fuel_example :
    wait_until_ready test_backend test_options (λ n. 10) (codes "s1") 500 ≡ (
      require {B = ℕ} (codes "s1") >>= λ sandbox. container_id_of sandbox (codes "s1") >>= λ handle.
      wait_from test_backend test_options (λ n. 10) (codes "s1") handle 500 (500 / 250 + 1 + 7) 0 0)
wait_until_ready_fuel_example =
    wait_until_ready_fuel test_backend test_options (λ n. 10) (codes "s1") 500 7

-- Collaborators of the runtime service that all answer; the world counts the images that are built.
abbrev test_resolved : ResolvedRuntime
test_resolved = record {
  generated_dockerfile = none;
  dockerfile = none;
  command = [];
  port = 3000;
  health_path = codes "/";
}

abbrev test_created : CreatedSandbox
test_created = record {
  id = codes "sbx";
  container_id = none;
  network_id = some (codes "n");
  ip_address = some (codes "ip");
  exposed_port = none;
}

abbrev test_probe : HealthProbe
test_probe = record { reachable = true; latency_ms = 1; status_code = none; detail = none }

abbrev test_ports : RuntimePorts ℕ
test_ports = record {
  save_row = λ s w. (ok tt, w);
  read_row = λ id w. (ok tt, w);
  list_rows = λ w. (ok tt, w);
  scan_exists = λ scan w. (ok true, w);
  scan_repository_relation = λ scan repository w. (ok none, w);
  prepare =
      λ repository w. (ok (record { workspace_path = codes "w"; repo_path = codes "w/r" }), w);
  cleanup_workspace = λ path w. (ok tt, w);
  resolve_runtime_config = λ path port w. (ok test_resolved, w);
  write_file = λ path text w. (ok tt, w);
  join_path = λ directory file. directory ++ (codes "/" ++ file);
  build_image = λ request w. (ok (codes "image"), suc w);
  remove_image = λ image w. (ok tt, w);
  create_sandbox = λ request w. (ok test_created, w);
  wait_until_ready = λ id timeout w. (ok tt, w);
  inspect = λ id w. (ok none, w);
  probe = λ host port path timeout w. (ok test_probe, w);
  probe_network = λ network host port path timeout image w. (ok test_probe, w);
  collect_logs = λ id count w. w;
  destroy_sandbox = λ id w. (ok tt, w);
  publish = λ event w. w;
}

abbrev test_limits : ResourceLimits
test_limits = record { cpus = 1; memory = codes "512m"; pids = 64 }

abbrev runtime_options : RuntimeOptions
runtime_options = record {
  max_concurrent = 1;
  lifetime_ms = 600000;
  build_timeout_ms = 1000;
  start_timeout_ms = 1000;
  health_timeout_ms = 3000;
  allow_host_expose = false;
  probe_image = [];
  limits = test_limits;
  runtime = codes "docker";
}

abbrev test_durations : Durations
test_durations = record { inspect_ms = λ n. 5; probe_ms = λ n. 20 }

abbrev runtime_input : RuntimeRequest
runtime_input = record {
  scan_id = codes "a";
  repository = record { name = none; url = none; path = none };
  name = none;
  max_age_ms = none;
  host_expose = false;
  port_override = none;
  env = (codes "SECRET", codes "x") ∷ [];
}

abbrev runtime_sandbox : Text → RuntimeSandbox
runtime_sandbox uuid = seed_runtime_sandbox uuid runtime_input 600000 0

abbrev runtime_state : List (Text × RuntimeSandbox) → Runtime ℕ
runtime_state entries = record { rows = entries; live = entries; world = 0; clock = 10 }

create-capacity_example :
    size
      (ran
        (create test_ports runtime_options test_durations (codes "u") (codes "v") runtime_input)
        (runtime_state [])).live
    ≤ 1
create-capacity_example =
    create-capacity test_ports runtime_options test_durations (codes "u") (codes "v") runtime_input
      (runtime_state []) (omega arith)

abbrev one_state : Runtime ℕ
one_state = runtime_state ((codes "rts_u", runtime_sandbox (codes "u")) ∷ [])

one_row-named :
    (s : RuntimeSandbox) → get one_state.rows (codes "rts_u") ≡ some s → s.id ≡ codes "rts_u"
unfolding get
one_row-named s e = let same : runtime_sandbox (codes "u") ≡ s = cc e in ap (λ r. r.id) (sym same)

abbrev gone_sandbox : RuntimeSandbox
gone_sandbox = record (runtime_sandbox (codes "u")) {
  status = destroyed_status;
  destroyed_at = some 10;
}

abbrev gone_state : Runtime ℕ
gone_state = record { rows = (codes "rts_u", gone_sandbox) ∷ []; live = []; world = 0; clock = 10 }

destroy_test :
    destroy_runtime test_ports runtime_options test_durations (codes "rts_u") none one_state
    ≡ (ok gone_sandbox, gone_state)
unfolding destroy_runtime get_sandbox read_sandbox destroy_live save_sandbox cleanup get set remove
destroy_test = refl

destroy-Reclaimed_example :
    Post
      (Reclaimed test_ports runtime_options test_durations (codes "rts_u"))
      (AnyEnd test_ports runtime_options test_durations)
      (destroy_runtime test_ports runtime_options test_durations (codes "rts_u") none one_state)
destroy-Reclaimed_example =
    destroy-Reclaimed test_ports runtime_options test_durations (codes "rts_u") none one_state
      one_row-named

destroy-again_example :
    destroy_runtime test_ports runtime_options test_durations (codes "rts_u") none gone_state
    ≡ (ok gone_sandbox, gone_state)
destroy-again_example =
    destroy-again test_ports runtime_options test_durations (codes "rts_u") one_state gone_state
      gone_sandbox one_row-named destroy_test refl

full_test :
    1 ≤ size (ran (cleanup_expired test_ports runtime_options test_durations) one_state).live
unfolding cleanup_expired expire_statuses list_by_status expire_all clean_all
full_test = let one : 1 ≤ 1 = omega arith in one

abbrev confined_request : ProvisionRequest
confined_request = record {
  scan_id = codes "a";
  type = runtime;
  repository_path = codes "rts_u";
  image = [];
  egress = internal;
  limits = test_limits;
  mount_repository = false;
  env = build_runtime_container 3000 none runtime_input.env;
  app_command = [];
  host_publish_port = none;
}

probe_with_retries_fuel_example :
    probe_with_retries test_ports runtime_options test_durations
      (runtime_sandbox (codes "u"))
      (codes "/")
    ≡ probe_from test_ports runtime_options test_durations
        (runtime_sandbox (codes "u"))
        (codes "/")
        (3000 / 1000 + 1 + 9)
        0
        0
        (record {
          reachable = false;
          latency_ms = 0;
          status_code = none;
          detail = some (codes "unreachable");
        })
probe_with_retries_fuel_example =
    probe_with_retries_fuel test_ports runtime_options test_durations (runtime_sandbox (codes "u"))
      (codes "/") 9
