-- ===== src/Sandbox/Manager/Policy.antt =====
-- The egress policy of sandbox-manager.service.ts, and the deadline of its waitUntilReady.
use mathlib.Core.Option
use autoforge.Sandbox.Manager.{
  Options, SandboxBackend, execute, wait_from, Text, assert_egress_allowed, Sandbox, Manager,
  ExecRequest, get, handle_of, ok, rank, ExecResult, not_ready, exceeds, wait_until_ready, require,
  container_id_of, Managed,
}
use autoforge.Common.{
  not-ltb, ◌+◌, ◌*◌, ◌≤◌, ◌≡◌, ◌∷◌, ℕ, zero, suc, refl, some, [], ◌∙◌, sym, ap, arith, ◌/◌,
  if◌then◌else◌, inl, inr, false, ltb, Bool-cases,
}
use autoforge.Common.Texts.{Text, codes, text_eq}
use autoforge.Sandbox.{Sandbox, running, SandboxStatus, Fault, executing}
use autoforge.Common.JsMap.{get-set_at, get, set}
use autoforge.Common.Result.{ok, err, Result}
use autoforge.Sandbox.Manager.Stored.{transition-some}
use mathlib.Core.Path.{fun_ext}
use autoforge.Common.Effect.{◌>>=◌}

module _ {B : Type 0} (backend : SandboxBackend B) (options : Options) where
  -- What the backend is asked to run.
  abbrev pub asked : Sandbox → Text → ExecRequest → B → Result Fault ExecResult × B
  asked sandbox handle request =
      backend.execute handle request.argv (Option.get_or request.network sandbox.egress)
        (Option.get_or request.timeout_ms options.default_exec_timeout_ms)
        (Option.get_or request.env_allowlist (codes "PATH" ∷ codes "HOME" ∷ []))

  abbrev pub as_status : SandboxStatus → ℕ → Sandbox → Sandbox
  as_status status now s = record s { status = status; updated_at = now }

  execute-within :
      (id : Text) (m : Manager B) (sandbox : Sandbox) (handle : Text) (request : ExecRequest)
      → get m.sandboxes id ≡ some sandbox
      → sandbox.id ≡ id
      → handle_of id sandbox.container_id ≡ ok handle
      → ltb (rank sandbox.egress) (rank (Option.get_or request.network sandbox.egress)) ≡ false
      → execute backend options id request m ≡ (
        (asked sandbox handle request m.backend).0,
        record m {
          backend = (asked sandbox handle request m.backend).1;
          sandboxes =
              set
                (set m.sandboxes sandbox.id (as_status executing m.clock sandbox))
                sandbox.id
                (as_status running m.clock sandbox);
        },
      )
  unfolding execute assert_egress_allowed
  execute-within id m sandbox handle request e same h within =
      let one = record m {
        backend = (asked sandbox handle request m.backend).1;
        sandboxes = set m.sandboxes sandbox.id (as_status executing m.clock sandbox);
      } in
      rw (e, h, within, transition-some id executing m sandbox e)
        (ap (λ out. ((asked sandbox handle request m.backend).0, out.1))
          (transition-some id running one (as_status executing m.clock sandbox)
            (get-set_at m.sandboxes sandbox.id id (as_status executing m.clock sandbox) same)))

  -- execute on a stored sandbox with a container never exceeds the sandbox's egress policy. A call
  -- whose egress ranks above it throws, and the whole state, the backend's with it, is left as it was.
  -- Any other call hands the backend the command, once, with the egress that is asked for or the
  -- sandbox's own, gives back what the backend answers or throws, and leaves the record RUNNING, by
  -- way of EXECUTING.
  pub execute_policy :
      (id : Text) (m : Manager B) (sandbox : Sandbox) (handle : Text) (request : ExecRequest)
      → get m.sandboxes id ≡ some sandbox
      → sandbox.id ≡ id
      → handle_of id sandbox.container_id ≡ ok handle
      → execute backend options id request m ≡ (
          if ltb (rank sandbox.egress) (rank (Option.get_or request.network sandbox.egress))
          then (err (exceeds sandbox.egress (Option.get_or request.network sandbox.egress) id), m)
          else (
            (asked sandbox handle request m.backend).0,
            record m {
              backend = (asked sandbox handle request m.backend).1;
              sandboxes =
                  set
                    (set m.sandboxes sandbox.id (as_status executing m.clock sandbox))
                    sandbox.id
                    (as_status running m.clock sandbox);
            },
          ))
  unfolding execute assert_egress_allowed
  execute_policy id m sandbox handle request e same h =
      elim (Bool-cases
        (ltb (rank sandbox.egress) (rank (Option.get_or request.network sandbox.egress)))) [
          | inl above ↦ rw (e, h, above) refl
          | inr within ↦ rw within (execute-within id m sandbox handle request e same h within)
        ]

  after_deadline :
      (poll_ms : ℕ → ℕ) (id handle : Text) (timeout_ms fuel poll now : ℕ) (m : Manager B)
      → timeout_ms ≤ now
      → wait_from backend options poll_ms id handle timeout_ms fuel poll now m
        ≡ (err (not_ready id timeout_ms), m)
  unfolding wait_from
  after_deadline poll_ms id handle timeout_ms zero poll now m late = refl
  after_deadline poll_ms id handle timeout_ms (suc fuel) poll now m late =
      rw (not-ltb now timeout_ms late) refl

  wait_from-enough :
      (poll_ms : ℕ → ℕ) (id handle : Text) (timeout_ms fuel extra poll now : ℕ)
      → timeout_ms ≤ now + 250 * fuel
      → wait_from backend options poll_ms id handle timeout_ms (fuel + extra) poll now
        ≡ wait_from backend options poll_ms id handle timeout_ms fuel poll now
  unfolding wait_from
  wait_from-enough poll_ms id handle timeout_ms zero extra poll now late = fun_ext λ m.
      let over : timeout_ms ≤ now = omega arith in
      after_deadline poll_ms id handle timeout_ms (0 + extra) poll now m over
      ∙ sym (after_deadline poll_ms id handle timeout_ms 0 poll now m over)
  wait_from-enough poll_ms id handle timeout_ms (suc fuel) extra poll now late =
      let over : timeout_ms ≤ now + poll_ms poll + 250 + 250 * fuel = omega arith in
      let step : suc fuel + extra ≡ suc (fuel + extra) = omega arith in
      rw
        (
          step,
          wait_from-enough poll_ms id handle timeout_ms fuel extra (suc poll)
              (now + poll_ms poll + 250) over,
        )
        refl

  -- The rounds that waitUntilReady is given are enough: on any number of rounds more than a quarter of
  -- a second each of the timeout would make, and one, for every backend, every state and any duration
  -- of the polls, the same loop gives the same outcome and leaves the same state.
  pub wait_until_ready_fuel :
      (poll_ms : ℕ → ℕ) (id : Text) (timeout_ms extra : ℕ)
      → wait_until_ready backend options poll_ms id timeout_ms ≡ (
          require {B = B} id >>= λ sandbox. container_id_of sandbox id >>= λ handle.
          wait_from backend options poll_ms id handle timeout_ms (timeout_ms / 250 + 1 + extra) 0 0)
  unfolding wait_until_ready
  wait_until_ready_fuel poll_ms id timeout_ms extra =
      let enough : timeout_ms ≤ 0 + 250 * (timeout_ms / 250 + 1) = omega arith in
      ap
        (λ (loop : Text → Managed B Sandbox).
          require id >>= λ sandbox. container_id_of sandbox id >>= λ handle. loop handle)
        (fun_ext λ handle.
          sym
            (wait_from-enough poll_ms id handle timeout_ms (timeout_ms / 250 + 1) extra 0 0 enough))
