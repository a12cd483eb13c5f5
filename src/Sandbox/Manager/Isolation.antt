-- ===== src/Sandbox/Manager/Isolation.antt =====
-- Every operation of sandbox-manager.service.ts works on one record and leaves those of other
-- sandboxes alone.
use autoforge.Sandbox.Manager.{
  Options, restart, wait_from, SandboxBackend, create_body, restart_body, Text, Sandbox, transition,
  with_timeout, update, container_id_of, require, write_files, with_backend, try_transition,
  create_sandbox, wait_until_ready, execute, copy_file, apply_patch, CreateSandboxInput,
  ExecRequest, sandbox_id, assert_egress_allowed, save, new_sandbox, destroy, Manager, get,
}
use autoforge.Common.{
  ◌++◌, ℕ, zero, suc, refl, ◌+◌, ◌∷◌, List, [], ltb, ◌/◌, ◌≡◌, ◌⊎◌, ◌==◌, inl, inr, true,
  Bool-cases,
}
use autoforge.Common.Texts.{Text, codes, text_eq}
use autoforge.Sandbox.{Sandbox, starting, restarting, running, ready, failed, executing, creating}
use autoforge.Common.Effect.{
  Keeps, throw-Keeps, bind-Keeps, if-Keeps, try_catch-Keeps, return-Keeps, modify, modify-Keeps,
  try_finally-Keeps, ran,
}
use autoforge.Sandbox.Manager.{apply_patch, save}
use autoforge.Sandbox.Manager.Frame.{
  set-Isolated, Isolated, Isolated-order, transition-Isolated, with_timeout-Isolated,
  update-Isolated, container_id_of-Isolated, require-Isolated, with_backend-Isolated,
  assert_egress_allowed-Isolated, destroy-Isolated, IsKeyed,
}
use autoforge.Common.JsMap.{get}

module _ {B : Type 0} (backend : SandboxBackend B) (options : Options) where
  create_body-Isolated :
      (id : Text) (sandbox : Sandbox) → Keeps (Isolated id) (create_body backend options id sandbox)
  unfolding create_body
  create_body-Isolated id sandbox =
      let order = Isolated-order {B = B} id in
      let make =
        with_timeout (codes "create sandbox " ++ id) options.create_timeout_ms
          (backend.create sandbox) in
      bind-Keeps order (transition id creating) _ (transition-Isolated id creating) λ _.
        bind-Keeps order make _
          (with_timeout-Isolated id (codes "create sandbox " ++ id) options.create_timeout_ms
            (backend.create sandbox))
          λ made. bind-Keeps order (update id _) _ (update-Isolated id _ (λ s. refl)) λ created.
            bind-Keeps order (transition id starting) _ (transition-Isolated id starting) λ _.
              bind-Keeps order (container_id_of created id) _
                (container_id_of-Isolated id created id)
                λ handle.
                  bind-Keeps order
                    (with_timeout (codes "start sandbox " ++ id) options.create_timeout_ms
                      (backend.start handle))
                    _
                    (with_timeout-Isolated id (codes "start sandbox " ++ id)
                      options.create_timeout_ms (backend.start handle))
                    λ _. require-Isolated id id

  restart_body-Isolated : (id : Text) → Keeps (Isolated id) (restart_body backend options id)
  unfolding restart_body
  restart_body-Isolated id =
      let order = Isolated-order {B = B} id in
      bind-Keeps order (require id) _ (require-Isolated id id) λ sandbox.
        bind-Keeps order (container_id_of sandbox id) _ (container_id_of-Isolated id sandbox id)
          λ handle.
            bind-Keeps order (with_backend (backend.restart handle)) _ (with_backend-Isolated id _)
              λ _. transition-Isolated id running

  pub restart-Isolated : (id : Text) → Keeps (Isolated id) (restart backend options id)
  unfolding restart
  restart-Isolated id =
      let order = Isolated-order {B = B} id in
      bind-Keeps order (transition id restarting) _ (transition-Isolated id restarting) λ _.
        try_catch-Keeps order (restart_body backend options id) _ (restart_body-Isolated id)
          λ error.
            bind-Keeps order (modify (try_transition id failed)) _
              (modify-Keeps order (try_transition id failed) (transition-Isolated id failed).keeps)
              λ _. throw-Keeps order error

  write_files-Isolated :
      (id handle : Text) (patches : List (Text × Text))
      → Keeps (Isolated id) (write_files backend options handle patches)
  unfolding write_files
  write_files-Isolated id handle [] = return-Keeps (Isolated-order id) tt
  write_files-Isolated id handle ((path, content) ∷ patches) =
      bind-Keeps (Isolated-order id) (with_backend (backend.write_file handle path content)) _
        (with_backend-Isolated id _) λ _. write_files-Isolated id handle patches

  wait_from-Isolated :
      (poll_ms : ℕ → ℕ) (id handle : Text) (timeout_ms fuel poll now : ℕ)
      → Keeps (Isolated id) (wait_from backend options poll_ms id handle timeout_ms fuel poll now)
  unfolding wait_from
  wait_from-Isolated poll_ms id handle timeout_ms zero poll now = throw-Keeps (Isolated-order id) _
  wait_from-Isolated poll_ms id handle timeout_ms (suc fuel) poll now =
      let order = Isolated-order {B = B} id in
      if-Keeps (ltb now timeout_ms) _ _
        (bind-Keeps order (with_backend (backend.is_ready handle)) _ (with_backend-Isolated id _)
          λ is_up. if-Keeps is_up _ _ (transition-Isolated id ready) (
            wait_from-Isolated poll_ms id handle timeout_ms fuel (suc poll)
              (now + poll_ms poll + 250)))
        (throw-Keeps order _)

  create_sandbox-Isolated :
      (uuid : Text) (input : CreateSandboxInput)
      → Keeps (Isolated (sandbox_id input.scan_id uuid)) (create_sandbox backend options uuid input)
  unfolding create_sandbox
  create_sandbox-Isolated uuid input =
      let id = sandbox_id input.scan_id uuid in
      let order = Isolated-order {B = B} id in
      record {
        keeps = λ m.
            (bind-Keeps order (save (new_sandbox id input m.clock)) _
                (modify-Keeps order _ (λ s. set-Isolated id s (new_sandbox id input m.clock) refl))
                λ _.
                  try_catch-Keeps order
                    (create_body backend options id (new_sandbox id input m.clock)) _
                    (create_body-Isolated id (new_sandbox id input m.clock))
                    λ error.
                      bind-Keeps order (modify (destroy backend options id)) _
                        (modify-Keeps order (destroy backend options id)
                          (destroy-Isolated backend options id))
                        λ _. throw-Keeps order error).keeps
              m;
      }

  wait_until_ready-Isolated :
      (poll_ms : ℕ → ℕ) (id : Text) (timeout_ms : ℕ)
      → Keeps (Isolated id) (wait_until_ready backend options poll_ms id timeout_ms)
  unfolding wait_until_ready
  wait_until_ready-Isolated poll_ms id timeout_ms =
      let order = Isolated-order {B = B} id in
      bind-Keeps order (require id) _ (require-Isolated id id) λ sandbox.
        bind-Keeps order (container_id_of sandbox id) _ (container_id_of-Isolated id sandbox id)
          λ handle. wait_from-Isolated poll_ms id handle timeout_ms (timeout_ms / 250 + 1) 0 0

  execute-Isolated :
      (id : Text) (request : ExecRequest) → Keeps (Isolated id) (execute backend options id request)
  unfolding execute
  execute-Isolated id request =
      let order = Isolated-order {B = B} id in
      bind-Keeps order (require id) _ (require-Isolated id id) λ sandbox.
        bind-Keeps order (container_id_of sandbox id) _ (container_id_of-Isolated id sandbox id)
          λ handle.
            bind-Keeps order (assert_egress_allowed sandbox.egress _ id) _
              (assert_egress_allowed-Isolated id sandbox.egress _ id)
              λ _.
                bind-Keeps order (transition id executing) _ (transition-Isolated id executing) λ _.
                  try_finally-Keeps order (with_backend _) (try_transition id running)
                    (with_backend-Isolated id _) (transition-Isolated id running).keeps

  copy_file-Isolated :
      (id source_host_path dest_path : Text)
      → Keeps (Isolated id) (copy_file backend options id source_host_path dest_path)
  unfolding copy_file
  copy_file-Isolated id source_host_path dest_path =
      let order = Isolated-order {B = B} id in
      bind-Keeps order (require id) _ (require-Isolated id id) λ sandbox.
        bind-Keeps order (container_id_of sandbox id) _ (container_id_of-Isolated id sandbox id)
          λ handle. with_backend-Isolated id (backend.copy_file handle source_host_path dest_path)

  apply_patch-Isolated :
      (id : Text) (patches : List (Text × Text))
      → Keeps (Isolated id) (apply_patch backend options id patches)
  unfolding apply_patch
  apply_patch-Isolated id patches =
      let order = Isolated-order {B = B} id in
      bind-Keeps order (require id) _ (require-Isolated id id) λ sandbox.
        bind-Keeps order (container_id_of sandbox id) _ (container_id_of-Isolated id sandbox id)
          λ handle.
            bind-Keeps order (write_files backend options handle patches) _
              (write_files-Isolated id handle patches) λ _. restart-Isolated id

  -- Each stored record stands under its own id, and those of other ids are as before.
  unfoldable pub Alone : Text → Manager B → Manager B → Type 0
  Alone id before after =
      IsKeyed after
      × ((j : Text) → ((id == j) ≡ true) ⊎ (get after.sandboxes j ≡ get before.sandboxes j))

  alone : (id : Text) (m n : Manager B) → IsKeyed m → Isolated id m n → Alone id m n
  unfolding Alone Isolated
  alone id m n keyed isolated = (
    (isolated keyed).0,
    λ j. elim (Bool-cases (id == j)) [
      | inl hit ↦ inl hit
      | inr miss ↦ inr ((isolated keyed).1 j miss)
    ],
  )

  -- Every operation of the manager works on one sandbox. If each stored record stands under its own
  -- id, then whatever the backend does, answers or throws, and whether or not the operation throws,
  -- this is so afterwards, and the records of all other ids are as they were. The operations are
  -- createSandbox (on the id that it makes), waitUntilReady, execute, copyFile, applyPatch, restart
  -- and destroy.
  pub operations-Alone :
      (id : Text) (m : Manager B)
      → IsKeyed m
      → ((uuid : Text) (input : CreateSandboxInput)
          → Alone
              (sandbox_id input.scan_id uuid)
              m
              (ran (create_sandbox backend options uuid input) m))
        × ((poll_ms : ℕ → ℕ) (timeout_ms : ℕ)
            → Alone id m (ran (wait_until_ready backend options poll_ms id timeout_ms) m))
        × ((request : ExecRequest) → Alone id m (ran (execute backend options id request) m))
        × ((source dest : Text) → Alone id m (ran (copy_file backend options id source dest) m))
        × ((patches : List (Text × Text))
            → Alone id m (ran (apply_patch backend options id patches) m))
        × Alone id m (ran (restart backend options id) m)
        × Alone id m (destroy backend options id m)
  operations-Alone id m keyed = (
    λ uuid input. alone _ m _ keyed ((create_sandbox-Isolated uuid input).keeps m),
    λ poll_ms timeout_ms.
        alone id m _ keyed ((wait_until_ready-Isolated poll_ms id timeout_ms).keeps m),
    λ request. alone id m _ keyed ((execute-Isolated id request).keeps m),
    λ source dest. alone id m _ keyed ((copy_file-Isolated id source dest).keeps m),
    λ patches. alone id m _ keyed ((apply_patch-Isolated id patches).keeps m),
    alone id m _ keyed ((restart-Isolated id).keeps m),
    alone id m _ keyed (destroy-Isolated backend options id m),
  )
