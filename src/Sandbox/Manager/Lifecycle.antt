-- ===== src/Sandbox/Manager/Lifecycle.antt =====
-- The life of a sandbox in sandbox-manager.service.ts: what the record says after createSandbox,
-- restart and destroy, whether they return or throw.
use autoforge.Common.{◌≡◌, ◌∙◌, refl, ◌++◌, none, ℕ, false, some, List}
use autoforge.Common.Texts.{Text, codes, text_eq}
use mathlib.Core.Option
use autoforge.Sandbox.Manager.{
  Options, SandboxBackend, CreateSandboxInput, Options, Sandbox, SandboxStatus, restart_body,
  network_egress, require, container_id_of, with_backend, restart, create_body, transition, ◌>>=◌,
  try_transition, with_timeout, update, destroy, create_sandbox, Manager, get, sandbox_id,
  new_sandbox, save, unknown_sandbox, execute, ExecRequest, wait_until_ready, err, copy_file,
  apply_patch, health_check,
}
use autoforge.Sandbox.{
  Sandbox, SandboxStatus, running, failed, starting, Fault, creating, restarting, other_fault,
  pending,
}
use autoforge.Common.Triple.{
  Triple, bind-Triple, weaken-Triple, try_catch-Triple, ran-Triple, Post, modify-Triple,
  throw-Triple,
}
use autoforge.Sandbox.Manager.Stored.{
  Stored, Is, require-Stored, Is-Stored, container_id_of-Stored, with_backend-Stored,
  transition-Stored, with_timeout-Stored, update-Stored, save-Stored,
}
use autoforge.Common.Effect.{◌>>=◌, modify, throw}
use autoforge.Common.JsMap.{get, get-remove_self, set}
use autoforge.Common.Result.{err}

-- What createSandbox was asked for, as the record has it.
pub record AsAsked (id : Text) (input : CreateSandboxInput) (s : Sandbox) : Type 0 where
  pub same_id : s.id ≡ id
  pub same_scan : s.scan_id ≡ input.scan_id
  pub same_type : s.type ≡ input.type
  pub same_egress : s.egress ≡ network_egress input.type input.egress

abbrev pub AsAskedIn : Text → CreateSandboxInput → SandboxStatus → Sandbox → Type 0
AsAskedIn id input status s = AsAsked id input s × (s.status ≡ status)

change-AsAsked :
    (id : Text) (input : CreateSandboxInput) (s change : Sandbox)
    → change.id ≡ s.id
    → change.scan_id ≡ s.scan_id
    → change.type ≡ s.type
    → change.egress ≡ s.egress
    → AsAsked id input s
    → AsAsked id input change
change-AsAsked id input s change a b c d h = record {
  same_id = a ∙ h.same_id;
  same_scan = b ∙ h.same_scan;
  same_type = c ∙ h.same_type;
  same_egress = d ∙ h.same_egress;
}

module _ {B : Type 0} (backend : SandboxBackend B) (options : Options) where
  restart_body-Triple :
      (id : Text)
      → Triple
          (Stored {B = B} id (λ s. s.id ≡ id))
          (restart_body backend options id)
          (Is id (λ s. (s.id ≡ id) × (s.status ≡ running)))
          (λ _. Stored id (λ s. s.id ≡ id))
  unfolding restart_body
  restart_body-Triple id =
      bind-Triple (Is id (λ s. s.id ≡ id)) (require id) _ (require-Stored id _) λ sandbox.
        bind-Triple _ (container_id_of sandbox id) _
          (weaken-Triple _ (Is-Stored id _ sandbox) (λ _ m h. h) (λ _ m h. h)
            (container_id_of-Stored id _ sandbox))
          λ handle.
            bind-Triple _ (with_backend (backend.restart handle)) _ (with_backend-Stored id _ _)
              λ _.
                transition-Stored id _ (λ s. (s.id ≡ id) × (s.status ≡ running)) running
                  (λ s now same. (same, (same, refl)))

  failing-Triple :
      (id : Text) (error : Fault)
      → Triple
          (Stored {B = B} id (λ s. s.id ≡ id))
          (◌>>=◌ {B = Sandbox} (modify (try_transition id failed)) (λ _. throw error))
          (Is id (λ s. (s.id ≡ id) × (s.status ≡ running)))
          (λ _. Stored id (λ s. (s.id ≡ id) × (s.status ≡ failed)))
  failing-Triple id error =
      bind-Triple (λ _. Stored id (λ s. (s.id ≡ id) × (s.status ≡ failed)))
        (modify (try_transition id failed)) _
        (modify-Triple _ (try_transition id failed) (
          ran-Triple (Stored {B = B} id (λ s. s.id ≡ id)) _ (transition id failed) (
            weaken-Triple _ (λ m h. h) (Is-Stored id _) (λ _ m h. h)
              (transition-Stored id _ (λ s. (s.id ≡ id) × (s.status ≡ failed)) failed
                (λ s now same. (same, (same, refl)))))))
        λ _. throw-Triple (λ _. Stored id (λ s. (s.id ≡ id) × (s.status ≡ failed))) error

  restart-Triple :
      (id : Text)
      → Triple
          (Stored {B = B} id (λ s. s.id ≡ id))
          (restart backend options id)
          (Is id (λ s. (s.id ≡ id) × (s.status ≡ running)))
          (λ _. Stored id (λ s. (s.id ≡ id) × (s.status ≡ failed)))
  unfolding restart
  restart-Triple id =
      bind-Triple (Is id (λ s. s.id ≡ id)) (transition id restarting) _
        (transition-Stored id _ _ restarting (λ s now same. (same, same)))
        λ sandbox.
          weaken-Triple _ (Is-Stored id _ sandbox) (λ _ m h. h) (λ _ m h. h)
            (try_catch-Triple (λ _. Stored id (λ s. s.id ≡ id)) (restart_body backend options id) _
              (restart_body-Triple id) λ error. failing-Triple id error)

  create_body-Triple :
      (id : Text) (input : CreateSandboxInput) (sandbox : Sandbox)
      → Triple
          (Stored {B = B} id (AsAsked id input))
          (create_body backend options id sandbox)
          (Is id (AsAskedIn id input starting))
          (λ _ _. Unit {0})
  unfolding create_body
  create_body-Triple id input sandbox =
      let asked = AsAsked id input in
      let moved = AsAskedIn id input starting in
      bind-Triple (Is id asked) (transition id creating) _
        (transition-Stored id asked asked creating
          λ s now h. (h.same_id, change-AsAsked id input s _ refl refl refl refl h))
        λ current.
          bind-Triple (λ _. Stored id asked)
            (with_timeout (codes "create sandbox " ++ id) options.create_timeout_ms
              (backend.create sandbox))
            _
            (weaken-Triple _ (Is-Stored id asked current) (λ _ m h. h) (λ _ _ _. tt)
              (with_timeout-Stored id asked (codes "create sandbox " ++ id)
                options.create_timeout_ms (backend.create sandbox)))
            λ made.
              bind-Triple (Is id asked) (update id _) _
                (update-Stored id asked asked _
                  λ s h. (h.same_id, change-AsAsked id input s _ refl refl refl refl h))
                λ created.
                  bind-Triple (Is id moved) (transition id starting) _
                    (weaken-Triple _ (Is-Stored id asked created) (λ _ m h. h) (λ _ _ _. tt)
                      (transition-Stored id asked moved starting {X = λ _ _. Unit {0}} λ s now h.
                        (h.same_id, (change-AsAsked id input s _ refl refl refl refl h, refl))))
                    λ started.
                      bind-Triple (λ _. Stored id moved) (container_id_of created id) _
                        (weaken-Triple _ (Is-Stored id moved started) (λ _ m h. h) (λ _ _ _. tt)
                          (container_id_of-Stored id moved created))
                        λ handle.
                          bind-Triple (λ _. Stored id moved)
                            (with_timeout (codes "start sandbox " ++ id) options.create_timeout_ms
                              (backend.start handle))
                            _
                            (weaken-Triple _ (λ m h. h) (λ _ m h. h) (λ _ _ _. tt)
                              (with_timeout-Stored id moved (codes "start sandbox " ++ id)
                                options.create_timeout_ms (backend.start handle)))
                            λ _. require-Stored id moved

  pub get-destroy :
      (id : Text) (m : Manager B) → get (destroy backend options id m).sandboxes id ≡ none
  unfolding destroy
  get-destroy id m =
      get-remove_self
        (set m.sandboxes
          (Option.get_or (get m.sandboxes id) (unknown_sandbox backend options id m.clock)).id _)
        id

  -- createSandbox either returns the stored record, with its own id, the scan, the type and the
  -- egress policy that it was asked for and the status STARTING; or it throws, and then no record of
  -- the sandbox is stored any more. This is so whatever the backend does.
  pub create_sandbox_lem :
      (uuid : Text) (input : CreateSandboxInput) (m : Manager B)
      → Post
          (Is
            (sandbox_id input.scan_id uuid)
            (AsAskedIn (sandbox_id input.scan_id uuid) input starting))
          (λ _ after. get after.sandboxes (sandbox_id input.scan_id uuid) ≡ none)
          (create_sandbox backend options uuid input m)
  unfolding create_sandbox
  create_sandbox_lem uuid input m =
      let id = sandbox_id input.scan_id uuid in
      let asked = AsAsked id input in
      let sandbox = new_sandbox id input m.clock in
      (bind-Triple (λ _. Stored id asked) (save sandbox) _
          (save-Stored id asked sandbox (λ _. Unit {0}) refl
            (record { same_id = refl; same_scan = refl; same_type = refl; same_egress = refl }))
          λ _.
            try_catch-Triple (λ _ _. Unit {0}) (create_body backend options id sandbox) _
              (create_body-Triple id input sandbox)
              λ error.
                bind-Triple (λ _ after. get after.sandboxes id ≡ none)
                  (modify (destroy backend options id)) _
                  (modify-Triple _ (destroy backend options id) (λ n _. get-destroy id n))
                  λ _. throw-Triple (λ _ after. get after.sandboxes id ≡ none) error).triple
        m tt

  -- restart of a stored sandbox either returns its record with the status RUNNING, which is the one
  -- stored; or it throws, and then a record with the status FAILED is stored for it.
  pub restart_lem :
      (id : Text) (m : Manager B) (sandbox : Sandbox)
      → get m.sandboxes id ≡ some sandbox
      → sandbox.id ≡ id
      → Post
          (Is id (λ s. (s.id ≡ id) × (s.status ≡ running)))
          (λ _. Stored id (λ s. (s.id ≡ id) × (s.status ≡ failed)))
          (restart backend options id m)
  unfolding Stored
  restart_lem id m sandbox e same = (restart-Triple id).triple m (sandbox, e, same)

  -- What is asked of a sandbox that is not known throws that it is not found, or says that it is
  -- down and PENDING, and does nothing.
  unfoldable pub IsUnknown : Text → Manager B → Type 0
  IsUnknown id m =
      let missing = other_fault (codes "sandbox not found: " ++ id) in
      ((request : ExecRequest) → execute backend options id request m ≡ (err missing, m))
      × ((poll_ms : ℕ → ℕ) (timeout_ms : ℕ)
          → wait_until_ready backend options poll_ms id timeout_ms m ≡ (err missing, m))
      × ((source dest : Text) → copy_file backend options id source dest m ≡ (err missing, m))
      × ((patches : List (Text × Text))
          → apply_patch backend options id patches m ≡ (err missing, m))
      × (restart backend options id m ≡ (err missing, m))
      × (health_check backend options id m ≡ (record { is_up = false; status = pending }, m))

  missing-IsUnknown : (id : Text) (m : Manager B) → get m.sandboxes id ≡ none → IsUnknown id m
  unfolding IsUnknown execute wait_until_ready copy_file apply_patch restart transition update
      health_check
  missing-IsUnknown id m e = (
    λ request. rw e refl,
    λ poll_ms timeout_ms. rw e refl,
    λ source dest. rw e refl,
    λ patches. rw e refl,
    rw e refl,
    rw (e, health_check) refl,
  )

  -- destroy is final: afterwards no record of the sandbox is stored; execute, waitUntilReady,
  -- copyFile, applyPatch and restart of it throw that it is not found, healthCheck says that it is
  -- down and PENDING, and none of them changes a record or calls the backend.
  pub destroy_final :
      (id : Text) (m : Manager B)
      → (get (destroy backend options id m).sandboxes id ≡ none)
        × IsUnknown id (destroy backend options id m)
  destroy_final id m =
      (get-destroy id m, missing-IsUnknown id (destroy backend options id m) (get-destroy id m))
