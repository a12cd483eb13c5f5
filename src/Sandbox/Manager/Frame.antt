-- ===== src/Sandbox/Manager/Frame.antt =====
-- What the operations of sandbox-manager.service.ts leave alone: each works on one record.
use mathlib.Core.Option
use autoforge.Common.Effect.{Keeps, IsPreorder, reads-Keeps}
use autoforge.Common.JsMap.{get, set, remove, get-set, get-remove}
use autoforge.Common.Texts.{Text, text_eq}
use autoforge.Common.{
  ◌≡◌, ◌∙◌, ◌==◌, refl, sym, ap, inl, inr, false, some, Bool-cases, Option-cases, ==_iff, ltb, ℕ,
  Option, none,
}
use autoforge.Sandbox.Manager.{
  Manager, update, Sandbox, transition, require, container_id_of, assert_egress_allowed, Result,
  Timed, SandboxBackend, with_timeout, Options, found, handle_of, rank, with_backend, destroy,
  backend_handle, unknown_sandbox,
}
use autoforge.Sandbox.{Sandbox, SandboxStatus, Egress, Fault, destroyed}
use autoforge.Common.Result.{Result}

module _ {B : Type 0} where
  -- Every stored record stands under its own id.
  unfoldable pub IsKeyed : Manager B → Type 0
  IsKeyed m = (j : Text) (sandbox : Sandbox) → get m.sandboxes j ≡ some sandbox → sandbox.id ≡ j

  -- The records are still keyed, and those of other ids are as before.
  unfoldable pub Isolated : Text → Manager B → Manager B → Type 0
  Isolated id before after =
      IsKeyed before
      → IsKeyed after
        × ((j : Text) → (id == j) ≡ false → get after.sandboxes j ≡ get before.sandboxes j)

  pub Isolated-order : (id : Text) → IsPreorder (Isolated id)
  unfolding Isolated
  Isolated-order id = record {
    same = λ m keyed. (keyed, λ j other. refl);
    chain = λ s t u first second keyed.
        let (middle, left) = first keyed in
        let (last, right) = second middle in (last, λ j other. right j other ∙ left j other);
  }

  pub Isolated-from :
      (id : Text) (m n : Manager B)
      → (((sandbox : Sandbox) → get m.sandboxes id ≡ some sandbox → sandbox.id ≡ id)
          → Isolated id m n)
      → Isolated id m n
  unfolding Isolated IsKeyed
  Isolated-from id m n given keyed = given (keyed id) keyed

  -- A record under the id of its own is put in the place of one of that id.
  pub set-Isolated :
      (id : Text) (m : Manager B) (sandbox : Sandbox)
      → sandbox.id ≡ id
      → Isolated id m (record m { sandboxes = set m.sandboxes sandbox.id sandbox })
  unfolding Isolated IsKeyed
  set-Isolated id m sandbox same keyed = (
    λ j other h. elim (Bool-cases (sandbox.id == j)) [
      | inl hit ↦
          let e : sandbox ≡ other = cc (rw (get-set m.sandboxes sandbox.id j sandbox, hit) at h) in
          ap (λ s. s.id) (sym e) ∙ (==_iff sandbox.id j).0 hit
      | inr miss ↦ keyed j other (rw (get-set m.sandboxes sandbox.id j sandbox, miss) at h)
    ],
    λ j miss. get-set m.sandboxes sandbox.id j sandbox ∙ rw (same, miss) refl,
  )

  pub update-Isolated :
      (id : Text) (change : Sandbox → Sandbox)
      → ((s : Sandbox) → (change s).id ≡ s.id)
      → Keeps (Isolated id) (update {B = B} id change)
  unfolding update Isolated IsKeyed
  update-Isolated id change keeps = record {
    keeps = λ m keyed. elim (Option-cases (get m.sandboxes id)) [
      | inl e ↦ rw e ((Isolated-order id).same m keyed)
      | inr (sandbox, e) ↦
          rw e (set-Isolated id m (change sandbox) (keeps sandbox ∙ keyed id sandbox e) keyed)
    ];
  }

  pub transition-Isolated :
      (id : Text) (status : SandboxStatus) → Keeps (Isolated id) (transition {B = B} id status)
  unfolding transition
  transition-Isolated id status = record {
    keeps = λ m.
        (update-Isolated id (λ s. record s { status = status; updated_at = m.clock })
            (λ s. refl)).keeps
          m;
  }

  pub require-Isolated : (id j : Text) → Keeps (Isolated id) (require {B = B} j)
  require-Isolated id j = reads-Keeps (Isolated-order id) (λ m. found j (get m.sandboxes j))

  pub container_id_of-Isolated :
      (id : Text) (sandbox : Sandbox) (j : Text)
      → Keeps (Isolated id) (container_id_of {B = B} sandbox j)
  container_id_of-Isolated id sandbox j =
      reads-Keeps (Isolated-order id) (λ _. handle_of j sandbox.container_id)

  pub assert_egress_allowed-Isolated :
      (id : Text) (policy requested : Egress) (j : Text)
      → Keeps (Isolated id) (assert_egress_allowed {B = B} policy requested j)
  unfolding assert_egress_allowed
  assert_egress_allowed-Isolated id policy requested j = record {
    keeps = λ m. elim (Bool-cases (ltb (rank policy) (rank requested))) [
      | inl b ↦ rw b ((Isolated-order id).same m)
      | inr b ↦ rw b ((Isolated-order id).same m)
    ];
  }

  -- What is done to the backend alone.
  backend-Isolated : (id : Text) (m : Manager B) (b : B) → Isolated id m (record m { backend = b })
  unfolding Isolated IsKeyed
  backend-Isolated id m b keyed = (keyed, λ j other. refl)

  pub with_backend-Isolated :
      {A : Type 0} (id : Text) (operation : B → Result Fault A × B)
      → Keeps (Isolated id) (with_backend operation)
  with_backend-Isolated id operation = record {
    keeps = λ m. backend-Isolated id m (operation m.backend).1;
  }

  pub with_timeout-Isolated :
      {A : Type 0} (id label : Text) (timeout_ms : ℕ) (operation : B → Timed A × B)
      → Keeps (Isolated id) (with_timeout label timeout_ms operation)
  with_timeout-Isolated id label timeout_ms operation = record {
    keeps = λ m. backend-Isolated id m (operation m.backend).1;
  }

module _ {B : Type 0} where
  -- What `destroy` does to the records: it saves one of that id, and removes it.
  set-remove-Isolated :
      (id : Text) (m : Manager B) (b : B) (sandbox : Sandbox)
      → sandbox.id ≡ id
      → Isolated id m
          (record m { backend = b; sandboxes = remove (set m.sandboxes sandbox.id sandbox) id })
  unfolding Isolated IsKeyed
  set-remove-Isolated id m b sandbox same keyed = (
    λ j other h. elim (Bool-cases (id == j)) [
      | inl hit ↦ absurd (cc (rw (get-remove (set m.sandboxes sandbox.id sandbox) id j, hit) at h))
      | inr miss ↦ keyed j other (
          rw
            (
              get-remove (set m.sandboxes sandbox.id sandbox) id j,
              miss,
              get-set m.sandboxes sandbox.id j sandbox,
              same,
              miss,
            )
            at h)
    ],
    λ j miss.
        get-remove (set m.sandboxes sandbox.id sandbox) id j
        ∙ rw (miss, get-set m.sandboxes sandbox.id j sandbox, same, miss) refl,
  )

module _ {B : Type 0} (backend : SandboxBackend B) (options : Options) where
  -- The record that `destroy` works on is of the id it is given.
  get_or-id :
      (id : Text) (now : ℕ) (stored : Option Sandbox)
      → ((sandbox : Sandbox) → stored ≡ some sandbox → sandbox.id ≡ id)
      → (Option.get_or stored (unknown_sandbox backend options id now)).id ≡ id
  get_or-id id now none of_id = refl
  get_or-id id now (some sandbox) of_id = of_id sandbox refl

  pub destroy-Isolated : (id : Text) (m : Manager B) → Isolated id m (destroy backend options id m)
  unfolding destroy
  destroy-Isolated id m = Isolated-from id m _ λ of_id.
      set-remove-Isolated id m
        (backend.destroy (backend_handle backend options id (get m.sandboxes id)) m.backend)
        (record (Option.get_or (get m.sandboxes id) (unknown_sandbox backend options id m.clock)) {
          status = destroyed;
          updated_at = m.clock;
        })
        (get_or-id id m.clock (get m.sandboxes id) of_id)
