-- ===== src/Sandbox/Manager/Stored.antt =====
-- What the steps of sandbox-manager.service.ts do to the stored record of one sandbox.
use autoforge.Common.{◌≡◌, ℕ, some, refl}
use autoforge.Common.Texts.{Text, text_eq}
use autoforge.Common.Triple.{either-Post, Post, Triple}
use autoforge.Sandbox.Manager.{
  transition, Sandbox, update, Manager, get, require, save, Result, Timed, container_id_of,
  with_backend, with_timeout, handle_of, timed,
}
use autoforge.Sandbox.{Sandbox, Fault, SandboxStatus}
use autoforge.Common.JsMap.{get-set_at, get, set}
use autoforge.Common.Result.{Result, ok}

module _ {B : Type 0} where
  -- A record is stored for the sandbox, and a condition holds of it.
  unfoldable pub Stored : Text → (Sandbox → Type 0) → Manager B → Type 0
  Stored id P m = (s : Sandbox) × (get m.sandboxes id ≡ some s) × P s

  -- The record stored for the sandbox is this one, and a condition holds of it.
  unfoldable pub Is : Text → (Sandbox → Type 0) → Sandbox → Manager B → Type 0
  Is id P s m = (get m.sandboxes id ≡ some s) × P s

  pub Is-Stored :
      (id : Text) (P : Sandbox → Type 0) (s : Sandbox) (m : Manager B) → Is id P s m → Stored id P m
  unfolding Is Stored
  Is-Stored id P s m given = (s, given.0, given.1)

  pub require-Stored :
      (id : Text) (P : Sandbox → Type 0) {X : Fault → Manager B → Type 0}
      → Triple (Stored id P) (require id) (Is id P) X
  unfolding Stored Is Post
  require-Stored id P = record { triple = λ m (s, e, p). rw e (e, p) }

  pub save-Stored :
      (id : Text) (P : Sandbox → Type 0) (s : Sandbox) (O : Manager B → Type 0)
      {X : Fault → Manager B → Type 0}
      → s.id ≡ id
      → P s
      → Triple O (save s) (λ _. Stored id P) X
  unfolding Stored Post
  save-Stored id P s O same p = record {
    triple = λ m o. (s, get-set_at m.sandboxes s.id id s same, p);
  }

  pub update-Stored :
      (id : Text) (P Q : Sandbox → Type 0) (change : Sandbox → Sandbox)
      {X : Fault → Manager B → Type 0}
      → ((s : Sandbox) → P s → ((change s).id ≡ id) × Q (change s))
      → Triple (Stored id P) (update id change) (Is id Q) X
  unfolding Stored Is Post update
  update-Stored id P Q change given = record {
    triple = λ m (s, e, p).
        let (same, q) = given s p in
        rw e (get-set_at m.sandboxes (change s).id id (change s) same, q);
  }

  pub transition-Stored :
      (id : Text) (P Q : Sandbox → Type 0) (status : SandboxStatus) {X : Fault → Manager B → Type 0}
      → ((s : Sandbox) (now : ℕ)
          → P s
          → (s.id ≡ id) × Q (record s { status = status; updated_at = now }))
      → Triple (Stored id P) (transition id status) (Is id Q) X
  unfolding transition
  transition-Stored id P Q status given = record {
    triple = λ m.
        (update-Stored id P Q (λ s. record s { status = status; updated_at = m.clock })
            (λ s. given s m.clock)).triple
          m;
  }

  -- The backend does not touch the records.
  pub with_backend-Stored :
      {A : Type 0} (id : Text) (P : Sandbox → Type 0) (operation : B → Result Fault A × B)
      → Triple (Stored id P) (with_backend operation) (λ _. Stored id P) (λ _. Stored id P)
  unfolding Stored
  with_backend-Stored id P operation = record {
    triple = λ m held.
        either-Post (Stored id P) (operation m.backend).0
          (record m { backend = (operation m.backend).1 }) held;
  }

  pub with_timeout-Stored :
      {A : Type 0} (id : Text) (P : Sandbox → Type 0) (label : Text) (timeout_ms : ℕ)
      (operation : B → Timed A × B)
      → Triple
          (Stored id P)
          (with_timeout label timeout_ms operation)
          (λ _. Stored id P)
          (λ _. Stored id P)
  unfolding Stored
  with_timeout-Stored id P label timeout_ms operation = record {
    triple = λ m held.
        either-Post (Stored id P) (timed label timeout_ms (operation m.backend).0)
          (record m { backend = (operation m.backend).1 }) held;
  }

  pub container_id_of-Stored :
      (id : Text) (P : Sandbox → Type 0) (sandbox : Sandbox)
      → Triple (Stored id P) (container_id_of sandbox id) (λ _. Stored id P) (λ _. Stored id P)
  container_id_of-Stored id P sandbox = record {
    triple = λ m held. either-Post (Stored id P) (handle_of id sandbox.container_id) m held;
  }

  -- What a transition of a stored record gives, in full.
  pub transition-some :
      (id : Text) (status : SandboxStatus) (m : Manager B) (s : Sandbox)
      → get m.sandboxes id ≡ some s
      → transition id status m ≡ (
        ok (record s { status = status; updated_at = m.clock }),
        record m {
          sandboxes = set m.sandboxes s.id (record s { status = status; updated_at = m.clock });
        },
      )
  unfolding transition update
  transition-some id status m s e = rw e refl
