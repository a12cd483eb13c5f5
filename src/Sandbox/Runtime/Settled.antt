-- ===== src/Sandbox/Runtime/Settled.antt =====
-- How `create` of runtime-sandbox.service.ts ends: READY and registered, or FAILED and reclaimed.
use autoforge.Sandbox.Runtime.{
  Text, RuntimePorts, Served, RuntimeSandbox, RuntimeOptions, Result, Fault, ready_status, Runtime,
  save_sandbox, register, RuntimeRequest,
}
use autoforge.Common.Effect.{Keeps, continue_with, return, modify}
use autoforge.Common.{◌≡◌, true, some, ◌∙◌, refl}
use autoforge.Common.Texts.{Text, text_eq}
use autoforge.Common.Triple.{Post, Triple, either-Post}
use autoforge.Sandbox.Runtime.Service.{Creation, lift}
use autoforge.Common.JsMap.{get-set_at, is_some, get, JsMap, set}
use autoforge.Common.Result.{Result, ok, err}
use autoforge.Sandbox.Runtime.Provision.{Durations}
use autoforge.Sandbox.{Fault}
use autoforge.Sandbox.Runtime.Quiet.{Quiet}
use autoforge.Sandbox.Runtime.Creation.{patch, with_sandbox, done, assigned, create_body}
use autoforge.Sandbox.Runtime.Follows.{Follows, create_body-Follows}

module _ {W : Type 0} where
  -- The variable `sandbox` is of this id.
  unfoldable pub Named : Text → Creation W → Type 0
  Named id c = c.sandbox.id ≡ id

  -- It is, and the sandbox is in the registry.
  unfoldable pub Held : Text → Creation W → Type 0
  Held id c = (c.sandbox.id ≡ id) × (is_some (get c.runtime.live id) ≡ true)

  -- It is READY, and so is its row.
  unfoldable pub IsReady : Text → Creation W → Type 0
  IsReady id c =
      (c.sandbox.id ≡ id)
      × (is_some (get c.runtime.live id) ≡ true)
      × (c.sandbox.status ≡ ready_status)
      × (get c.runtime.rows id ≡ some c.sandbox)

  Quiet-Post :
      {A : Type 0} (C N : Creation W → Type 0) (result : Result Fault A) (c : Creation W)
      (after : Runtime W)
      → C (record c { runtime = after })
      → N (record c { runtime = after })
      → Post (λ _. C) (λ _. N) (result, record c { runtime = after })
  unfolding Post
  Quiet-Post C N (ok value) c after held named = held
  Quiet-Post C N (err thrown) c after held named = named

  pub lift-Held :
      {A : Type 0} (id : Text) (step : Served W A)
      → Keeps Quiet step
      → Triple (Held id) (lift step) (λ _. Held id) (λ _. Named id)
  unfolding Held Named
  lift-Held id step quiet = record {
    triple = λ c (same, live).
        Quiet-Post (Held id) (Named id) (step c.runtime).0 c (step c.runtime).1
          (same, rw (quiet.keeps c.runtime).same_live live) same;
  }

  pub lift-IsReady :
      {A : Type 0} (id : Text) (step : Served W A)
      → Keeps Quiet step
      → Triple (IsReady id) (lift step) (λ _. IsReady id) (λ _. Named id)
  unfolding IsReady Named
  lift-IsReady id step quiet = record {
    triple = λ c (same, live, ready, row).
        Quiet-Post (IsReady id) (Named id) (step c.runtime).0 c (step c.runtime).1
          (
            same,
            rw (quiet.keeps c.runtime).same_live live,
            ready,
            rw (quiet.keeps c.runtime).same_rows row,
          )
          same;
  }

  pub with_sandbox-Held :
      {A : Type 0} (id : Text) (step : RuntimeSandbox → Served W A)
      → ((s : RuntimeSandbox) → Keeps Quiet (step s))
      → Triple (Held id) (with_sandbox step) (λ _. Held id) (λ _. Named id)
  with_sandbox-Held id step quiet = record {
    triple = λ c. (lift-Held id (step c.sandbox) (quiet c.sandbox)).triple c;
  }

  pub with_sandbox-IsReady :
      {A : Type 0} (id : Text) (step : RuntimeSandbox → Served W A)
      → ((s : RuntimeSandbox) → Keeps Quiet (step s))
      → Triple (IsReady id) (with_sandbox step) (λ _. IsReady id) (λ _. Named id)
  with_sandbox-IsReady id step quiet = record {
    triple = λ c. (lift-IsReady id (step c.sandbox) (quiet c.sandbox)).triple c;
  }

module _ {W : Type 0} (ports : RuntimePorts W) (options : RuntimeOptions)
    (durations : Durations) where
  -- A patch either saves the record, which becomes the variable, or leaves the variable.
  pub patch-cases :
      (C N : Creation W → Type 0) (change : RuntimeSandbox → RuntimeSandbox) (c : Creation W)
      → ((w : W)
          → C (record {
            runtime = record c.runtime {
              world = w;
              rows = set c.runtime.rows (change c.sandbox).id (change c.sandbox);
            };
            sandbox = change c.sandbox;
          }))
      → ((w : W) → N (record c { runtime = record c.runtime { world = w } }))
      → Post (λ _. C) (λ _. N) (patch ports options durations change c)
  unfolding patch save_sandbox Post
  patch-cases C N change c good bad =
      go (ports.save_row (change c.sandbox) c.runtime.world).0
        (ports.save_row (change c.sandbox) c.runtime.world).1
    where
      go :
          (answer : Result Fault (Unit {0})) (w : W)
          → Post
              (λ _. C)
              (λ _. N)
              (let out =
                  continue_with
                    (λ _. return (change c.sandbox))
                    (continue_with
                      (λ _. modify (λ m. record m {
                        rows = set m.rows (change c.sandbox).id (change c.sandbox);
                      }))
                      (answer, record c.runtime { world = w })) in
                (done out.0, record { runtime = out.1; sandbox = assigned c.sandbox out.0 }))
      go (ok saved) w = good w
      go (err thrown) w = bad w

  pub patch-Held :
      (id : Text) (change : RuntimeSandbox → RuntimeSandbox)
      → ((s : RuntimeSandbox) → (change s).id ≡ s.id)
      → Triple (Held id) (patch ports options durations change) (λ _. Held id) (λ _. Named id)
  unfolding Held Named
  patch-Held id change keeps = record {
    triple = λ c (same, live).
        patch-cases (Held id) (Named id) change c (λ w. (keeps c.sandbox ∙ same, live)) (λ w. same);
  }

  pub patch-IsReady :
      (id : Text) (change : RuntimeSandbox → RuntimeSandbox)
      → ((s : RuntimeSandbox) → (change s).id ≡ s.id)
      → ((s : RuntimeSandbox) → (change s).status ≡ ready_status)
      → Triple (Held id) (patch ports options durations change) (λ _. IsReady id) (λ _. Named id)
  unfolding Held Named IsReady
  patch-IsReady id change keeps ready = record {
    triple = λ c (same, live).
        patch-cases (IsReady id) (Named id) change c
          (λ w. (
            keeps c.sandbox ∙ same,
            live,
            ready c.sandbox,
            get-set_at c.runtime.rows (change c.sandbox).id id (change c.sandbox)
                (keeps c.sandbox ∙ same),
          ))
          (λ w. same);
  }

  save-Held :
      (id : Text)
      → Triple (Named id) (with_sandbox (save_sandbox ports)) (λ _. Named id) (λ _. Named id)
  unfolding Named
  save-Held id = record {
    triple = λ c same.
        either-Post (Named id) (save_sandbox ports c.sandbox c.runtime).0
          (record c { runtime = (save_sandbox ports c.sandbox c.runtime).1 }) same;
  }

  register-Held :
      (id : Text) → Triple (Named {W = W} id) (with_sandbox register) (λ _. Held id) (λ _. Named id)
  unfolding Named Held Post
  register-Held id = record {
    triple = λ c same. (same, registered c.runtime.live c.sandbox.id id c.sandbox same);
  }
    where
      registered :
          (live : JsMap Text RuntimeSandbox) (key id : Text) (s : RuntimeSandbox)
          → key ≡ id
          → is_some (get (set live key s) id) ≡ true
      registered live key id s e = rw (get-set_at live key id s e) refl

  settled-Follows :
      (id : Text) → Follows ports options durations (Named id) (Held id) (IsReady id) (Named id)
  unfolding Held Named
  settled-Follows id = record {
    saved = save-Held id;
    registered = register-Held id;
    asked = with_sandbox-Held id;
    patched = patch-Held id;
    readied = patch-IsReady id;
    served = with_sandbox-IsReady id;
    weakened = λ c held. held.0;
  }

  pub create_body-Settled :
      (id uuid : Text) (input : RuntimeRequest)
      → Triple
          (Named id)
          (create_body ports options durations uuid input)
          (λ s c. IsReady id c × (c.sandbox ≡ s))
          (λ _. Named id)
  create_body-Settled id uuid input =
      create_body-Follows ports options durations uuid input (settled-Follows id)
