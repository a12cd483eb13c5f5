-- ===== src/Sandbox/Runtime/Capacity/Ceiling.antt =====
-- `create` of runtime-sandbox.service.ts against `maxConcurrent`.
use autoforge.Common.Effect.{Keeps, bind-Keeps, return, return-Keeps, throw-Keeps, ran, modify}
use autoforge.Common.{
  ◌≤◌, ◌<◌, arith, ◌≡◌, inl, inr, false, leb, Bool-cases, ◌&&◌, if◌then◌else◌, not,
}
use autoforge.Sandbox.Runtime.{
  RuntimePorts, RuntimeOptions, RuntimeSandbox, Runtime, Fault, size, Served, save_sandbox,
  register, tell, provisioning_failed_event, deregister, Result, RuntimeRequest,
  seed_runtime_sandbox, lifetime, validate_ownership, provisioning_event,
}
use autoforge.Sandbox.Runtime.Provision.{Durations}
use autoforge.Sandbox.Runtime.Service.{
  fail, Creation, patch_or, collect_failure_logs, cleanup, cleanup_expired,
}
use autoforge.Common.Triple.{
  Triple, Post, either-Post, bind-Triple, ran-Triple, if-Triple, throw-Triple, return-Triple,
  modify-Triple,
}
use autoforge.Sandbox.{Fault, creation_fault, host_exposure_denied_fault}
use autoforge.Common.JsMap.{size, size-set-le}
use autoforge.Sandbox.Runtime.Capacity.{
  Shrinks, Quiet, Shrinks-order, save-Shrinks, Quiet-Shrinks, tell-Quiet, cleanup, cleanup-Shrinks,
  deregister-Shrinks, cleanup_expired, cleanup_expired-Shrinks,
}
use autoforge.Sandbox.Runtime.Creation.{
  patch, with_sandbox, create_admitted, check_capacity, caught, create_body, create,
}
use autoforge.Common.Texts.{text_eq, Text}
use autoforge.Sandbox.Runtime.Quiet.{
  Quiet, tell-Quiet, collect_failure_logs-Quiet, validate_ownership-Quiet,
}
use autoforge.Sandbox.Runtime.Settled.{patch-cases}
use autoforge.Sandbox.Runtime.Follows.{outcome, create_body-Follows}
use autoforge.Sandbox.Runtime.Faults.{reason_of, classify_stage, is_runtime_error}
use autoforge.Common.Result.{Result, ok, err}

module _ {W : Type 0} (ports : RuntimePorts W) (options : RuntimeOptions)
    (durations : Durations) where
  patch_or-Shrinks :
      (sandbox updated : RuntimeSandbox)
      → Keeps Shrinks (patch_or ports options durations sandbox updated)
  patch_or-Shrinks sandbox updated = record {
    keeps = λ m.
        (bind-Keeps Shrinks-order (save_sandbox ports updated) (λ _. return updated)
            (save-Shrinks ports options durations updated)
            (λ _. return-Keeps Shrinks-order updated)).keeps
          m;
  }

  fail-Shrinks :
      (sandbox : RuntimeSandbox) (error : Fault)
      → Keeps Shrinks (fail ports options durations sandbox error)
  unfolding fail
  fail-Shrinks sandbox error =
      bind-Keeps Shrinks-order (patch_or ports options durations sandbox _) _
        (patch_or-Shrinks sandbox _)
        λ broken.
          bind-Keeps Shrinks-order
            (tell (
              ports.publish (
                provisioning_failed_event broken.scan_id broken.sandbox_id (reason_of error)
                  (classify_stage error))))
            _ (Quiet-Shrinks _ (tell-Quiet _))
            λ _.
              bind-Keeps Shrinks-order (collect_failure_logs ports options durations broken) _
                (Quiet-Shrinks _ (collect_failure_logs-Quiet ports options durations broken))
                λ _.
                  bind-Keeps Shrinks-order (cleanup ports options durations broken) _
                    (cleanup-Shrinks ports options durations broken)
                    λ _.
                      bind-Keeps Shrinks-order (deregister broken.id) _
                        (deregister-Shrinks broken.id)
                        λ _. throw-Keeps Shrinks-order (
                          if is_runtime_error error
                          then error
                          else creation_fault (classify_stage error) (reason_of error))

  unfoldable pub Fits : Runtime W → Type 0
  Fits m = size m.live ≤ options.max_concurrent

  unfoldable pub Free : Runtime W → Type 0
  Free m = size m.live < options.max_concurrent

  shrink-Fits : (m n : Runtime W) → Shrinks m n → Fits m → Fits n
  unfolding Fits
  shrink-Fits m n shrinks fits = let s = shrinks.shrinks in omega arith

  shrink-Free : (m n : Runtime W) → Shrinks m n → Free m → Free n
  unfolding Free
  shrink-Free m n shrinks free = let s = shrinks.shrinks in omega arith

  Free-Fits : (m : Runtime W) → Free m → Fits m
  unfolding Free Fits
  Free-Fits m free = omega arith

  FitsIn : Creation W → Type 0
  FitsIn c = Fits c.runtime

  FreeIn : Creation W → Type 0
  FreeIn c = Free c.runtime

  Quiet-Fits :
      {A : Type 0} (step : RuntimeSandbox → Served W A)
      → ((s : RuntimeSandbox) → Keeps Quiet (step s))
      → Triple FitsIn (with_sandbox step) (λ _. FitsIn) (λ _. FitsIn)
  unfolding FitsIn
  Quiet-Fits step quiet = record {
    triple = λ c fits.
        either-Post FitsIn (step c.sandbox c.runtime).0
          (record c { runtime = (step c.sandbox c.runtime).1 })
          (shrink-Fits c.runtime (step c.sandbox c.runtime).1
            ((Quiet-Shrinks (step c.sandbox) (quiet c.sandbox)).keeps c.runtime) fits);
  }

  patch-Fits :
      (change : RuntimeSandbox → RuntimeSandbox)
      → Triple FitsIn (patch ports options durations change) (λ _. FitsIn) (λ _. FitsIn)
  unfolding FitsIn Fits
  patch-Fits change = record {
    triple = λ c fits.
        patch-cases ports options durations FitsIn FitsIn change c (λ w. fits) (λ w. fits);
  }

  save-Free : Triple FreeIn (with_sandbox (save_sandbox ports)) (λ _. FreeIn) (λ _. FitsIn)
  unfolding FreeIn FitsIn
  save-Free = record {
    triple = λ c free.
        let kept = (save-Shrinks ports options durations c.sandbox).keeps c.runtime in
        let after = shrink-Free c.runtime (save_sandbox ports c.sandbox c.runtime).1 kept free in
        outcome ports options durations FreeIn FitsIn (save_sandbox ports c.sandbox c.runtime).0
          (record c { runtime = (save_sandbox ports c.sandbox c.runtime).1 }) after
          (Free-Fits _ after);
  }

  register-Fits : Triple FreeIn (with_sandbox register) (λ _. FitsIn) (λ _. FitsIn)
  unfolding FreeIn FitsIn Free Fits Post
  register-Fits = record {
    triple = λ c free. let grown = size-set-le c.runtime.live c.sandbox.id c.sandbox in omega arith;
  }

  create_body-Fits :
      (uuid : Text) (input : RuntimeRequest)
      → Triple FreeIn
          (create_body ports options durations uuid input)
          (λ s c. FitsIn c × (c.sandbox ≡ s))
          (λ _. FitsIn)
  create_body-Fits uuid input = create_body-Follows ports options durations uuid input (record {
    saved = save-Free;
    registered = register-Fits;
    asked = Quiet-Fits;
    patched = λ change _. patch-Fits change;
    readied = λ change _ _. patch-Fits change;
    served = Quiet-Fits;
    weakened = λ c fits. fits;
  })

  caught-Fits :
      (out : Result Fault RuntimeSandbox × Creation W)
      → Post (λ s c. FitsIn c × (c.sandbox ≡ s)) (λ _. FitsIn) out
      → Fits (caught ports options durations out).1
  unfolding Post FitsIn
  caught-Fits (ok s, c) (fits, e) = fits
  caught-Fits (err error, c) fits =
      shrink-Fits c.runtime _ ((fail-Shrinks c.sandbox error).keeps c.runtime) fits

  admitted-Fits :
      (id_uuid image_uuid : Text) (input : RuntimeRequest)
      → Triple Free
          (create_admitted ports options durations id_uuid image_uuid input)
          (λ _. Fits)
          (λ _. Fits)
  unfolding create_admitted FreeIn
  admitted-Fits id_uuid image_uuid input = record {
    triple = λ m free.
        let start : Creation W = record {
          runtime = m;
          sandbox = seed_runtime_sandbox id_uuid input (lifetime options input.max_age_ms) m.clock;
        } in
        let out = create_body ports options durations image_uuid input start in
        either-Post Fits (caught ports options durations out).0
          (caught ports options durations out).1
          (caught-Fits out ((create_body-Fits image_uuid input).triple start free));
  }

  check_capacity-Free : Triple Fits (check_capacity ports options durations) (λ _. Free) (λ _. Fits)
  unfolding check_capacity Fits Free Post
  check_capacity-Free = record {
    triple = λ m fits. elim (Bool-cases (leb options.max_concurrent (size m.live))) [
      | inl h ↦ rw h fits
      | inr h ↦ rw h (below m h)
    ];
  }
    where
      below :
          (m : Runtime W)
          → leb options.max_concurrent (size m.live) ≡ false
          → size m.live < options.max_concurrent
      below m h = ground arith

  settle :
      {A : Type 0} (result : Result Fault A) (after : Runtime W)
      → Free after
      → Post (λ _. Free) (λ _. Fits) (result, after)
  unfolding Post
  settle (ok value) after free = free
  settle (err thrown) after free = Free-Fits after free

  Quiet-Free :
      {A : Type 0} (step : Served W A) → Keeps Quiet step → Triple Free step (λ _. Free) (λ _. Fits)
  Quiet-Free step quiet = record {
    triple = λ m free.
        let after = shrink-Free m (step m).1 ((Quiet-Shrinks step quiet).keeps m) free in
        settle (step m).0 (step m).1 after;
  }

  create-Triple :
      (id_uuid image_uuid : Text) (input : RuntimeRequest)
      → Triple Fits
          (create ports options durations id_uuid image_uuid input)
          (λ _. Fits)
          (λ _. Fits)
  unfolding create
  create-Triple id_uuid image_uuid input =
      bind-Triple (λ _. Fits) _ _
        (if-Triple (input.host_expose && not options.allow_host_expose) _ _
          (throw-Triple (λ _. Fits) host_exposure_denied_fault) (return-Triple (λ _. Fits) tt))
        λ _.
          bind-Triple (λ _. Fits) (modify (ran (cleanup_expired ports options durations))) _
            (modify-Triple _ _ (λ m fits.
              shrink-Fits m _ ((cleanup_expired-Shrinks ports options durations).keeps m) fits))
            λ _.
              bind-Triple (λ _. Free) (check_capacity ports options durations) _ check_capacity-Free
                λ _.
                  bind-Triple (λ _. Free) (validate_ownership ports input) _
                    (Quiet-Free _ (validate_ownership-Quiet ports options durations input))
                    λ _.
                      bind-Triple (λ _. Free)
                        (tell (ports.publish (provisioning_event input.scan_id options.runtime))) _
                        (Quiet-Free _ (tell-Quiet _)) λ _. admitted-Fits id_uuid image_uuid input

  -- The ceiling is kept: if the registry holds at most maxConcurrent sandboxes, it does so after a
  -- call of create, however the call ends and whatever the collaborators do, provided that no other
  -- call runs in between.
  pub create-capacity :
      (id_uuid image_uuid : Text) (input : RuntimeRequest) (m : Runtime W)
      → size m.live ≤ options.max_concurrent
      → size (ran (create ports options durations id_uuid image_uuid input) m).live
        ≤ options.max_concurrent
  unfolding Fits
  create-capacity id_uuid image_uuid input m fits =
      ran-Triple Fits Fits (create ports options durations id_uuid image_uuid input)
        (create-Triple id_uuid image_uuid input) m fits
