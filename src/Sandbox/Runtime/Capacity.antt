-- ===== src/Sandbox/Runtime/Capacity.antt =====
-- The ceiling on live sandboxes in runtime-sandbox.service.ts: the registry never holds more than
-- `maxConcurrent`, for requests that are served one after the other.
pub mod Ceiling
use autoforge.Sandbox.Runtime.{
  call, Runtime, Served, Text, RuntimePorts, size, RuntimeOptions, deregister, save_sandbox,
  RuntimeSandbox, list_by_status, RuntimeStatus, read_sandbox, ok, runtime_live_statuses,
  failed_status, patch_sandbox, expired_status, tell, expired_event,
}
use autoforge.Common.Effect.{
  IsPreorder, Keeps, bind-Keeps, return-Keeps, if-Keeps, reads, modify-Keeps, reads-Keeps,
  option-Keeps, modify, throw-Keeps, ran,
}
use autoforge.Common.{◌+◌, ◌≤◌, ◌∷◌, ℕ, suc, List, [], arith}
use autoforge.Common.Texts.{Text, text_eq}
use autoforge.Common.JsMap.{size, size-remove-le}
use autoforge.Sandbox.Runtime.Quiet.{Quiet, call-Quiet, cleanup-Quiet, Quiet-order, tell-Quiet}
use autoforge.Sandbox.Runtime.Provision.{Durations}
use autoforge.Sandbox.Runtime.Service.{
  expire, expire_all, expire_statuses, clean_all, cleanup_expired, cleanup, expire_live, is_expired,
  is_reclaimed,
}
use autoforge.Common.Result.{ok}

module _ {W : Type 0} where
  -- The registry has not grown.
  pub record Shrinks (before after : Runtime W) : Type 0 where
    pub shrinks : size after.live ≤ size before.live

  pub Shrinks-order : IsPreorder Shrinks
  Shrinks-order = record {
    same = λ m. record { shrinks = omega arith };
    chain = λ s t u first second. record { shrinks = shrink s t u first second };
  }
    where
      shrink : (s t u : Runtime W) → Shrinks s t → Shrinks t u → size u.live ≤ size s.live
      shrink s t u first second = let f = first.shrinks in let g = second.shrinks in omega arith

  pub Quiet-Shrinks : {A : Type 0} (step : Served W A) → Keeps Quiet step → Keeps Shrinks step
  Quiet-Shrinks step quiet = record {
    keeps = λ m. record { shrinks = rw (quiet.keeps m).same_live (omega arith) };
  }

  pub deregister-Shrinks : (id : Text) → Keeps Shrinks (deregister id)
  deregister-Shrinks id = record { keeps = λ m. record { shrinks = size-remove-le m.live id } }

module _ {W : Type 0} (ports : RuntimePorts W) (options : RuntimeOptions)
    (durations : Durations) where
  pub save-Shrinks : (s : RuntimeSandbox) → Keeps Shrinks (save_sandbox ports s)
  unfolding save_sandbox
  save-Shrinks s =
      bind-Keeps Shrinks-order (call (ports.save_row s)) _ (Quiet-Shrinks _ (call-Quiet _))
        λ _. modify-Keeps Shrinks-order _ (λ m. record { shrinks = omega arith })

  pub cleanup-Shrinks : (s : RuntimeSandbox) → Keeps Shrinks (cleanup ports options durations s)
  cleanup-Shrinks s = Quiet-Shrinks _ (cleanup-Quiet ports options durations s)

  expire-Shrinks : (id : Text) → Keeps Shrinks (expire ports options durations id)
  unfolding expire expire_live read_sandbox
  expire-Shrinks id =
      bind-Keeps Shrinks-order (read_sandbox ports id) _
        (Quiet-Shrinks _ (
          bind-Keeps Quiet-order (call (ports.read_row id)) _ (call-Quiet _)
            λ _. reads-Keeps Quiet-order _))
        λ found. option-Keeps found _ _ (throw-Keeps Shrinks-order _) λ s.
          if-Keeps (is_reclaimed s.status) _ _ (return-Keeps Shrinks-order s) (
            bind-Keeps Shrinks-order (patch_sandbox ports (record s { status = expired_status })) _
              (bind-Keeps Shrinks-order (save_sandbox ports _) _ (save-Shrinks _)
                λ _. return-Keeps Shrinks-order _)
              λ expiring.
                bind-Keeps Shrinks-order
                  (tell (ports.publish (expired_event s.scan_id id s.sandbox_id))) _
                  (Quiet-Shrinks _ (tell-Quiet _))
                  λ _.
                    bind-Keeps Shrinks-order (cleanup ports options durations expiring) _
                      (cleanup-Shrinks expiring)
                      λ _.
                        bind-Keeps Shrinks-order (deregister id) _ (deregister-Shrinks id)
                          λ _. return-Keeps Shrinks-order expiring)

  expire_all-Shrinks :
      (now : ℕ) (sandboxes : List RuntimeSandbox)
      → Keeps Shrinks (expire_all ports options durations now sandboxes)
  unfolding expire_all
  expire_all-Shrinks now [] = return-Keeps Shrinks-order 0
  expire_all-Shrinks now (s ∷ sandboxes) =
      if-Keeps (is_expired now s.expires_at) _ _
        (bind-Keeps Shrinks-order (modify (ran (expire ports options durations s.id))) _
          (modify-Keeps Shrinks-order _ (expire-Shrinks s.id).keeps)
          λ _.
            bind-Keeps Shrinks-order (expire_all ports options durations now sandboxes) _
              (expire_all-Shrinks now sandboxes) λ count. return-Keeps Shrinks-order (suc count))
        (expire_all-Shrinks now sandboxes)

  list-Shrinks : (status : RuntimeStatus) → Keeps Shrinks (list_by_status ports status)
  unfolding list_by_status
  list-Shrinks status = Quiet-Shrinks _ (
      bind-Keeps Quiet-order (call ports.list_rows) _ (call-Quiet _) λ _. reads-Keeps Quiet-order _)

  expire_statuses-Shrinks :
      (now : ℕ) (statuses : List RuntimeStatus)
      → Keeps Shrinks (expire_statuses ports options durations now statuses)
  unfolding expire_statuses
  expire_statuses-Shrinks now [] = return-Keeps Shrinks-order 0
  expire_statuses-Shrinks now (status ∷ statuses) =
      bind-Keeps Shrinks-order (list_by_status ports status) _ (list-Shrinks status) λ sandboxes.
        bind-Keeps Shrinks-order (expire_all ports options durations now sandboxes) _
          (expire_all-Shrinks now sandboxes)
          λ expired.
            bind-Keeps Shrinks-order (expire_statuses ports options durations now statuses) _
              (expire_statuses-Shrinks now statuses)
              λ count. return-Keeps Shrinks-order (expired + count)

  clean_all-Shrinks :
      (sandboxes : List RuntimeSandbox)
      → Keeps Shrinks (clean_all ports options durations sandboxes)
  unfolding clean_all
  clean_all-Shrinks [] = return-Keeps Shrinks-order 0
  clean_all-Shrinks (s ∷ sandboxes) =
      bind-Keeps Shrinks-order (cleanup ports options durations s) _ (cleanup-Shrinks s) λ _.
        bind-Keeps Shrinks-order (deregister s.id) _ (deregister-Shrinks s.id) λ _.
          bind-Keeps Shrinks-order (clean_all ports options durations sandboxes) _
            (clean_all-Shrinks sandboxes) λ count. return-Keeps Shrinks-order (suc count)

  pub cleanup_expired-Shrinks : Keeps Shrinks (cleanup_expired ports options durations)
  unfolding cleanup_expired
  cleanup_expired-Shrinks =
      bind-Keeps Shrinks-order (reads (λ m. ok m.clock)) _ (reads-Keeps Shrinks-order _) λ now.
        bind-Keeps Shrinks-order (expire_statuses ports options durations now runtime_live_statuses)
          _ (expire_statuses-Shrinks now runtime_live_statuses)
          λ expired.
            bind-Keeps Shrinks-order (list_by_status ports failed_status) _
              (list-Shrinks failed_status)
              λ broken.
                bind-Keeps Shrinks-order (clean_all ports options durations broken) _
                  (clean_all-Shrinks broken)
                  λ cleaned. return-Keeps Shrinks-order (expired + cleaned)
