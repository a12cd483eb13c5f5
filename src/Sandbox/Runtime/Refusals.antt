-- ===== src/Sandbox/Runtime/Refusals.antt =====
-- What runtime-sandbox.service.ts refuses, and what every container of it is confined to.
use autoforge.Sandbox.Runtime.Creation.{create, check_capacity}
use autoforge.Common.Effect.{ran}
use autoforge.Common.{
  ◌≤◌, ◌≡◌, ◌&&◌, refl, true, false, not, none, subst, inl, inr, Bool-cases, le→leb, ◌⊎◌,
  if◌then◌else◌, ℕ, Bool, some, List,
}
use autoforge.Sandbox.Runtime.{
  RuntimeSandbox, RuntimePorts, ResolvedRuntime, RuntimeOptions, RuntimeRequest, ProvisionRequest,
  ok, get, Runtime,
}
use autoforge.Sandbox.Runtime.Provision.{Durations, build_provision_request}
use autoforge.Common.Result.{ok, err, Result}
use autoforge.Sandbox.{internal, Text, host_exposure_denied_fault, capacity_fault}
use autoforge.Common.Texts.{Text, text_eq}
use autoforge.Sandbox.Runtime.Environment.{
  is_allowed, allowed_keys, build_runtime_container-allowed, build_runtime_container,
}
use autoforge.Common.JsMap.{get, size}
use autoforge.Sandbox.Runtime.Service.{cleanup_expired}

-- A container on the internal network, with no repository mounted, with a port of the host only if it
-- is asked for and allowed, and with no variable that is not on the allowlist.
unfoldable pub IsConfined : RuntimeRequest → RuntimeOptions → ProvisionRequest → Type 0
IsConfined input options request =
    (request.egress ≡ internal)
    × (request.mount_repository ≡ false)
    × ((request.host_publish_port ≡ none)
        ⊎ ((input.host_expose ≡ true) × (options.allow_host_expose ≡ true)))
    × ((key : Text) → (get request.env key ≡ none) ⊎ (is_allowed allowed_keys key ≡ true))

published-when :
    (asked allowed : Bool) (port : ℕ)
    → ((if asked && allowed then some port else none) ≡ none) ⊎ ((asked ≡ true) × (allowed ≡ true))
published-when true true port = inr (refl, refl)
published-when true false port = inl refl
published-when false allowed port = inl refl

allowed-when :
    (port : ℕ) (extra : List (Text × Text)) (key : Text)
    → (get (build_runtime_container port none extra) key ≡ none)
      ⊎ (is_allowed allowed_keys key ≡ true)
allowed-when port extra key = elim (Bool-cases (is_allowed allowed_keys key)) [
  | inl hit ↦ inr hit
  | inr miss ↦ inl (build_runtime_container-allowed port none extra key miss)
]

ok-same : {E A : Type 0} (a b : A) (x y : Result E A) → x ≡ ok a → y ≡ ok b → x ≡ y → a ≡ b
ok-same a b x y p q e = cc (p, q, e)

-- Every container that create asks the manager for is confined: it is on the internal network, the
-- repository is not mounted, a port of the host is published only if the request asks for it and the
-- configuration allows it, and no variable is in its environment whose name is not on the allowlist.
build_provision_request-IsConfined :
    (s : RuntimeSandbox) (resolved : ResolvedRuntime) (input : RuntimeRequest)
    (options : RuntimeOptions) (request : ProvisionRequest)
    → build_provision_request s resolved input options ≡ ok request
    → IsConfined input options request
unfolding IsConfined
build_provision_request-IsConfined s resolved input options request e =
    elim (Bool-cases (input.host_expose && not options.allow_host_expose)) [
      | inl denied ↦ absurd (cc (rw denied at e))
      | inr allowed ↦
          subst (IsConfined input options) (ok-same _ request _ _ refl refl (rw allowed at e)) (
            refl,
            refl,
            published-when input.host_expose options.allow_host_expose resolved.port,
            allowed-when resolved.port input.env,
          )
    ]

module _ {W : Type 0} (ports : RuntimePorts W) (options : RuntimeOptions)
    (durations : Durations) where
  -- create provisions nothing when the registry is full after the expired sandboxes are reclaimed: a
  -- request that is not denied its port of the host throws the error of the capacity, with the number
  -- of live sandboxes and the ceiling, and leaves the state of that reclaim.
  create-full :
      (id_uuid image_uuid : Text) (input : RuntimeRequest) (m : Runtime W)
      → (input.host_expose && not options.allow_host_expose) ≡ false
      → options.max_concurrent ≤ size (ran (cleanup_expired ports options durations) m).live
      → create ports options durations id_uuid image_uuid input m ≡ (
        err (
            capacity_fault
              (size (ran (cleanup_expired ports options durations) m).live)
              options.max_concurrent),
        ran (cleanup_expired ports options durations) m,
      )
  unfolding create check_capacity
  create-full id_uuid image_uuid input m allowed full =
      rw
        (
          allowed,
          le→leb options.max_concurrent
              (size (ran (cleanup_expired ports options durations) m).live) full,
        )
        refl

  -- create denies a request for a port of the host where the configuration does not allow it, and
  -- leaves the whole state as it was.
  create-denied :
      (id_uuid image_uuid : Text) (input : RuntimeRequest) (m : Runtime W)
      → (input.host_expose && not options.allow_host_expose) ≡ true
      → create ports options durations id_uuid image_uuid input m
        ≡ (err host_exposure_denied_fault, m)
  unfolding create
  create-denied id_uuid image_uuid input m denied = rw denied refl
