-- ===== src/Sandbox/Runtime/Probing.antt =====
-- The readiness probes of runtime-sandbox-provisioning.ts: `probeWithRetries` ends by its deadline.
use autoforge.Common.{
  ◌+◌, ◌*◌, ◌≤◌, ◌≡◌, ◌∙◌, ℕ, zero, suc, refl, sym, arith, ◌-◌, ◌/◌, ◌&&◌, min, Bool, true, false,
  ltb, ltb→lt, not-ltb, if◌then◌else◌, ap, none, some,
}
use autoforge.Sandbox.Runtime.{
  RuntimePorts, RuntimeOptions, RuntimeSandbox, Text, HealthProbe, return, Served,
}
use autoforge.Sandbox.Runtime.Provision.{Durations, probe_from, probe_round, probe_with_retries}
use autoforge.Common.Texts.{Text, codes}
use mathlib.Core.Path.{fun_ext}
use autoforge.Common.Effect.{return}

-- What is done next is the same if it is where there is a next round.
next-same :
    {A : Type 0} (some_time more : Bool) (first other stop : A)
    → (more ≡ true → first ≡ other)
    → (if some_time && more then first else stop) ≡ (if some_time && more then other else stop)
next-same true true first other stop given = given refl
next-same true false first other stop given = refl
next-same false more first other stop given = refl

-- A pause that does not reach the deadline is a whole one.
later :
    (now probed total fuel : ℕ)
    → now ≤ probed
    → ltb (probed + min 1000 (total - probed)) total ≡ true
    → total ≤ now + 1000 * suc fuel
    → total ≤ probed + min 1000 (total - probed) + 1000 * fuel
later now probed total fuel after more late =
    let lt = ltb→lt (probed + min 1000 (total - probed)) total more in omega arith

module _ {W : Type 0} (ports : RuntimePorts W) (options : RuntimeOptions)
    (durations : Durations) where
  after_deadline :
      (s : RuntimeSandbox) (path : Text) (fuel round now : ℕ) (last : HealthProbe)
      → options.health_timeout_ms ≤ now
      → probe_from ports options durations s path fuel round now last ≡ return (last, now)
  unfolding probe_from
  after_deadline s path zero round now last late = refl
  after_deadline s path (suc fuel) round now last late =
      rw (not-ltb now options.health_timeout_ms late) refl

  probe_from-enough :
      (s : RuntimeSandbox) (path : Text) (fuel extra round now : ℕ)
      → options.health_timeout_ms ≤ now + 1000 * fuel
      → probe_from ports options durations s path (fuel + extra) round now
        ≡ probe_from ports options durations s path fuel round now
  unfolding probe_from
  probe_from-enough s path zero extra round now late = fun_ext λ last.
      let over : options.health_timeout_ms ≤ now = omega arith in
      after_deadline s path (0 + extra) round now last over
      ∙ sym (after_deadline s path 0 round now last over)
  probe_from-enough s path (suc fuel) extra round now late =
      let total = options.health_timeout_ms in
      let inspected : ℕ = now + durations.inspect_ms round in
      let probed : ℕ = inspected + durations.probe_ms round in
      let pause : ℕ = min 1000 (total - probed) in
      let after : now ≤ now + durations.inspect_ms round + durations.probe_ms round = omega arith in
      let step : suc fuel + extra ≡ suc (fuel + extra) = omega arith in
      let same =
        next-same (ltb 0 pause) (ltb (probed + pause) total) _ _ (λ probe. return (probe, probed))
          (λ more.
            probe_from-enough s path fuel extra (suc round) (probed + pause)
              (later now probed total fuel after more late)) in
      fun_ext λ last. rw step (
        ap
          (λ next.
            if ltb now total
            then probe_round ports options s path inspected probed next
            else return (last, now))
          same)

  -- The rounds that probeWithRetries is given are enough: on any number of rounds more than a second
  -- each of the timeout would make, and one, for any durations of the inspections and the probes and
  -- any answers of the collaborators, the same loop ends in the same way and leaves the same state.
  pub probe_with_retries_fuel :
      (s : RuntimeSandbox) (path : Text) (extra : ℕ)
      → probe_with_retries ports options durations s path
        ≡ probe_from ports options durations s path
            (options.health_timeout_ms / 1000 + 1 + extra)
            0
            0
            (record {
              reachable = false;
              latency_ms = 0;
              status_code = none;
              detail = some (codes "unreachable");
            })
  unfolding probe_with_retries
  probe_with_retries_fuel s path extra =
      let enough : options.health_timeout_ms ≤ 0 + 1000 * (options.health_timeout_ms / 1000 + 1) =
        omega arith in
      let none_yet : HealthProbe = record {
        reachable = false;
        latency_ms = 0;
        status_code = none;
        detail = some (codes "unreachable");
      } in
      ap (λ (loop : HealthProbe → Served W (HealthProbe × ℕ)). loop none_yet)
        (sym (probe_from-enough s path (options.health_timeout_ms / 1000 + 1) extra 0 0 enough))
