-- ===== src/Lib.antt =====
-- AutoForge scans a repository, confirms a vulnerability by exploiting it in a sandbox, lets an
-- Engineer agent write a patch, and lets a Critic agent validate the patch in a fresh sandbox. Its
-- backend, backend/src, is a TypeScript program of services that are given their collaborators. This
-- library models eight of its parts and proves what makes them correct.
--
--   Critic      backend/src/critic: the validation of one patch and the loop of Engineer and Critic.
--               Critic.antt holds the data of domain/models and domain/errors, and the injected
--               services as the record CriticDependencies, by what their calls give back in one run.
--               Critic/Step.antt is the language of the services: code that reads and writes a
--               Journal and may throw, with try, catch and finally. Critic/Steps.antt is
--               application/services/critic-steps.ts (provisionFresh, waitHealthy, runBaseline,
--               applyPatch, build, tests, retest, advisory, teardown); Critic/Outcome.antt is
--               critic-outcome.ts (classifyFailure, makeFeedback, persist); Critic/Service.antt is
--               critic.service.ts (run, validate, failed); Critic/Loop.antt is
--               remediation-loop.service.ts. Proofs: Critic/Frame.antt (what the steps leave alone),
--               Critic/Teardown.antt, Critic/Row.antt, Critic/Once.antt, Critic/Waiting.antt,
--               Critic/Secures.antt, Critic/Checks.antt, Critic/Approval.antt, Critic/Loop/History.antt.
--   Diff        backend/src/critic/application/services/apply-unified-diff.ts (parseUnifiedHunks and
--               applyUnifiedDiff) in Diff.antt, and backend/src/engineer/application/services/
--               diff-builder.ts (buildUnifiedDiff) in Diff/Builder.antt. The Engineer writes the diffs
--               that the Critic applies. Proofs: Diff/Occurs.antt and Diff/Apply.antt.
--   EventBus    backend/src/observability/application/in-memory-event-bus.ts, the class
--               InMemoryEventBus behind the port domain/ports/event-bus.ts, in EventBus.antt. What a
--               subscriber does when it is called is a parameter, any change of the bus. Events
--               and their sanitizing stand in Events.antt and Events/Sanitize.antt. The Critic
--               publishes to the bus through a bridge that never throws. Proofs: EventBus/Keys.antt,
--               Memory.antt, Replay.antt, Refinement.antt, Notification.antt, Subscriptions.antt,
--               Unsubscribe.antt, and Events/Sanitize/Bounds.antt.
--   Sandbox     backend/src/sandbox: the containers that code of a scan runs in. Sandbox.antt holds the
--               records of domain/models and the errors of domain/errors. Sandbox/Manager.antt is
--               application/services/sandbox-manager.service.ts over memory-sandbox-store.ts; its
--               backend is a parameter. Sandbox/Runtime.antt holds the record of
--               domain/entities/runtime-sandbox.ts, the ports, runtime-sandbox-state.ts and
--               runtime-sandbox-utils.ts; Runtime/Environment.antt is runtime-env-builder.ts,
--               Runtime/Faults.antt the messages of the errors and classifyStage,
--               Runtime/Provision.antt is runtime-sandbox-provisioning.ts, Runtime/Service.antt and
--               Runtime/Creation.antt are runtime-sandbox.service.ts with runtime-cleanup.ts and
--               memory-runtime-registry.ts. The Critic makes and destroys such sandboxes through the
--               port of this service. Proofs: Manager/Frame.antt, Isolation.antt, Stored.antt,
--               Lifecycle.antt, Policy.antt; Runtime/Quiet.antt and Calm.antt (steps that leave the
--               rows and the registry alone), Follows.antt (the body of create, step by step),
--               Settled.antt, Failed.antt, Capacity.antt,
--               Reclaim.antt, Refusals.antt, Probing.antt.
--   Sniper      backend/src/sniper: the agent that verifies planned targets by attacking them in the
--               sandbox. Sniper.antt holds the data of domain/models/verification.ts and of the ports,
--               and the errors; Sniper/Labels.antt is resolveVulnerabilityType, Sniper/Origin.antt
--               application/services/target-origin.ts, Sniper/Confidence.antt confidence-scorer.ts,
--               Sniper/Registry.antt infrastructure/verifiers/verifier-registry.ts, Sniper/Attempts.antt
--               attempt-loop.ts, and Sniper/Records.antt and Target.antt are sniper-run.ts. The Critic
--               asks it for runs that are not to persist. Proofs: Sniper/Tries.antt, Admission.antt,
--               DryRun.antt, Origin/Same.antt, Confidence.antt, over the steps of Peel.antt.
--   Fallback    backend/src/llm/application/services/fallback-llm-provider.ts with the error codes of
--               llm/domain/errors/llm.errors.ts, in Fallback.antt: the coordinator that the Engineer
--               asks for a patch. Proofs: Fallback/Order.antt.
--   Deduplicator  backend/src/static-scanner/infrastructure/scanning/deduplicator/deduplicator.ts, in
--               Deduplicator.antt: the findings of several scanners become one list. Confidences are
--               natural numbers, since the code only compares them, and localeCompare is a parameter.
--               Proofs: Deduplicator/Winners.antt, Output.antt, Distinct.antt.
--   Deferred    backend/src/observability/application/deferred-publisher.ts, in Deferred.antt: the
--               publisher of the scan pipelines, before the scan has an id. The publisher behind it,
--               the bus, is a parameter. Proofs: Deferred/Order.antt.
--   Common      what the parts share: arrays, text, Map, decimal numbers, results that are thrown,
--               code that writes a state and may throw (Effect.antt) and what it ensures (Triple.antt).
--
-- State is passed explicitly: EventBus is the record of the bus's maps, with the sets of subscribers
-- on a heap, since an unsubscribe closure and the map share them; Journal holds what one validation
-- records and the variables that its catch and finally read. An await is a call: the services of one
-- validation run one after the other. There is one place where the source does not wait: the result
-- that validate returns is settled while its finally tears the sandbox down. The model settles first
-- and tears down after, which fixes the order of the last events and nothing else. Manager is the store of the sandbox records with the state of the backend and a
-- clock; Runtime is the rows of the database, the registry of live sandboxes, the state of all other
-- collaborators and a clock, which stands still during an operation but for the given durations of
-- polls and probes. SniperRun is the state of the
-- Sniper's collaborators with what they were asked to store.
-- A text is a list of UTF-16 units, and a line is a text.
--
-- Bounds and fuel: the polling loop of waitHealthy runs on 15 rounds, one for each second of its
-- fifteen, since a round takes a second at least; the retry loop runs on maxEngineerAttempts, its own
-- bound; waitUntilReady of the sandbox manager runs on timeout / 250 + 1 rounds, since a round takes 250
-- milliseconds at least, and probeWithRetries on timeout / 1000 + 1, since it only goes on after a pause
-- of a second. The attempts of a target run on their own bound, and all other loops
-- are structural. Numbers are natural and exact; the program's are exact to
-- 2 ^ 53 and count lines, attempts, events and milliseconds.
--
-- Not modelled: the HTTP layer, the frontend, the persistence by Prisma, the Docker backend, the
-- clients of language models and the prompts, which are input and output; the Python agents; the
-- injected services that the Critic calls (build check, test runner, security gate, patch applier,
-- Sniper, the sandbox service), which are parameters
-- there; the log lines. The runtime service is given its manager, its database and the resolver of the
-- runtime strategy as ports, and the manager its backend. Redaction is a parameter of the bus.
mod Common
pub mod Critic
pub mod Deduplicator
pub mod Deferred
pub mod Diff
pub mod EventBus
pub mod Events
pub mod Fallback
pub mod Sandbox
pub mod Sniper
