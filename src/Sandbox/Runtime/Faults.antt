-- ===== src/Sandbox/Runtime/Faults.antt =====
-- The errors of backend/src/sandbox: the messages of domain/errors, and the stage of the life of a
-- sandbox that an error belongs to, `classifyStage` of application/services/runtime-sandbox-utils.ts.
use autoforge.Common.{
  ◌+◌, ◌&&◌, ◌||◌, ◌∷◌, ◌++◌, if◌then◌else◌, ℕ, Bool, true, false, List, [], map, leb, take, any,
}
use autoforge.Sandbox.{
  RuntimeFailureStage, Fault, not_found_fault, runtime_unsupported_fault, value_fault,
  unsupported_runtime_fault, forbidden_fault, other_fault, workspace_stage, runtime_detection_stage,
  validation_stage, capacity_fault, health_check_stage, backend_stage, capacity_stage,
  image_build_stage, invalid_repository_fault, repository_stage, creation_fault,
  container_start_stage, destroy_stage, host_exposure_denied_fault,
}
use autoforge.Common.Texts.{Text, codes, starts_with}
use autoforge.Common.Decimal.{show_ℕ}

abbrev pub stage_text : RuntimeFailureStage → Text
stage_text validation_stage = codes "VALIDATION"
stage_text capacity_stage = codes "CAPACITY"
stage_text workspace_stage = codes "WORKSPACE"
stage_text repository_stage = codes "REPOSITORY"
stage_text runtime_detection_stage = codes "RUNTIME_DETECTION"
stage_text image_build_stage = codes "IMAGE_BUILD"
stage_text container_start_stage = codes "CONTAINER_START"
stage_text health_check_stage = codes "HEALTH_CHECK"
stage_text destroy_stage = codes "DESTROY"
stage_text backend_stage = codes "BACKEND"

-- `hints.join(', ') || 'none'`.
abbrev join_hints : List Text → Text
join_hints [] = []
join_hints (hint ∷ []) = hint
join_hints (hint ∷ next ∷ hints) = hint ++ (codes ", " ++ join_hints (next ∷ hints))

abbrev hints_text : Text → Text
hints_text [] = codes "none"
hints_text (c ∷ cs) = c ∷ cs

-- `error.message`, or `String(error)` of what is no error.
abbrev pub message_of : Fault → Text
message_of (not_found_fault id) = codes "runtime sandbox not found: " ++ id
message_of (forbidden_fault id scan_id) =
    codes "runtime sandbox " ++ (id ++ (codes " does not belong to scan " ++ scan_id))
message_of (capacity_fault active limit) =
    codes "runtime sandbox capacity reached ("
    ++ (show_ℕ active ++ (codes " active of " ++ (show_ℕ limit ++ codes " max)")))
message_of (invalid_repository_fault detail) = codes "invalid runtime repository: " ++ detail
message_of host_exposure_denied_fault =
    codes "host port publishing is disabled (SANDBOX_ALLOW_HOST_EXPOSE=false); "
    ++ codes "set it to expose the app on 127.0.0.1 or create without hostExpose"
message_of (unsupported_runtime_fault hints) =
    codes "unsupported runtime for sandbox provisioning (hints: "
    ++ (hints_text (join_hints hints) ++ codes ")")
message_of (creation_fault stage detail) =
    codes "runtime sandbox creation failed at '" ++ (stage_text stage ++ (codes "': " ++ detail))
message_of (runtime_unsupported_fault capability) =
    codes "active sandbox backend does not support '"
    ++ (capability ++ codes "' (requires a Docker host)")
message_of (other_fault message) = message
message_of (value_fault text) = text

-- `error instanceof RuntimeSandboxError`.
abbrev pub is_runtime_error : Fault → Bool
is_runtime_error (runtime_unsupported_fault capability) = false
is_runtime_error (other_fault message) = false
is_runtime_error (value_fault text) = false
is_runtime_error _ = true

-- The message that a record keeps: of an error the first 800 units, of another value all of it.
abbrev pub reason_of : Fault → Text
reason_of (value_fault text) = text
reason_of fault = take 800 (message_of fault)

-- The flag `i` on words of ASCII.
abbrev ascii_lower : ℕ → ℕ
ascii_lower c = if leb 65 c && leb c 90 then c + 32 else c

abbrev occurs : Text → Text → Bool
occurs word [] = starts_with [] word
occurs word (c ∷ cs) = starts_with (c ∷ cs) word || occurs word cs

-- The test of a regular expression that lists words.
abbrev mentions : List Text → Text → Bool
mentions words message = any (λ word. occurs word (map ascii_lower message)) words

abbrev classify_message : Text → RuntimeFailureStage
classify_message message =
    if mentions (codes "workspace" ∷ codes "prepare" ∷ codes "clone" ∷ codes "copy" ∷ []) message
    then workspace_stage
    else if mentions
        (codes "health" ∷ codes "probe" ∷ codes "reachable" ∷ codes "no network address" ∷ [])
        message
    then health_check_stage
    else if mentions (codes "build" ∷ []) message
    then image_build_stage
    else if mentions (codes "container" ∷ codes "sandbox" ∷ codes "start" ∷ []) message
    then container_start_stage
    else backend_stage

unfoldable pub classify_stage : Fault → RuntimeFailureStage
classify_stage (unsupported_runtime_fault hints) = runtime_detection_stage
classify_stage (runtime_unsupported_fault capability) = backend_stage
classify_stage (invalid_repository_fault detail) = repository_stage
classify_stage fault = classify_message (message_of fault)
