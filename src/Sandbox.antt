-- ===== src/Sandbox.antt =====
-- The sandboxes of backend/src/sandbox: the records of domain/models/sandbox.ts and
-- domain/entities/runtime-sandbox.ts, and the errors of domain/errors.
pub mod Manager
pub mod Runtime
mod Tests
use autoforge.Common.Texts.{Text, codes}
use autoforge.Common.{ℕ, Option, List}

pub data SandboxType : Type 0 where
  analysis runtime : SandboxType

pub data SandboxStatus : Type 0 where
  pending creating starting ready running executing restarting destroyed failed : SandboxStatus

pub data Egress : Type 0 where
  no_egress internal egress : Egress

-- The record of the manager. The container's other knobs are copied from the input.
pub record Sandbox : Type 0 where
  pub id : Text
  pub scan_id : Text
  pub type : SandboxType
  pub status : SandboxStatus
  pub image : Text
  pub repository_path : Text
  pub egress : Egress
  pub allowlist : List Text
  pub container_id : Option Text
  pub network_id : Option Text
  pub workspace_path : Option Text
  pub ip_address : Option Text
  pub exposed_port : Option ℕ
  pub updated_at : ℕ

pub data RuntimeFailureStage : Type 0 where
  validation_stage capacity_stage workspace_stage repository_stage : RuntimeFailureStage
  runtime_detection_stage image_build_stage container_start_stage : RuntimeFailureStage
  health_check_stage destroy_stage backend_stage : RuntimeFailureStage

-- What can be thrown: the subclasses of `RuntimeSandboxError`, the error of a backend with no
-- containers, other errors by their message, and values that are no errors, by `String(value)`.
pub data Fault : Type 0 where
  not_found_fault : Text → Fault
  forbidden_fault : Text → Text → Fault
  capacity_fault : ℕ → ℕ → Fault
  invalid_repository_fault : Text → Fault
  host_exposure_denied_fault : Fault
  unsupported_runtime_fault : List Text → Fault
  creation_fault : RuntimeFailureStage → Text → Fault
  runtime_unsupported_fault : Text → Fault
  other_fault : Text → Fault
  value_fault : Text → Fault
