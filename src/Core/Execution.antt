-- ===== src/Core/Execution.antt =====
-- crates/eggwork-core/src/lib.rs: the states, results, events and snapshots of an execution, and
-- what a node says of itself. An `i32` exit code is kept as its bit pattern.
pub mod Events
use eggwork.Prelude.{
  ℕ, ◌==◌, Bool, true, false, ◌||◌, ◌&&◌, List, Option, ltb, any, length, ok, reject_if, ◌>>=◌,
  ◌>>◌,
}
use eggwork.Prelude.Bytes.{Bytes, is_empty, contains}
use eggwork.Core.Error.{Validation, too_many, too_long, out_of_range}
use eggwork.Core.Limits.{
  max_metadata_count, max_metadata_key_bytes, max_metadata_value_bytes, max_event_chunk_bytes,
  max_capabilities,
}
use eggwork.Core.RelativePath.{RelativePath}

pub data ExecutionState : Type 0 where
  accepted preparing running cancelling : ExecutionState
  succeeded failed cancelled timed_out interrupted : ExecutionState

pub data ExecutionRejection : Type 0 where
  busy draining capability_mismatch unauthorized : ExecutionRejection
  invalid_request conflict storage_exhausted : ExecutionRejection

pub data ExecutionFailure : Type 0 where
  spawn internal output_limit sandbox resource_limit : ExecutionFailure
  interrupted lease_expired : ExecutionFailure

pub data SandboxResult : Type 0 where
  not_requested : SandboxResult
  not_applied applied failed : Bytes → SandboxResult

pub data DimensionResult : Type 0 where
  not_requested : DimensionResult
  not_applied applied limit_exceeded : Bytes → DimensionResult

pub record ResourceResult : Type 0 where
  pub memory_bytes : DimensionResult
  pub cpu_millis : DimensionResult
  pub pids : DimensionResult

pub data FinalizationFailure : Type 0 where
  artifact_capture retention : FinalizationFailure

pub record ExecutionResult : Type 0 where
  pub state : ExecutionState
  pub exit_code : Option ℕ
  pub failure : Option ExecutionFailure
  pub stdout_bytes : ℕ
  pub stderr_bytes : ℕ
  pub stdout_omitted : ℕ
  pub stderr_omitted : ℕ
  pub cleanup_warning : Option Bytes
  pub finalization_failure : Option FinalizationFailure
  pub artifact_count : ℕ
  pub sandbox : Option SandboxResult
  pub resources : Option ResourceResult

pub data ArtifactType : Type 0 where
  file : ArtifactType

pub record ArtifactRecord : Type 0 where
  pub artifact_id : Bytes
  pub execution_id : Bytes
  pub generation : ℕ
  pub path : RelativePath
  pub kind : ArtifactType
  pub digest : Bytes
  pub size_bytes : ℕ
  pub executable : Bool
  pub created_unix_ms : ℕ
  pub expires_unix_ms : ℕ

pub record EventMetadata : Type 0 where
  pub fields : List (Bytes × Bytes)

-- `k.len() > MAX_METADATA_KEY_BYTES || v.len() > MAX_METADATA_VALUE_BYTES`
abbrev pub is_long_field : Bytes × Bytes → Bool
is_long_field f =
    ltb max_metadata_key_bytes (length f.0) || ltb max_metadata_value_bytes (length f.1)

-- `EventMetadata::validate`
unfoldable pub validate_metadata : EventMetadata → Validation
validate_metadata m = do
  reject_if (ltb max_metadata_count (length m.fields))
      (too_many "event metadata" max_metadata_count)
  reject_if (any is_long_field m.fields) (out_of_range "event metadata")

pub data EventKind : Type 0 where
  state : ExecutionState → EventKind
  stdout stderr diagnostic : Bytes → EventKind

-- `sequence` is an `EventSequence`.
pub record ExecutionEvent : Type 0 where
  pub sequence : ℕ
  pub kind : EventKind
  pub metadata : EventMetadata

-- The `match &self.kind` of `ExecutionEvent::validate`.
abbrev pub payload_length : EventKind → ℕ
payload_length (state s) = 0
payload_length (stdout v) = length v
payload_length (stderr v) = length v
payload_length (diagnostic v) = length v

-- `ExecutionEvent::validate`
unfoldable pub validate_event : ExecutionEvent → Validation
unfolding validate_metadata
validate_event e = do
  validate_metadata e.metadata
  reject_if (ltb max_event_chunk_bytes (payload_length e.kind))
      (too_long "event payload" max_event_chunk_bytes)

pub record ProtocolVersion : Type 0 where
  pub major : ℕ
  pub minor : ℕ

pub record ProtocolVersionRange : Type 0 where
  pub min : ProtocolVersion
  pub max : ProtocolVersion

-- The derived `Ord`: major first.
abbrev pub version_lt : ProtocolVersion → ProtocolVersion → Bool
version_lt a b = ltb a.major b.major || (a.major == b.major && ltb a.minor b.minor)

pub record NodeCapabilities : Type 0 where
  pub protocol : ProtocolVersionRange
  pub features : List Bytes
  pub max_active_executions : ℕ

-- A feature name that is refused.
abbrev pub is_bad_feature : Bytes → Bool
is_bad_feature f = is_empty f || ltb max_metadata_value_bytes (length f) || contains 0 f

-- `NodeCapabilities::validate`
unfoldable pub validate_capabilities : NodeCapabilities → Validation
validate_capabilities c = do
  reject_if (version_lt c.protocol.max c.protocol.min) (out_of_range "protocol version range")
  reject_if (ltb max_capabilities (length c.features)) (too_many "capabilities" max_capabilities)
  reject_if (any is_bad_feature c.features) (out_of_range "capability")

pub record NodeStatus : Type 0 where
  pub node_id : Bytes
  pub draining : Bool
  pub active_executions : ℕ
  pub capabilities : NodeCapabilities

pub record ExecutionSnapshot : Type 0 where
  pub schema_version : ℕ
  pub execution_id : Bytes
  pub generation : ℕ
  pub state : ExecutionState
  pub result : Option ExecutionResult

pub record ExecutionHandle : Type 0 where
  pub execution_id : Bytes
  pub generation : ℕ
  pub lease_id : Bytes
