-- ===== src/Core/Telemetry.antt =====
-- crates/eggwork-core/src/lib.rs: host telemetry. `f32` and its tests are a parameter.
pub mod Served
use eggwork.Prelude.{
  ℕ, ◌*◌, ◌==◌, Bool, true, false, not, ◌||◌, ◌&&◌, Option, none, some, ltb, is_some, ok, err,
  reject_if, ◌>>=◌, ◌>>◌, if◌then◌else◌,
}
use eggwork.Prelude.Bytes.{Bytes}
use eggwork.Core.Error.{Validation, out_of_range}
use Prim.Native.String.{String}

abbrev pub max_telemetry_sample_interval_ms : ℕ
max_telemetry_sample_interval_ms = 86_400_000

abbrev pub node_telemetry_schema_version : ℕ
node_telemetry_schema_version = 1

pub data TelemetrySource : Type 0 where
  gregg : TelemetrySource

pub data ProviderState : Type 0 where
  disabled warming ready stale unavailable invalid : ProviderState

pub data ErrorCategory : Type 0 where
  connection timeout http_status malformed schema_version invalid too_large clock_skew :
      ErrorCategory

pub data TelemetryMetric {ℓ} (A : Type ℓ) : Type ℓ where
  unsupported unknown : TelemetryMetric A
  value : A → TelemetryMetric A

-- `TelemetryMetric::value`
unfoldable pub metric_value {ℓ} : {A : Type ℓ} → TelemetryMetric A → Option A
metric_value (value a) = some a
metric_value unsupported = none
metric_value unknown = none

-- The tests that the code makes of an `f32`.
pub record Float : Type 1 where
  pub F : Type 0
  pub is_finite : F → Bool
  -- `(0.0..=100.0).contains(&x)` and `x < 0.0`
  pub in_percent : F → Bool
  pub is_negative : F → Bool

pub record TelemetryMemory : Type 0 where
  pub available_bytes : ℕ
  pub total_bytes : ℕ
  pub used_bytes : ℕ

pub record TelemetrySwap : Type 0 where
  pub used_bytes : ℕ
  pub total_bytes : ℕ

pub record TelemetryDisk : Type 0 where
  pub available_bytes : ℕ
  pub total_bytes : ℕ
  pub volume_count : ℕ

pub record TelemetryDiskIo : Type 0 where
  pub read_bytes_per_sec : ℕ
  pub write_bytes_per_sec : ℕ

pub record TelemetryNetwork : Type 0 where
  pub rx_bytes_per_sec : ℕ
  pub tx_bytes_per_sec : ℕ

module _ (fl : Float) where
  open fl use {F, is_finite, in_percent, is_negative}

  pub record TelemetryCpu : Type 0 where
    pub logical_cores : ℕ
    pub usage_pct : F
    pub iowait_pct : Option F

  pub record TelemetryLoad : Type 0 where
    pub one : F
    pub five : F
    pub fifteen : F

  pub record HostTelemetry : Type 0 where
    pub observed_at_unix_ms : ℕ
    pub sample_interval_ms : ℕ
    pub cpu : TelemetryMetric TelemetryCpu
    pub memory : TelemetryMetric TelemetryMemory
    pub load : TelemetryMetric TelemetryLoad
    pub swap : TelemetryMetric TelemetrySwap
    pub disk : TelemetryMetric TelemetryDisk
    pub disk_io : TelemetryMetric TelemetryDiskIo
    pub network : TelemetryMetric TelemetryNetwork

  pub record NodeTelemetry : Type 0 where
    pub schema_version : ℕ
    pub node_id : Bytes
    pub source : TelemetrySource
    pub state : ProviderState
    pub age_ms : Option ℕ
    pub last_error : Option ErrorCategory
    pub observation : Option HostTelemetry

  unfoldable pub validate_percentage : F → String → Validation
  validate_percentage v field =
      reject_if (not (is_finite v) || not (in_percent v)) (out_of_range field)

  unfoldable pub validate_load : F → String → Validation
  validate_load v field = reject_if (not (is_finite v) || is_negative v) (out_of_range field)

  abbrev pub check_iowait : Option F → Validation
  check_iowait none = ok tt
  check_iowait (some iowait) = validate_percentage iowait "telemetry cpu iowait"

  abbrev pub check_cpu : TelemetryMetric TelemetryCpu → Validation
  check_cpu (value cpu) = do
    reject_if (cpu.logical_cores == 0) (out_of_range "telemetry cpu logical cores")
    validate_percentage cpu.usage_pct "telemetry cpu usage"
    check_iowait cpu.iowait_pct
  check_cpu _ = ok tt

  abbrev pub check_memory : TelemetryMetric TelemetryMemory → Validation
  check_memory (value memory) =
      reject_if (ltb memory.total_bytes memory.used_bytes)
        (out_of_range "telemetry memory used bytes")
  check_memory _ = ok tt

  abbrev pub check_load : TelemetryMetric TelemetryLoad → Validation
  check_load (value load) = do
    validate_load load.one "telemetry load one"
    validate_load load.five "telemetry load five"
    validate_load load.fifteen "telemetry load fifteen"
  check_load _ = ok tt

  abbrev pub check_swap : TelemetryMetric TelemetrySwap → Validation
  check_swap (value swap) =
      reject_if (ltb swap.total_bytes swap.used_bytes) (out_of_range "telemetry swap used bytes")
  check_swap _ = ok tt

  -- `HostTelemetry::validate`
  unfoldable pub validate_host : HostTelemetry → Validation
  unfolding validate_percentage validate_load
  validate_host t = do
    reject_if (t.observed_at_unix_ms == 0) (out_of_range "telemetry observation timestamp")
    reject_if
        (t.sample_interval_ms == 0 || ltb max_telemetry_sample_interval_ms t.sample_interval_ms)
        (out_of_range "telemetry sample interval")
    check_cpu t.cpu
    check_memory t.memory
    check_load t.load
    check_swap t.swap
    ok tt

  -- The `match self.state` of `NodeTelemetry::validate`.
  abbrev pub check_state : ProviderState → Option HostTelemetry → Validation
  check_state ready o = reject_if (not (is_some o)) (out_of_range "node telemetry observation")
  check_state stale o = reject_if (not (is_some o)) (out_of_range "node telemetry observation")
  check_state disabled o = reject_if (is_some o) (out_of_range "node telemetry observation")
  check_state warming o = reject_if (is_some o) (out_of_range "node telemetry observation")
  check_state unavailable o = ok tt
  check_state invalid o = ok tt

  abbrev pub check_observation : Option HostTelemetry → Validation
  check_observation none = ok tt
  check_observation (some o) = validate_host o

  -- `self.observation.is_some() != self.age_ms.is_some()`
  abbrev pub differ : Bool → Bool → Bool
  differ true b = not b
  differ false b = b

  -- `NodeTelemetry::validate`
  unfoldable pub validate_node : NodeTelemetry → Validation
  validate_node t = do
    reject_if (not (t.schema_version == node_telemetry_schema_version))
        (out_of_range "node telemetry schema version")
    check_state t.state t.observation
    reject_if (differ (is_some t.observation) (is_some t.age_ms))
        (out_of_range "node telemetry age")
    check_observation t.observation
    ok tt
