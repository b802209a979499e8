-- ===== src/Server/Telemetry.antt =====
-- crates/eggwork-server/src/telemetry.rs: the cache of the host's telemetry, the loop that fills it,
-- and what `node_telemetry` of crates/eggwork-server/src/lib.rs makes of it. An `Instant` is a number
-- of milliseconds, as are durations.
pub mod Answers
use eggwork.Prelude.{
  ℕ, zero, suc, ◌+◌, ◌-◌, ◌*◌, ◌^◌, Bool, true, false, ◌||◌, List, [], ◌∷◌, Option, none, some, ltb,
  min, u64_max, saturating_add, Result, ok, err, if◌then◌else◌,
}
use eggwork.Prelude.Bytes.{Bytes}
use eggwork.Core.Telemetry.{
  Float, HostTelemetry, NodeTelemetry, TelemetrySource, ProviderState, disabled, warming, ready,
  stale, unavailable, ErrorCategory, node_telemetry_schema_version,
}

abbrev pub max_clock_skew : ℕ
max_clock_skew = 30 * 1000

abbrev pub max_backoff : ℕ
max_backoff = 300 * 1000

pub data TelemetryError : Type 0 where
  connection timeout http_status malformed schema_version invalid too_large clock_skew :
      TelemetryError

abbrev pub category : TelemetryError → ErrorCategory
category TelemetryError.connection = ErrorCategory.connection
category TelemetryError.timeout = ErrorCategory.timeout
category TelemetryError.http_status = ErrorCategory.http_status
category TelemetryError.malformed = ErrorCategory.malformed
category TelemetryError.schema_version = ErrorCategory.schema_version
category TelemetryError.invalid = ErrorCategory.invalid
category TelemetryError.too_large = ErrorCategory.too_large
category TelemetryError.clock_skew = ErrorCategory.clock_skew

-- `error == TelemetryError::Invalid`
abbrev pub is_invalid : TelemetryError → Bool
is_invalid TelemetryError.invalid = true
is_invalid _ = false

-- `backoff`, for at least one failure
abbrev pub backoff : ℕ → ℕ → ℕ
backoff refresh_interval failures = min (refresh_interval * 2 ^ min (failures - 1) 5) max_backoff

-- The delay of `refresh_loop` after an attempt.
unfoldable pub next_delay : ℕ → ℕ → ℕ
next_delay refresh_interval zero = refresh_interval
next_delay refresh_interval (suc n) = backoff refresh_interval (suc n)

module _ (fl : Float) where
  pub record CacheEntry : Type 0 where
    pub state : ProviderState
    pub observation : Option (HostTelemetry fl)
    pub received_at : Option ℕ
    pub provider_stale : Bool
    pub last_error : Option ErrorCategory

  -- `CacheEntry::disabled`
  abbrev pub disabled_entry : CacheEntry
  disabled_entry = record {
    state = disabled;
    observation = none;
    received_at = none;
    provider_stale = false;
    last_error = none;
  }

  abbrev pub record_observation : HostTelemetry fl → Bool → ℕ → CacheEntry → CacheEntry
  record_observation o is_old now entry = record {
    state = ready;
    observation = some o;
    received_at = some now;
    provider_stale = is_old;
    last_error = none;
  }

  abbrev pub record_warming : CacheEntry → CacheEntry
  record_warming entry = record entry { state = warming; last_error = none }

  abbrev pub record_failure : ErrorCategory → CacheEntry → CacheEntry
  record_failure c entry = record entry { state = unavailable; last_error = some c }

  abbrev pub record_invalid : CacheEntry → CacheEntry
  record_invalid entry = record entry {
    state = ProviderState.invalid;
    last_error = some ErrorCategory.invalid;
  }

  pub data ProviderOutcome : Type 0 where
    observed : HostTelemetry fl → ProviderOutcome
    warms_up : ProviderOutcome

  -- An attempt of the loop: what the provider gave, and the clocks at that time, the wall clock only
  -- where it can be read.
  pub record Attempt : Type 0 where
    pub outcome : Result TelemetryError ProviderOutcome
    pub at : ℕ
    pub wall_clock : Option ℕ

  -- `is_provider_sample_stale`
  abbrev pub is_provider_sample_stale : Option ℕ → HostTelemetry fl → ℕ → Bool
  is_provider_sample_stale none o freshness = false
  is_provider_sample_stale (some now) o freshness =
      if ltb (saturating_add now max_clock_skew) o.observed_at_unix_ms
      then true
      else ltb freshness (now - o.observed_at_unix_ms)

  abbrev pub record_error : TelemetryError → CacheEntry → CacheEntry
  record_error e entry =
      if is_invalid e then record_invalid entry else record_failure (category e) entry

  -- The `match` of `refresh_loop`, with the number of consecutive failures.
  abbrev pub refresh_with :
      ℕ → ℕ → Option ℕ → Result TelemetryError ProviderOutcome → CacheEntry × ℕ → CacheEntry × ℕ
  refresh_with freshness now wall (ok (observed o)) (entry, failures) =
      (record_observation o (is_provider_sample_stale wall o freshness) now entry, 0)
  refresh_with freshness now wall (ok warms_up) (entry, failures) = (record_warming entry, 0)
  refresh_with freshness now wall (err e) (entry, failures) =
      (record_error e entry, min (failures + 1) (2 ^ 32 - 1))

  abbrev pub refresh : ℕ → Attempt → CacheEntry × ℕ → CacheEntry × ℕ
  refresh freshness a = refresh_with freshness a.at a.wall_clock a.outcome

  -- `refresh_loop`, until its cancellation.
  unfoldable pub refresh_loop : ℕ → List Attempt → CacheEntry × ℕ → CacheEntry × ℕ
  refresh_loop freshness [] s = s
  refresh_loop freshness (a ∷ attempts) s = refresh_loop freshness attempts (refresh freshness a s)

  -- `received_at.elapsed()` in milliseconds, capped
  abbrev pub age_of : ℕ → Option ℕ → Option ℕ
  age_of now none = none
  age_of now (some received) = some (min (now - received) u64_max)

  abbrev pub has_aged_out : ℕ → Option ℕ → Bool
  has_aged_out freshness none = false
  has_aged_out freshness (some age) = ltb freshness age

  -- The `match entry.state` of `snapshot`.
  abbrev pub shown_state : Bool → ProviderState → ProviderState
  shown_state old ready = if old then stale else ready
  shown_state old disabled = disabled
  shown_state old warming = warming
  shown_state old stale = stale
  shown_state old unavailable = unavailable
  shown_state old ProviderState.invalid = ProviderState.invalid

  -- `node_telemetry` of the cache's `snapshot`, at the time `now`.
  unfoldable pub node_telemetry : Bytes → ℕ → ℕ → CacheEntry → NodeTelemetry fl
  node_telemetry node freshness now entry =
      let age = age_of now entry.received_at in
      record {
        schema_version = node_telemetry_schema_version;
        node_id = node;
        source = TelemetrySource.gregg;
        state = shown_state (entry.provider_stale || has_aged_out freshness age) entry.state;
        age_ms = age;
        last_error = entry.last_error;
        observation = entry.observation;
      }
