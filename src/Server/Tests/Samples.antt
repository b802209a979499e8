-- ===== src/Server/Tests/Samples.antt =====
-- The theorem on the node's telemetry at work: a sample, and then a provider that warms up again.
use eggwork.Prelude.{ℕ, ◌≡◌, ◌↔◌, refl, true, false, ◌&&◌, List, [], ◌∷◌, some, leb, ok}
use eggwork.Prelude.Bytes.{bytes}
use eggwork.Core.Telemetry.{Float, HostTelemetry, TelemetryMetric, validate_host, validate_node}
use eggwork.Server.Telemetry.{
  disabled_entry, Attempt, observed, warms_up, refresh_loop, node_telemetry,
}
use eggwork.Server.Telemetry.Answers.{has_sample, ends_warming, node_telemetry-validate_node}

abbrev whole : Float
whole = record {
  F = ℕ;
  is_finite = λ x. true;
  in_percent = λ x. leb x 100;
  is_negative = λ x. false;
}

abbrev a_sample : HostTelemetry whole
a_sample = record {
  observed_at_unix_ms = 5000;
  sample_interval_ms = 1000;
  cpu = TelemetryMetric.unknown;
  memory = TelemetryMetric.unsupported;
  load = TelemetryMetric.unknown;
  swap = TelemetryMetric.unknown;
  disk = TelemetryMetric.unknown;
  disk_io = TelemetryMetric.unknown;
  network = TelemetryMetric.unknown;
}

abbrev attempts : List (Attempt whole)
attempts =
    record { outcome = ok (observed a_sample); at = 100; wall_clock = some 5500 }
    ∷ record { outcome = ok warms_up; at = 200; wall_clock = some 5600 }
    ∷ []

sample_sound : validate_host whole a_sample ≡ ok tt
unfolding validate_host
sample_sound = refl

node_telemetry-validate_node_example :
    (validate_node whole (
        node_telemetry whole
          (bytes "n1")
          10000
          300
          (refresh_loop whole 10000 attempts (disabled_entry whole, 0)).0)
      ≡ ok tt)
    ↔ ((ends_warming whole false attempts && has_sample whole false attempts) ≡ false)
node_telemetry-validate_node_example =
    node_telemetry-validate_node whole (bytes "n1") 10000 300 attempts (sample_sound, (tt, tt))
