-- ===== src/Core/Telemetry/Served.antt =====
-- crates/eggwork-core/src/lib.rs, `NodeTelemetry::validate`: which responses are served.
use eggwork.Prelude.{
  ◌≤◌, ◌<◌, ◌≡◌, ◌↔◌, refl, ◌==◌, true, false, not, ◌||◌, Option, none, some, arith, ltb, is_some,
  ok, reject_if-eq-ok, >>-eq-ok,
}
use eggwork.Core.Telemetry.{
  TelemetryMetric, unsupported, unknown, value, Float, TelemetryMemory, TelemetrySwap, TelemetryCpu,
  TelemetryLoad, HostTelemetry, NodeTelemetry, ProviderState, disabled, warming, ready, stale,
  unavailable, invalid, max_telemetry_sample_interval_ms, validate_percentage, validate_load,
  check_iowait, check_cpu, check_memory, check_load, check_swap, check_state, check_observation,
  differ, validate_host, validate_node,
}

-- A condition on a measurement that is there.
abbrev pub Present {ℓ κ} : {A : Type ℓ} → (A → Type κ) → TelemetryMetric A → Type κ
Present P unsupported = Unit
Present P unknown = Unit
Present P (value a) = P a

abbrev pub IfSome {ℓ κ} : {A : Type ℓ} → (A → Type κ) → Option A → Type κ
IfSome P none = Unit
IfSome P (some a) = P a

module _ (fl : Float) where
  open fl use {F, is_finite, in_percent, is_negative}

  abbrev pub IsPercentage : F → Type 0
  IsPercentage v = (is_finite v ≡ true) × (in_percent v ≡ true)

  abbrev pub IsLoad : F → Type 0
  IsLoad v = (is_finite v ≡ true) × (is_negative v ≡ false)

  pub record CpuIsValid (c : TelemetryCpu fl) : Type 0 where
    pub cores : 0 < c.logical_cores
    pub usage : IsPercentage c.usage_pct
    pub iowait : IfSome IsPercentage c.iowait_pct

  pub record LoadIsValid (l : TelemetryLoad fl) : Type 0 where
    pub one : IsLoad l.one
    pub five : IsLoad l.five
    pub fifteen : IsLoad l.fifteen

  -- A sound host-wide measurement.
  pub record HostIsValid (t : HostTelemetry fl) : Type 0 where
    pub observed : 0 < t.observed_at_unix_ms
    pub interval :
        (0 < t.sample_interval_ms) × (t.sample_interval_ms ≤ max_telemetry_sample_interval_ms)
    pub cpu : Present CpuIsValid t.cpu
    pub memory : Present (λ (m : TelemetryMemory). m.used_bytes ≤ m.total_bytes) t.memory
    pub load : Present LoadIsValid t.load
    pub swap : Present (λ (s : TelemetrySwap). s.used_bytes ≤ s.total_bytes) t.swap

  -- The documented table of provider states: which of them come with a sample.
  abbrev pub MayHold : ProviderState → Option (HostTelemetry fl) → Type 0
  MayHold ready o = is_some o ≡ true
  MayHold stale o = is_some o ≡ true
  MayHold disabled o = o ≡ none
  MayHold warming o = o ≡ none
  MayHold unavailable o = Unit
  MayHold invalid o = Unit

  pub record NodeIsValid (t : NodeTelemetry fl) : Type 0 where
    pub version : t.schema_version ≡ 1
    pub sample : MayHold t.state t.observation
    pub age : is_some t.age_ms ≡ is_some t.observation
    pub sound : IfSome HostIsValid t.observation

  cpu_iff :
      (c : TelemetryMetric (TelemetryCpu fl)) → (check_cpu fl c ≡ ok tt) ↔ Present CpuIsValid c
  unfolding validate_percentage
  cpu_iff unsupported = (λ h. tt, λ h. refl)
  cpu_iff unknown = (λ h. tt, λ h. refl)
  cpu_iff (value c) = (λ h. sound h, λ v. ground (arith, iowait_ok v.iowait))
    where
      iowait_valid : (o : Option F) → check_iowait fl o ≡ ok tt → IfSome IsPercentage o
      iowait_valid none h = tt
      iowait_valid (some w) h = (ground arith, ground arith)

      iowait_ok : IfSome IsPercentage c.iowait_pct → check_iowait fl c.iowait_pct ≡ ok tt
      iowait_ok = ok_for c.iowait_pct
        where
          ok_for : (o : Option F) → IfSome IsPercentage o → check_iowait fl o ≡ ok tt
          ok_for none v = refl
          ok_for (some w) v = ground arith

      sound : check_cpu fl (value c) ≡ ok tt → CpuIsValid c
      sound h =
          let (cores, h₁) = reject_if-eq-ok (c.logical_cores == 0) _ _ h in
          let (usage, h₂) =
            >>-eq-ok (validate_percentage fl c.usage_pct "telemetry cpu usage") _ h₁ in
          record {
            cores = ground arith;
            usage = (ground arith, ground arith);
            iowait = iowait_valid c.iowait_pct h₂;
          }

  load_iff :
      (l : TelemetryMetric (TelemetryLoad fl)) → (check_load fl l ≡ ok tt) ↔ Present LoadIsValid l
  unfolding validate_load
  load_iff unsupported = (λ h. tt, λ h. refl)
  load_iff unknown = (λ h. tt, λ h. refl)
  load_iff (value l) = (
    λ h. record {
      one = (ground arith, ground arith);
      five = (ground arith, ground arith);
      fifteen = (ground arith, ground arith);
    },
    λ v. ground arith,
  )

  memory_iff :
      (m : TelemetryMetric TelemetryMemory)
      → (check_memory fl m ≡ ok tt)
        ↔ Present (λ (m : TelemetryMemory). m.used_bytes ≤ m.total_bytes) m
  memory_iff unsupported = (λ h. tt, λ h. refl)
  memory_iff unknown = (λ h. tt, λ h. refl)
  memory_iff (value m) = (λ h. ground arith, λ h. ground arith)

  swap_iff :
      (s : TelemetryMetric TelemetrySwap)
      → (check_swap fl s ≡ ok tt) ↔ Present (λ (s : TelemetrySwap). s.used_bytes ≤ s.total_bytes) s
  swap_iff unsupported = (λ h. tt, λ h. refl)
  swap_iff unknown = (λ h. tt, λ h. refl)
  swap_iff (value s) = (λ h. ground arith, λ h. ground arith)

  pub validate_host_iff : (t : HostTelemetry fl) → (validate_host fl t ≡ ok tt) ↔ HostIsValid t
  unfolding validate_host
  validate_host_iff t = (
    λ h.
        let (time, h₁) = reject_if-eq-ok (t.observed_at_unix_ms == 0) _ _ h in
        let (every, h₂) =
          reject_if-eq-ok
            (t.sample_interval_ms == 0 || ltb max_telemetry_sample_interval_ms t.sample_interval_ms)
            _ _ h₁ in
        let (cpu, h₃) = >>-eq-ok (check_cpu fl t.cpu) _ h₂ in
        let (memory, h₄) = >>-eq-ok (check_memory fl t.memory) _ h₃ in
        let (load, h₅) = >>-eq-ok (check_load fl t.load) _ h₄ in
        let (swap, h₆) = >>-eq-ok (check_swap fl t.swap) _ h₅ in
        record {
          observed = ground arith;
          interval = (ground arith, ground arith);
          cpu = (cpu_iff t.cpu).0 cpu;
          memory = (memory_iff t.memory).0 memory;
          load = (load_iff t.load).0 load;
          swap = (swap_iff t.swap).0 swap;
        },
    λ v.
        rw
          (
            (cpu_iff t.cpu).1 v.cpu,
            (memory_iff t.memory).1 v.memory,
            (load_iff t.load).1 v.load,
            (swap_iff t.swap).1 v.swap,
          )
          (ground (arith, v.observed, v.interval.0, v.interval.1)),
  )

  state_iff :
      (s : ProviderState) (o : Option (HostTelemetry fl))
      → (check_state fl s o ≡ ok tt) ↔ MayHold s o
  state_iff ready o = (λ h. ground arith, λ h. ground arith)
  state_iff stale o = (λ h. ground arith, λ h. ground arith)
  state_iff disabled o = (λ h. ground arith, λ h. ground arith)
  state_iff warming o = (λ h. ground arith, λ h. ground arith)
  state_iff unavailable o = (λ h. tt, λ h. refl)
  state_iff invalid o = (λ h. tt, λ h. refl)

  observation_iff :
      (o : Option (HostTelemetry fl)) → (check_observation fl o ≡ ok tt) ↔ IfSome HostIsValid o
  observation_iff none = (λ h. tt, λ h. refl)
  observation_iff (some t) = validate_host_iff t

  -- `NodeTelemetry::validate` accepts a response exactly when its schema version is 1, a sample is
  -- present in the states that the documented table requires it in and absent where it forbids one,
  -- an age accompanies the sample and only the sample, and the sample itself is sound.
  pub validate_node_iff : (t : NodeTelemetry fl) → (validate_node fl t ≡ ok tt) ↔ NodeIsValid t
  unfolding validate_node
  validate_node_iff t = (
    λ h.
        let (version, h₁) = reject_if-eq-ok (not (t.schema_version == 1)) _ _ h in
        let (sample, h₂) = >>-eq-ok (check_state fl t.state t.observation) _ h₁ in
        let (age, h₃) =
          reject_if-eq-ok (differ fl (is_some t.observation) (is_some t.age_ms)) _ _ h₂ in
        let (sound, h₄) = >>-eq-ok (check_observation fl t.observation) _ h₃ in
        record {
          version = ground arith;
          sample = (state_iff t.state t.observation).0 sample;
          age = ground arith;
          sound = (observation_iff t.observation).0 sound;
        },
    λ v. ground (
      arith,
      v.version,
      v.age,
      (state_iff t.state t.observation).1 v.sample,
      (observation_iff t.observation).1 v.sound,
    ),
  )
