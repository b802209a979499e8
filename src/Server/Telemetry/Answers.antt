-- ===== src/Server/Telemetry/Answers.antt =====
-- crates/eggwork-server/src/telemetry.rs: which of the node's answers a client accepts.
use eggwork.Prelude.{
  ℕ, ◌≡◌, ◌↔◌, refl, sym, ap, ◌∙◌, Bool, true, false, ◌&&◌, ◌||◌, arith, List, [], ◌∷◌, Option,
  none, some, is_some, All, Result, ok, err, ◌>>◌, Bool-cases, inl, inr,
}
use eggwork.Prelude.Bytes.{Bytes}
use eggwork.Core.Error.{Validation}
use eggwork.Core.Telemetry.{
  Float, HostTelemetry, ProviderState, disabled, warming, ready, stale, unavailable, invalid,
  check_state, check_observation, differ, validate_host, validate_node,
}
use eggwork.Server.Telemetry.{
  TelemetryError, CacheEntry, disabled_entry, is_invalid, record_error, ProviderOutcome, observed,
  warms_up, Attempt, refresh_with, refresh_loop, age_of, has_aged_out, shown_state, node_telemetry,
}

module _ (fl : Float) where
  abbrev pub is_observed : Result TelemetryError (ProviderOutcome fl) → Bool
  is_observed (ok (observed o)) = true
  is_observed (ok warms_up) = false
  is_observed (err e) = false

  abbrev pub is_warming : Result TelemetryError (ProviderOutcome fl) → Bool
  is_warming (ok (observed o)) = false
  is_warming (ok warms_up) = true
  is_warming (err e) = false

  -- Whether a sample was ever taken, and whether the provider was warming up at the last attempt.
  abbrev pub has_sample : Bool → List (Attempt fl) → Bool
  has_sample before [] = before
  has_sample before (a ∷ attempts) = has_sample (before || is_observed a.outcome) attempts

  abbrev pub ends_warming : Bool → List (Attempt fl) → Bool
  ends_warming before [] = before
  ends_warming before (a ∷ attempts) = ends_warming (is_warming a.outcome) attempts

  -- The provider's samples are validated before they are returned.
  abbrev pub Sound : Result TelemetryError (ProviderOutcome fl) → Type 0
  Sound (ok (observed o)) = validate_host fl o ≡ ok tt
  Sound (ok warms_up) = Unit
  Sound (err e) = Unit

  abbrev Fits : ProviderState → Bool → Bool → Type 0
  Fits ready seen warm = (seen ≡ true) × (warm ≡ false)
  Fits warming seen warm = warm ≡ true
  Fits disabled seen warm = (seen ≡ false) × (warm ≡ false)
  Fits stale seen warm = true ≡ false
  Fits unavailable seen warm = warm ≡ false
  Fits invalid seen warm = warm ≡ false

  record Holds (seen warm : Bool) (e : CacheEntry fl) : Type 0 where
    sample : is_some e.observation ≡ seen
    received : is_some e.received_at ≡ seen
    sound : check_observation fl e.observation ≡ ok tt
    state : Fits e.state seen warm

  or_false : (b : Bool) → b ≡ (b || false)
  or_false b = ground arith

  error-Holds :
      (error : TelemetryError) (seen warm : Bool) (e : CacheEntry fl)
      → Holds seen warm e
      → Holds (seen || false) false (record_error fl error e)
  error-Holds error seen warm e h = elim (Bool-cases (is_invalid error)) [
    | inl is ↦ rw is (record {
      sample = h.sample ∙ or_false seen;
      received = h.received ∙ or_false seen;
      sound = h.sound;
      state = refl;
    })
    | inr isnt ↦ rw isnt (record {
      sample = h.sample ∙ or_false seen;
      received = h.received ∙ or_false seen;
      sound = h.sound;
      state = refl;
    })
  ]

  refresh-Holds :
      (freshness now : ℕ) (wall : Option ℕ) (outcome : Result TelemetryError (ProviderOutcome fl))
      (seen warm : Bool) (e : CacheEntry fl) (failures : ℕ)
      → Sound outcome
      → Holds seen warm e
      → Holds
          (seen || is_observed outcome)
          (is_warming outcome)
          (refresh_with fl freshness now wall outcome (e, failures)).0
  refresh-Holds freshness now wall (ok (observed o)) seen warm e failures s h = record {
    sample = ground arith;
    received = ground arith;
    sound = s;
    state = (ground arith, refl);
  }
  refresh-Holds freshness now wall (ok warms_up) seen warm e failures s h = record {
    sample = h.sample ∙ or_false seen;
    received = h.received ∙ or_false seen;
    sound = h.sound;
    state = refl;
  }
  refresh-Holds freshness now wall (err error) seen warm e failures s h =
      error-Holds error seen warm e h

  loop-Holds :
      (freshness : ℕ) (attempts : List (Attempt fl)) (seen warm : Bool) (e : CacheEntry fl)
      (failures : ℕ)
      → All (λ a. Sound a.outcome) attempts
      → Holds seen warm e
      → Holds
          (has_sample seen attempts)
          (ends_warming warm attempts)
          (refresh_loop fl freshness attempts (e, failures)).0
  unfolding refresh_loop
  loop-Holds freshness [] seen warm e failures s h = h
  loop-Holds freshness (a ∷ attempts) seen warm e failures s h =
      loop-Holds freshness attempts _ _ _ _ s.1
        (refresh-Holds freshness a.at a.wall_clock a.outcome seen warm e failures s.0 h)

  is_some-age :
      (now : ℕ) (received : Option ℕ) → is_some (age_of fl now received) ≡ is_some received
  is_some-age now none = refl
  is_some-age now (some r) = refl

  differ_self : (b : Bool) → differ fl b b ≡ false
  differ_self true = refl
  differ_self false = refl

  -- The state and the sample of an answer fit, unless the provider is warming up over an old sample.
  shown-Fits :
      (old seen warm : Bool) (shown : ProviderState) (o : Option (HostTelemetry fl))
      → Fits shown seen warm
      → is_some o ≡ seen
      → (check_state fl (shown_state fl old shown) o ≡ ok tt) ↔ ((warm && seen) ≡ false)
  shown-Fits true seen warm ready o f e = ground arith
  shown-Fits false seen warm ready o f e = ground arith
  shown-Fits old seen warm warming o f e = ground arith
  shown-Fits old seen warm disabled o f e = ground arith
  shown-Fits old seen warm stale o f e = cc
  shown-Fits old seen warm unavailable o f e = ground arith
  shown-Fits old seen warm invalid o f e = ground arith

  abbrev to_end : Validation → Validation
  to_end m = m >> ok tt

  >>-ok : (m : Validation) → (to_end m ≡ ok tt) ↔ (m ≡ ok tt)
  >>-ok (ok u) = ground arith
  >>-ok (err e) = ground arith

  answer_iff :
      (node : Bytes) (freshness now : ℕ) (seen warm : Bool) (e : CacheEntry fl)
      → Holds seen warm e
      → (validate_node fl (node_telemetry fl node freshness now e) ≡ ok tt)
        ↔ ((warm && seen) ≡ false)
  unfolding validate_node node_telemetry
  answer_iff node freshness now seen warm e h =
      let same = h.sample ∙ sym h.received ∙ sym (is_some-age now e.received_at) in
      let apart : differ fl (is_some e.observation) (is_some (age_of fl now e.received_at))
          ≡ false =
        ap (λ b. differ fl b (is_some (age_of fl now e.received_at))) same
        ∙ differ_self (is_some (age_of fl now e.received_at)) in
      let fits =
        shown-Fits (e.provider_stale || has_aged_out fl freshness (age_of fl now e.received_at))
          seen warm e.state e.observation h.state h.sample in
      rw (apart, h.sound) ((λ v. fits.0 ((>>-ok _).0 v), λ w. (>>-ok _).1 (fits.1 w)))

  -- Once every sample of the provider is validated, the answer of the node at any time after any
  -- attempts passes `NodeTelemetry::validate`, which a client applies to it, unless the provider was
  -- warming up at the last attempt and a sample had been taken before: then, and only then, it does
  -- not.
  pub node_telemetry-validate_node :
      (node : Bytes) (freshness now : ℕ) (attempts : List (Attempt fl))
      → All (λ a. Sound a.outcome) attempts
      → (validate_node fl (
            node_telemetry fl node freshness now
              (refresh_loop fl freshness attempts (disabled_entry fl, 0)).0)
          ≡ ok tt)
        ↔ ((ends_warming false attempts && has_sample false attempts) ≡ false)
  node_telemetry-validate_node node freshness now attempts sound =
      answer_iff node freshness now _ _ _ (
        loop-Holds freshness attempts false false (disabled_entry fl) 0 sound
          (record { sample = refl; received = refl; sound = refl; state = (refl, refl) }))
