-- ===== src/Core/Command/Valid.antt =====
-- crates/eggwork-core/src/lib.rs, `CommandSpec::validate`: what an accepted command satisfies.
use eggwork.Prelude.{
  ℕ, ◌≤◌, ◌<◌, ◌≡◌, ◌↔◌, refl, true, false, ◌||◌, List, [], ◌∷◌, arith, ltb, ◌==◌, all, any, All,
  any→All, All-any, length, ok, for_each, reject_if-eq-ok, >>-eq-ok,
}
use eggwork.Prelude.Bytes.{Bytes, is_ascii_alphanumeric, contains}
use eggwork.Prelude.Distinct.{repeats, IsDistinct, repeats-IsDistinct, IsDistinct-repeats}
use eggwork.Core.Limits.{
  max_arg_count, max_env_count, max_env_name_bytes, max_env_value_bytes, max_outputs, max_timeout,
  max_stdin_bytes, max_capture_bytes, max_event_chunk_bytes,
}
use eggwork.Core.Environment.{
  EnvironmentEntry, StdinPolicy, null, input, new_entry, is_name_byte, first_is_digit,
  validate_stdin, validate_output,
}
use eggwork.Core.Resources.{
  Requirement, not_requested, best_effort, required, in_range, max_memory_bytes, max_cpu_millis,
  max_pids, validate_resources,
}
use eggwork.Core.Command.{CommandSpec, names, check_entry, is_bad_argument, validate_command}

-- A name is a nonempty identifier of ASCII letters, digits and `_` that does not begin with a
-- digit; a value has no NUL; both are within their limits.
pub record EntryIsValid (e : EnvironmentEntry) : Type 0 where
  pub name_length : (0 < length e.name) × (length e.name ≤ max_env_name_bytes)
  pub name_bytes : all is_name_byte e.name ≡ true
  pub name_start : first_is_digit e.name ≡ false
  pub value_length : length e.value ≤ max_env_value_bytes
  pub value_bytes : contains 0 e.value ≡ false

-- No identifier byte is NUL, so the last test on the name never decides.
no_nul : (bs : Bytes) → all is_name_byte bs ≡ true → contains 0 bs ≡ false
unfolding contains is_ascii_alphanumeric
no_nul [] h = refl
no_nul (b ∷ bs) h = ground (arith, no_nul bs)

check_entry_iff : (e : EnvironmentEntry) → (check_entry e ≡ ok tt) ↔ EntryIsValid e
unfolding check_entry new_entry
check_entry_iff e = (
  λ h. record {
    name_length = ground arith;
    name_bytes = ground arith;
    name_start = ground arith;
    value_length = ground arith;
    value_bytes = ground arith;
  },
  λ v. ground (arith, no_nul e.name v.name_bytes),
)

-- A requested limit is at least 1 and at most `top`.
abbrev pub Allows : ℕ → Requirement ℕ → Type 0
Allows top not_requested = Unit
Allows top (best_effort v) = (1 ≤ v) × (v ≤ top)
Allows top (required v) = (1 ≤ v) × (v ≤ top)

abbrev pub StdinFits : StdinPolicy → Type 0
StdinFits null = Unit
StdinFits (input v) = length v ≤ max_stdin_bytes

-- The requirements on a command, without the order in which they are checked.
pub record CommandIsValid (c : CommandSpec) : Type 0 where
  pub argv_count : (0 < length c.argv) × (length c.argv ≤ max_arg_count)
  pub argv_each : All (λ a. is_bad_argument a ≡ false) c.argv
  pub env_count : length c.environment ≤ max_env_count
  pub env_each : All EntryIsValid c.environment
  pub env_distinct : IsDistinct (names c.environment)
  pub outputs_count : length c.declared_outputs ≤ max_outputs
  pub timeout : (0 < c.timeout_millis) × (c.timeout_millis ≤ max_timeout)
  pub stdin : StdinFits c.stdin
  pub capture : c.output.capture_limit_bytes ≤ max_capture_bytes
  pub chunk :
      (0 < c.output.event_chunk_bytes) × (c.output.event_chunk_bytes ≤ max_event_chunk_bytes)
  pub memory : Allows max_memory_bytes c.resources.memory_bytes
  pub cpu : Allows max_cpu_millis c.resources.cpu_millis
  pub pids : Allows max_pids c.resources.pids

entries_iff : (es : List EnvironmentEntry) → (for_each check_entry es ≡ ok tt) ↔ All EntryIsValid es
entries_iff [] = (λ h. tt, λ h. refl)
entries_iff (e ∷ es) = (
  λ h.
      let (one, rest) = >>-eq-ok (check_entry e) (for_each check_entry es) h in
      ((check_entry_iff e).0 one, (entries_iff es).0 rest),
  λ v. rw ((check_entry_iff e).1 v.0) ((entries_iff es).1 v.1),
)

in_range_iff : (top : ℕ) (r : Requirement ℕ) → (in_range top r ≡ true) ↔ Allows top r
in_range_iff top not_requested = (λ h. tt, λ h. refl)
in_range_iff top (best_effort v) = (λ h. (ground arith, ground arith), λ h. ground arith)
in_range_iff top (required v) = (λ h. (ground arith, ground arith), λ h. ground arith)

stdin_iff : (s : StdinPolicy) → (validate_stdin s ≡ ok tt) ↔ StdinFits s
unfolding validate_stdin
stdin_iff null = (λ h. tt, λ h. refl)
stdin_iff (input v) = (λ h. ground arith, λ h. ground arith)

-- `CommandSpec::validate` accepts a command exactly when it meets every requirement: counts and
-- sizes within their limits, valid and distinct environment names, a timeout, output policy and
-- resource limits in range.
pub validate_command_iff : (c : CommandSpec) → (validate_command c ≡ ok tt) ↔ CommandIsValid c
unfolding validate_command validate_output validate_resources
validate_command_iff c = (sound, complete)
  where
    sound : validate_command c ≡ ok tt → CommandIsValid c
    sound h =
        let (some_arg, h₁) = reject_if-eq-ok (length c.argv == 0) _ _ h in
        let (args, h₂) = reject_if-eq-ok (ltb max_arg_count (length c.argv)) _ _ h₁ in
        let (each, h₃) = reject_if-eq-ok (any is_bad_argument c.argv) _ _ h₂ in
        let (envs, h₄) = reject_if-eq-ok (ltb max_env_count (length c.environment)) _ _ h₃ in
        let (entries, h₅) = >>-eq-ok (for_each check_entry c.environment) _ h₄ in
        let (once, h₆) = reject_if-eq-ok (repeats [] (names c.environment)) _ _ h₅ in
        let (outs, h₇) = reject_if-eq-ok (ltb max_outputs (length c.declared_outputs)) _ _ h₆ in
        let (time, h₈) =
          reject_if-eq-ok (c.timeout_millis == 0 || ltb max_timeout c.timeout_millis) _ _ h₇ in
        let (input_fits, h₉) = >>-eq-ok (validate_stdin c.stdin) _ h₈ in
        record {
          argv_count = (ground arith, ground arith);
          argv_each = any→All is_bad_argument c.argv each;
          env_count = ground arith;
          env_each = (entries_iff c.environment).0 entries;
          env_distinct = repeats-IsDistinct (names c.environment) once;
          outputs_count = ground arith;
          timeout = (ground arith, ground arith);
          stdin = (stdin_iff c.stdin).0 input_fits;
          capture = ground arith;
          chunk = (ground arith, ground arith);
          memory = (in_range_iff _ c.resources.memory_bytes).0 (ground arith);
          cpu = (in_range_iff _ c.resources.cpu_millis).0 (ground arith);
          pids = (in_range_iff _ c.resources.pids).0 (ground arith);
        }

    complete : CommandIsValid c → validate_command c ≡ ok tt
    complete v = ground (
      arith,
      All-any is_bad_argument c.argv v.argv_each,
      (entries_iff c.environment).1 v.env_each,
      IsDistinct-repeats (names c.environment) v.env_distinct,
      (stdin_iff c.stdin).1 v.stdin,
      (in_range_iff max_memory_bytes c.resources.memory_bytes).1 v.memory,
      (in_range_iff max_cpu_millis c.resources.cpu_millis).1 v.cpu,
      (in_range_iff max_pids c.resources.pids).1 v.pids,
    )
