-- ===== src/Runner/Request/Accepted.antt =====
-- crates/eggwork-runner/src/lib.rs: the runner's own checks of a request that `from_spec` made.
use eggwork.Prelude.{
  suc, Bool, Option, subst, ◌⊎◌, ◌<◌, ◌≡◌, refl, sym, ap, arith, true, false, not, ◌||◌, List, [],
  ◌∷◌, map, none, some, ltb, ◌==◌, all, any, length, All, Result, ok, err, >>=-eq-ok, >>-eq-ok,
  reject_if-eq-ok, ◌>>◌, reject_if, inl, inr, if◌then◌else◌,
}
use eggwork.Prelude.Bytes.{Bytes, bytes, is_empty, contains, is_ascii_alphanumeric}
use eggwork.Core.Limits.{
  max_arg_count, max_env_count, max_capture_bytes, max_event_chunk_bytes, max_timeout,
}
use eggwork.Core.Error.{ValidationError, Validation}
use eggwork.Core.RelativePath.{RelativePath}
use eggwork.Core.Environment.{EnvironmentEntry, StdinPolicy, null, input, is_name_byte}
use eggwork.Core.Command.{
  CommandSpec, ExecutionSpec, is_bad_argument, validate_command, validate_spec,
}
use eggwork.Core.Command.Valid.{CommandIsValid, EntryIsValid, StdinFits, validate_command_iff}
use eggwork.Runner.Setup.{RunnerError}
use eggwork.Runner.Request.{
  ExecutionProvenance, RunnerRequest, FileSystem, variable_of, request_of, or_invalid_request,
  from_spec, is_refused_argument, is_bad_variable, is_long_input, check_fields, resolve_cwd,
  resolve, validate, or_error,
}

-- The arguments that the runner refuses and the specification's check does not are the empty ones.
refused_arguments :
    (argv : List Bytes)
    → All (λ a. is_bad_argument a ≡ false) argv
    → any is_refused_argument argv ≡ any is_empty argv
refused_arguments [] h = refl
refused_arguments (a ∷ argv) h = ground (arith, refused_arguments argv h.1, h.0)

name_has_no :
    (name : Bytes)
    → all is_name_byte name ≡ true
    → contains 0 name ≡ false × contains b'=' name ≡ false
unfolding contains is_ascii_alphanumeric
name_has_no [] h = (refl, refl)
name_has_no (b ∷ name) h =
    let rest = name_has_no name in (ground (arith, rest), ground (arith, rest))

nonempty : (name : Bytes) → 0 < length name → is_empty name ≡ false
unfolding is_empty
nonempty [] h = ground (arith, h)
nonempty (b ∷ name) h = refl

variables_pass :
    (es : List EnvironmentEntry)
    → All EntryIsValid es
    → any is_bad_variable (map variable_of es) ≡ false
variables_pass [] h = refl
variables_pass (e ∷ es) h =
    let v = h.0 in
    let apart = name_has_no e.name v.name_bytes in
    ground (
      arith,
      variables_pass es h.1,
      nonempty e.name v.name_length.0,
      v.name_length.1,
      v.value_length,
      v.value_bytes,
      apart.0,
      apart.1,
    )

length-variables : (es : List EnvironmentEntry) → length (map variable_of es) ≡ length es
length-variables [] = refl
length-variables (e ∷ es) = ap suc (length-variables es)

input_fits : (i : StdinPolicy) → StdinFits i → is_long_input i ≡ false
input_fits null h = refl
input_fits (input v) h = ground (arith, h)

abbrev pub empty_argument : RunnerError
empty_argument = RunnerError.invalid_request (bytes "argv is empty or contains an empty/NUL entry")

reject_if->>-ok : (t : Bool) (e : RunnerError) → (reject_if t e >> ok tt) ≡ reject_if t e
reject_if->>-ok true e = refl
reject_if->>-ok false e = refl

fields_of :
    (c : CommandSpec) (at_root : Bytes) (attribution : ExecutionProvenance)
    → CommandIsValid c
    → check_fields (request_of c at_root attribution)
      ≡ reject_if (any is_empty c.argv) empty_argument
unfolding check_fields
fields_of c at_root attribution v =
    let some_args : length c.argv == 0 ≡ false = ground (arith, v.argv_count.0) in
    let few_args : ltb max_arg_count (length c.argv) ≡ false = ground (arith, v.argv_count.1) in
    let count = length-variables c.environment in
    let few : ltb max_env_count (length (map variable_of c.environment)) ≡ false =
      ground (arith, count, v.env_count) in
    let capture : ltb max_capture_bytes c.output.capture_limit_bytes ≡ false =
      ground (arith, v.capture) in
    let chunk : c.output.event_chunk_bytes == 0 ≡ false = ground (arith, v.chunk.0) in
    let chunks : ltb max_event_chunk_bytes c.output.event_chunk_bytes ≡ false =
      ground (arith, v.chunk.1) in
    let time : c.timeout_millis == 0 ≡ false = ground (arith, v.timeout.0) in
    let times : ltb max_timeout c.timeout_millis ≡ false = ground (arith, v.timeout.1) in
    rw
      (
        some_args,
        few_args,
        refused_arguments c.argv v.argv_each,
        few,
        variables_pass c.environment v.env_each,
        capture,
        chunk,
        chunks,
        time,
        times,
        input_fits c.stdin v.stdin,
      )
      (reject_if->>-ok (any is_empty c.argv) empty_argument)

reject_if->>-if :
    (t : Bool) (e : RunnerError) (k : Result RunnerError Bytes)
    → (reject_if t e >> k) ≡ (if t then err e else k)
reject_if->>-if true e k = refl
reject_if->>-if false e k = refl

accepted :
    (to_string : ValidationError → Bytes) (v : Validation)
    → or_invalid_request to_string v ≡ ok tt
    → v ≡ ok tt
accepted to_string (ok u) h = refl
accepted to_string (err e) h = cc

command_of_spec : (spec : ExecutionSpec) → validate_spec spec ≡ ok tt → CommandIsValid spec.command
unfolding validate_spec
command_of_spec spec h =
    (validate_command_iff spec.command).0 (>>-eq-ok (validate_command spec.command) _ h).0

-- Of a request that was made from a specification, and so passed the specification's checks, the
-- runner's own checks of the fields refuse an empty argument, and nothing else; without one, only
-- the directories decide.
pub from_spec-validate :
    (to_string : ValidationError → Bytes) (fs : FileSystem) (spec : ExecutionSpec) (at_root : Bytes)
    (attribution : ExecutionProvenance) (r : RunnerRequest)
    → from_spec to_string spec at_root attribution ≡ ok r
    → validate fs r ≡ (if any is_empty spec.command.argv then err empty_argument else resolve fs r)
unfolding from_spec validate
from_spec-validate to_string fs spec at_root attribution r h =
    let (passed, made) = >>-eq-ok (or_invalid_request to_string (validate_spec spec)) _ h in
    let valid = command_of_spec spec (accepted to_string (validate_spec spec) passed) in
    let same : request_of spec.command at_root attribution ≡ r = cc in
    subst
      (λ r.
        (do check_fields r; resolve fs r)
        ≡ (if any is_empty spec.command.argv then err empty_argument else resolve fs r))
      same
      (rw (fields_of spec.command at_root attribution valid) (
        reject_if->>-if (any is_empty spec.command.argv) empty_argument
          (resolve fs (request_of spec.command at_root attribution))))

or_error-ok :
    (error : Bytes → RunnerError) (o : Result Bytes Bytes) (at : Bytes)
    → or_error error o ≡ ok at
    → o ≡ ok at
or_error-ok error (ok x) at h = cc
or_error-ok error (err e) at h = cc

cwd_parts : (inside dir : Bool) → (not inside || not dir) ≡ false → (dir ≡ true) × (inside ≡ true)
cwd_parts inside dir h = ground (arith, h)

cwd-confined :
    (fs : FileSystem) (base : Bytes) (cwd : Option RelativePath) (at : Bytes)
    → fs.is_dir base ≡ true
    → resolve_cwd fs base cwd ≡ ok at
    → (fs.is_dir at ≡ true) × ((at ≡ base) ⊎ (fs.starts_with at base ≡ true))
unfolding resolve_cwd
cwd-confined fs base none at dir h =
    let same : base ≡ at = cc in (subst (λ x. fs.is_dir x ≡ true) same dir, inl (sym same))
cwd-confined fs base (some relative) at dir h =
    let (canonical, found, rest) =
      >>=-eq-ok (or_error _ (fs.canonicalize (fs.join base relative.text))) _ h in
    let (inside, done) =
      reject_if-eq-ok (not (fs.starts_with canonical base) || not (fs.is_dir canonical)) _ _ rest in
    let same : canonical ≡ at = cc in
    subst (λ at. (fs.is_dir at ≡ true) × ((at ≡ base) ⊎ (fs.starts_with at base ≡ true))) same
      (let both = cwd_parts (fs.starts_with canonical base) (fs.is_dir canonical) inside in
        (both.0, inr both.1))

-- The directory that `validate` returns for the child is a directory, and it is the request's root,
-- resolved, which is a directory, or it `starts_with` that one.
validate-confined :
    (fs : FileSystem) (r : RunnerRequest) (at : Bytes)
    → validate fs r ≡ ok at
    → (base : Bytes) × (fs.canonicalize r.root ≡ ok base)
      × (fs.is_dir base ≡ true)
      × (fs.is_dir at ≡ true)
      × ((at ≡ base) ⊎ (fs.starts_with at base ≡ true))
unfolding validate resolve
validate-confined fs r at h =
    let (passed, rest) = >>-eq-ok (check_fields r) _ h in
    let (base, found, rest₁) = >>=-eq-ok (or_error _ (fs.canonicalize r.root)) _ rest in
    let (dir, rest₂) = reject_if-eq-ok (not (fs.is_dir base)) _ _ rest₁ in
    let is_dir : fs.is_dir base ≡ true = ground (arith, dir) in
    let within = cwd-confined fs base r.cwd at is_dir rest₂ in
    (base, or_error-ok _ _ base found, is_dir, within.0, within.1)
