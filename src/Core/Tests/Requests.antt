-- ===== src/Core/Tests/Requests.antt =====
-- The theorems on commands, digests, resources, events and telemetry at work on small values.
use eggwork.Prelude.{
  ℕ, ◌≡◌, ◌≤◌, ◌↔◌, ◌++◌, refl, ap, Bool, true, false, List, [], ◌∷◌, Option, none, some, ok, err,
  Permᴰ, Result, length, leb,
}
use eggwork.Prelude.Bytes.{Bytes, bytes, is_ascii, split}
use eggwork.Core.Environment.{EnvironmentEntry, StdinPolicy, default_output, DeclaredOutput}
use eggwork.Core.Resources.{Requirement, Json, deserialize, serialize}
use eggwork.Core.Resources.Wire.{IsJson, deserialize-serialize}
use eggwork.Core.Command.{
  CommandSpec, ExecutionSpec, IsolationRequirement, NetworkRequirement, validate_command,
}
use eggwork.Core.Command.Valid.{CommandIsValid, validate_command_iff}
use eggwork.Core.Workspace.{WorkspaceEntry, raw_path, directory}
use eggwork.Core.Telemetry.{Float, NodeTelemetry, TelemetrySource, ProviderState, validate_node}
use eggwork.Core.Telemetry.Served.{NodeIsValid, validate_node_iff}
use eggwork.Core.Digest.{Hashing, request_digest_with_workspace, manifest_digest}
use eggwork.Core.Digest.Stable.{request_digest-Permᴰ, manifest_digest-Permᴰ}
use eggwork.Core.Tests.{source_dir, main_entry, two_entries, two_entries_valid}

abbrev two_names : List EnvironmentEntry
two_names =
    record { name = bytes "PATH"; value = bytes "/bin" }
    ∷ record { name = bytes "HOME"; value = bytes "/root" }
    ∷ []

abbrev names_swapped : List EnvironmentEntry
names_swapped =
    record { name = bytes "HOME"; value = bytes "/root" }
    ∷ record { name = bytes "PATH"; value = bytes "/bin" }
    ∷ []

abbrev build : CommandSpec
build = record {
  argv = bytes "make" ∷ [];
  cwd = none;
  environment = two_names;
  stdin = StdinPolicy.null;
  timeout_millis = 1000;
  output = default_output;
  declared_outputs = record { path = source_dir; required = true } ∷ [];
  resources = record {
    memory_bytes = Requirement.required 1024;
    cpu_millis = Requirement.not_requested;
    pids = Requirement.best_effort 8;
  };
  isolation = IsolationRequirement.none;
  network = NetworkRequirement.disabled;
}

build_valid : validate_command build ≡ ok tt
unfolding validate_command eggwork.Prelude.Bytes.contains eggwork.Core.Command.check_entry
    eggwork.Core.Environment.new_entry eggwork.Prelude.Bytes.is_ascii_alphanumeric
    eggwork.Prelude.Distinct.repeats eggwork.Prelude.Bytes.bytes_eq
    eggwork.Core.Environment.validate_stdin eggwork.Core.Environment.validate_output
    eggwork.Core.Resources.validate_resources
build_valid = refl

validate_command_iff_example : (validate_command build ≡ ok tt) ↔ CommandIsValid build
validate_command_iff_example = validate_command_iff build

abbrev build_spec : ExecutionSpec
build_spec = record { schema_version = 1; command = build; metadata = [] }

abbrev names_of : List EnvironmentEntry → Bytes
names_of [] = []
names_of (e ∷ es) = e.name ++ names_of es

abbrev paths_of : List WorkspaceEntry → Bytes
paths_of [] = []
paths_of (e ∷ es) = raw_path e ++ paths_of es

-- Writes the names of the environment, and the paths.
abbrev name_hashing : Hashing
name_hashing = record {
  JsonError = Unit;
  spec_to_vec = λ s. ok (names_of s.command.environment);
  workspace_request_to_vec = λ s w. ok (w ++ names_of s.command.environment);
  manifest_to_vec = λ m. ok (paths_of m.entries);
  from_bytes = λ b. b;
}

request_digest-Permᴰ_example :
    request_digest_with_workspace name_hashing build_spec none
    ≡ request_digest_with_workspace name_hashing
        (record build_spec {
          command = record build {
            environment = names_swapped;
            declared_outputs = build.declared_outputs;
          };
          metadata = [];
        })
        none
request_digest-Permᴰ_example =
    request_digest-Permᴰ name_hashing build_spec names_swapped build.declared_outputs [] none
      build_valid (Permᴰ.swap refl refl) (Permᴰ.cons refl Permᴰ.nil) Permᴰ.nil

manifest_digest-Permᴰ_example :
    manifest_digest name_hashing two_entries
    ≡ manifest_digest name_hashing
        (record two_entries { entries = directory source_dir ∷ main_entry ∷ [] })
manifest_digest-Permᴰ_example =
    manifest_digest-Permᴰ name_hashing two_entries (directory source_dir ∷ main_entry ∷ [])
      two_entries_valid (Permᴰ.swap refl refl)

-- Documents without arrays and strings.
mutual
  data Document : Type 0 where
    null_document : Document
    number : ℕ → Document
    object_document : Fields → Document

  data Fields : Type 0 where
    no_field : Fields
    one_field : Bytes → Document → Fields → Fields

abbrev fields : List (Bytes × Document) → Fields
fields [] = no_field
fields (f ∷ fs) = one_field f.0 f.1 (fields fs)

abbrev as_list : Fields → List (Bytes × Document)
as_list no_field = []
as_list (one_field k v fs) = (k, v) ∷ as_list fs

as_list-fields : (fs : List (Bytes × Document)) → as_list (fields fs) ≡ fs
as_list-fields [] = refl
as_list-fields (f ∷ fs) = ap (f ∷◌) (as_list-fields fs)

abbrev is_null_document : Document → Bool
is_null_document null_document = true
is_null_document (number n) = false
is_null_document (object_document fs) = false

abbrev as_fields : Document → Option (List (Bytes × Document))
as_fields null_document = none
as_fields (number n) = none
as_fields (object_document fs) = some (as_list fs)

abbrev as_number : Document → Option ℕ
as_number null_document = none
as_number (number n) = some n
as_number (object_document fs) = none

abbrev number_json : Json ℕ
number_json = record {
  Value = Document;
  null = null_document;
  object = λ fs. object_document (fields fs);
  is_null = is_null_document;
  as_object = as_fields;
  to_value = number;
  from_value = as_number;
}

number_json-IsJson : IsJson number_json
number_json-IsJson = record {
  is_null-null = refl;
  is_null-object = λ fs. refl;
  as_object-object = λ fs. ap some (as_list-fields fs);
  is_null-to_value = λ a. refl;
  as_object-to_value = λ a. refl;
  from_value-to_value = λ a. refl;
}

deserialize-serialize_example :
    deserialize number_json (serialize number_json (Requirement.required 512))
    ≡ some (Requirement.required 512)
deserialize-serialize_example =
    deserialize-serialize number_json number_json-IsJson (Requirement.required 512)

-- Percentages in whole numbers.
abbrev whole : Float
whole = record {
  F = ℕ;
  is_finite = λ x. true;
  in_percent = λ x. leb x 100;
  is_negative = λ x. false;
}

abbrev warming_node : NodeTelemetry whole
warming_node = record {
  schema_version = 1;
  node_id = bytes "n1";
  source = TelemetrySource.gregg;
  state = ProviderState.warming;
  age_ms = none;
  last_error = none;
  observation = none;
}

validate_node_iff_example :
    (validate_node whole warming_node ≡ ok tt) ↔ NodeIsValid whole warming_node
validate_node_iff_example = validate_node_iff whole warming_node
