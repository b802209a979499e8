-- ===== src/Server/Tests/Controls.antt =====
-- `control` and `observe` at work on one admitted execution.
use eggwork.Prelude.{ℕ, ◌≡◌, refl, ◌∷◌, [], true, false, Option, none, some, ok, err}
use eggwork.Prelude.Bytes.{Bytes, bytes}
use eggwork.Server.Control.{
  ControlRequest, Body, decoded, Held, Clock, refused, snapshot, control, observe,
}
use eggwork.Server.Control.Checked.{Shown}
use eggwork.Server.Control.Holder.{Handled, control-Handled}
use eggwork.Server.Tests.{kept, accepted_job, job, admitted}
use eggwork.Server.Tests.Streams.{hash_of}

abbrev request : ControlRequest
request = record {
  schema_version = 1;
  handle = record { execution_id = bytes "job"; generation = 1; lease_id = bytes "ken" };
  renewal_id = some (bytes "again");
}

abbrev held : Held
held = record {
  entry = job;
  lease_hash = bytes "token";
  expired = false;
  expires_at = 40;
  notified = false;
}

abbrev clock : Clock
clock = record {
  tested = 10;
  requested = 110;
  refused_at = 110;
  updated = 111;
  remaining_from = 112;
  deadline_from = 12;
  published = 110;
}

control-Handled_example :
    Handled kept
      (bytes "job")
      true
      clock
      (Shown kept hash_of (bytes "user") (bytes "job") (decoded request) admitted admitted)
      accepted_job
      held
      admitted
      (control kept hash_of
        (bytes "user")
        (bytes "job")
        true
        600
        clock
        (decoded request)
        admitted
        admitted
        accepted_job
        held
        admitted)
control-Handled_example =
    control-Handled kept hash_of (bytes "user") (bytes "job") true 600 clock (decoded request)
      admitted admitted accepted_job held admitted (λ over. over)

abbrev longer : Held
longer = record held { expires_at = 610; notified = true }

renews :
    (control kept hash_of
      (bytes "user")
      (bytes "job")
      true
      600
      clock
      (decoded request)
      admitted
      admitted
      accepted_job
      held
      admitted).1
    ≡ longer
unfolding control eggwork.Server.Control.check_control eggwork.Prelude.Bytes.bytes_eq
    eggwork.Store.Reads.lookup eggwork.Store.Tables.find_row eggwork.Store.Tables.same_key
    eggwork.Store.Reads.load_snapshot eggwork.Store.Reads.decode_row eggwork.Store.Tables.latest
    eggwork.Prelude.Bytes.is_empty eggwork.Server.Events.is_terminal
    eggwork.Store.Leases.update_lease eggwork.Store.Tables.is_terminal_name
renews = refl

another_user :
    (control kept hash_of
      (bytes "other")
      (bytes "job")
      true
      600
      clock
      (decoded request)
      admitted
      admitted
      accepted_job
      held
      admitted).0
    ≡ refused (403, bytes "forbidden")
unfolding control eggwork.Server.Control.check_control eggwork.Prelude.Bytes.bytes_eq
    eggwork.Store.Reads.lookup eggwork.Store.Tables.find_row eggwork.Store.Tables.same_key
another_user = refl

observed_own :
    observe kept (bytes "user") (bytes "job") (some (bytes "generation=1")) admitted
    ≡ ok accepted_job
unfolding observe eggwork.Server.Queries.query_parameter eggwork.Prelude.Bytes.split
    eggwork.Server.Queries.split_once eggwork.Prelude.Bytes.bytes_eq
    eggwork.Server.Queries.parse_u64 eggwork.Prelude.Bytes.is_empty
    eggwork.Prelude.Bytes.is_ascii_digit eggwork.Store.Reads.load_snapshot_for_principal
    eggwork.Store.Reads.decode_row eggwork.Store.Tables.find_row eggwork.Store.Tables.same_key
observed_own = refl

observed_other :
    observe kept (bytes "other") (bytes "job") none admitted
    ≡ err (refused (404, bytes "execution_not_found"))
unfolding observe eggwork.Server.Queries.query_parameter
    eggwork.Store.Reads.load_snapshot_for_principal eggwork.Store.Reads.decode_row
    eggwork.Store.Tables.latest eggwork.Prelude.Bytes.bytes_eq
observed_other = refl
