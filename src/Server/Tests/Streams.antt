-- ===== src/Server/Tests/Streams.antt =====
-- A caller that follows its execution, as `events_route` serves it.
use eggwork.Prelude.{ℕ, ◌≡◌, refl, List, [], ◌∷◌, ◌++◌, Option, none, some, false}
use eggwork.Prelude.Bytes.{Bytes, bytes}
use eggwork.Core.Execution.{ExecutionState}
use eggwork.Server.Events.{StreamState, refused, streaming}
use eggwork.Server.Queries.{LiveRecord, events_route}
use eggwork.Server.Queries.Granted.{Granted, events_route-Granted}
use eggwork.Server.Tests.{kept, admitted}

abbrev pub hash_of : Bytes → Bytes
hash_of lease = bytes "to" ++ lease

abbrev in_memory : LiveRecord
in_memory = record { generation = 1; state = ExecutionState.accepted; receiver = [] }

abbrev stream : StreamState
stream = record { receiver = []; replay = []; last_sequence = 0; ended = false }

streamed :
    events_route kept hash_of
      (bytes "user")
      (bytes "job")
      (some (bytes "generation=1&lease=ken&after=0"))
      (some in_memory)
      admitted
      admitted
      admitted
    ≡ streaming stream
unfolding events_route eggwork.Prelude.Bytes.split eggwork.Server.Queries.split_once
    eggwork.Prelude.Bytes.bytes_eq eggwork.Prelude.Bytes.is_empty
    eggwork.Prelude.Bytes.is_ascii_digit eggwork.Core.Id.new_id eggwork.Core.Id.is_id_byte
    eggwork.Prelude.Bytes.is_ascii_alphanumeric eggwork.Store.Reads.lookup
    eggwork.Store.Tables.find_row eggwork.Store.Tables.same_key eggwork.Server.Events.event_response
    eggwork.Store.Reads.load_page eggwork.Store.Tables.min_sequence eggwork.Store.Tables.events_of
    eggwork.Store.Reads.decode_events eggwork.Store.Reads.rows_after eggwork.Prelude.Sorting.sort_by
    eggwork.Prelude.Sorting.insert eggwork.Server.Events.is_terminal
    eggwork.Server.Queries.parse_u64 eggwork.Server.Queries.query_parameter
    eggwork.Server.Queries.read_query
streamed = refl

-- An unknown key, a number that is not read after percent-decoding, and a lease of another.
refused_key :
    events_route kept hash_of
      (bytes "user")
      (bytes "job")
      (some (bytes "generation=1&lease=ken&after=0&x=1"))
      (some in_memory)
      admitted
      admitted
      admitted
    ≡ refused 400 (bytes "invalid_request")
unfolding events_route eggwork.Prelude.Bytes.split eggwork.Server.Queries.split_once
    eggwork.Prelude.Bytes.bytes_eq
refused_key = refl

refused_number :
    events_route kept hash_of
      (bytes "user")
      (bytes "job")
      (some (bytes "generation=%2B1&lease=ken&after=0"))
      (some in_memory)
      admitted
      admitted
      admitted
    ≡ refused 400 (bytes "invalid_request")
unfolding events_route eggwork.Prelude.Bytes.split eggwork.Server.Queries.split_once
    eggwork.Prelude.Bytes.bytes_eq eggwork.Prelude.Bytes.is_empty
    eggwork.Prelude.Bytes.is_ascii_digit
refused_number = refl

not_the_holder :
    events_route kept hash_of
      (bytes "user")
      (bytes "job")
      (some (bytes "generation=+1&lease=barbie&after=0"))
      (some in_memory)
      admitted
      admitted
      admitted
    ≡ refused 403 (bytes "forbidden")
unfolding events_route eggwork.Prelude.Bytes.split eggwork.Server.Queries.split_once
    eggwork.Prelude.Bytes.bytes_eq eggwork.Prelude.Bytes.is_empty
    eggwork.Prelude.Bytes.is_ascii_digit eggwork.Core.Id.new_id eggwork.Core.Id.is_id_byte
    eggwork.Prelude.Bytes.is_ascii_alphanumeric eggwork.Store.Reads.lookup
    eggwork.Store.Tables.find_row eggwork.Store.Tables.same_key
not_the_holder = refl

events_route-Granted_example :
    Granted kept hash_of
      (bytes "user")
      (bytes "job")
      (some (bytes "generation=1&lease=ken&after=0"))
      admitted
      admitted
      stream
events_route-Granted_example =
    events_route-Granted kept hash_of (bytes "user") (bytes "job")
      (some (bytes "generation=1&lease=ken&after=0")) (some in_memory) admitted admitted admitted
      stream streamed
