-- ===== src/Server/Queries.antt =====
-- crates/eggwork-server/src/lib.rs: `query_parameter` and `events_route`. The store is read at
-- three times, so the tables are given three times; SHA-256 of a lease is given.
pub mod Granted
use eggwork.Prelude.{
  ℕ, ◌+◌, ◌-◌, ◌*◌, ◌==◌, Bool, true, false, not, ◌&&◌, ◌||◌, List, [], ◌∷◌, Option, none, some,
  is_some, ltb, all, u64_max, i64_max, Result, ok, err, reject_if, ◌>>=◌, ◌>>◌, if◌then◌else◌,
}
use eggwork.Prelude.Bytes.{Bytes, bytes, bytes_eq, is_ascii_digit, is_empty, split}
use eggwork.Core.Id.{new_id, new_generation}
use eggwork.Core.Error.{Checked}
use eggwork.Core.Execution.{ExecutionState, ExecutionSnapshot}
use eggwork.Store.Tables.{Json, Db, Stored}
use eggwork.Store.Reads.{ExistingExecution, lookup, load_snapshot, load_page}
use eggwork.Server.Events.{
  Received, closed, is_terminal, EventReply, refused, unavailable, event_response,
}

-- `str::split_once`, at one byte
unfoldable pub split_once : ℕ → Bytes → Option (Bytes × Bytes)
split_once sep [] = none
split_once sep (b ∷ bs) =
    let rest = split_once sep bs in
    if b == sep
    then some ([], bs)
    else elim rest [ none ↦ none | some (before, after) ↦ some (b ∷ before, after) ]

-- `parse::<u64>()`: a plus sign or none, digits, and a value that fits.
abbrev pub digits_value : ℕ → Bytes → ℕ
digits_value n [] = n
digits_value n (b ∷ bs) = digits_value (n * 10 + (b - b'0')) bs

abbrev pub parse_digits : Bytes → Option ℕ
parse_digits bs =
    if is_empty bs || not (all is_ascii_digit bs) || ltb u64_max (digits_value 0 bs)
    then none
    else some (digits_value 0 bs)

unfoldable pub parse_u64 : Bytes → Option ℕ
parse_u64 [] = none
parse_u64 (b ∷ bs) = if b == b'+' then parse_digits bs else parse_digits (b ∷ bs)

-- One round of the loop of `query_parameter`, on a pair and on what was found before it.
abbrev pub read_pair :
    Bytes → Option (Bytes × Bytes) → Option Bytes → Result (Unit {0}) (Option Bytes)
read_pair name none found = err tt
read_pair name (some (key, value)) found =
    if bytes_eq key name
    then (if is_some found then err tt else ok (some value))
    else if bytes_eq key (bytes "generation")
        || bytes_eq key (bytes "after")
        || bytes_eq key (bytes "lease")
    then ok found
    else err tt

abbrev pub read_pairs : Bytes → List Bytes → Option Bytes → Result (Unit {0}) (Option Bytes)
read_pairs name [] found = ok found
read_pairs name (pair ∷ pairs) found = do
  next ← read_pair name (split_once b'=' pair) found
  read_pairs name pairs next

unfoldable pub query_parameter : Option Bytes → Bytes → Result (Unit {0}) (Option Bytes)
query_parameter none name = ok none
query_parameter (some query) name = read_pairs name (split b'&' query) none

-- A refusal's status and code.
abbrev pub Refused {ℓ} : Type ℓ → Type ℓ
Refused A = Result (ℕ × Bytes) A

abbrev pub checked_generation : Option ℕ → Refused ℕ
checked_generation none = err (400, bytes "invalid_request")
checked_generation (some v) = if v == 0 then err (400, bytes "invalid_request") else ok v

abbrev pub read_generation : Result (Unit {0}) (Option Bytes) → Refused ℕ
read_generation (ok (some value)) = checked_generation (parse_u64 value)
read_generation (ok none) = err (400, bytes "invalid_request")
read_generation (err e) = err (400, bytes "invalid_request")

abbrev pub checked_cursor : Option ℕ → Refused ℕ
checked_cursor none = err (400, bytes "invalid_request")
checked_cursor (some v) = ok v

abbrev pub read_after : Result (Unit {0}) (Option Bytes) → Refused ℕ
read_after (ok (some value)) = checked_cursor (parse_u64 value)
read_after (ok none) = err (400, bytes "invalid_request")
read_after (err e) = err (400, bytes "invalid_request")

abbrev pub checked_lease : Checked Bytes → Refused Bytes
checked_lease (ok lease) = ok lease
checked_lease (err e) = err (400, bytes "invalid_request")

abbrev pub read_lease : Result (Unit {0}) (Option Bytes) → Refused Bytes
read_lease (ok (some value)) = checked_lease (new_id "lease id" value)
read_lease (ok none) = err (400, bytes "invalid_request")
read_lease (err e) = err (400, bytes "invalid_request")

-- The query of `events_route`: the generation, the cursor and the lease.
unfoldable pub read_query : Option Bytes → Refused (ℕ × ℕ × Bytes)
unfolding query_parameter parse_u64
read_query query = do
  generation ← read_generation (query_parameter query (bytes "generation"))
  after ← read_after (query_parameter query (bytes "after"))
  reject_if (ltb i64_max after) (416, bytes "cursor_ahead")
  lease ← read_lease (query_parameter query (bytes "lease"))
  ok (generation, after, lease)

-- A record in memory, as this route reads it.
pub record LiveRecord : Type 0 where
  pub generation : ℕ
  pub state : ExecutionState
  pub receiver : List Received

module _ (js : Json) where
  open js use {Encoded}

  -- `recovered_record`: its channel has no sender once the response is made.
  abbrev pub from_store :
      Bytes → ℕ → ℕ → Stored (Option ExecutionSnapshot) → Db Encoded → EventReply
  from_store id generation after (err e) db = unavailable
  from_store id generation after (ok none) db = refused 404 (bytes "execution_not_found")
  from_store id generation after (ok (some s)) db =
      event_response (load_page js id generation after db) after (closed ∷ []) (is_terminal s.state)

  -- The record in memory where it has the generation, else the recovered one.
  abbrev pub from_record : Bytes → ℕ → ℕ → Option LiveRecord → Db Encoded → Db Encoded → EventReply
  from_record id generation after none between db =
      from_store id generation after (load_snapshot js id (some generation) between) db
  from_record id generation after (some r) between db =
      if r.generation == generation
      then event_response (load_page js id generation after db) after r.receiver
          (is_terminal r.state)
      else from_store id generation after (load_snapshot js id (some generation) between) db

  -- The test of the principal and of the lease's hash.
  abbrev pub is_holder : Bytes → Bytes → ExistingExecution → Bool
  is_holder principal lease_hash e =
      bytes_eq e.principal_id principal && bytes_eq e.lease_token_hash lease_hash

  abbrev pub from_existing :
      (Bytes → Bytes)
      → Bytes
      → Bytes
      → ℕ × ℕ × Bytes
      → Stored (Option ExistingExecution)
      → Option LiveRecord
      → Db Encoded
      → Db Encoded
      → EventReply
  from_existing lease_hash principal id query (err e) live between db = unavailable
  from_existing lease_hash principal id query (ok none) live between db =
      refused 404 (bytes "execution_not_found")
  from_existing lease_hash principal id (generation, after, lease) (ok (some e)) live between db =
      if is_holder principal (lease_hash lease) e
      then from_record id generation after live between db
      else refused 403 (bytes "forbidden")

  -- `events_route`; `before` are the tables of the lookup, `between` those of the snapshot, and `db`
  -- those of the page.
  abbrev pub answer :
      (Bytes → Bytes)
      → Bytes
      → Bytes
      → Refused (ℕ × ℕ × Bytes)
      → Option LiveRecord
      → Db Encoded
      → Db Encoded
      → Db Encoded
      → EventReply
  answer lease_hash principal id (err (status, code)) live before between db = refused status code
  answer lease_hash principal id (ok query) live before between db =
      from_existing lease_hash principal id query (lookup js id query.0 before) live between db

  unfoldable pub events_route :
      (Bytes → Bytes)
      → Bytes
      → Bytes
      → Option Bytes
      → Option LiveRecord
      → Db Encoded
      → Db Encoded
      → Db Encoded
      → EventReply
  unfolding read_query
  events_route lease_hash principal id query live before between db =
      answer lease_hash principal id (read_query query) live before between db
