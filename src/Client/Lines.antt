-- ===== src/Client/Lines.antt =====
-- crates/eggwork-client/src/lib.rs, `ExecutionStream::into_events`: the events of a response, whose
-- body arrives in chunks. What the transport gives is a list of chunks, and then the body's end.
pub mod Framing
use eggwork.Prelude.{
  ℕ, zero, suc, ◌+◌, Bool, List, [], ◌∷◌, ◌++◌, Option, none, some, ltb, length, Result, ok, err,
  if◌then◌else◌,
}
use eggwork.Prelude.Bytes.{Bytes, is_empty}
use eggwork.Core.Limits.{max_event_bytes}
use eggwork.Core.Execution.{ExecutionEvent, validate_event}
use eggwork.Server.Queries.{split_once}

-- What the transport gives next.
pub data Chunk : Type 0 where
  data_chunk : Bytes → Chunk
  failed : Chunk

-- How a stream that was polled to its end has ended.
pub data End : Type 0 where
  closed invalid_response transport out_of_fuel : End

abbrev pub with_event : ExecutionEvent → List ExecutionEvent × End → List ExecutionEvent × End
with_event e (es, how) = (e ∷ es, how)

-- What `serde_json::from_slice` reads is given.
module _ (from_slice : Bytes → Option ExecutionEvent) where
  -- The reading of a line, and `validate`.
  abbrev pub decode : Bytes → Option ExecutionEvent
  decode line = elim (from_slice line) [
    | none ↦ none
    | some e ↦ elim (validate_event e) [ ok u ↦ some e | err u ↦ none ]
  ]

  -- A line, with the events after it.
  abbrev pub give : Option ExecutionEvent → List ExecutionEvent × End → List ExecutionEvent × End
  give none rest = ([], invalid_response)
  give (some e) rest = with_event e rest

  -- One round of the loop, on the first newline of what is pending; `again` are the rounds after it.
  abbrev pub read_round :
      (List Chunk → Bytes → List ExecutionEvent × End)
      → Bytes
      → List Chunk
      → Option (Bytes × Bytes)
      → List ExecutionEvent × End
  read_round again pending chunks (some (line, rest)) =
      let more = again chunks rest in if is_empty line then more else give (decode line) more
  read_round again pending [] none =
      if is_empty pending then ([], closed) else give (decode pending) (again [] [])
  read_round again pending (failed ∷ later) none = ([], transport)
  read_round again pending (data_chunk b ∷ later) none =
      let more = again later (pending ++ b) in
      if ltb max_event_bytes (length pending + length b) then ([], invalid_response) else more

  -- The rounds, one poll after the other, on fuel.
  unfoldable pub into_events : ℕ → List Chunk → Bytes → List ExecutionEvent × End
  into_events zero chunks pending = ([], out_of_fuel)
  into_events (suc fuel) chunks pending =
      read_round (λ later p. into_events fuel later p) pending chunks (split_once 10 pending)
