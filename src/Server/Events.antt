-- ===== src/Server/Events.antt =====
-- crates/eggwork-server/src/lib.rs: `events_route`, `event_response` and the stream of
-- `event_stream_response`. What a broadcast receiver returns, call after call, is a list; where it
-- ends, the next call waits.
pub mod Delivered
use Prim.Native.Nat.{◌*◌}
use mathlib.Core.Option
use eggwork.Prelude.{
  ℕ, zero, suc, ◌+◌, ◌-◌, ◌==◌, Bool, true, false, not, ◌&&◌, ◌||◌, List, [], ◌∷◌, Option, none,
  some, leb, ltb, all, u64_max, i64_max, saturating_add, ok, err, if◌then◌else◌,
}
use eggwork.Prelude.Bytes.{Bytes, bytes, bytes_eq, is_ascii_digit, is_empty, split}
use eggwork.Core.Id.{new_id, new_generation}
use eggwork.Core.Execution.{
  ExecutionState, accepted, preparing, running, cancelling, succeeded, failed, cancelled, timed_out,
  interrupted, EventKind, ExecutionEvent, ExecutionSnapshot,
}
use eggwork.Store.Tables.{Json, Db, Stored}
use eggwork.Store.Reads.{EventPage, ExistingExecution, lookup, load_snapshot, load_page}

-- `is_terminal`
unfoldable pub is_terminal : ExecutionState → Bool
is_terminal accepted = false
is_terminal preparing = false
is_terminal running = false
is_terminal cancelling = false
is_terminal succeeded = true
is_terminal failed = true
is_terminal cancelled = true
is_terminal timed_out = true
is_terminal interrupted = true

-- `matches!(&event.kind, State(state) if is_terminal(state))`
unfoldable pub is_terminal_kind : EventKind → Bool
unfolding is_terminal
is_terminal_kind (EventKind.state s) = is_terminal s
is_terminal_kind (EventKind.stdout v) = false
is_terminal_kind (EventKind.stderr v) = false
is_terminal_kind (EventKind.diagnostic v) = false

abbrev pub ends : ExecutionEvent → Bool
ends event = is_terminal_kind event.kind

-- What `receiver.recv()` returns.
pub data Received : Type 0 where
  received : ExecutionEvent → Received
  lagged closed : Received

-- The state that `stream::unfold` carries.
pub record StreamState : Type 0 where
  pub receiver : List Received
  pub replay : List ExecutionEvent
  pub last_sequence : ℕ
  pub ended : Bool

-- What one poll of the stream gives: a line, an error, the end, or nothing yet.
pub data Polled : Type 0 where
  line : ExecutionEvent → StreamState → Polled
  broken : StreamState → Polled
  finished waiting : Polled

abbrev pub after_line : List Received → List ExecutionEvent → ExecutionEvent → StreamState
after_line live replay event = record {
  receiver = live;
  replay = replay;
  last_sequence = event.sequence;
  ended = ends event;
}

-- The loop of the closure: first on the replay, then on the receiver.
unfoldable pub next_received : ℕ → List Received → Polled
next_received last_sequence [] = waiting
next_received last_sequence (lagged ∷ live) =
    broken (record { receiver = live; replay = []; last_sequence = last_sequence; ended = true })
next_received last_sequence (closed ∷ live) = finished
next_received last_sequence (received event ∷ live) =
    let rest = next_received last_sequence live in
    if leb event.sequence last_sequence then rest else line event (after_line live [] event)

unfoldable pub next_replayed : ℕ → List ExecutionEvent → List Received → Polled
next_replayed last_sequence [] live = next_received last_sequence live
next_replayed last_sequence (event ∷ replay) live =
    let rest = next_replayed last_sequence replay live in
    if leb event.sequence last_sequence then rest else line event (after_line live replay event)

unfoldable pub poll : StreamState → Polled
unfolding next_replayed next_received
poll s = if s.ended then finished else next_replayed s.last_sequence s.replay s.receiver

-- How a stream that was polled until it ended or had to wait has ended.
pub data Ending : Type 0 where
  at_end at_wait out_of_fuel : Ending

-- Polling again and again, with the lines.
abbrev pub resume :
    (StreamState → List ExecutionEvent × Ending) → Polled → List ExecutionEvent × Ending
resume more finished = ([], at_end)
resume more waiting = ([], at_wait)
resume more (broken next) = more next
resume more (line event next) = let rest = more next in (event ∷ rest.0, rest.1)

unfoldable pub drain : ℕ → StreamState → List ExecutionEvent × Ending
drain zero s = ([], out_of_fuel)
drain (suc fuel) s = resume (λ next. drain fuel next) (poll s)

-- `VecDeque::is_empty`
abbrev pub has_no_event : List ExecutionEvent → Bool
has_no_event [] = true
has_no_event (e ∷ es) = false

-- The stream's first state, of `event_stream_response`.
abbrev pub event_stream_response : ℕ → List ExecutionEvent → List Received → Bool → StreamState
event_stream_response after replay live initial_terminal = record {
  receiver = live;
  replay = replay;
  last_sequence = after;
  ended = initial_terminal && has_no_event replay;
}

-- A response: a refusal with its status and code, the store's error, or a stream.
pub data EventReply : Type 0 where
  refused : ℕ → Bytes → EventReply
  unavailable : EventReply
  streaming : StreamState → EventReply

-- `event_response`, on the page that was loaded after the receiver subscribed.
unfoldable pub event_response : Stored (Option EventPage) → ℕ → List Received → Bool → EventReply
event_response (err e) after live terminal = unavailable
event_response (ok none) after live terminal = refused 404 (bytes "execution_not_found")
event_response (ok (some page)) after live terminal =
    if ltb (saturating_add after 1) page.base_sequence
    then refused 410 (bytes "history_expired")
    else if leb page.next_sequence after
    then refused 416 (bytes "cursor_ahead")
    else streaming (event_stream_response after page.events live terminal)
