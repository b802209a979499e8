-- ===== src/Client/Tests.antt =====
-- The framing of the client's event stream at work: a line that is cut in two.
use eggwork.Prelude.{◌+◌, ◌≡◌, arith, List, [], ◌∷◌, ◌++◌, map, Option, some, length}
use eggwork.Prelude.Bytes.{Bytes, bytes, split}
use eggwork.Core.Execution.{EventKind, ExecutionEvent}
use eggwork.Client.Lines.{data_chunk, into_events}
use eggwork.Client.Lines.Framing.{body_of, events_of_lines, into_events-framed}

-- Every line is one event, with the line as its output.
abbrev as_output : Bytes → Option ExecutionEvent
as_output line =
    some (record { sequence = 1; kind = EventKind.stdout line; metadata = record { fields = [] } })

abbrev cut : List Bytes
cut = (bytes "on") ∷ (bytes "e" ++ 10 ∷ 10 ∷ bytes "two") ∷ []

into_events-framed_example :
    into_events as_output (length (body_of cut) + length cut + 2) (map data_chunk cut) []
    ≡ events_of_lines as_output (split 10 (body_of cut))
into_events-framed_example = into_events-framed as_output cut (omega arith)
