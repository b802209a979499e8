-- ===== src/Server/Events/Delivered.antt =====
-- crates/eggwork-server/src/lib.rs, `event_stream_response`: the lines of a stream.
use eggwork.Prelude.{
  ℕ, zero, suc, ◌+◌, ◌≤◌, ◌<◌, ◌≡◌, refl, sym, ap, subst, ◌∙◌, max, arith, true, false, Bool, ◌&&◌,
  List, [], ◌∷◌, ◌++◌, map, leb, any, keep_if, length, Bool-cases, inl, inr, if◌then◌else◌,
}
use eggwork.Core.Execution.{ExecutionEvent}
use eggwork.Server.Events.{
  received, StreamState, line, ends, after_line, next_received, next_replayed, poll, Ending, at_end,
  at_wait, drain, has_no_event, event_stream_response,
}

-- The sequence numbers a, a + 1, …, b - 1, in this order.
abbrev pub Numbered : ℕ → List ExecutionEvent → ℕ → Type 0
Numbered a [] b = a ≡ b
Numbered a (e ∷ es) b = (e.sequence ≡ a) × Numbered (suc a) es b

-- The events from number `m` on.
abbrev pub from_number : ℕ → List ExecutionEvent → List ExecutionEvent
from_number m = keep_if (λ e. leb m e.sequence)

-- The events up to the first terminal one, with it.
abbrev pub until_end : List ExecutionEvent → List ExecutionEvent
until_end [] = []
until_end (e ∷ es) = let rest = until_end es in if ends e then e ∷ [] else e ∷ rest

abbrev pub ending_of : List ExecutionEvent → Ending
ending_of es = if any ends es then at_end else at_wait

from_number-all :
    (m a b : ℕ) (es : List ExecutionEvent) → Numbered a es b → m ≤ a → from_number m es ≡ es
from_number-all m a b [] r le = refl
from_number-all m a b (e ∷ es) r le =
    let rest = from_number-all m (suc a) b es r.1 (omega (arith, le)) in
    ground (arith, rest, r.0, le)

Numbered-le : (a b : ℕ) (es : List ExecutionEvent) → Numbered a es b → a ≤ b
Numbered-le a b [] r = omega (arith, r)
Numbered-le a b (e ∷ es) r = omega (arith, Numbered-le (suc a) b es r.1)

from_number-Numbered :
    (m a b : ℕ) (es : List ExecutionEvent)
    → Numbered a es b
    → a ≤ m
    → Numbered m (from_number m es) (max m b)
from_number-Numbered m a b [] r le = omega (arith, r, le)
from_number-Numbered m a b (e ∷ es) r le = elim (Bool-cases (leb m e.sequence)) [
  | inl first ↦
      let here : a ≡ m = ground (arith, first, r.0, le) in
      let top : max m b ≡ b = omega (arith, here, Numbered-le (suc a) b es r.1) in
      let all = from_number-all m (suc a) b es r.1 (omega (arith, here)) in
      rw (first, all, top) (r.0 ∙ here, subst (λ a. Numbered (suc a) es b) here r.1)
  | inr old ↦ rw old (from_number-Numbered m (suc a) b es r.1 (ground (arith, old, r.0)))
]

Numbered-append :
    (a b c : ℕ) (xs ys : List ExecutionEvent)
    → Numbered a xs b
    → Numbered b ys c
    → Numbered a (xs ++ ys) c
Numbered-append a b c [] ys r t = rw r t
Numbered-append a b c (x ∷ xs) ys r t = (r.0, Numbered-append (suc a) b c xs ys r.1 t)

abbrev live_state : List ExecutionEvent → List ExecutionEvent → ℕ → StreamState
live_state replay live last = record {
  receiver = map received live;
  replay = replay;
  last_sequence = last;
  ended = false;
}

abbrev outcome : List ExecutionEvent → List ExecutionEvent × Ending
outcome es = (until_end es, ending_of es)

drain-ended : (fuel : ℕ) (s : StreamState) → 0 < fuel → s.ended ≡ true → drain fuel s ≡ ([], at_end)
unfolding drain poll
drain-ended zero s some_fuel over = ground (arith, some_fuel)
drain-ended (suc fuel) s some_fuel over = rw over

after_line-live :
    (replay live : List ExecutionEvent) (e : ExecutionEvent)
    → ends e ≡ false
    → after_line (map received live) replay e ≡ live_state replay live e.sequence
after_line-live replay live e on = rw on

-- What is drained after a line depends on whether the line was the end.
drain-line :
    (fuel : ℕ) (s : StreamState) (replay live : List ExecutionEvent) (e : ExecutionEvent)
    (rest : List ExecutionEvent)
    → poll s ≡ line e (after_line (map received live) replay e)
    → 0 < fuel
    → drain fuel (live_state replay live e.sequence) ≡ outcome rest
    → drain (suc fuel) s ≡ outcome (e ∷ rest)
unfolding drain
drain-line fuel s replay live e rest polled some_fuel more = elim (Bool-cases (ends e)) [
  | inl over ↦
      rw (polled, drain-ended fuel (after_line (map received live) replay e) some_fuel over, over)
  | inr on ↦ rw (polled, after_line-live replay live e on, more, on)
]

drain-live :
    (fuel last k n : ℕ) (live : List ExecutionEvent)
    → Numbered k live n
    → k ≤ last + 1
    → length live < fuel
    → drain fuel (live_state [] live last) ≡ outcome (from_number (last + 1) live)
unfolding drain poll next_received next_replayed
drain-live zero last k n live r le enough = ground (arith, enough)
drain-live (suc fuel) last k n [] r le enough = refl
drain-live (suc fuel) last k n (e ∷ live) r le enough = elim (Bool-cases (leb e.sequence last)) [
  | inl old ↦
      let skipped : leb (last + 1) e.sequence ≡ false = ground (arith, old) in
      let rest =
        drain-live (suc fuel) last (suc k) n live r.1 (ground (arith, old, r.0))
          (omega (arith, enough)) in
      rw (old, skipped) rest
  | inr new ↦
      let kept : leb (last + 1) e.sequence ≡ true = ground (arith, new) in
      let all : from_number (last + 1) live ≡ live =
        from_number-all (last + 1) (suc k) n live r.1 (ground (arith, le, r.0, new)) in
      let next : from_number (e.sequence + 1) live ≡ live =
        from_number-all (e.sequence + 1) (suc k) n live r.1 (omega (arith, r.0)) in
      let rest =
        drain-live fuel e.sequence (suc k) n live r.1 (omega (arith, r.0))
          (omega (arith, enough)) in
      rw (kept, all)
        (drain-line fuel (live_state [] (e ∷ live) last) [] live e live (rw new refl)
          (omega (arith, enough)) (rest ∙ ap outcome next))
]

drain-replay :
    (fuel last k m n : ℕ) (replay live : List ExecutionEvent)
    → Numbered (last + 1) replay m
    → Numbered k live n
    → k ≤ m
    → length replay + length live < fuel
    → drain fuel (live_state replay live last) ≡ outcome (replay ++ from_number m live)
unfolding poll next_replayed
drain-replay fuel last k m n [] live r t le enough =
    drain-live fuel last k n live t (omega (arith, le, r)) (omega (arith, enough))
    ∙ ap (λ m. outcome (from_number m live)) r
drain-replay zero last k m n (e ∷ replay) live r t le enough = ground (arith, enough)
drain-replay (suc fuel) last k m n (e ∷ replay) live r t le enough =
    let new : leb e.sequence last ≡ false = ground (arith, r.0) in
    let start : e.sequence + 1 ≡ suc (last + 1) = omega (arith, r.0) in
    drain-line fuel (live_state (e ∷ replay) live last) replay live e (replay ++ from_number m live)
      (rw new refl) (omega (arith, enough))
      (drain-replay fuel e.sequence k m n replay live
        (subst (λ a. Numbered a replay m) (sym start) r.1) t le (omega (arith, enough)))

-- Let a page hold the events from `after + 1` up to, not including, the number `m`, and let the
-- receiver, which subscribed before the page was loaded, return consecutive events whose first
-- number is at most `m`. Then the page's events with the received ones from `m` on are the events
-- from `after + 1` on, in order, none twice and none left out. A stream that is not ended at the
-- start delivers exactly these, up to the first terminal one, after which it ends; where there is
-- none it waits. A stream whose execution was terminal when its state was read, after the page,
-- and whose page is empty ends at once. Polling once more than there are events is enough.
pub event_stream_response-delivers :
    (after k m n : ℕ) (replay live : List ExecutionEvent) (initial_terminal : Bool)
    → Numbered (after + 1) replay m
    → Numbered k live n
    → k ≤ m
    → Numbered (after + 1) (replay ++ from_number m live) (max m n)
      × (drain
            (suc (length replay + length live))
            (event_stream_response after replay (map received live) initial_terminal)
          ≡ (if initial_terminal && has_no_event replay
              then ([], at_end)
              else outcome (replay ++ from_number m live)))
event_stream_response-delivers after k m n replay live initial_terminal r t le = (
  Numbered-append (after + 1) m (max m n) replay (from_number m live) r
      (from_number-Numbered m k n live t le),
  (elim (Bool-cases (initial_terminal && has_no_event replay)) [
    | inl over ↦ rw over (drain-ended (suc (length replay + length live)) _ (omega arith) refl)
    | inr on ↦ rw on (
        drain-replay (suc (length replay + length live)) after k m n replay live r t le
          (omega arith))
  ]),
)
