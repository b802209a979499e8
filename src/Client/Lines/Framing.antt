-- ===== src/Client/Lines/Framing.antt =====
-- crates/eggwork-client/src/lib.rs, `into_events`: the events do not depend on how the body is cut.
use mathlib.Core.Path.{subst₂}
use eggwork.Prelude.{
  ℕ, zero, suc, ◌+◌, ◌≤◌, ◌<◌, ◌≡◌, ◌∙◌, refl, ap, arith, ◌==◌, false, List, [], ◌∷◌, ◌++◌, map,
  Option, none, some, ltb, length, length-append, Bool-cases, Option-cases, inl, inr, if◌then◌else◌,
}
use eggwork.Prelude.Bytes.{Bytes, is_empty, split}
use eggwork.Prelude.Slices.{append_assoc}
use eggwork.Core.Limits.{max_event_bytes}
use eggwork.Core.Execution.{ExecutionEvent}
use eggwork.Server.Queries.{split_once}
use eggwork.Client.Lines.{data_chunk, End, closed, decode, give, read_round, into_events}

-- The whole body.
abbrev pub body_of : List Bytes → Bytes
body_of [] = []
body_of (b ∷ bs) = b ++ body_of bs

split-some :
    (sep : ℕ) (p more line rest : Bytes)
    → split_once sep p ≡ some (line, rest)
    → (split sep (p ++ more) ≡ line ∷ split sep (rest ++ more)) × (length rest < length p)
unfolding split split_once
split-some sep [] more line rest h = cc
split-some sep (b ∷ bs) more line rest h = elim (Bool-cases (b == sep)) [
  | inl here ↦
      let e : some ([], bs) ≡ some (line, rest) = rw here at h in
      let l0 : [] ≡ line = cc in
      let r0 : bs ≡ rest = cc in
      subst₂
        (λ l r.
          (split sep ((b ∷ bs) ++ more) ≡ l ∷ split sep (r ++ more)) × (length r < length (b ∷ bs)))
        l0 r0 (rw here refl, omega arith)
  | inr later ↦ elim (Option-cases (split_once sep bs)) [
    | inl absent ↦ let e = rw (later, absent) at h in cc
    | inr ((l, r), found) ↦
        let again = split-some sep bs more l r found in
        let e : some (b ∷ l, r) ≡ some (line, rest) = rw (later, found) at h in
        let l0 : b ∷ l ≡ line = cc in
        let r0 : r ≡ rest = cc in
        subst₂
          (λ l r.
            (split sep ((b ∷ bs) ++ more) ≡ l ∷ split sep (r ++ more))
            × (length r < length (b ∷ bs)))
          l0 r0 (rw (later, again.0) refl, omega (arith, again.1))
  ]
]

split-none : (sep : ℕ) (p : Bytes) → split_once sep p ≡ none → split sep p ≡ p ∷ []
unfolding split split_once
split-none sep [] h = refl
split-none sep (b ∷ bs) h = elim (Bool-cases (b == sep)) [
  | inl here ↦ let e = rw here at h in cc
  | inr later ↦ elim (Option-cases (split_once sep bs)) [
    | inl absent ↦ let again = split-none sep bs absent in rw (later, again) refl
    | inr (v, found) ↦ let e = rw (later, found) at h in cc
  ]
]

module _ (from_slice : Bytes → Option ExecutionEvent) where
  -- The events of the lines, empty lines left out, up to the first that is refused.
  abbrev pub events_of_lines : List Bytes → List ExecutionEvent × End
  events_of_lines [] = ([], closed)
  events_of_lines (line ∷ lines) =
      let rest = events_of_lines lines in
      if is_empty line then rest else give from_slice (decode from_slice line) rest

  into_events-end : (fuel : ℕ) → 0 < fuel → into_events from_slice fuel [] [] ≡ ([], closed)
  unfolding into_events split_once is_empty
  into_events-end zero some_fuel = absurd (omega (arith, some_fuel))
  into_events-end (suc fuel) some_fuel = refl

  append_nil : (p : Bytes) → p ++ [] ≡ p
  append_nil [] = refl
  append_nil (b ∷ bs) = ap (b ∷◌) (append_nil bs)

  framed :
      (fuel : ℕ) (bs : List Bytes) (pending : Bytes)
      → length pending + length (body_of bs) ≤ max_event_bytes
      → length pending + length (body_of bs) + length bs + 1 < fuel
      → into_events from_slice fuel (map data_chunk bs) pending
        ≡ events_of_lines (split 10 (pending ++ body_of bs))
  unfolding into_events
  framed zero bs pending fits enough = absurd (omega (arith, enough))
  framed (suc fuel) [] pending fits enough = elim (Option-cases (split_once 10 pending)) [
    | inr ((line, rest), found) ↦
        let cut = split-some 10 pending [] line rest found in
        let more =
          framed fuel [] rest (omega (arith, cut.1, fits)) (omega (arith, cut.1, enough)) in
        ap
          (λ o. read_round from_slice (λ later p. into_events from_slice fuel later p) pending [] o)
          found
        ∙ rw (more, cut.0) refl
    | inl absent ↦
        ap
          (λ o. read_round from_slice (λ later p. into_events from_slice fuel later p) pending [] o)
          absent
        ∙ rw
            (
              append_nil pending,
              split-none 10 pending absent,
              into_events-end fuel (omega (arith, enough)),
            )
            refl
  ]
  framed (suc fuel) (b ∷ bs) pending fits enough = elim (Option-cases (split_once 10 pending)) [
    | inr ((line, rest), found) ↦
        let cut = split-some 10 pending (b ++ body_of bs) line rest found in
        let more =
          framed fuel (b ∷ bs) rest (omega (arith, cut.1, fits)) (omega (arith, cut.1, enough)) in
        ap
          (λ o.
            read_round from_slice (λ later p. into_events from_slice fuel later p) pending
              (map data_chunk (b ∷ bs)) o)
          found
        ∙ rw (more, cut.0) refl
    | inl absent ↦
        let sizes = length-append b (body_of bs) in
        let sum = length-append pending b in
        let within : ltb max_event_bytes (length pending + length b) ≡ false =
          ground (arith, fits, sizes) in
        let more =
          framed fuel bs (pending ++ b) (omega (arith, sizes, sum, fits))
            (omega (arith, sizes, sum, enough)) in
        ap
          (λ o.
            read_round from_slice (λ later p. into_events from_slice fuel later p) pending
              (map data_chunk (b ∷ bs)) o)
          absent
        ∙ rw within
            (more ∙ ap (λ p. events_of_lines (split 10 p)) (append_assoc pending b (body_of bs)))
  ]

-- Where the whole body is within the limit on an event, the stream gives the events of the body's
-- lines, in order, the last line with or without its newline and empty lines left out, up to the
-- first line that is refused, however the body is cut into chunks; and as many rounds as the body
-- has bytes and chunks, and two more, are enough.
pub into_events-framed :
    (from_slice : Bytes → Option ExecutionEvent) (bs : List Bytes)
    → length (body_of bs) ≤ max_event_bytes
    → into_events from_slice (length (body_of bs) + length bs + 2) (map data_chunk bs) []
      ≡ events_of_lines from_slice (split 10 (body_of bs))
into_events-framed from_slice bs fits =
    framed from_slice (length (body_of bs) + length bs + 2) bs [] (omega (arith, fits))
      (omega arith)
