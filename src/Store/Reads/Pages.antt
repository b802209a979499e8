-- ===== src/Store/Reads/Pages.antt =====
-- crates/eggwork-server/src/store.rs, `load_page`: which events a page holds.
use eggwork.Prelude.{
  ℕ, suc, ◌+◌, ◌^◌, ◌≤◌, ◌<◌, ◌≡◌, ◌⊎◌, refl, sym, subst, ap, true, List, [], ◌∷◌, ◌++◌, some,
  arith, ltb, leb, keep_if, All, min, saturating_add, ok, >>=-eq-ok, Bool-cases, Option-cases, inl,
  inr,
}
use eggwork.Prelude.Bytes.{Bytes}
use eggwork.Prelude.Sorting.{IsSorted, sort_by_of_IsSorted}
use eggwork.Store.Tables.{Json, Row, EventRow, Db, find_row, events_of, min_sequence}
use eggwork.Store.Run.{Run, length-Run, min_sequence-Run}
use eggwork.Store.Journal.Invariant.{IsJournal, next_of}
use eggwork.Store.Reads.{
  EventPage, is_after, sequence_le, decode_events, base_of, rows_after, page_of, load_page,
}

module _ (js : Json) where
  open js use {Encoded}

  abbrev newer_than : ℕ → List (EventRow Encoded) → List (EventRow Encoded)
  newer_than after = keep_if (λ e. is_after after e.sequence)

  newer_than-all :
      (after a b : ℕ) (es : List (EventRow Encoded))
      → Run a es b
      → after < a
      → newer_than after es ≡ es
  unfolding is_after
  newer_than-all after a b [] r lt = refl
  newer_than-all after a b (e ∷ es) r lt =
      ground (arith, newer_than-all after (suc a) b es r.1 (omega arith), r.0)

  -- The end of a run from the number after `after` on.
  pub record Rest (after b : ℕ) (es rest : List (EventRow Encoded)) : Type 0 where
    pub dropped : List (EventRow Encoded)
    pub split : es ≡ dropped ++ rest
    pub run : Run (min (after + 1) b) rest b

  newer_than-Rest :
      (after a b : ℕ) (es : List (EventRow Encoded))
      → after < 2 ^ 63
      → Run a es b
      → a ≤ after + 1
      → Rest after b es (newer_than after es)
  unfolding is_after
  newer_than-Rest after a b [] small r le = record {
    dropped = [];
    split = refl;
    run = omega (arith, r);
  }
  newer_than-Rest after a b (e ∷ es) small r le = elim (Bool-cases (leb a after)) [
    | inl below ↦
        let p = newer_than-Rest after (suc a) b es small r.1 (ground (arith, below)) in
        let out : newer_than after (e ∷ es) ≡ newer_than after es =
          ground (arith, r.0, below, small) in
        subst (Rest after b (e ∷ es)) (sym out)
          (record { dropped = e ∷ p.dropped; split = ap (e ∷◌) p.split; run = p.run })
    | inr first ↦
        let all : newer_than after (e ∷ es) ≡ e ∷ es =
          newer_than-all after a b (e ∷ es) r (ground (arith, first)) in
        let start : min (after + 1) b ≡ a = ground (arith, first, le, length-Run a b (e ∷ es) r) in
        subst (Rest after b (e ∷ es)) (sym all)
          (record { dropped = []; split = refl; run = rw start r })
  ]

  Run-above :
      (c a b : ℕ) (es : List (EventRow Encoded))
      → Run a es b
      → c ≤ a
      → All (λ e. leb c e.sequence ≡ true) es
  Run-above c a b [] r le = tt
  Run-above c a b (e ∷ es) r le =
      (ground (arith, r.0, le), Run-above c (suc a) b es r.1 (omega arith))

  Run-IsSorted : (a b : ℕ) (es : List (EventRow Encoded)) → Run a es b → IsSorted sequence_le es
  Run-IsSorted a b [] r = tt
  Run-IsSorted a b (e ∷ es) r =
      (Run-above e.sequence (suc a) b es r.1 (omega (arith, r.0)), Run-IsSorted (suc a) b es r.1)

  base-Run :
      (a b : ℕ) (es : List (EventRow Encoded))
      → Run a es b
      → 1 ≤ a
      → base_of js (min_sequence es) b ≡ a
  unfolding min_sequence
  base-Run a b [] r one = ground (arith, r)
  base-Run a b (e ∷ es) r one = ground (arith, min_sequence-Run a b e es r, one)

  -- A page: its bounds are the first retained number and the row's next one. A request from before
  -- the first retained number has a page without events; another has, decoded, the retained events
  -- from the number after `after` on, consecutive and in order.
  pub record Served (id : Bytes) (g after : ℕ) (db : Db Encoded) (page : EventPage) : Type 0 where
    pub row : Row Encoded
    pub found : find_row id g db.executions ≡ some row
    pub next : page.next_sequence ≡ row.next_sequence
    pub from_one : 1 ≤ page.base_sequence
    pub retained : Run page.base_sequence (events_of id g db.events) page.next_sequence
    pub content :
        ((after + 1 < page.base_sequence) × (page.events ≡ []))
        ⊎ ((page.base_sequence ≤ after + 1)
            × (rest : List (EventRow Encoded)) × Rest after page.next_sequence
                (events_of id g db.events)
                rest
            × (decode_events js rest ≡ ok page.events))

  abbrev Content : ℕ → ℕ → ℕ → List (EventRow Encoded) → EventPage → Type 0
  Content after a next mine page =
      (page.base_sequence ≡ a)
      × (page.next_sequence ≡ next)
      × (((after + 1 < a) × (page.events ≡ []))
          ⊎ ((a ≤ after + 1)
              × (rest : List (EventRow Encoded)) × Rest after next mine rest
              × (decode_events js rest ≡ ok page.events)))

  page_of-Content :
      (after a next : ℕ) (mine : List (EventRow Encoded)) (page : EventPage)
      → after < 2 ^ 63
      → Run a mine next
      → 1 ≤ a
      → page_of js after next mine ≡ ok (some page)
      → Content after a next mine page
  unfolding page_of rows_after
  page_of-Content after a next mine page small r one h =
      let base = base-Run a next mine r one in
      let step : saturating_add after 1 ≡ after + 1 = ground (arith, small) in
      elim (Bool-cases (ltb (after + 1) a)) [
        | inl gap ↦
            let out : record { base_sequence = a; next_sequence = next; events = [] } ≡ page =
              ground (arith, h, base, step, gap) in
            subst (λ p. Content after a next mine p) out
              (refl, refl, inl (ground (arith, gap), refl))
        | inr reach ↦
            let rest = newer_than-Rest after a next mine small r (ground (arith, reach)) in
            let sorted : rows_after js after mine ≡ newer_than after mine =
              sort_by_of_IsSorted sequence_le (newer_than after mine)
                (Run-IsSorted (min (after + 1) next) next (newer_than after mine) rest.run) in
            let (events, decoded, h') =
              >>=-eq-ok (decode_events js (rows_after js after mine)) _
                (rw (base, step, reach) at h) in
            let out : record { base_sequence = a; next_sequence = next; events = events } ≡ page =
              ground (arith, h') in
            subst (λ p. Content after a next mine p) out
              (
                refl,
                refl,
                inr (ground (arith, reach), newer_than after mine, rest, rw sorted at decoded),
              )
      ]

  -- On a well-formed journal, a page that `load_page` returns for an `after` below 2^63 has the
  -- row's next number and the first retained number, or the next one where nothing is retained, as
  -- its bounds. It holds no events where numbers after `after` are no longer retained; else it
  -- holds the events of all the numbers after `after` that were given out, in order and without a
  -- gap.
  pub load_page-Served :
      (id : Bytes) (g after : ℕ) (db : Db Encoded) (page : EventPage)
      → after < 2 ^ 63
      → IsJournal js db
      → load_page js id g after db ≡ ok (some page)
      → Served id g after db page
  unfolding load_page
  load_page-Served id g after db page small j h =
      elim (Option-cases (find_row id g db.executions)) [
        | inl absent ↦ absurd (ground (arith, h, absent))
        | inr (r, found) ↦
            let ((a, one, run), within) = j.at id g in
            let run' = subst (λ o. Run a (events_of id g db.events) (next_of o)) found run in
            let (base, next, content) =
              page_of-Content after a r.next_sequence (events_of id g db.events) page small run' one
                (ground (arith, h, found)) in
            record {
              row = r;
              found = found;
              next = next;
              from_one = rw base one;
              retained = rw (base, next) run';
              content = rw (base, next) content;
            }
      ]
