-- ===== src/Store/Journal/Append.antt =====
-- crates/eggwork-server/src/store.rs: the statements that append an event, as one transaction step.
use mathlib.Core.List.{append-nil}
use native.Mathlib.Numerals.{add-one}
use eggwork.Prelude.{
  ℕ, suc, ◌<◌, ◌≡◌, refl, ap, ◌∙◌, String, true, false, ◌&&◌, ◌==◌, List, [], ◌∷◌, ◌++◌, some,
  arith, any, All, ok, Bool-cases, inl, inr,
}
use eggwork.Prelude.Bytes.{Bytes}
use eggwork.Store.Tables.{
  Json, Row, EventRow, Db, same_key, event_has, events_of, find_row, update_rows,
}
use eggwork.Store.Run.{Run, Run-snoc, length-Run, events_of-append, same_key_refl, same_key_symm}
use eggwork.Store.Trim.Longest.{shrink, trim_events-IsTrimmed, Run-shrink, fits-shrink}
use eggwork.Store.Journal.{insert_event, advance, append_event}
use eggwork.Store.Journal.Rows.{KeepsKey, find_row-update}
use eggwork.Store.Journal.Invariant.{IsJournal, IsJournal-at, next_of}

module _ {E : Type 0} where
  Run-below : (a b : ℕ) (es : List (EventRow E)) → Run a es b → All (λ e. e.sequence < b) es
  Run-below a b [] r = tt
  Run-below a b (e ∷ es) r =
      (omega (arith, length-Run (suc a) b es r.1, r.0), Run-below (suc a) b es r.1)

  unused :
      (id : Bytes) (g b : ℕ) (es : List (EventRow E))
      → All (λ e. e.sequence < b) (events_of id g es)
      → any (λ x. event_has id g x && x.sequence == b) es ≡ false
  unfolding events_of
  unused id g b [] h = refl
  unused id g b (x ∷ es) h = elim (Bool-cases (event_has id g x)) [
    | inl own ↦ ground (arith, unused id g b es, own, h)
    | inr other ↦ ground (arith, unused id g b es, other, h)
  ]

module _ (js : Json) where
  open js use {Encoded, size, snapshot_to_vec, event_to_vec}

  -- What appending an event to the journal of one execution generation does.
  pub record Appended (id : Bytes) (g : ℕ) (r : Row Encoded) (f : Row Encoded → Row Encoded)
      (encoded : Encoded) (db db' : Db Encoded) : Type 0 where
    pub journal : IsJournal js db'
    pub row : find_row id g db'.executions ≡ some (f r)
    pub executions : db'.executions ≡ update_rows id g f db.executions
    pub events :
        events_of id g db'.events
        ≡ shrink js (
            events_of id g db.events
            ++ record {
              execution_id = id;
              generation = g;
              sequence = r.next_sequence;
              encoded = encoded;
            }
              ∷ [])
    pub others :
        (i : Bytes) (h : ℕ)
        → same_key id g i h ≡ false
        → events_of i h db'.events ≡ events_of i h db.events
    pub metrics : db'.node_metrics ≡ db.node_metrics

  pub advance-KeepsKey :
      (state : String) (n : ℕ) (snapshot : Encoded) (now : ℕ)
      → KeepsKey (advance js state n snapshot now)
  advance-KeepsKey state n snapshot now = record {
    execution_id = λ r. refl;
    generation = λ r. refl;
  }

  events_of-own :
      (id : Bytes) (g : ℕ) (es : List (EventRow Encoded)) (x : EventRow Encoded)
      → event_has id g x ≡ true
      → events_of id g (es ++ x ∷ []) ≡ events_of id g es ++ x ∷ []
  unfolding events_of
  events_of-own id g es x h =
      events_of-append id g es (x ∷ []) ∙ ap (λ l. events_of id g es ++ l) (rw h)

  events_of-other :
      (id : Bytes) (g : ℕ) (es : List (EventRow Encoded)) (x : EventRow Encoded)
      → event_has id g x ≡ false
      → events_of id g (es ++ x ∷ []) ≡ events_of id g es
  unfolding events_of
  events_of-other id g es x h =
      events_of-append id g es (x ∷ [])
      ∙ ap (λ l. events_of id g es ++ l) (rw h)
      ∙ append-nil (events_of id g es)

  -- Appending at the next number of a row never breaks the primary key, and the trimming ends.
  pub append_event-Appended :
      (id : Bytes) (g : ℕ) (state : String) (snapshot encoded : Encoded) (now : ℕ) (db : Db Encoded)
      (r : Row Encoded)
      → IsJournal js db
      → find_row id g db.executions ≡ some r
      → (db' : Db Encoded) × (append_event js id g state r.next_sequence snapshot encoded now db
          ≡ ok db')
        × Appended id g r (advance js state r.next_sequence snapshot now) encoded db db'
  unfolding append_event insert_event
  append_event-Appended id g state snapshot encoded now db r j found =
      let own : events_of id g inserted ≡ events_of id g db.events ++ x ∷ [] =
        events_of-own id g db.events x (same_key_refl id g) in
      let ((a, one, run), bounded) = j.at id g in
      let before : Run a (events_of id g db.events) r.next_sequence =
        rw (ap next_of found) at run in
      let after = Run-snoc a r.next_sequence (events_of id g db.events) x before refl in
      let fresh = unused id g r.next_sequence db.events (Run-below a r.next_sequence _ before) in
      let (kept, done, t) =
        trim_events-IsTrimmed js id g a (suc r.next_sequence) inserted (rw own after) in
      let left : events_of id g kept ≡ shrink js (events_of id g db.events ++ x ∷ []) =
        t.own ∙ ap (shrink js) own in
      let (c, le, rest) = Run-shrink js a (suc r.next_sequence) _ after in
      let row : find_row id g (update_rows id g f db.executions) ≡ some (f r) =
        find_row-update id id g g f db.executions (advance-KeepsKey state _ snapshot now)
        ∙ ground (arith, same_key_refl id g, found) in
      let others = λ (i : Bytes) (h : ℕ) (o : same_key id g i h ≡ false).
        t.others i h o ∙ events_of-other i h db.events x (apart i h o) in
      (
        record db { executions = update_rows id g f db.executions; events = kept },
        rw (fresh, done),
        record {
          journal =
              IsJournal-at js db _ id g j
                ((c, omega arith, rw (left, row, add-one) rest), rw left (fits-shrink js _))
                (λ i h o. (
                  others i h o,
                  find_row-update id i g h f db.executions (advance-KeepsKey state _ snapshot now)
                      ∙ rw o,
                ));
          row = row;
          executions = refl;
          events = left;
          others = others;
          metrics = refl;
        },
      )
    where
      x : EventRow Encoded
      x = record {
        execution_id = id;
        generation = g;
        sequence = r.next_sequence;
        encoded = encoded;
      }

      inserted : List (EventRow Encoded)
      inserted = db.events ++ x ∷ []

      f : Row Encoded → Row Encoded
      f = advance js state r.next_sequence snapshot now

      apart : (i : Bytes) (h : ℕ) → same_key id g i h ≡ false → event_has i h x ≡ false
      apart i h o = ground (arith, same_key_symm i id h g, o)
