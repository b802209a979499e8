-- ===== src/Store/Trim/Longest.antt =====
-- crates/eggwork-server/src/store.rs, `trim_events`: the loop ends, and keeps as much as fits.
use eggwork.Prelude.{
  ℕ, zero, suc, ◌≤◌, ◌<◌, ◌≡◌, refl, sym, ap, ◌∙◌, ◌++◌, true, false, List, [], ◌∷◌, some, arith,
  inl, inr, length, length-append, Bool-cases, if◌then◌else◌,
}
use eggwork.Prelude.Bytes.{Bytes}
use eggwork.Store.Tables.{Json, EventRow, same_key, events_of, min_sequence, delete_event}
use eggwork.Store.Run.{
  Run, min_sequence-Run, events_of-delete_first, events_of-delete_other, length-events_of,
}
use eggwork.Store.Trim.{fits, delete_oldest, trim_loop, trim_events}

module _ (json : Json) where
  open json use {Encoded, size}

  -- What the loop leaves of a run.
  unfoldable pub shrink : List (EventRow Encoded) → List (EventRow Encoded)
  shrink [] = []
  shrink (e ∷ es) = let rest = shrink es in if fits json (e ∷ es) then e ∷ es else rest

  fits-empty : fits json [] ≡ true
  unfolding fits
  fits-empty = refl

  pub fits-shrink : (es : List (EventRow Encoded)) → fits json (shrink es) ≡ true
  unfolding shrink
  fits-shrink [] = fits-empty
  fits-shrink (e ∷ es) = ground (arith, fits-shrink es)

  pub Run-shrink :
      (a b : ℕ) (es : List (EventRow Encoded))
      → Run a es b
      → (c : ℕ) × (a ≤ c) × Run c (shrink es) b
  unfolding shrink
  Run-shrink a b [] r = (a, omega arith, r)
  Run-shrink a b (e ∷ es) r = elim (Bool-cases (fits json (e ∷ es))) [
    | inl f ↦ (a, omega arith, rw f r)
    | inr f ↦ let (c, le, s) = Run-shrink (suc a) b es r.1 in (c, omega arith, rw f s)
  ]

  -- `rest` ends `mine`, fits, and no longer end of `mine` fits.
  pub record IsLongest (mine rest : List (EventRow Encoded)) : Type 0 where
    pub dropped : List (EventRow Encoded)
    pub split : mine ≡ dropped ++ rest
    pub within : fits json rest ≡ true
    pub longest :
        (pre suf : List (EventRow Encoded))
        → mine ≡ pre ++ suf
        → fits json suf ≡ true
        → length suf ≤ length rest

  shrink-IsLongest : (es : List (EventRow Encoded)) → IsLongest es (shrink es)
  unfolding shrink
  shrink-IsLongest [] = record {
    dropped = [];
    split = refl;
    within = fits-empty;
    longest = nothing_longer;
  }
    where
      nothing_longer :
          (pre suf : List (EventRow Encoded))
          → [] ≡ pre ++ suf
          → fits json suf ≡ true
          → length suf ≤ 0
      nothing_longer [] [] h f = omega arith
      nothing_longer [] (x ∷ suf) h f = cc h
      nothing_longer (x ∷ pre) suf h f = cc h
  shrink-IsLongest (e ∷ es) = elim (Bool-cases (fits json (e ∷ es))) [
    | inl f ↦ rw f (record { dropped = []; split = refl; within = f; longest = whole })
    | inr f ↦ rw f (
        let rest = shrink-IsLongest es in
        record {
          dropped = e ∷ rest.dropped;
          split = ap (λ l. e ∷ l) rest.split;
          within = rest.within;
          longest = shorter f rest;
        })
  ]
    where
      whole :
          (pre suf : List (EventRow Encoded))
          → e ∷ es ≡ pre ++ suf
          → fits json suf ≡ true
          → length suf ≤ suc (length es)
      whole pre suf h f = omega (arith, ap length h, length-append pre suf)

      shorter :
          fits json (e ∷ es) ≡ false
          → IsLongest es (shrink es)
          → (pre suf : List (EventRow Encoded)) → e ∷ es ≡ pre ++ suf
          → fits json suf ≡ true
          → length suf ≤ length (shrink es)
      shorter f rest [] suf h g = absurd (ground (arith, ap (fits json) h))
      shorter f rest (x ∷ pre) suf h g = rest.longest pre suf (ground arith) g

  delete_oldest-first :
      (id : Bytes) (g a b : ℕ) (es rest : List (EventRow Encoded)) (e : EventRow Encoded)
      → events_of id g es ≡ e ∷ rest
      → Run a (e ∷ rest) b
      → delete_oldest json id g es ≡ delete_event id g a es
  unfolding delete_oldest
  delete_oldest-first id g a b es rest e h r =
      ground (arith, ap min_sequence h, min_sequence-Run a b e rest r)

  -- What trimming one execution generation does to a table.
  pub record IsTrimmed (id : Bytes) (g : ℕ) (es kept : List (EventRow Encoded)) : Type 0 where
    pub own : events_of id g kept ≡ shrink (events_of id g es)
    pub others :
        (i : Bytes) (h : ℕ) → same_key id g i h ≡ false → events_of i h kept ≡ events_of i h es

  trim_loop-IsTrimmed :
      (fuel : ℕ) (id : Bytes) (g a b : ℕ) (es mine : List (EventRow Encoded))
      → events_of id g es ≡ mine
      → Run a mine b
      → length mine < fuel
      → (kept : List (EventRow Encoded)) × (trim_loop json fuel id g es ≡ some kept)
        × IsTrimmed id g es kept
  unfolding trim_loop shrink
  trim_loop-IsTrimmed zero id g a b es mine e r h = elim h [ ]
  trim_loop-IsTrimmed (suc fuel) id g a b es [] e r h =
      (es, rw (e, fits-empty), record { own = e ∙ ap shrink (sym e); others = λ i k o. refl })
  trim_loop-IsTrimmed (suc fuel) id g a b es (x ∷ rest) e r h =
      elim (Bool-cases (fits json (x ∷ rest))) [
        | inl f ↦ (
          es,
          rw (e, f),
          record { own = e ∙ sym (whole_fits f) ∙ ap shrink (sym e); others = λ i k o. refl },
        )
        | inr f ↦
            let (kept, done, t) =
              trim_loop-IsTrimmed fuel id g (suc a) b (delete_oldest json id g es) rest
                (ap (events_of id g) (delete_oldest-first id g a b es rest x e r)
                  ∙ events_of-delete_first id g a b es rest x e r)
                r.1 (omega arith) in
            let next : events_of id g (delete_oldest json id g es) ≡ rest =
              ap (events_of id g) (delete_oldest-first id g a b es rest x e r)
              ∙ events_of-delete_first id g a b es rest x e r in
            (
              kept,
              rw (e, f) done,
              record {
                own = t.own ∙ ap shrink next ∙ sym (first_goes f) ∙ ap shrink (sym e);
                others = λ i k o.
                    t.others i k o
                    ∙ ap (events_of i k) (delete_oldest-first id g a b es rest x e r)
                    ∙ events_of-delete_other id i g k a es o;
              },
            )
      ]
    where
      whole_fits : fits json (x ∷ rest) ≡ true → shrink (x ∷ rest) ≡ x ∷ rest
      whole_fits f = rw f

      first_goes : fits json (x ∷ rest) ≡ false → shrink (x ∷ rest) ≡ shrink rest
      first_goes f = rw f

  pub trim_events-IsTrimmed :
      (id : Bytes) (g a b : ℕ) (es : List (EventRow Encoded))
      → Run a (events_of id g es) b
      → (kept : List (EventRow Encoded)) × (trim_events json id g es ≡ some kept)
        × IsTrimmed id g es kept
  unfolding trim_events
  trim_events-IsTrimmed id g a b es r =
      trim_loop-IsTrimmed (suc (length es)) id g a b es (events_of id g es) refl r
        (omega (arith, length-events_of id g es))

  -- Where the events of an execution generation have consecutive numbers, the trimming loop ends
  -- within its fuel, keeps the longest end of those events that is within both retention limits,
  -- and leaves the events of every other execution generation as they are.
  pub trim_events-IsLongest :
      (id : Bytes) (g a b : ℕ) (es : List (EventRow Encoded))
      → Run a (events_of id g es) b
      → (kept : List (EventRow Encoded)) × (trim_events json id g es ≡ some kept)
        × IsLongest (events_of id g es) (events_of id g kept)
        × ((i : Bytes) (h : ℕ) → same_key id g i h ≡ false → events_of i h kept ≡ events_of i h es)
  trim_events-IsLongest id g a b es r =
      let (kept, done, t) = trim_events-IsTrimmed id g a b es r in
      (kept, done, rw t.own (shrink-IsLongest (events_of id g es)), t.others)
