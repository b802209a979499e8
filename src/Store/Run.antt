-- ===== src/Store/Run.antt =====
-- crates/eggwork-server/src/store.rs: runs of consecutive event sequence numbers, and how the
-- statements on the event table act on one execution generation and on the others.
use eggwork.Prelude.{
  ℕ, suc, ◌+◌, ◌≤◌, ◌<◌, ◌≡◌, refl, sym, ap, ◌∙◌, ◌==◌, ◌++◌, true, false, not, List, [], ◌∷◌, some,
  arith, keep_if, length,
}
use eggwork.Prelude.Bytes.{Bytes, bytes_eq_iff, bytes_eq_refl}
use eggwork.Store.Tables.{EventRow, same_key, events_of, min_sequence, delete_event}

pub same_key_refl : (id : Bytes) (g : ℕ) → same_key id g id g ≡ true
unfolding same_key
same_key_refl id g = ground (arith, bytes_eq_refl id)

-- Two rows that one key selects have the same key.
pub same_key_join :
    (id i j : Bytes) (g h k : ℕ)
    → same_key id g j k ≡ true
    → same_key i h j k ≡ true
    → same_key id g i h ≡ true
unfolding same_key
same_key_join id i j g h k p q =
    ground (arith, bytes_eq_iff id j, bytes_eq_iff i j, bytes_eq_iff id i)

pub same_key_trans :
    (id i j : Bytes) (g h k : ℕ)
    → same_key id g i h ≡ true
    → same_key i h j k ≡ true
    → same_key id g j k ≡ true
unfolding same_key
same_key_trans id i j g h k p q =
    ground (arith, bytes_eq_iff id j, bytes_eq_iff i j, bytes_eq_iff id i)

pub same_key_symm : (id i : Bytes) (g h : ℕ) → same_key id g i h ≡ true → same_key i h id g ≡ true
unfolding same_key
same_key_symm id i g h p = ground (arith, bytes_eq_iff id i, bytes_eq_iff i id)

pub same_key_eq : (id i : Bytes) (g h : ℕ) → same_key id g i h ≡ true → (id ≡ i) × (g ≡ h)
unfolding same_key
same_key_eq id i g h p = (ground (arith, bytes_eq_iff id i), ground arith)

module _ {E : Type 0} where
  -- The sequence numbers a, a + 1, …, b - 1, in this order.
  abbrev pub Run : ℕ → List (EventRow E) → ℕ → Type 0
  Run a [] b = a ≡ b
  Run a (e ∷ es) b = (e.sequence ≡ a) × Run (suc a) es b

  pub length-Run : (a b : ℕ) (es : List (EventRow E)) → Run a es b → a + length es ≡ b
  length-Run a b [] r = omega arith
  length-Run a b (e ∷ es) r = omega (arith, length-Run (suc a) b es r.1)

  pub Run-snoc :
      (a b : ℕ) (es : List (EventRow E)) (e : EventRow E)
      → Run a es b
      → e.sequence ≡ b
      → Run a (es ++ e ∷ []) (suc b)
  Run-snoc a b [] e r h = (h ∙ sym r, ap suc r)
  Run-snoc a b (x ∷ es) e r h = (r.0, Run-snoc (suc a) b es e r.1 h)

  pub min_sequence-Run :
      (a b : ℕ) (e : EventRow E) (es : List (EventRow E))
      → Run a (e ∷ es) b
      → min_sequence (e ∷ es) ≡ some a
  unfolding min_sequence
  min_sequence-Run a b e [] r = ap some r.0
  min_sequence-Run a b e (x ∷ es) r =
      let rest = min_sequence-Run (suc a) b x es r.1 in ground (arith, rest, r.0)

  pub events_of-append :
      (id : Bytes) (g : ℕ) (xs ys : List (EventRow E))
      → events_of id g (xs ++ ys) ≡ events_of id g xs ++ events_of id g ys
  unfolding events_of
  events_of-append id g [] ys = refl
  events_of-append id g (x ∷ xs) ys = ground (arith, events_of-append id g xs ys)

  pub length-events_of :
      (id : Bytes) (g : ℕ) (es : List (EventRow E)) → length (events_of id g es) ≤ length es
  unfolding events_of
  length-events_of id g [] = omega arith
  length-events_of id g (x ∷ es) = ground (arith, length-events_of id g es)

  abbrev without : ℕ → List (EventRow E) → List (EventRow E)
  without n = keep_if (λ e. not (e.sequence == n))

  events_of-delete :
      (id : Bytes) (g n : ℕ) (es : List (EventRow E))
      → events_of id g (delete_event id g n es) ≡ without n (events_of id g es)
  unfolding events_of delete_event
  events_of-delete id g n [] = refl
  events_of-delete id g n (x ∷ es) = ground (arith, events_of-delete id g n es)

  without_below : (n a b : ℕ) (es : List (EventRow E)) → Run a es b → n < a → without n es ≡ es
  without_below n a b [] r h = refl
  without_below n a b (x ∷ es) r h =
      ground (arith, without_below n (suc a) b es r.1 (omega arith), r.0)

  -- Deleting the first number of a run leaves its tail.
  pub events_of-delete_first :
      (id : Bytes) (g a b : ℕ) (es rest : List (EventRow E)) (e : EventRow E)
      → events_of id g es ≡ e ∷ rest
      → Run a (e ∷ rest) b
      → events_of id g (delete_event id g a es) ≡ rest
  events_of-delete_first id g a b es rest e h r =
      events_of-delete id g a es
      ∙ ap (without a) h
      ∙ ground (arith, r.0, without_below a (suc a) b rest r.1 (omega arith))

  -- The events of another execution generation stay.
  pub events_of-delete_other :
      (id i : Bytes) (g h n : ℕ) (es : List (EventRow E))
      → same_key id g i h ≡ false
      → events_of i h (delete_event id g n es) ≡ events_of i h es
  unfolding events_of delete_event
  events_of-delete_other id i g h n [] o = refl
  events_of-delete_other id i g h n (x ∷ es) o = ground (
    arith,
    events_of-delete_other id i g h n es o,
    same_key_join id i x.execution_id g h x.generation,
  )
