-- ===== src/Store/History/Later.antt =====
-- crates/eggwork-server/src/store.rs: what a row keeps while the methods write and the server is
-- restarted.
use eggwork.Prelude.{
  ℕ, ◌≡◌, sym, subst, true, List, [], ◌∷◌, String, Option, some, arith, ok, >>=-eq-ok, Bool-cases,
  inl, inr,
}
use eggwork.Prelude.Bytes.{Bytes}
use eggwork.Core.Execution.{ExecutionSnapshot, EventKind, ExecutionEvent}
use eggwork.Store.Tables.{Json, Row, Db, state_name, same_key, find_row, update_rows}
use eggwork.Store.Run.{same_key_eq}
use eggwork.Store.Journal.{advance, decode_all, interrupt, recover_one, recover_all, recover}
use eggwork.Store.Journal.Rows.{KeepsKey, find_row-update}
use eggwork.Store.Journal.Append.{advance-KeepsKey}
use eggwork.Store.Journal.Commit.{Committed, commit_event-Committed}
use eggwork.Store.Journal.Recovery.{recover_one-Appended}
use eggwork.Store.Reserve.{reserve}
use eggwork.Store.Reserve.Fencing.{reserve-Created}
use eggwork.Store.Reserve.Latest.{find_row-append_old}
use eggwork.Store.Reserve.Invariant.{IsStore, reserve-others}
use eggwork.Store.Leases.{Renewal, renew}
use eggwork.Store.Leases.Monotone.{renew-KeepsKey, update_lease-rows}
use eggwork.Store.History.{
  Step, reserving, committing, renewing, counting, Reached, stepped, restarted,
}
use eggwork.Store.History.Reachable.{recover_one-IsStore, Reached-IsStore}
use eggwork.Store.History.Coherent.{increment_metrics-rows}

module _ (js : Json) where
  open js use {Encoded}

  -- Every renewal in a step is of an execution generation that may be renewed.
  abbrev pub RenewsOnly : (Bytes → ℕ → Type 0) → {db db' : Db Encoded} → Step js db db' → Type 0
  RenewsOnly MayRenew (reserving s a now o h) = Unit {0}
  RenewsOnly MayRenew (committing s kind now o h) = Unit {0}
  RenewsOnly MayRenew (renewing id g v now updated o h) = MayRenew id g
  RenewsOnly MayRenew (counting deltas h) = Unit {0}

  -- What steps and restarts make of the tables, where only some execution generations are renewed.
  pub data Later (MayRenew : Bytes → ℕ → Type 0) : Db Encoded → Db Encoded → Type 0 where
    start : {db : Db Encoded} → Later MayRenew db db
    step :
        {db db' db'' : Db Encoded}
        → Later MayRenew db db'
        → (s : Step js db' db'') → RenewsOnly MayRenew s
        → Later MayRenew db db''
    restart :
        {db db' db'' : Db Encoded} (now : ℕ) (out : List ExecutionSnapshot)
        → Later MayRenew db db'
        → recover js now db' ≡ ok (out, db'')
        → Later MayRenew db db''

  pub Later-Reached :
      (MayRenew : Bytes → ℕ → Type 0) (db db' : Db Encoded)
      → Reached js db
      → Later MayRenew db db'
      → Reached js db'
  Later-Reached MayRenew db db' r start = r
  Later-Reached MayRenew db db' r (step {db' = middle} l s only) =
      stepped (Later-Reached MayRenew db middle r l) s
  Later-Reached MayRenew db db' r (restart {db' = middle} now out l h) =
      restarted now out (Later-Reached MayRenew db middle r l) h

  -- What an event does not change of a row, nor a renewal that may be.
  pub record IsStable (MayRenew : Bytes → ℕ → Type 0) (i : Bytes) (h : ℕ) (K : Row Encoded → Type 0)
      : Type 0 where
    pub moved :
        (state : String) (n : ℕ) (stored : Encoded) (now : ℕ) (r : Row Encoded)
        → K r
        → K (advance js state n stored now r)
    pub renewed :
        (v : Renewal) (updated : ℕ) (r : Row Encoded) → MayRenew i h → K r → K (renew v updated r)

  -- The row of an execution generation is there and has the property.
  abbrev pub Holds : Bytes → ℕ → (Row Encoded → Type 0) → List (Row Encoded) → Type 0
  Holds i h K rows = (r : Row Encoded) × (find_row i h rows ≡ some r) × K r

  Holds-update :
      (i id : Bytes) (h g : ℕ) (K : Row Encoded → Type 0) (f : Row Encoded → Row Encoded)
      (rows : List (Row Encoded))
      → KeepsKey f
      → (same_key id g i h ≡ true → (r : Row Encoded) → K r → K (f r))
      → Holds i h K rows
      → Holds i h K (update_rows id g f rows)
  Holds-update i id h g K f rows k keeps (r, found, kept) =
      let moved = find_row-update id i g h f rows k in
      elim (Bool-cases (same_key id g i h)) [
        | inl own ↦ (f r, ground (arith, moved, own, found), keeps own r kept)
        | inr apart ↦ (r, ground (arith, moved, apart, found), kept)
      ]

  module _ (MayRenew : Bytes → ℕ → Type 0) (i : Bytes) (h : ℕ) (K : Row Encoded → Type 0)
      (stable : IsStable MayRenew i h K) where
    Holds-Committed :
        (s : ExecutionSnapshot) (kind : EventKind) (now : ℕ) (o : Option ExecutionEvent)
        (db db' : Db Encoded)
        → Holds i h K db.executions
        → Committed js s kind now db o db'
        → Holds i h K db'.executions
    Holds-Committed s kind now o db db' k (Committed.missing absent) = k
    Holds-Committed s kind now o db db' k (Committed.ended r found over) = k
    Holds-Committed s kind now o db db' k
          (Committed.live r stored encoded kept found lives v encodes e a last) =
        subst (Holds i h K) (sym a.executions) (
          Holds-update i s.execution_id h s.generation K _ db.executions
            (advance-KeepsKey js (state_name s.state) r.next_sequence stored now)
            (λ own r' k. stable.moved _ _ _ _ r' k) k)

    Holds-Step :
        (db db' : Db Encoded)
        → IsStore js db
        → Holds i h K db.executions
        → (s : Step js db db') → RenewsOnly MayRenew s
        → Holds i h K db'.executions
    Holds-Step db db' w (r, found, k) (reserving s a now o e) only =
        elim (reserve-others js s a now db db' o e) [
          | inl made ↦
              let c =
                reserve-Created js s a now db db'
                  (subst (λ x. reserve js s a now db ≡ ok (x, db')) made e) in
              (r, rw c.rows (find_row-append_old i h db.executions _ r found), k)
          | inr same ↦ subst (λ d. Holds i h K d.executions) same (r, found, k)
        ]
    Holds-Step db db' w k (committing s kind now o e) only =
        Holds-Committed s kind now o db db' k
          (commit_event-Committed js s kind now db db' o w.journal e)
    Holds-Step db db' w k (renewing id g v now updated o e) only =
        elim (update_lease-rows id g v now updated o db db' e) [
          | inl same ↦ subst (λ d. Holds i h K d.executions) same k
          | inr same ↦
              subst (λ d. Holds i h K d.executions) same
                (Holds-update i id h g K (renew v updated) db.executions (renew-KeepsKey v updated)
                  (λ own r k.
                    let (j, m) = same_key_eq id i g h own in
                    stable.renewed v updated r (rw (← j, ← m) only) k)
                  k)
        ]
    Holds-Step db db' w k (counting deltas e) only =
        subst (Holds i h K) (increment_metrics-rows js deltas db db' e) k

    Holds-recover_all :
        (now : ℕ) (ss out : List ExecutionSnapshot) (db db' : Db Encoded)
        → IsStore js db
        → Holds i h K db.executions
        → recover_all js now ss db ≡ ok (out, db')
        → Holds i h K db'.executions
    unfolding recover_all
    Holds-recover_all now [] out db db' w k e =
        let same : db ≡ db' = ground (arith, e) in subst (λ d. Holds i h K d.executions) same k
    Holds-recover_all now (s ∷ ss) out db db' w k e =
        let (db₁, one, e₁) = >>=-eq-ok (recover_one js now (interrupt js s) db) _ e in
        let (rest, two, e₂) = >>=-eq-ok (recover_all js now ss db₁) _ e₁ in
        let (n, stored, encodes, j₁, rows) =
          recover_one-Appended js now (interrupt js s) db db₁ w.journal one in
        let k₁ =
          Holds-update i s.execution_id h s.generation K _ db.executions
            (advance-KeepsKey js "Interrupted" n stored now) (λ own r' k. stable.moved _ _ _ _ r' k)
            k in
        let same : rest.1 ≡ db' = ground (arith, e₂) in
        subst (λ d. Holds i h K d.executions) same
          (Holds-recover_all now ss rest.0 db₁ rest.1 (recover_one-IsStore js now s db db₁ w one)
            (subst (Holds i h K) (sym rows) k₁) two)

    Holds-recover :
        (now : ℕ) (out : List ExecutionSnapshot) (db db' : Db Encoded)
        → IsStore js db
        → Holds i h K db.executions
        → recover js now db ≡ ok (out, db')
        → Holds i h K db'.executions
    unfolding recover
    Holds-recover now out db db' w k e =
        let (ss, decoded, e₁) = >>=-eq-ok (decode_all js _) _ e in
        Holds-recover_all now ss out db db' w k e₁

    -- A row that is there, with a property that no step between changes, is there later with it.
    pub Holds-Later :
        (db db' : Db Encoded)
        → Reached js db
        → Holds i h K db.executions
        → Later MayRenew db db'
        → Holds i h K db'.executions
    Holds-Later db db' r k start = k
    Holds-Later db db' r k (step {db' = middle} l s only) =
        Holds-Step middle db' (Reached-IsStore js middle (Later-Reached MayRenew db middle r l))
          (Holds-Later db middle r k l) s only
    Holds-Later db db' r k (restart {db' = middle} now out l e) =
        Holds-recover now out middle db'
          (Reached-IsStore js middle (Later-Reached MayRenew db middle r l))
          (Holds-Later db middle r k l) e
