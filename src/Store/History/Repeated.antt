-- ===== src/Store/History/Repeated.antt =====
-- crates/eggwork-server/src/store.rs: a client that repeats `reserve` or `update_lease` after it was
-- accepted, when other calls and restarts may have come between.
use eggwork.Prelude.{
  ℕ, ◌<◌, ◌≡◌, sym, ◌∙◌, true, false, List, [], ◌∷◌, none, some, arith, ok, Bool-cases, inl, inr,
  if◌then◌else◌,
}
use eggwork.Prelude.Bytes.{Bytes, bytes_eq, bytes_eq_refl}
use eggwork.Core.Execution.{ExecutionSnapshot}
use eggwork.Store.Tables.{Json, Row, Db, is_terminal_name, same_key, row_has, find_row}
use eggwork.Store.Run.{same_key_refl}
use eggwork.Store.Journal.Rows.{find_row-has}
use eggwork.Store.Reserve.{ReserveResult, Admission, is_same, new_row, reserve}
use eggwork.Store.Reserve.Kept.{find_row-new}
use eggwork.Store.Reserve.Fencing.{reserve-Created}
use eggwork.Store.Leases.{Renewal, is_last, update_lease}
use eggwork.Store.Leases.Monotone.{update_lease-Renewed}
use eggwork.Store.History.{Reached, reserving, renewing, stepped}
use eggwork.Store.History.Coherent.{ReadsBack, IsReadable, Coherent, Reached-Coherent}
use eggwork.Store.History.Later.{Later, IsStable, Holds, Later-Reached, Holds-Later}

-- Any execution may be renewed.
abbrev pub Anyone : Bytes → ℕ → Type 0
Anyone id g = Unit {0}

-- Any execution generation but this one may be renewed.
abbrev pub Others : Bytes → ℕ → Bytes → ℕ → Type 0
Others id g j k = same_key j k id g ≡ false

module _ (js : Json) where
  open js use {Encoded, snapshot_from_slice}

  Coherent-find :
      (i : Bytes) (h : ℕ) (rows : List (Row Encoded)) (r : Row Encoded)
      → find_row i h rows ≡ some r
      → Coherent js rows
      → IsReadable js r
  unfolding find_row
  Coherent-find i h [] r found c = cc
  Coherent-find i h (x ∷ rows) r found c = elim (Bool-cases (row_has i h x)) [
    | inl own ↦ let same : x ≡ r = ground (arith, found, own) in rw (← same) c.0
    | inr other ↦ Coherent-find i h rows r (ground (arith, found, other)) c.1
  ]

  -- The row is of the request that was admitted.
  abbrev IsAdmitted : Admission → Row Encoded → Type 0
  IsAdmitted a r = is_same js a r ≡ true

  IsAdmitted-IsStable : (a : Admission) (i : Bytes) (h : ℕ) → IsStable js Anyone i h (IsAdmitted a)
  IsAdmitted-IsStable a i h = record {
    moved = λ state n stored now r k. k;
    renewed = λ v updated r may k. ground (arith, k);
  }

  -- What a repeated reservation finds and gives.
  pub record Answered (s : ExecutionSnapshot) (a : Admission) (later : ℕ) (db : Db Encoded)
      : Type 0 where
    pub row : Row Encoded
    pub old : ExecutionSnapshot
    pub found : find_row s.execution_id s.generation db.executions ≡ some row
    pub stored : snapshot_from_slice row.snapshot_json ≡ some old
    pub own : (old.execution_id ≡ s.execution_id) × (old.generation ≡ s.generation)
    pub answer : reserve js s a later db ≡ ok (ReserveResult.existing old, db)

  Holds-Answered :
      (s : ExecutionSnapshot) (a : Admission) (later : ℕ) (db : Db Encoded)
      → Coherent js db.executions
      → Holds js s.execution_id s.generation (IsAdmitted a) db.executions
      → Answered s a later db
  unfolding reserve
  Holds-Answered s a later db c (r, found, same) =
      let (old, reads, i, g) = Coherent-find s.execution_id s.generation db.executions r found c in
      let (j, h) = find_row-has s.execution_id s.generation db.executions r found in
      record {
        row = r;
        old = old;
        found = found;
        stored = reads;
        own = (i ∙ sym j, g ∙ sym h);
        answer = ground (arith, found, same, reads);
      }

  -- Where decoding gives back what was encoded: a reservation that was admitted, on tables that a
  -- new database may have reached, and that is repeated at any time after any admissions, events,
  -- renewals, counters and restarts, is answered with the snapshot that the row of this execution
  -- generation then holds, which is one of it, and changes nothing.
  pub reserve-again :
      (s : ExecutionSnapshot) (a : Admission) (now later : ℕ) (db db' db'' : Db Encoded)
      → ReadsBack js
      → Reached js db
      → reserve js s a now db ≡ ok (ReserveResult.created, db')
      → Later js Anyone db' db''
      → Answered s a later db''
  reserve-again s a now later db db' db'' back r h l =
      let c = reserve-Created js s a now db db' h in
      let x = new_row js s a now c.stored in
      let found : find_row s.execution_id s.generation db'.executions ≡ some x = rw c.rows (
        find_row-new js s.execution_id s.generation db.executions x c.absent
          (same_key_refl s.execution_id s.generation)) in
      let same : is_same js a x ≡ true = ground (
        arith,
        bytes_eq_refl a.digest,
        bytes_eq_refl a.principal_id,
        bytes_eq_refl a.lease_token_hash,
      ) in
      let after : Reached js db' = stepped r (reserving s a now ReserveResult.created h) in
      Holds-Answered s a later db''
        (Reached-Coherent js db'' back (Later-Reached js Anyone db' db'' after l))
        (Holds-Later js Anyone s.execution_id s.generation (IsAdmitted a)
          (IsAdmitted-IsStable a s.execution_id s.generation) db' db'' after (x, found, same) l)

  -- The row has the renewal, under its token, and the expiry.
  abbrev IsLeased : Renewal → ℕ → Row Encoded → Type 0
  IsLeased v expiry r =
      (r.lease_token_hash ≡ v.lease_token_hash)
      × (r.last_renewal_id ≡ some v.renewal_id)
      × (r.lease_expires_unix_ms ≡ expiry)

  IsLeased-IsStable :
      (v : Renewal) (expiry : ℕ) (id : Bytes) (g : ℕ)
      → IsStable js (Others id g) id g (IsLeased v expiry)
  IsLeased-IsStable v expiry id g = record {
    moved = λ state n stored now r k. k;
    renewed = λ w updated r may k. absurd (ground (arith, may, same_key_refl id g));
  }

  Holds-renewed :
      (id : Bytes) (g : ℕ) (v : Renewal) (expiry expiry' later updated : ℕ) (db : Db Encoded)
      → later < expiry
      → Holds js id g (IsLeased v expiry) db.executions
      → (r : Row Encoded) × (find_row id g db.executions ≡ some r)
        × (update_lease id g (record v { lease_expires_unix_ms = expiry' }) later updated db
            ≡ ok (if is_terminal_name r.state then none else some expiry, db))
  unfolding update_lease
  Holds-renewed id g v expiry expiry' later updated db lt (r, found, (token, last, expires)) =
      let own : bytes_eq r.lease_token_hash v.lease_token_hash ≡ true =
        rw token (bytes_eq_refl v.lease_token_hash) in
      let again : is_last v.renewal_id r.last_renewal_id ≡ true =
        rw last (bytes_eq_refl v.renewal_id) in
      elim (Bool-cases (is_terminal_name r.state)) [
        | inl over ↦ (r, found, ground (arith, found, over))
        | inr live ↦ (r, found, ground (arith, found, own, again, live, expires, lt))
      ]

  -- A renewal that was accepted, on tables that a new database may have reached, and that is
  -- repeated, whatever expiry it then names, before the expiry that was answered, changes nothing
  -- and is answered with that expiry again, or refused where the execution has ended by then. Any
  -- admissions, events, counters and restarts, and renewals of other execution generations, may have
  -- come between, but no other renewal of this one.
  pub update_lease-again :
      (id : Bytes) (g : ℕ) (v : Renewal) (now updated expiry expiry' later updated' : ℕ)
      (db db' db'' : Db Encoded)
      → Reached js db
      → update_lease id g v now updated db ≡ ok (some expiry, db')
      → Later js (Others id g) db' db''
      → later < expiry
      → (r : Row Encoded) × (find_row id g db''.executions ≡ some r)
        × (update_lease id g (record v { lease_expires_unix_ms = expiry' }) later updated' db''
            ≡ ok (if is_terminal_name r.state then none else some expiry, db''))
  update_lease-again id g v now updated expiry expiry' later updated' db db' db'' r h l lt =
      let n = update_lease-Renewed id g v now updated expiry db db' h in
      let after : Reached js db' = stepped r (renewing id g v now updated (some expiry) h) in
      Holds-renewed id g v expiry expiry' later updated' db'' lt (
        Holds-Later js (Others id g) id g (IsLeased v expiry) (IsLeased-IsStable v expiry id g) db'
          db'' after (n.after, n.left, (n.same_token ∙ n.token, n.last, n.expires)) l)
