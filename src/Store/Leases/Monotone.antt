-- ===== src/Store/Leases/Monotone.antt =====
-- crates/eggwork-server/src/store.rs, `update_lease`: what a renewal does to the rows.
use mathlib.Core.Path.{subst₂}
use eggwork.Prelude.{
  ℕ, Option, ◌⊎◌, ◌≤◌, ◌<◌, ◌≡◌, refl, true, false, none, some, arith, max, ok, Bool-cases,
  Option-cases, inl, inr,
}
use eggwork.Prelude.Bytes.{Bytes, bytes_eq, bytes_eq_iff}
use eggwork.Store.Tables.{Row, Db, is_terminal_name, same_key, find_row, update_rows}
use eggwork.Store.Run.{same_key_refl}
use eggwork.Store.Journal.Rows.{KeepsKey, find_row-update}
use eggwork.Store.Leases.{Renewal, is_last, is_refused, renew, update_lease}

module _ {E : Type 0} where
  -- What an accepted renewal has found and left: the row of a live execution with this token whose
  -- lease has not run out, the same but for the expiry, the last renewal and the time of the update.
  pub record Renewed (id : Bytes) (g : ℕ) (v : Renewal) (now expiry : ℕ) (db db' : Db E)
      : Type 0 where
    pub before : Row E
    pub after : Row E
    pub found : find_row id g db.executions ≡ some before
    pub left : find_row id g db'.executions ≡ some after
    pub token : before.lease_token_hash ≡ v.lease_token_hash
    pub live : is_terminal_name before.state ≡ false
    pub unexpired : now < before.lease_expires_unix_ms
    pub expires : after.lease_expires_unix_ms ≡ expiry
    pub no_earlier : before.lease_expires_unix_ms ≤ expiry
    pub last : after.last_renewal_id ≡ some v.renewal_id
    pub same_token : after.lease_token_hash ≡ before.lease_token_hash
    pub same_state : after.state ≡ before.state
    pub others :
        (i : Bytes) (h : ℕ)
        → same_key id g i h ≡ false
        → find_row i h db'.executions ≡ find_row i h db.executions
    pub events : db'.events ≡ db.events

  pub renew-KeepsKey : (v : Renewal) (updated : ℕ) → KeepsKey {E = E} (renew v updated)
  renew-KeepsKey v updated = record {
    execution_id = λ r. ground arith;
    generation = λ r. ground arith;
  }

  Renewed-again :
      (id : Bytes) (g : ℕ) (v : Renewal) (now : ℕ) (r : Row E) (db : Db E)
      → find_row id g db.executions ≡ some r
      → is_refused v now r ≡ false
      → is_last v.renewal_id r.last_renewal_id ≡ true
      → Renewed id g v now r.lease_expires_unix_ms db db
  Renewed-again id g v now r db found kept again = record {
    before = r;
    after = r;
    found = found;
    left = found;
    token = ground (arith, kept, bytes_eq_iff r.lease_token_hash v.lease_token_hash);
    live = ground (arith, kept);
    unexpired = ground (arith, kept);
    expires = refl;
    no_earlier = omega arith;
    last = elim (Option-cases r.last_renewal_id) [
      | inl absent ↦ absurd (ground (arith, again, absent))
      | inr (x, l) ↦ ground (arith, again, l, bytes_eq_iff x v.renewal_id)
    ];
    same_token = refl;
    same_state = refl;
    others = λ i h apart. refl;
    events = refl;
  }

  Renewed-first :
      (id : Bytes) (g : ℕ) (v : Renewal) (now updated : ℕ) (r : Row E) (db : Db E)
      → find_row id g db.executions ≡ some r
      → is_refused v now r ≡ false
      → Renewed id g v now
          (max r.lease_expires_unix_ms v.lease_expires_unix_ms)
          db
          (record db { executions = update_rows id g (renew v updated) db.executions })
  Renewed-first id g v now updated r db found kept =
      let own : bytes_eq r.lease_token_hash v.lease_token_hash ≡ true = ground (arith, kept) in
      record {
        before = r;
        after = renew v updated r;
        found = found;
        left = ground (
          arith,
          find_row-update id id g g (renew v updated) db.executions (renew-KeepsKey v updated),
          same_key_refl id g,
          found,
        );
        token = ground (arith, kept, bytes_eq_iff r.lease_token_hash v.lease_token_hash);
        live = ground (arith, kept);
        unexpired = ground (arith, kept);
        expires = ground (arith, own);
        no_earlier = omega arith;
        last = ground (arith, own);
        same_token = ground (arith, own);
        same_state = ground (arith, own);
        others = λ i h apart. ground (
          arith,
          find_row-update id i g h (renew v updated) db.executions (renew-KeepsKey v updated),
          apart,
        );
        events = refl;
      }

  -- A renewal that answers with an expiry has found a live execution under its token, whose lease
  -- had not run out, and leaves its row with that expiry, which is no earlier than before, with
  -- this renewal as the last one, and with the same token and state; no other row and no event
  -- changes.
  pub update_lease-Renewed :
      (id : Bytes) (g : ℕ) (v : Renewal) (now updated expiry : ℕ) (db db' : Db E)
      → update_lease id g v now updated db ≡ ok (some expiry, db')
      → Renewed id g v now expiry db db'
  unfolding update_lease
  update_lease-Renewed id g v now updated expiry db db' h =
      elim (Option-cases (find_row id g db.executions)) [
        | inl absent ↦ absurd (ground (arith, h, absent))
        | inr (r, found) ↦ elim (Bool-cases (is_refused v now r)) [
          | inl refused ↦ absurd (ground (arith, h, found, refused))
          | inr kept ↦ elim (Bool-cases (is_last v.renewal_id r.last_renewal_id)) [
            | inl again ↦
                subst₂ (λ e d. Renewed id g v now e db d) (ground (arith, h, found, kept, again))
                  (ground (arith, h, found, kept, again))
                  (Renewed-again id g v now r db found kept again)
            | inr first ↦
                subst₂ (λ e d. Renewed id g v now e db d) (ground (arith, h, found, kept, first))
                  (ground (arith, h, found, kept, first))
                  (Renewed-first id g v now updated r db found kept)
          ]
        ]
      ]

  -- A renewal that is refused changes nothing.
  pub update_lease-none :
      (id : Bytes) (g : ℕ) (v : Renewal) (now updated : ℕ) (db db' : Db E)
      → update_lease id g v now updated db ≡ ok (none, db')
      → db ≡ db'
  unfolding update_lease
  update_lease-none id g v now updated db db' h =
      elim (Option-cases (find_row id g db.executions)) [
        | inl absent ↦ ground (arith, h, absent)
        | inr (r, found) ↦ elim (Bool-cases (is_refused v now r)) [
          | inl refused ↦ ground (arith, h, found, refused)
          | inr kept ↦ elim (Bool-cases (is_last v.renewal_id r.last_renewal_id)) [
            | inl again ↦ absurd (ground (arith, h, found, kept, again))
            | inr first ↦ absurd (ground (arith, h, found, kept, first))
          ]
        ]
      ]

  -- A renewal leaves the tables, or writes the row.
  pub update_lease-rows :
      (id : Bytes) (g : ℕ) (v : Renewal) (now updated : ℕ) (o : Option ℕ) (db db' : Db E)
      → update_lease id g v now updated db ≡ ok (o, db')
      → (db ≡ db')
        ⊎ (record db { executions = update_rows id g (renew v updated) db.executions } ≡ db')
  unfolding update_lease
  update_lease-rows id g v now updated o db db' h =
      elim (Option-cases (find_row id g db.executions)) [
        | inl absent ↦ inl (ground (arith, h, absent))
        | inr (r, found) ↦ elim (Bool-cases (is_refused v now r)) [
          | inl refused ↦ inl (ground (arith, h, found, refused))
          | inr kept ↦ elim (Bool-cases (is_last v.renewal_id r.last_renewal_id)) [
            | inl again ↦ inl (ground (arith, h, found, kept, again))
            | inr first ↦ inr (ground (arith, h, found, kept, first))
          ]
        ]
      ]
