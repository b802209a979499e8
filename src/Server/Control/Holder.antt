-- ===== src/Server/Control/Holder.antt =====
-- crates/eggwork-server/src/lib.rs, `control`: who may renew and cancel, and what then holds.
use eggwork.Prelude.{
  ℕ, ◌+◌, ◌-◌, ◌≡◌, ◌⊎◌, ltb, length, refl, subst, Bool, true, false, ◌||◌, arith, Option, none,
  some, Result, ok, err, Bool-cases, inl, inr,
}
use eggwork.Prelude.Bytes.{Bytes, bytes, bytes_eq, bytes_eq_iff, is_empty}
use eggwork.Core.Limits.{max_id_bytes}
use eggwork.Core.Execution.{cancelling, EventKind, ExecutionSnapshot}
use eggwork.Store.Tables.{Json, Db, Stored}
use eggwork.Store.Leases.{Renewal, update_lease}
use eggwork.Store.Leases.Monotone.{Renewed, update_lease-Renewed, update_lease-none}
use eggwork.Store.Reads.{ExistingExecution}
use eggwork.Server.Events.{is_terminal}
use eggwork.Server.Records.{ExecutionRecord, publish}
use eggwork.Server.Control.{
  ControlRequest, Body, Held, Clock, Reply, refused, unavailable, snapshot, is_cancelling,
  has_expired, cancel_unless_over, check_renewal_id, Outcome, renewed, renew_identified,
  cancel_execution, check_control, act, control,
}
use eggwork.Server.Control.Checked.{
  IsRefusal, Refuses, Shown, check_control-Shown, check_control-Refuses,
}

-- The execution has ended, or its cancellation is requested.
abbrev pub Stops : Held → Type 0
Stops r = (is_terminal r.entry.snapshot.state ≡ true) ⊎ (r.entry.cancelled ≡ true)

module _ (js : Json) where
  open js use {Encoded}

  -- What the handler does, for a renewal or a cancellation, at these clocks.
  pub data Handled (id : Bytes) (renew : Bool) (clock : Clock)
      (Allowed : ControlRequest → ExistingExecution → Type 0) (seen : ExecutionSnapshot) (r : Held)
      (db : Db Encoded) : Outcome js → Type 0 where
    -- it refuses, or the store failed, and nothing changes
    unchanged :
        (reply : Reply) → IsRefusal reply → Handled id renew clock Allowed seen r db (reply, r, db)
    -- it cancels
    stopped :
        (q : ControlRequest) (existing : ExistingExecution) (r' : Held) (db' : Db Encoded)
        → renew ≡ false
        → Allowed q existing
        → r.lease_hash ≡ existing.lease_token_hash
        → Stops r'
        → Handled id renew clock Allowed seen r db (snapshot 202 r'.entry.snapshot, r', db')
    -- it renews: the lease of the row, and the deadline in memory by what then remains of it
    extended :
        (q : ControlRequest) (existing : ExistingExecution) (v : Renewal) (expiry : ℕ)
        (db' : Db Encoded)
        → renew ≡ true
        → Allowed q existing
        → r.lease_hash ≡ existing.lease_token_hash
        → is_terminal seen.state ≡ false
        → has_expired clock.tested r ≡ false
        → v.lease_token_hash ≡ existing.lease_token_hash
        → q.renewal_id ≡ some v.renewal_id
        → Renewed id q.handle.generation v clock.refused_at expiry db db'
        → Handled id renew clock Allowed seen r db (
          snapshot 200 seen,
          record r {
            expires_at = clock.deadline_from + (expiry - clock.remaining_from);
            notified = true;
          },
          db',
        )

  -- What `control` is given, but for the request; `Allowed` is what its checks have shown.
  module _ (id : Bytes) (clock : Clock) (Allowed : ControlRequest → ExistingExecution → Type 0)
      (seen : ExecutionSnapshot) (r : Held) (db : Db Encoded) where
    renewed-Handled :
        (q : ControlRequest) (existing : ExistingExecution) (v : Renewal)
        (out : Stored (Option ℕ × Db Encoded))
        → Allowed q existing
        → r.lease_hash ≡ existing.lease_token_hash
        → is_terminal seen.state ≡ false
        → has_expired clock.tested r ≡ false
        → v.lease_token_hash ≡ existing.lease_token_hash
        → q.renewal_id ≡ some v.renewal_id
        → update_lease id q.handle.generation v clock.refused_at clock.updated db ≡ out
        → Handled id true clock Allowed seen r db (renewed js clock seen r db out)
    renewed-Handled q existing v (err e) allowed same on live token named h =
        unchanged unavailable tt
    renewed-Handled q existing v (ok (none, db')) allowed same on live token named h =
        subst
          (λ d.
            Handled id true clock Allowed seen r db (refused (409, bytes "lease_expired"), r, d))
          (update_lease-none id q.handle.generation v clock.refused_at clock.updated db db' h)
          (unchanged _ tt)
    renewed-Handled q existing v (ok (some expiry, db')) allowed same on live token named h =
        extended q existing v expiry db' refl allowed same on live token named (
          update_lease-Renewed id q.handle.generation v clock.refused_at clock.updated expiry db db'
            h)

    identified-Handled :
        (q : ControlRequest) (existing : ExistingExecution) (ttl : ℕ) (o : Option Bytes)
        → Allowed q existing
        → r.lease_hash ≡ existing.lease_token_hash
        → q.renewal_id ≡ o
        → Handled id true clock Allowed seen r db (
            renew_identified js id q existing.lease_token_hash ttl clock
              (check_renewal_id o)
              seen
              r
              db)
    identified-Handled q existing ttl none allowed same named = unchanged _ tt
    identified-Handled q existing ttl (some renewal_id) allowed same named =
        elim (Bool-cases (is_empty renewal_id || ltb max_id_bytes (length renewal_id))) [
          | inl bad ↦ rw bad (unchanged _ tt)
          | inr good ↦ rw good (elim (Bool-cases (is_terminal seen.state)) [
            | inl over ↦ rw over (unchanged _ tt)
            | inr on ↦ rw on (elim (Bool-cases (has_expired clock.tested r)) [
              | inl late ↦ rw late (unchanged _ tt)
              | inr live ↦
                  rw live (renewed-Handled q existing _ _ allowed same on live refl named refl)
            ])
          ])
        ]

    cancel_unless_over-Stops :
        (e : ExecutionRecord) → Stops (record r { entry = cancel_unless_over e })
    cancel_unless_over-Stops e = elim (Bool-cases (is_terminal e.snapshot.state)) [
      | inl over ↦ rw over (inl over)
      | inr on ↦ rw on (inr refl)
    ]

    cancel-Handled :
        (q : ControlRequest) (existing : ExistingExecution)
        → (is_terminal seen.state ≡ true → is_terminal r.entry.snapshot.state ≡ true)
        → Allowed q existing
        → r.lease_hash ≡ existing.lease_token_hash
        → Handled id false clock Allowed seen r db (cancel_execution js clock seen r db)
    cancel-Handled q existing stays allowed same = elim (Bool-cases (is_cancelling seen.state)) [
      | inl cancels ↦ rw cancels (elim (Bool-cases (is_terminal seen.state)) [
        | inl over ↦ rw over (stopped q existing _ db refl allowed same (inr refl))
        | inr on ↦ rw on (stopped q existing _ db refl allowed same (inr refl))
      ])
      | inr other ↦ rw other (elim (Bool-cases (is_terminal seen.state)) [
        | inl over ↦ rw over (stopped q existing r db refl allowed same (inl (stays over)))
        | inr on ↦ rw on (elim (Bool-cases (has_expired clock.tested r)) [
          | inl late ↦ rw late (unchanged _ tt)
          | inr live ↦ rw live (
              let (entry, after) =
                publish js clock.published cancelling none (EventKind.state cancelling)
                  (r.entry, db) in
              stopped q existing (record r { entry = cancel_unless_over entry }) after refl allowed
                same (cancel_unless_over-Stops entry))
        ])
      ])
    ]

    act-Handled :
        (renew : Bool) (ttl : ℕ) (checked : Result Reply (ControlRequest × ExistingExecution))
        → (is_terminal seen.state ≡ true → is_terminal r.entry.snapshot.state ≡ true)
        → Refuses checked
        → ((q : ControlRequest) (existing : ExistingExecution)
            → checked ≡ ok (q, existing)
            → Allowed q existing)
        → Handled id renew clock Allowed seen r db (act js id renew ttl clock checked seen r db)
    unfolding Refuses
    act-Handled renew ttl (err reply) stays refusal allowed = unchanged reply refusal
    act-Handled renew ttl (ok (q, existing)) stays refusal allowed =
        elim (Bool-cases (bytes_eq r.lease_hash existing.lease_token_hash)) [
          | inr other ↦ rw other (unchanged _ tt)
          | inl own ↦
              let same : r.lease_hash ≡ existing.lease_token_hash =
                ground (arith, own, bytes_eq_iff r.lease_hash existing.lease_token_hash) in
              rw own (elim (Bool-cases renew) [
                | inl renews ↦ rw renews (
                    identified-Handled q existing ttl q.renewal_id (allowed q existing refl) same
                      refl)
                | inr cancels ↦
                    rw cancels (cancel-Handled q existing stays (allowed q existing refl) same)
              ])
        ]

-- Where a snapshot that was seen to be terminal stays so, `control` does one of three things. It
-- refuses, or the store failed, and neither the record in memory nor the tables change. Or the
-- request is a cancellation, it answers with 202 and the record's snapshot, and the execution has
-- ended or its cancellation is requested. Or the request is a renewal, it answers with 200, and the
-- row of the live execution has the renewal and an expiry that is no earlier than before, while the
-- deadline in memory is what remains until that expiry, from now; neither the lease in memory nor the
-- row's had run out. In the last two cases the request names this execution, an execution of its
-- generation was found that belongs to the caller's principal and has the hash of its lease, which
-- the record in memory has too, and that generation is the newest.
pub control-Handled :
    (js : Json) (lease_hash : Bytes → Bytes) (principal id : Bytes) (renew : Bool)
    (lease_ttl_ms : ℕ) (clock : Clock) (body : Body) (at_lookup at_latest : Db js.Encoded)
    (seen : ExecutionSnapshot) (r : Held) (db : Db js.Encoded)
    → (is_terminal seen.state ≡ true → is_terminal r.entry.snapshot.state ≡ true)
    → Handled js id renew clock
        (Shown js lease_hash principal id body at_lookup at_latest)
        seen
        r
        db
        (control js lease_hash principal id renew lease_ttl_ms clock body at_lookup at_latest seen r
          db)
unfolding control
control-Handled js lease_hash principal id renew ttl clock body at_lookup at_latest seen r db
      stays =
    act-Handled js id clock (Shown js lease_hash principal id body at_lookup at_latest) seen r db
      renew ttl (check_control js lease_hash principal id body at_lookup at_latest) stays
      (check_control-Refuses js lease_hash principal id body at_lookup at_latest)
      (check_control-Shown js lease_hash principal id body at_lookup at_latest)
