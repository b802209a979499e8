-- ===== src/Server/Queries/Granted.antt =====
-- crates/eggwork-server/src/lib.rs, `events_route`: to whom events are streamed.
use eggwork.Prelude.{
  ℕ, ◌≤◌, ◌<◌, ◌≡◌, refl, subst, ◌==◌, Bool, arith, List, [], ◌∷◌, Option, none, some, leb, ltb,
  saturating_add, ok, err, Bool-cases, inl, inr,
}
use eggwork.Prelude.Bytes.{Bytes, bytes_eq_iff}
use eggwork.Store.Tables.{Json, Db, Stored}
use eggwork.Store.Reads.{EventPage, ExistingExecution, lookup, load_snapshot, load_page}
use eggwork.Core.Execution.{ExecutionSnapshot}
use eggwork.Server.Events.{
  Received, closed, is_terminal, StreamState, streaming, event_stream_response, event_response,
}
use eggwork.Server.Queries.{
  Refused, read_query, LiveRecord, from_store, from_record, is_holder, from_existing, answer,
  events_route,
}

module _ (js : Json) where
  open js use {Encoded}

  -- The page that a stream replays, after the cursor.
  pub record Continues (id : Bytes) (generation after : ℕ) (db : Db Encoded) (s : StreamState)
      : Type 0 where
    pub page : EventPage
    pub loaded : load_page js id generation after db ≡ ok (some page)
    pub replayed : s.replay ≡ page.events
    pub cursor : s.last_sequence ≡ after
    pub behind : after < page.next_sequence
    pub retained : page.base_sequence ≤ saturating_add after 1

  response-Continues :
      (id : Bytes) (generation after : ℕ) (live : List Received) (over : Bool) (db : Db Encoded)
      (loaded : Stored (Option EventPage)) (s : StreamState)
      → load_page js id generation after db ≡ loaded
      → event_response loaded after live over ≡ streaming s
      → Continues id generation after db s
  unfolding event_response
  response-Continues id generation after live over db (err e) s l h = cc
  response-Continues id generation after live over db (ok none) s l h = cc
  response-Continues id generation after live over db (ok (some page)) s l h =
      elim (Bool-cases (ltb (saturating_add after 1) page.base_sequence)) [
        | inl gone ↦ let e = rw gone at h in cc
        | inr held ↦ elim (Bool-cases (leb page.next_sequence after)) [
          | inl ahead ↦ let e = rw (held, ahead) at h in cc
          | inr behind ↦
              let e = rw (held, behind) at h in
              let same : event_stream_response after page.events live over ≡ s = cc in
              subst (λ s. Continues id generation after db s) same
                record {
                  page = page;
                  loaded = l;
                  replayed = refl;
                  cursor = refl;
                  behind = ground (arith, behind);
                  retained = ground (arith, held);
                }
        ]
      ]

  from_store-Continues :
      (id : Bytes) (generation after : ℕ) (r : Stored (Option ExecutionSnapshot)) (db : Db Encoded)
      (s : StreamState)
      → from_store js id generation after r db ≡ streaming s
      → Continues id generation after db s
  from_store-Continues id generation after (err e) db s h = cc
  from_store-Continues id generation after (ok none) db s h = cc
  from_store-Continues id generation after (ok (some x)) db s h =
      response-Continues id generation after (closed ∷ []) (is_terminal x.state) db
        (load_page js id generation after db) s refl h

  from_record-Continues :
      (id : Bytes) (generation after : ℕ) (r : Option LiveRecord) (between db : Db Encoded)
      (s : StreamState)
      → from_record js id generation after r between db ≡ streaming s
      → Continues id generation after db s
  from_record-Continues id generation after none between db s h =
      from_store-Continues id generation after (load_snapshot js id (some generation) between) db s
        h
  from_record-Continues id generation after (some r) between db s h =
      elim (Bool-cases (r.generation == generation)) [
        | inl same ↦
            response-Continues id generation after r.receiver (is_terminal r.state) db
              (load_page js id generation after db) s refl (rw same at h)
        | inr other ↦
            from_store-Continues id generation after (load_snapshot js id (some generation) between)
              db s (rw other at h)
      ]

  -- What a caller has shown when a stream is given to it, and what the stream replays.
  pub record Granted (lease_hash : Bytes → Bytes) (principal id : Bytes) (query : Option Bytes)
      (before db : Db Encoded) (s : StreamState) : Type 0 where
    pub generation : ℕ
    pub after : ℕ
    pub lease : Bytes
    pub existing : ExistingExecution
    pub read : read_query query ≡ ok (generation, after, lease)
    pub found : lookup js id generation before ≡ ok (some existing)
    pub owner : existing.principal_id ≡ principal
    pub holder : existing.lease_token_hash ≡ lease_hash lease
    pub continues : Continues id generation after db s

  from_existing-Granted :
      (lease_hash : Bytes → Bytes) (principal id : Bytes) (query : Option Bytes)
      (generation after : ℕ) (lease : Bytes) (found : Stored (Option ExistingExecution))
      (live : Option LiveRecord) (before between db : Db Encoded) (s : StreamState)
      → read_query query ≡ ok (generation, after, lease)
      → lookup js id generation before ≡ found
      → from_existing js lease_hash principal id (generation, after, lease) found live between db
        ≡ streaming s
      → Granted lease_hash principal id query before db s
  from_existing-Granted lease_hash principal id query generation after lease (err e) live before
        between db s q l h =
      cc
  from_existing-Granted lease_hash principal id query generation after lease (ok none) live before
        between db s q l h =
      cc
  from_existing-Granted lease_hash principal id query generation after lease (ok (some e)) live
        before between db s q l h =
      elim (Bool-cases (is_holder js principal (lease_hash lease) e)) [
        | inr other ↦ let no = rw other at h in cc
        | inl same ↦ record {
          generation = generation;
          after = after;
          lease = lease;
          existing = e;
          read = q;
          found = l;
          owner = ground (arith, same, bytes_eq_iff e.principal_id principal);
          holder = ground (arith, same, bytes_eq_iff e.lease_token_hash (lease_hash lease));
          continues = from_record-Continues id generation after live between db s (rw same at h);
        }
      ]

  answer-Granted :
      (lease_hash : Bytes → Bytes) (principal id : Bytes) (query : Option Bytes)
      (read : Refused (ℕ × ℕ × Bytes)) (live : Option LiveRecord) (before between db : Db Encoded)
      (s : StreamState)
      → read_query query ≡ read
      → answer js lease_hash principal id read live before between db ≡ streaming s
      → Granted lease_hash principal id query before db s
  answer-Granted lease_hash principal id query (err (a, b)) live before between db s q h = cc
  answer-Granted lease_hash principal id query (ok (generation, after, lease)) live before between
        db s q h =
      from_existing-Granted lease_hash principal id query generation after lease
        (lookup js id generation before) live before between db s q refl h

-- Where `events_route` gives a stream, the query had a generation, a cursor and a lease that are
-- valid, an execution of this id and generation was found, which belongs to the caller's principal
-- and whose lease hash is that of the caller's lease, whichever record is in memory. The stream
-- replays the page that was loaded after the cursor, which lies before the next event's number and
-- not more than one before the first event that is kept.
pub events_route-Granted :
    (js : Json) (lease_hash : Bytes → Bytes) (principal id : Bytes) (query : Option Bytes)
    (live : Option LiveRecord) (before between db : Db js.Encoded) (s : StreamState)
    → events_route js lease_hash principal id query live before between db ≡ streaming s
    → Granted js lease_hash principal id query before db s
unfolding events_route
events_route-Granted js lease_hash principal id query live before between db s h =
    answer-Granted js lease_hash principal id query (read_query query) live before between db s refl
      h
