-- ===== src/Core/Execution/Events.antt =====
-- crates/eggwork-core/src/lib.rs, `ExecutionEvent::validate`: which events are within bounds.
use eggwork.Prelude.{
  ◌≤◌, ◌≡◌, ◌↔◌, false, arith, ltb, All, any→All, All-any, length, ok, reject_if-eq-ok, >>-eq-ok,
}
use eggwork.Core.Limits.{max_metadata_count, max_event_chunk_bytes}
use eggwork.Core.Execution.{
  ExecutionEvent, is_long_field, payload_length, validate_metadata, validate_event,
}

-- An event whose payload and metadata are within bounds.
pub record EventFits (e : ExecutionEvent) : Type 0 where
  pub payload : payload_length e.kind ≤ max_event_chunk_bytes
  pub field_count : length e.metadata.fields ≤ max_metadata_count
  pub fields : All (λ f. is_long_field f ≡ false) e.metadata.fields

-- `ExecutionEvent::validate` accepts an event exactly when its payload and metadata are within
-- bounds.
validate_event_iff : (e : ExecutionEvent) → (validate_event e ≡ ok tt) ↔ EventFits e
unfolding validate_event
validate_event_iff e = (
  λ h.
      let (meta, rest) = >>-eq-ok (validate_metadata e.metadata) _ h in
      let (count, rest') =
        reject_if-eq-ok (ltb max_metadata_count (length e.metadata.fields)) _ _ meta in
      record {
        payload = ground arith;
        field_count = ground arith;
        fields = any→All is_long_field e.metadata.fields (ground arith);
      },
  λ v. ground (arith, All-any is_long_field e.metadata.fields v.fields),
)
