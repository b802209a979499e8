-- ===== src/Server/Control/Checked.antt =====
-- crates/eggwork-server/src/lib.rs, `control`: what its checks on the request and on the rows show.
use mathlib.Core.Path.{subst₂}
use eggwork.Prelude.{
  ℕ, ◌≡◌, reject_if, ◌>>=◌, ◌>>◌, ◌==◌, Bool, true, false, not, ◌||◌, arith, Option, none, some,
  Result, ok, err, >>=-eq-ok, reject_if-eq-ok,
}
use eggwork.Prelude.Bytes.{Bytes, bytes, bytes_eq, bytes_eq_iff}
use eggwork.Core.Execution.{ExecutionSnapshot}
use eggwork.Store.Tables.{Json, Db, Stored}
use eggwork.Store.Reads.{ExistingExecution, lookup, load_snapshot}
use eggwork.Server.Admission.{api_schema_version}
use eggwork.Server.Control.{
  ControlRequest, Body, decoded, Reply, refused, unavailable, snapshot, read_body, or_not_found,
  check_control,
}

-- A response that is no snapshot.
abbrev pub IsRefusal : Reply → Type 0
IsRefusal (refused v) = Unit {0}
IsRefusal unavailable = Unit {0}
IsRefusal (snapshot status s) = ⊥

read_body-eq-ok : (body : Body) (q : ControlRequest) → read_body body ≡ ok q → body ≡ decoded q
read_body-eq-ok Body.too_large q h = cc
read_body-eq-ok Body.malformed q h = cc
read_body-eq-ok (decoded q) r h = cc

or_not_found-eq-ok {ℓ} :
    {A : Type ℓ} (o : Stored (Option A)) (x : A) → or_not_found o ≡ ok x → o ≡ ok (some x)
or_not_found-eq-ok (err e) x h = cc
or_not_found-eq-ok (ok none) x h = cc
or_not_found-eq-ok (ok (some y)) x h = cc

-- What refuses does so with a response that is no snapshot.
unfoldable pub Refuses {ℓ} : {A : Type ℓ} → Result Reply A → Type 0
Refuses (ok x) = Unit {0}
Refuses (err reply) = IsRefusal reply

Refuses-step {ℓ κ} :
    {A : Type ℓ} {B : Type κ} (step : Result Reply A) (rest : A → Result Reply B)
    → Refuses step
    → ((x : A) → Refuses (rest x))
    → Refuses (step >>= rest)
unfolding Refuses
Refuses-step (ok x) rest first more = more x
Refuses-step (err reply) rest first more = first

Refuses-guard {ℓ} :
    {B : Type ℓ} (t : Bool) (v : ℕ × Bytes) (rest : Result Reply B)
    → Refuses rest
    → Refuses (reject_if t (refused v) >> rest)
unfolding Refuses
Refuses-guard true v rest more = tt
Refuses-guard false v rest more = more

Refuses-ok {ℓ} : {A : Type ℓ} (x : A) → Refuses (ok x)
unfolding Refuses
Refuses-ok x = tt

read_body-Refuses : (body : Body) → Refuses (read_body body)
unfolding Refuses
read_body-Refuses Body.too_large = tt
read_body-Refuses Body.malformed = tt
read_body-Refuses (decoded q) = tt

or_not_found-Refuses {ℓ} : {A : Type ℓ} (o : Stored (Option A)) → Refuses (or_not_found o)
unfolding Refuses
or_not_found-Refuses (err e) = tt
or_not_found-Refuses (ok none) = tt
or_not_found-Refuses (ok (some x)) = tt

-- The lemmas on a block that returns, for a proof that goes on with what they give.
after_step {ℓ κ μ ν} :
    {E : Type κ} {A : Type ℓ} {B : Type μ} {P : Type ν} (step : Result E A) (rest : A → Result E B)
    {out : B}
    → (step >>= rest) ≡ ok out
    → ((x : A) → step ≡ ok x → rest x ≡ ok out → P)
    → P
after_step step rest h more = let (x, s, r) = >>=-eq-ok step rest h in more x s r

after_guard {κ μ ν} :
    {E : Type κ} {B : Type μ} {P : Type ν} (t : Bool) (e : E) (k : Result E B) {out : B}
    → (reject_if t e >> k) ≡ ok out
    → (t ≡ false → k ≡ ok out → P)
    → P
after_guard t e k h more = let (f, r) = reject_if-eq-ok t e k h in more f r

module _ (js : Json) where
  open js use {Encoded}

  -- What the caller has shown: its request names this execution, which it owns, by a lease of the
  -- generation that is the newest, and which the record in memory has too.
  pub record Shown (lease_hash : Bytes → Bytes) (principal id : Bytes) (body : Body)
      (at_lookup at_latest : Db Encoded) (q : ControlRequest) (existing : ExistingExecution)
      : Type 0 where
    pub read : body ≡ decoded q
    pub version : q.schema_version ≡ api_schema_version
    pub this : q.handle.execution_id ≡ id
    pub found : lookup js id q.handle.generation at_lookup ≡ ok (some existing)
    pub owner : existing.principal_id ≡ principal
    pub holder : existing.lease_token_hash ≡ lease_hash q.handle.lease_id
    pub newest : ExecutionSnapshot
    pub latest : load_snapshot js id none at_latest ≡ ok (some newest)
    pub current : newest.generation ≡ q.handle.generation

  pub check_control-Shown :
      (lease_hash : Bytes → Bytes) (principal id : Bytes) (body : Body)
      (at_lookup at_latest : Db Encoded) (q : ControlRequest) (existing : ExistingExecution)
      → check_control js lease_hash principal id body at_lookup at_latest ≡ ok (q, existing)
      → Shown lease_hash principal id body at_lookup at_latest q existing
  unfolding check_control
  check_control-Shown lease_hash principal id body at_lookup at_latest q existing h =
      after_step (read_body body) _ h (λ r read h.
        after_guard
          (not (r.schema_version == api_schema_version) || not (bytes_eq r.handle.execution_id id))
          _ _ h
          (λ shape h.
            after_step (or_not_found (lookup js id r.handle.generation at_lookup)) _ h (λ e found h.
              after_guard (not (bytes_eq e.principal_id principal)) _ _ h (λ owner h.
                after_guard (not (bytes_eq e.lease_token_hash (lease_hash r.handle.lease_id))) _ _ h
                  (λ holder h.
                    after_step (or_not_found (load_snapshot js id none at_latest)) _ h
                      (λ newest latest h.
                        after_guard (not (newest.generation == r.handle.generation)) _ _ h
                          (λ current h.
                            let same_q : r ≡ q = cc in
                            let same_e : e ≡ existing = cc in
                            subst₂
                              (λ q e. Shown lease_hash principal id body at_lookup at_latest q e)
                              same_q same_e
                              record {
                                read = read_body-eq-ok body r read;
                                version = ground (arith, shape);
                                this = ground (arith, shape, bytes_eq_iff r.handle.execution_id id);
                                found = or_not_found-eq-ok _ e found;
                                owner =
                                    ground (arith, owner, bytes_eq_iff e.principal_id principal);
                                holder = ground (
                                  arith,
                                  holder,
                                  bytes_eq_iff e.lease_token_hash (lease_hash r.handle.lease_id),
                                );
                                newest = newest;
                                latest = or_not_found-eq-ok _ newest latest;
                                current = ground (arith, current);
                              })))))))

  pub check_control-Refuses :
      (lease_hash : Bytes → Bytes) (principal id : Bytes) (body : Body)
      (at_lookup at_latest : Db Encoded)
      → Refuses (check_control js lease_hash principal id body at_lookup at_latest)
  unfolding check_control
  check_control-Refuses lease_hash principal id body at_lookup at_latest =
      Refuses-step (read_body body) _ (read_body-Refuses body) (λ q.
        Refuses-guard
          (not (q.schema_version == api_schema_version) || not (bytes_eq q.handle.execution_id id))
          (400, bytes "invalid_request") _
          (Refuses-step (or_not_found (lookup js id q.handle.generation at_lookup)) _
            (or_not_found-Refuses _)
            (λ e.
              Refuses-guard (not (bytes_eq e.principal_id principal)) (403, bytes "forbidden") _
                (Refuses-guard (not (bytes_eq e.lease_token_hash (lease_hash q.handle.lease_id)))
                  (403, bytes "invalid_lease") _
                  (Refuses-step (or_not_found (load_snapshot js id none at_latest)) _
                    (or_not_found-Refuses _)
                    (λ newest.
                      Refuses-guard (not (newest.generation == q.handle.generation))
                        (409, bytes "generation_mismatch") _ (Refuses-ok (q, e))))))))
