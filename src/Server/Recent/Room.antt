-- ===== src/Server/Recent/Room.antt =====
-- crates/eggwork-server/src/lib.rs, `execute`: which executions leave the memory.
use eggwork.Prelude.{
  ℕ, zero, suc, ◌+◌, ◌-◌, ◌≤◌, ◌≡◌, refl, sym, ap, ◌∙◌, arith, min, true, false, not, List, [], ◌∷◌,
  ◌++◌, keep_if, ltb, leb, length, All, length-append, Bool-cases, inl, inr, if◌then◌else◌,
}
use eggwork.Prelude.Slices.{append_nil, append_assoc}
use eggwork.Prelude.Bytes.{Bytes, bytes_eq, bytes_eq_iff, bytes_eq_refl}
use eggwork.Server.Recent.{max_recent_executions, Recent, collect, remove_id, remove_all, make_room}

-- A map has one record under one key.
abbrev pub HasKeysOnce : List Recent → Type 0
HasKeysOnce [] = Unit
HasKeysOnce (r ∷ rs) = All (λ s. bytes_eq s.id r.id ≡ false) rs × HasKeysOnce rs

abbrev pub over : List Recent → List Recent
over = keep_if (λ r. r.is_over)

abbrev pub not_over : List Recent → List Recent
not_over = keep_if (λ r. not r.is_over)

-- The ids of the first `k` terminal executions, and the list without these.
abbrev pub first_over : ℕ → List Recent → List Bytes
first_over zero rs = []
first_over (suc k) [] = []
first_over (suc k) (r ∷ rs) =
    let taken = first_over k rs in
    let rest = first_over (suc k) rs in if r.is_over then r.id ∷ taken else rest

abbrev pub without_first : ℕ → List Recent → List Recent
without_first zero rs = rs
without_first (suc k) [] = []
without_first (suc k) (r ∷ rs) =
    let taken = without_first k rs in
    let rest = without_first (suc k) rs in if r.is_over then taken else r ∷ rest

without_first-not_over : (k : ℕ) (rs : List Recent) → not_over (without_first k rs) ≡ not_over rs
without_first-not_over zero rs = refl
without_first-not_over (suc k) [] = refl
without_first-not_over (suc k) (r ∷ rs) =
    ground (arith, without_first-not_over k rs, without_first-not_over (suc k) rs)

length-over : (rs : List Recent) → length (over rs) ≤ length rs
length-over [] = omega arith
length-over (r ∷ rs) = ground (arith, length-over rs)

length-without_first :
    (k : ℕ) (rs : List Recent) → length (without_first k rs) ≡ length rs - min k (length (over rs))
length-without_first zero rs = omega arith
length-without_first (suc k) [] = omega arith
length-without_first (suc k) (r ∷ rs) = elim (Bool-cases r.is_over) [
  | inl is ↦ rw is (omega (arith, length-without_first k rs))
  | inr isnt ↦ rw isnt (omega (arith, length-without_first (suc k) rs, length-over rs))
]

collect-first_over :
    (size k : ℕ) (terminal : List Bytes) (rs : List Recent)
    → size + 1 ≡ max_recent_executions + (length terminal + suc k)
    → collect size terminal rs ≡ terminal ++ first_over (suc k) rs
unfolding collect
collect-first_over size k terminal [] h = sym (append_nil terminal)
collect-first_over size zero terminal (r ∷ rs) h = elim (Bool-cases r.is_over) [
  | inl is ↦
      let longer = length-append terminal (r.id ∷ []) in
      let enough : ltb (size - length (terminal ++ r.id ∷ [])) max_recent_executions ≡ true =
        ground (arith, h, longer) in
      rw (is, enough)
  | inr isnt ↦
      let short : ltb (size - length terminal) max_recent_executions ≡ false = ground (arith, h) in
      rw (isnt, short) (collect-first_over size zero terminal rs h)
]
collect-first_over size (suc k) terminal (r ∷ rs) h = elim (Bool-cases r.is_over) [
  | inl is ↦
      let longer = length-append terminal (r.id ∷ []) in
      let short : ltb (size - length (terminal ++ r.id ∷ [])) max_recent_executions ≡ false =
        ground (arith, h, longer) in
      rw (is, short)
        (collect-first_over size k (terminal ++ r.id ∷ []) rs (omega (arith, h, longer))
          ∙ append_assoc terminal (r.id ∷ []) (first_over (suc k) rs))
  | inr isnt ↦
      let short : ltb (size - length terminal) max_recent_executions ≡ false = ground (arith, h) in
      rw (isnt, short) (collect-first_over size (suc k) terminal rs h)
]

remove_id-apart :
    (id : Bytes) (rs : List Recent) → All (λ s. bytes_eq s.id id ≡ false) rs → remove_id id rs ≡ rs
remove_id-apart id [] h = refl
remove_id-apart id (r ∷ rs) h = ground (arith, remove_id-apart id rs h.1, h.0)

remove_id-own : (r : Recent) (rs : List Recent) → remove_id r.id (r ∷ rs) ≡ remove_id r.id rs
remove_id-own r rs = rw (bytes_eq_refl r.id)

remove_all-keeps :
    (ids : List Bytes) (r : Recent) (rs : List Recent)
    → All (λ id. bytes_eq r.id id ≡ false) ids
    → remove_all ids (r ∷ rs) ≡ r ∷ remove_all ids rs
unfolding remove_all
remove_all-keeps [] r rs h = refl
remove_all-keeps (id ∷ ids) r rs h = rw h.0 (remove_all-keeps ids r (remove_id id rs) h.1)

first_over-apart :
    (k : ℕ) (r : Recent) (rs : List Recent)
    → All (λ s. bytes_eq s.id r.id ≡ false) rs
    → All (λ id. bytes_eq r.id id ≡ false) (first_over k rs)
first_over-apart zero r rs h = tt
first_over-apart (suc k) r [] h = tt
first_over-apart (suc k) r (s ∷ rs) h = elim (Bool-cases s.is_over) [
  | inl is ↦ rw is (
    ground (arith, h.0, bytes_eq_iff r.id s.id, bytes_eq_iff s.id r.id),
    first_over-apart k r rs h.1,
  )
  | inr isnt ↦ rw isnt (first_over-apart (suc k) r rs h.1)
]

remove_all-first_over :
    (k : ℕ) (rs : List Recent)
    → HasKeysOnce rs
    → remove_all (first_over k rs) rs ≡ without_first k rs
unfolding remove_all
remove_all-first_over zero rs h = refl
remove_all-first_over (suc k) [] h = refl
remove_all-first_over (suc k) (r ∷ rs) h = elim (Bool-cases r.is_over) [
  | inl is ↦
      let ids : first_over (suc k) (r ∷ rs) ≡ r.id ∷ first_over k rs = rw is in
      let kept : without_first (suc k) (r ∷ rs) ≡ without_first k rs = rw is in
      let own : remove_id r.id (r ∷ rs) ≡ rs = remove_id-own r rs ∙ remove_id-apart r.id rs h.0 in
      ap (λ ids. remove_all ids (r ∷ rs)) ids
      ∙ ap (remove_all (first_over k rs)) own
      ∙ remove_all-first_over k rs h.1
      ∙ sym kept
  | inr isnt ↦ simp isnt (
      remove_all-keeps (first_over (suc k) rs) r rs (first_over-apart (suc k) r rs h.0)
      ∙ ap (r ∷◌) (remove_all-first_over (suc k) rs h.1))
]

make_room-without :
    (rs : List Recent)
    → HasKeysOnce rs
    → make_room rs ≡ without_first (length rs + 1 - max_recent_executions) rs
unfolding make_room
make_room-without rs h = elim (Bool-cases (leb max_recent_executions (length rs))) [
  | inl is ↦
      let k = length rs - max_recent_executions in
      let count : length rs + 1 - max_recent_executions ≡ suc k = ground (arith, is) in
      let ids = collect-first_over (length rs) k [] rs (ground (arith, is)) in
      rw (is, ids, count) (remove_all-first_over (suc k) rs h)
  | inr isnt ↦
      let count : length rs + 1 - max_recent_executions ≡ 0 = ground (arith, isnt) in
      rw (isnt, count)
]

-- Where the executions in memory, one to a key, are at the limit, making room removes terminal ones
-- only, so that every other one stays, in order; it removes one more than there are above the limit,
-- or all the terminal ones if these are fewer; and below the limit it removes none.
pub make_room-exact :
    (rs : List Recent)
    → HasKeysOnce rs
    → (not_over (make_room rs) ≡ not_over rs)
      × (length (make_room rs)
          ≡ length rs - min (length rs + 1 - max_recent_executions) (length (over rs)))
make_room-exact rs h =
    let e = make_room-without rs h in
    rw e (
      without_first-not_over (length rs + 1 - max_recent_executions) rs,
      length-without_first (length rs + 1 - max_recent_executions) rs,
    )
