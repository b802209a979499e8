-- ===== src/Store/Reserve/Latest.antt =====
-- crates/eggwork-server/src/store.rs: the query for the newest generation of an execution, and how
-- the `INSERT` of `reserve` acts on the lookups by key.
use eggwork.Prelude.{
  ℕ, ◌≤◌, ◌≡◌, subst, true, false, List, [], ◌∷◌, ◌++◌, none, some, arith, ltb, Bool-cases,
  Option-cases, inl, inr, if◌then◌else◌,
}
use eggwork.Prelude.Bytes.{Bytes, bytes_eq}
use eggwork.Store.Tables.{Row, same_key, row_has, find_row, latest}

module _ {E : Type 0} where
  -- The newest row is the one that its key finds, and no row of the execution is newer.
  pub record IsNewest (id : Bytes) (rows : List (Row E)) (l : Row E) : Type 0 where
    pub found : find_row id l.generation rows ≡ some l
    pub newest : (h : ℕ) (r : Row E) → find_row id h rows ≡ some r → h ≤ l.generation

  pub latest-none :
      (id : Bytes) (rows : List (Row E)) (h : ℕ) → latest id rows ≡ none → find_row id h rows ≡ none
  unfolding latest find_row same_key
  latest-none id [] h e = ground arith
  latest-none id (x ∷ rows) h e = elim (Option-cases (latest id rows)) [
    | inl absent ↦ ground (arith, e, absent, latest-none id rows h absent)
    | inr (l, some_l) ↦ absurd (ground (arith, e, some_l))
  ]

  IsNewest-alone :
      (id : Bytes) (x : Row E) (rows : List (Row E))
      → bytes_eq id x.execution_id ≡ true
      → latest id rows ≡ none
      → IsNewest id (x ∷ rows) x
  unfolding find_row same_key
  IsNewest-alone id x rows own absent = record {
    found = ground (arith, own);
    newest = λ h r f. ground (arith, own, f, latest-none id rows h absent);
  }

  IsNewest-behind :
      (id : Bytes) (x : Row E) (rows : List (Row E)) (m : Row E)
      → bytes_eq id x.execution_id ≡ true
      → ltb x.generation m.generation ≡ true
      → IsNewest id rows m
      → IsNewest id (x ∷ rows) m
  unfolding find_row same_key
  IsNewest-behind id x rows m own older a = record {
    found = ground (arith, own, older, a.found);
    newest = λ h r f. ground (arith, own, older, f, a.newest h r);
  }

  IsNewest-ahead :
      (id : Bytes) (x : Row E) (rows : List (Row E)) (m : Row E)
      → bytes_eq id x.execution_id ≡ true
      → ltb x.generation m.generation ≡ false
      → IsNewest id rows m
      → IsNewest id (x ∷ rows) x
  unfolding find_row same_key
  IsNewest-ahead id x rows m own newer_row a = record {
    found = ground (arith, own);
    newest = λ h r f. ground (arith, own, newer_row, f, a.newest h r);
  }

  pub latest-IsNewest :
      (id : Bytes) (rows : List (Row E)) (l : Row E) → latest id rows ≡ some l → IsNewest id rows l
  unfolding latest find_row same_key
  latest-IsNewest id [] l e = cc
  latest-IsNewest id (x ∷ rows) l e = elim (Bool-cases (bytes_eq id x.execution_id)) [
    | inr other ↦
        let a = latest-IsNewest id rows l (ground (arith, e, other)) in
        record {
          found = ground (arith, other, a.found);
          newest = λ h r f. a.newest h r (ground (arith, other, f));
        }
    | inl own ↦ elim (Option-cases (latest id rows)) [
      | inl absent ↦
          let same : x ≡ l = ground (arith, e, own, absent) in
          subst (IsNewest id (x ∷ rows)) same (IsNewest-alone id x rows own absent)
      | inr (m, found) ↦ elim (Bool-cases (ltb x.generation m.generation)) [
        | inl older ↦
            let same : m ≡ l = ground (arith, e, own, found, older) in
            let a = latest-IsNewest id rows m found in
            subst (IsNewest id (x ∷ rows)) same (IsNewest-behind id x rows m own older a)
        | inr newer_row ↦
            let same : x ≡ l = ground (arith, e, own, found, newer_row) in
            let a = latest-IsNewest id rows m found in
            subst (IsNewest id (x ∷ rows)) same (IsNewest-ahead id x rows m own newer_row a)
      ]
    ]
  ]

  -- A row at the end is found where its key finds no other.
  pub find_row-append :
      (id : Bytes) (g : ℕ) (rows : List (Row E)) (x : Row E)
      → find_row id g (rows ++ x ∷ []) ≡ elim (find_row id g rows) [
        | none ↦ if row_has id g x then some x else none
        | some r ↦ some r
      ]
  unfolding find_row
  find_row-append id g [] x = ground arith
  find_row-append id g (y ∷ rows) x = ground (arith, find_row-append id g rows x)

  pub find_row-append_old :
      (id : Bytes) (g : ℕ) (rows : List (Row E)) (x r : Row E)
      → find_row id g rows ≡ some r
      → find_row id g (rows ++ x ∷ []) ≡ some r
  find_row-append_old id g rows x r found = ground (arith, find_row-append id g rows x, found)
