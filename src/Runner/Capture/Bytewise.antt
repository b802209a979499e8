-- ===== src/Runner/Capture/Bytewise.antt =====
-- crates/eggwork-runner/src/lib.rs: `push` against `push_per_byte`, the loop that it replaced.
use eggwork.Prelude.{
  ℕ, ◌+◌, ◌-◌, ◌≤◌, ◌≡◌, refl, sym, ap, ◌∙◌, ◌==◌, true, false, List, [], ◌∷◌, ◌++◌, arith, ltb,
  leb, min, length, Bool-cases, inl, inr, if◌then◌else◌,
}
use eggwork.Prelude.Slices.{drop, append_nil, append_assoc, length-drop}
use eggwork.Prelude.Bytes.{Bytes}
use eggwork.Runner.Capture.{
  no_capture, head_limit, tail_limit, fill_head, fill_tail, push, push_all, push_byte, push_bytes,
  push_per_byte,
}
use eggwork.Runner.Capture.Window.{head_of, tail_of, fill_head-window}
use eggwork.Runner.Capture.Retained.{concat, window_moves, push_all-retained}

fill_tail-none : (tails : ℕ) (tail : Bytes) → length tail ≤ tails → fill_tail tails tail [] ≡ tail
unfolding fill_tail
fill_tail-none tails tail short = elim (Bool-cases (tails == 0)) [
  | inl none ↦ rw none
  | inr some ↦
      let many : leb tails 0 ≡ false = ground (arith, some) in
      let fits : leb (length tail + 0) tails ≡ true = ground (arith, short) in
      rw (some, many, fits) (append_nil tail)
]

-- A tail of one byte is replaced.
pop_single :
    (tail : Bytes) → length tail ≤ 1 → (if length tail == 1 then drop 1 tail else tail) ≡ []
pop_single [] short = refl
pop_single (x ∷ []) short = refl
pop_single (x ∷ y ∷ tail) short = ground (arith, short)

fill_tail-byte :
    (tails byte : ℕ) (tail : Bytes)
    → length tail ≤ tails
    → fill_tail tails tail (byte ∷ []) ≡ (
        if ltb 0 tails
        then (if length tail == tails then drop 1 tail else tail) ++ byte ∷ []
        else tail)
unfolding fill_tail
fill_tail-byte tails byte tail short = elim (Bool-cases (tails == 0)) [
  | inl none ↦ let off : ltb 0 tails ≡ false = ground (arith, none) in rw (none, off)
  | inr some ↦
      let on : ltb 0 tails ≡ true = ground (arith, some) in
      elim (Bool-cases (leb tails 1)) [
        | inl one ↦
            let single : tails ≡ 1 = ground (arith, some, one) in
            let brief : length tail ≤ 1 = ground (arith, single, short) in
            rw (some, on, one, single, pop_single tail brief)
        | inr many ↦ elim (Bool-cases (length tail == tails)) [
          | inl full ↦
              let over : leb (length tail + 1) tails ≡ false = ground (arith, full, some) in
              let gone : length tail - (tails - 1) ≡ 1 = ground (arith, full, some) in
              rw (some, on, many, full, over, gone)
          | inr room ↦
              let fits : leb (length tail + 1) tails ≡ true = ground (arith, room, short) in
              rw (some, on, many, room, fits)
        ]
      ]
]

-- One byte of the loop is one byte in bulk.
push_byte-fill :
    (heads tails byte : ℕ) (head tail : Bytes)
    → length tail ≤ tails
    → push_byte heads tails byte (head, tail) ≡ (
      (fill_head heads head (byte ∷ [])).0,
      fill_tail tails tail (fill_head heads head (byte ∷ [])).1,
    )
unfolding push_byte fill_head
push_byte-fill heads tails byte head tail short = elim (Bool-cases (ltb (length head) heads)) [
  | inl room ↦
      let one : min (heads - length head) (length (byte ∷ [])) ≡ 1 = ground (arith, room) in
      rw (room, one, fill_tail-none tails tail short)
  | inr full ↦ elim (Bool-cases (ltb 0 tails)) [
    | inl on ↦ rw (full, fill_tail-byte tails byte tail short, on)
    | inr off ↦ rw (full, fill_tail-byte tails byte tail short, off)
  ]
]

-- The bytes that the capture holds after a stream.
abbrev windows : ℕ → ℕ → Bytes → Bytes × Bytes
windows heads tails pushed = (head_of heads pushed, tail_of heads tails pushed)

push_byte-windows :
    (heads tails byte : ℕ) (pushed : Bytes)
    → push_byte heads tails byte (windows heads tails pushed)
      ≡ windows heads tails (pushed ++ byte ∷ [])
push_byte-windows heads tails byte pushed =
    push_byte-fill heads tails byte (head_of heads pushed) (tail_of heads tails pushed)
      (omega (arith, length-drop (length (drop heads pushed) - tails) (drop heads pushed)))
    ∙ rw
        ((fill_head-window heads pushed (byte ∷ [])).0, window_moves heads tails pushed (byte ∷ []))

push_bytes-windows :
    (heads tails : ℕ) (pushed bytes : Bytes)
    → push_bytes heads tails bytes (windows heads tails pushed)
      ≡ windows heads tails (pushed ++ bytes)
unfolding push_bytes
push_bytes-windows heads tails pushed [] = ap (windows heads tails) (sym (append_nil pushed))
push_bytes-windows heads tails pushed (byte ∷ bytes) =
    ap (push_bytes heads tails bytes) (push_byte-windows heads tails byte pushed)
    ∙ push_bytes-windows heads tails (pushed ++ byte ∷ []) bytes
    ∙ ap (windows heads tails) (append_assoc pushed (byte ∷ []) bytes)

-- On what a stream of reads has left, one more read in bulk gives the same capture, counts included,
-- as the loop that takes the bytes one at a time.
pub push-push_per_byte :
    (limit : ℕ) (chunks : List Bytes) (bytes : Bytes)
    → push limit bytes (push_all limit chunks no_capture)
      ≡ push_per_byte limit bytes (push_all limit chunks no_capture)
unfolding push push_per_byte
push-push_per_byte limit chunks bytes =
    let pushed = concat chunks in
    let here = push_all-retained limit chunks in
    rw (
      here,
      (fill_head-window (head_limit limit) pushed bytes).0,
      window_moves (head_limit limit) (tail_limit limit) pushed bytes,
      push_bytes-windows (head_limit limit) (tail_limit limit) pushed bytes,
    )
