-- ===== src/Runner/Capture/Window.antt =====
-- crates/eggwork-runner/src/lib.rs, `BoundedCapture::push`: the head and the tail as two windows on
-- everything that was pushed.
use eggwork.Prelude.{
  ℕ, ◌+◌, ◌-◌, ◌≤◌, ◌≡◌, refl, sym, ap, ◌∙◌, ◌==◌, [], ◌++◌, arith, ltb, leb, min, length,
  length-append, Bool-cases, inl, inr,
}
use eggwork.Prelude.Slices.{
  take, drop, last_n, append_nil, length-take, length-drop, take_all, drop_all, drop-drop,
  take-append, drop-append,
}
use eggwork.Prelude.Bytes.{Bytes}
use eggwork.Runner.Capture.{fill_head, fill_tail}

-- What the head and the tail hold of `pushed`.
abbrev pub head_of : ℕ → Bytes → Bytes
head_of heads pushed = take heads pushed

abbrev pub tail_of : ℕ → ℕ → Bytes → Bytes
tail_of heads tails pushed = last_n tails (drop heads pushed)

take-min : (n : ℕ) (xs : Bytes) → take (min n (length xs)) xs ≡ take n xs
take-min n xs = elim (Bool-cases (leb n (length xs))) [
  | inl within ↦ let e : min n (length xs) ≡ n = ground (arith, within) in rw e
  | inr beyond ↦
      let e : min n (length xs) ≡ length xs = ground (arith, beyond) in
      rw e (take_all (length xs) xs (omega arith) ∙ sym (take_all n xs (ground (arith, beyond))))
]

drop-min : (n : ℕ) (xs : Bytes) → drop (min n (length xs)) xs ≡ drop n xs
drop-min n xs = elim (Bool-cases (leb n (length xs))) [
  | inl within ↦ let e : min n (length xs) ≡ n = ground (arith, within) in rw e
  | inr beyond ↦
      let e : min n (length xs) ≡ length xs = ground (arith, beyond) in
      rw e (drop_all (length xs) xs (omega arith) ∙ sym (drop_all n xs (ground (arith, beyond))))
]

-- The bytes that the head leaves for the tail continue what was left before.
pub fill_head-window :
    (heads : ℕ) (pushed bytes : Bytes)
    → ((fill_head heads (head_of heads pushed) bytes).0 ≡ head_of heads (pushed ++ bytes))
      × (drop heads pushed ++ (fill_head heads (head_of heads pushed) bytes).1
          ≡ drop heads (pushed ++ bytes))
unfolding fill_head
fill_head-window heads pushed bytes = elim (Bool-cases (ltb (length (take heads pushed)) heads)) [
  | inl room ↦
      let short : length pushed ≤ heads = ground (arith, room, length-take heads pushed) in
      let whole : take heads pushed ≡ pushed = take_all heads pushed short in
      let gone : drop heads pushed ≡ [] = drop_all heads pushed short in
      let heads' = take-append heads pushed bytes in
      let rests' = drop-append heads pushed bytes in
      rw (room, whole)
        (
          ap (pushed ++◌) (take-min (heads - length pushed) bytes) ∙ sym (rw whole at heads'),
          rw gone (drop-min (heads - length pushed) bytes ∙ sym (rw gone at rests')),
        )
  | inr full ↦
      let long : heads ≤ length pushed = ground (arith, full, length-take heads pushed) in
      let none_left : heads - length pushed ≡ 0 = omega arith in
      let heads' = take-append heads pushed bytes in
      let rests' = drop-append heads pushed bytes in
      rw full (
        sym ((rw none_left at heads') ∙ append_nil (take heads pushed)),
        sym (rw none_left at rests'),
      )
]

-- Where the window on all the bytes begins in the old ones and in the new.
last_n-append :
    (n i j : ℕ) (old remaining : Bytes)
    → length old + length remaining - n ≡ i
    → i - length old ≡ j
    → last_n n (old ++ remaining) ≡ drop i old ++ drop j remaining
last_n-append n i j old remaining first second =
    let whole = drop-append i old remaining in
    rw (length-append old remaining, first) (rw second at whole)

-- The four branches keep the last bytes of all that the head left.
pub fill_tail-window :
    (tails : ℕ) (old remaining : Bytes)
    → fill_tail tails (last_n tails old) remaining ≡ last_n tails (old ++ remaining)
unfolding fill_tail
fill_tail-window tails old remaining = elim (Bool-cases (tails == 0)) [
  | inl nothing ↦
      let i = length old + length remaining in
      let window =
        last_n-append tails i (length remaining) old remaining (ground (arith, nothing))
          (omega arith) in
      rw nothing (
        drop_all (length old - tails) old (ground (arith, nothing))
        ∙ sym (
            window
            ∙ rw (drop_all i old (omega arith))
                (drop_all (length remaining) remaining (omega arith))))
  | inr some_tail ↦ elim (Bool-cases (leb tails (length remaining))) [
    | inl long ↦
        let i = length old + length remaining - tails in
        let window =
          last_n-append tails i (length remaining - tails) old remaining refl
            (ground (arith, long)) in
        rw (some_tail, long) (sym (window ∙ rw (drop_all i old (ground (arith, long)))))
    | inr short ↦ elim (Bool-cases (leb (length (last_n tails old) + length remaining) tails)) [
      | inl fits ↦
          let kept = length-drop (length old - tails) old in
          let window =
            last_n-append tails (length old - tails) 0 old remaining
              (ground (arith, fits, kept, short)) (omega arith) in
          rw (some_tail, short, fits) (sym window)
      | inr over ↦
          let kept = length-drop (length old - tails) old in
          let n = length (last_n tails old) - (tails - length remaining) in
          let window =
            last_n-append tails (length old - tails + n) 0 old remaining
              (ground (arith, over, kept, short)) (ground (arith, over, kept, short)) in
          rw (some_tail, short, over)
            (ap (◌++ remaining) (drop-drop n (length old - tails) old) ∙ sym window)
    ]
  ]
]
