-- ===== src/Runner/Capture/Retained.antt =====
-- crates/eggwork-runner/src/lib.rs, `BoundedCapture`: what a stream of reads leaves.
use eggwork.Prelude.{
  ℕ, ◌+◌, ◌-◌, ◌≤◌, ◌≡◌, sym, ap, ◌∙◌, List, [], ◌∷◌, ◌++◌, arith, min, u64_max, saturating_add,
  length, length-append,
}
use eggwork.Prelude.Slices.{
  take, drop, last_n, append_nil, append_assoc, take-append-drop, length-take, length-drop,
  take_all, drop_all,
}
use eggwork.Prelude.Bytes.{Bytes}
use eggwork.Runner.Capture.{
  BoundedCapture, no_capture, head_limit, tail_limit, fill_head, fill_tail, push, push_all,
}
use eggwork.Runner.Capture.Window.{head_of, tail_of, fill_head-window, fill_tail-window}

-- The capture of a stream: the first bytes, the last bytes of the others, and the counts.
abbrev pub retained : ℕ → Bytes → BoundedCapture
retained limit pushed =
    let head = head_of (head_limit limit) pushed in
    let tail = tail_of (head_limit limit) (tail_limit limit) pushed in
    let total = min (length pushed) u64_max in
    record {
      head = head;
      tail = tail;
      total_bytes = total;
      omitted_bytes = total - (length head + length tail);
    }

-- All the bytes of the reads.
abbrev pub concat : List Bytes → Bytes
concat [] = []
concat (chunk ∷ chunks) = chunk ++ concat chunks

total_capped :
    (pushed bytes : Bytes)
    → saturating_add (min (length pushed) u64_max) (length bytes)
      ≡ min (length (pushed ++ bytes)) u64_max
total_capped pushed bytes = ground (arith, length-append pushed bytes)

pub window_moves :
    (heads tails : ℕ) (pushed bytes : Bytes)
    → fill_tail tails (tail_of heads tails pushed) (fill_head heads (head_of heads pushed) bytes).1
      ≡ tail_of heads tails (pushed ++ bytes)
window_moves heads tails pushed bytes =
    fill_tail-window tails (drop heads pushed) (fill_head heads (head_of heads pushed) bytes).1
    ∙ ap (last_n tails) (fill_head-window heads pushed bytes).1

push-retained :
    (limit : ℕ) (pushed bytes : Bytes)
    → push limit bytes (retained limit pushed) ≡ retained limit (pushed ++ bytes)
unfolding push
push-retained limit pushed bytes = rw (
  (fill_head-window (head_limit limit) pushed bytes).0,
  window_moves (head_limit limit) (tail_limit limit) pushed bytes,
  total_capped pushed bytes,
)

push_all_from :
    (limit : ℕ) (pushed : Bytes) (chunks : List Bytes)
    → push_all limit chunks (retained limit pushed) ≡ retained limit (pushed ++ concat chunks)
unfolding push_all
push_all_from limit pushed [] = ap (retained limit) (sym (append_nil pushed))
push_all_from limit pushed (chunk ∷ chunks) =
    ap (push_all limit chunks) (push-retained limit pushed chunk)
    ∙ push_all_from limit (pushed ++ chunk) chunks
    ∙ ap (retained limit) (append_assoc pushed chunk (concat chunks))

take-nil : (n : ℕ) → take {A = ℕ} n [] ≡ []
take-nil n = take_all n [] (omega arith)

drop-nil : (n : ℕ) → drop {A = ℕ} n [] ≡ []
drop-nil n = drop_all n [] (omega arith)

retained_empty : (limit : ℕ) → retained limit [] ≡ no_capture
retained_empty limit =
    rw (take-nil (head_limit limit), drop-nil (head_limit limit), drop-nil (0 - tail_limit limit))

-- However a stream is cut into reads, its capture holds its first bytes, up to half of the limit
-- rounded up, the last of the others, up to the rest of the limit, the number of all its bytes,
-- capped at the largest `u64`, and how many of these it does not hold.
pub push_all-retained :
    (limit : ℕ) (chunks : List Bytes)
    → push_all limit chunks no_capture ≡ retained limit (concat chunks)
push_all-retained limit chunks =
    ap (push_all limit chunks) (sym (retained_empty limit)) ∙ push_all_from limit [] chunks

-- While a stream has no more than the largest `u64` of bytes, its capture's head and tail are its
-- beginning and its end, what lies between is as long as the capture says it omits, and the two
-- together are within the limit.
push_all-exact :
    (limit : ℕ) (chunks : List Bytes)
    → length (concat chunks) ≤ u64_max
    → (omitted : Bytes) × (concat chunks
        ≡ (push_all limit chunks no_capture).head
          ++ (omitted ++ (push_all limit chunks no_capture).tail))
      × (length omitted ≡ (push_all limit chunks no_capture).omitted_bytes)
      × (length (push_all limit chunks no_capture).head
            + length (push_all limit chunks no_capture).tail
          ≤ limit)
push_all-exact limit chunks small =
    rw (push_all-retained limit chunks) (exact limit (concat chunks) small)
  where
    exact :
        (limit : ℕ) (pushed : Bytes)
        → length pushed ≤ u64_max
        → (omitted : Bytes) × (pushed
            ≡ (retained limit pushed).head ++ (omitted ++ (retained limit pushed).tail))
          × (length omitted ≡ (retained limit pushed).omitted_bytes)
          × (length (retained limit pushed).head + length (retained limit pushed).tail ≤ limit)
    exact limit pushed small =
        let heads = head_limit limit in
        let tails = tail_limit limit in
        let others = drop heads pushed in
        let n = length others - tails in
        let front = length-take heads pushed in
        let back = length-drop n others in
        let all = length-drop heads pushed in
        let middle = length-take n others in
        (
          take n others,
          sym (
              ap (take heads pushed ++◌) (take-append-drop n others)
              ∙ take-append-drop heads pushed),
          omega (arith, front, back, all, middle),
          omega (arith, front, back, all, middle),
        )
