-- ===== src/Runner/Capture.antt =====
-- crates/eggwork-runner/src/lib.rs: `BoundedCapture`. The tail's `VecDeque` is a list.
pub mod Window
pub mod Retained
pub mod Bytewise
use Prim.Native.Nat.{◌/◌}
use eggwork.Prelude.{
  ℕ, ◌+◌, ◌-◌, ◌==◌, List, [], ◌∷◌, ◌++◌, length, leb, ltb, min, saturating_add, if◌then◌else◌,
}
use eggwork.Prelude.Slices.{take, drop}
use eggwork.Prelude.Bytes.{Bytes}

pub record BoundedCapture : Type 0 where
  pub head : Bytes
  pub tail : Bytes
  pub total_bytes : ℕ
  pub omitted_bytes : ℕ

-- `BoundedCapture::default`
abbrev pub no_capture : BoundedCapture
no_capture = record { head = []; tail = []; total_bytes = 0; omitted_bytes = 0 }

-- `limit.div_ceil(2)` and `limit.saturating_sub(head_limit)`
abbrev pub head_limit : ℕ → ℕ
head_limit limit = (limit + 1) / 2

abbrev pub tail_limit : ℕ → ℕ
tail_limit limit = limit - head_limit limit

-- What goes to the head, and what remains for the tail.
unfoldable pub fill_head : ℕ → Bytes → Bytes → Bytes × Bytes
fill_head limit head bytes =
    let taken = min (limit - length head) (length bytes) in
    if ltb (length head) limit then (head ++ take taken bytes, drop taken bytes) else (head, bytes)

-- The four branches on the tail; the subtractions do not go below 0 where they are computed.
unfoldable pub fill_tail : ℕ → Bytes → Bytes → Bytes
fill_tail limit tail remaining =
    if limit == 0
    then tail
    else if leb limit (length remaining)
    then drop (length remaining - limit) remaining
    else if leb (length tail + length remaining) limit
    then tail ++ remaining
    else let keep_from_old = limit - length remaining in
      drop (length tail - keep_from_old) tail ++ remaining

-- `BoundedCapture::push`
unfoldable pub push : ℕ → Bytes → BoundedCapture → BoundedCapture
unfolding fill_head fill_tail
push limit bytes c =
    let total = saturating_add c.total_bytes (length bytes) in
    let (head, remaining) = fill_head (head_limit limit) c.head bytes in
    let tail = fill_tail (tail_limit limit) c.tail remaining in
    record {
      head = head;
      tail = tail;
      total_bytes = total;
      omitted_bytes = total - (length head + length tail);
    }

-- The reads of one stream, in order.
unfoldable pub push_all : ℕ → List Bytes → BoundedCapture → BoundedCapture
push_all limit [] c = c
push_all limit (chunk ∷ chunks) c = push_all limit chunks (push limit chunk c)

-- One round of the loop of `push_per_byte`.
unfoldable pub push_byte : ℕ → ℕ → ℕ → Bytes × Bytes → Bytes × Bytes
push_byte heads tails byte (head, tail) =
    if ltb (length head) heads
    then (head ++ byte ∷ [], tail)
    else if ltb 0 tails
    then (head, (if length tail == tails then drop 1 tail else tail) ++ byte ∷ [])
    else (head, tail)

unfoldable pub push_bytes : ℕ → ℕ → Bytes → Bytes × Bytes → Bytes × Bytes
push_bytes heads tails [] kept = kept
push_bytes heads tails (byte ∷ bytes) kept =
    push_bytes heads tails bytes (push_byte heads tails byte kept)

-- `push_per_byte`
unfoldable pub push_per_byte : ℕ → Bytes → BoundedCapture → BoundedCapture
push_per_byte limit bytes c =
    let total = saturating_add c.total_bytes (length bytes) in
    let (head, tail) = push_bytes (head_limit limit) (tail_limit limit) bytes (c.head, c.tail) in
    record {
      head = head;
      tail = tail;
      total_bytes = total;
      omitted_bytes = total - (length head + length tail);
    }
