-- ===== src/Ring.antt =====
-- crates/daemon/src/ring.rs: the window over the bytes that a terminal session has produced.
-- The deque is the list of its bytes; `as_slices` cuts it at any place, since the source says
-- nothing of where the deque wraps.
pub mod Window
pub mod Overflow
mod Tests
use shelly.Prelude.{
  ℕ, ◌+◌, ◌-◌, ◌^◌, List, [], ◌∷◌, ◌++◌, Option, none, some, ltb, leb, length, take, drop, ◌||◌,
  if◌then◌else◌,
}

abbrev pub u64_max : ℕ
u64_max = 2 ^ 64 - 1

-- `u64::checked_add`
abbrev pub checked_add : ℕ → ℕ → Option ℕ
checked_add a b = if leb (a + b) u64_max then some (a + b) else none

-- `u64::saturating_add`
abbrev pub saturating_add : ℕ → ℕ → ℕ
saturating_add a b = if leb (a + b) u64_max then a + b else u64_max

pub record PtyRingBuffer : Type 0 where
  pub capacity : ℕ
  pub start_seq : ℕ
  pub next_seq : ℕ
  pub bytes : List ℕ

unfoldable pub new : ℕ → PtyRingBuffer
new capacity = record { capacity = capacity; start_seq = 0; next_seq = 0; bytes = [] }

-- The part of `push` behind the check of the sequence number: `next_seq` is advanced already.
append_window : PtyRingBuffer → List ℕ → PtyRingBuffer
append_window r pushed =
    let kept =
      if ltb r.capacity (length pushed) then drop (length pushed - r.capacity) pushed else pushed in
    let overflow = length r.bytes + length kept - r.capacity in
    let window = drop overflow r.bytes ++ kept in
    record r { bytes = window; start_seq = r.next_seq - length window }

poison : PtyRingBuffer → PtyRingBuffer
poison r = record r { next_seq = u64_max; start_seq = u64_max; bytes = [] }

push_bytes : PtyRingBuffer → List ℕ → PtyRingBuffer
unfolding append_window poison
push_bytes r [] = r
push_bytes r (b ∷ bs) = elim (checked_add r.next_seq (length (b ∷ bs))) [
  | none ↦ poison r
  | some next_seq ↦ append_window (record r { next_seq = next_seq }) (b ∷ bs)
]

-- The buffer afterwards, and the sequence number of the first byte pushed.
unfoldable pub push : PtyRingBuffer → List ℕ → PtyRingBuffer × ℕ
unfolding push_bytes
push r pushed = (push_bytes r pushed, r.next_seq)

-- `VecDeque::as_slices`, where the first slice has `cut` bytes.
abbrev pub as_slices : ℕ → List ℕ → List ℕ × List ℕ
as_slices cut bytes = (take cut bytes, drop cut bytes)

unfoldable pub replay_from : ℕ → PtyRingBuffer → ℕ → Option (ℕ × List ℕ)
replay_from cut r seq =
    if ltb seq r.start_seq || ltb r.next_seq seq
    then none
    else let offset = seq - r.start_seq in
      let (first, second) = as_slices cut r.bytes in
      some (
        seq,
        if ltb offset (length first)
            then drop offset first ++ second
            else drop (offset - length first) second,
      )

unfoldable pub snapshot : ℕ → PtyRingBuffer → ℕ × List ℕ
snapshot cut r = let (first, second) = as_slices cut r.bytes in (r.start_seq, first ++ second)

unfoldable pub end_seq : PtyRingBuffer → ℕ
end_seq r = r.next_seq
