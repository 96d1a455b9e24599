-- ===== src/Ring/Window.antt =====
-- The window against the whole stream of bytes that was pushed.
use shelly.Prelude.{
  ℕ, zero, suc, ◌+◌, ◌-◌, ◌^◌, ◌≤◌, ◌<◌, ◌≡◌, refl, sym, ap, ◌∙◌, List, [], ◌∷◌, ◌++◌, none, some,
  arith, ltb, leb, length, take, drop, concat, ◌&&◌, if◌then◌else◌, length-append, length-drop,
  drop_all, drop-append, drop-drop, take-append-drop, inl, inr, Bool-cases, ltb→lt, ltb-false→le,
  le→leb,
}
use mathlib.Core.List.{append_assoc, append-nil}
use mathlib.Core.Path.{ap₂}
use native.Mathlib.Decide.{dec_le}
use shelly.Ring.{
  checked_add, PtyRingBuffer, new, push, append_window, push_bytes, replay_from, snapshot, u64_max,
}

-- The last `n` bytes.
abbrev pub suffix : ℕ → List ℕ → List ℕ
suffix n xs = drop (length xs - n) xs

-- The buffer holds the end of the stream `all`, as much as fits, under its sequence numbers.
pub record Holds (all : List ℕ) (r : PtyRingBuffer) : Type 0 where
  pub next : r.next_seq ≡ length all
  pub window : r.bytes ≡ suffix r.capacity all
  pub start : r.start_seq ≡ length all - r.capacity

drop_nil : (n : ℕ) → ◌≡◌ {A = List ℕ} [] (drop n [])
drop_nil zero = refl
drop_nil (suc n) = refl

pub new-Holds : (capacity : ℕ) → Holds [] (new capacity)
unfolding new
new-Holds capacity = record { next = refl; window = drop_nil (0 - capacity); start = omega arith }

-- What `push` keeps of a chunk is its suffix.
kept-suffix :
    (c : ℕ) (ys : List ℕ)
    → (if ltb c (length ys) then drop (length ys - c) ys else ys) ≡ suffix c ys
kept-suffix c ys = elim (Bool-cases (ltb c (length ys))) [
  | inl more ↦ rw more
  | inr fits ↦
      let e : length ys - c ≡ 0 = omega (arith, ltb-false→le c (length ys) fits) in rw (fits, e)
]

suffix-append :
    (c : ℕ) (xs ys : List ℕ)
    → drop (length (suffix c xs) + length (suffix c ys) - c) (suffix c xs) ++ suffix c ys
      ≡ suffix c (xs ++ ys)
suffix-append c xs ys =
    rw
      (
        length-append xs ys,
        drop-append (length xs + length ys - c) xs ys,
        drop-drop (length (suffix c xs) + length (suffix c ys) - c) (length xs - c) xs,
      )
      (ap₂ ◌++◌ front back)
  where
    sizes :
        (length (suffix c xs) ≡ length xs - (length xs - c))
        × (length (suffix c ys) ≡ length ys - (length ys - c))
    sizes = (length-drop (length xs - c) xs, length-drop (length ys - c) ys)

    front :
        drop (length xs - c + (length (suffix c xs) + length (suffix c ys) - c)) xs
        ≡ drop (length xs + length ys - c) xs
    front = elim (dec_le c (length ys)) [
      | yes big ↦ drop_all _ xs (omega (arith, sizes)) ∙ sym (drop_all _ xs (omega arith))
      | no small ↦ ap (λ (n : ℕ). drop n xs) (omega (arith, sizes))
    ]

    back : suffix c ys ≡ drop (length xs + length ys - c - length xs) ys
    back = ap (λ (n : ℕ). drop n ys) (omega arith)

append_window-Holds :
    (all pushed : List ℕ) (r : PtyRingBuffer)
    → r.bytes ≡ suffix r.capacity all
    → r.next_seq ≡ length all + length pushed
    → Holds (all ++ pushed) (append_window r pushed)
unfolding append_window
append_window-Holds all pushed r window next = record {
  next = next ∙ sym (length-append all pushed);
  window = whole;
  start =
      rw (whole, next, length-drop (length (all ++ pushed) - r.capacity) (all ++ pushed))
        (omega (arith, length-append all pushed));
}
  where
    whole : (append_window r pushed).bytes ≡ suffix r.capacity (all ++ pushed)
    whole = rw (kept-suffix r.capacity pushed, window) (suffix-append r.capacity all pushed)

push_bytes-Holds :
    (all pushed : List ℕ) (r : PtyRingBuffer)
    → Holds all r
    → length all + length pushed < 2 ^ 64
    → Holds (all ++ pushed) (push_bytes r pushed)
unfolding push_bytes
push_bytes-Holds all [] r h small = rw append-nil h
push_bytes-Holds all (b ∷ bs) r h small =
    let fits : checked_add r.next_seq (length (b ∷ bs)) ≡ some (length all + length (b ∷ bs)) =
      rw h.next (rw (le→leb (length all + length (b ∷ bs)) u64_max (omega arith)) refl) in
    rw (fits, push_bytes)
      (append_window-Holds all (b ∷ bs) (record r { next_seq = length all + length (b ∷ bs) })
        h.window refl)

-- While the stream is shorter than 2 ^ 64 bytes, `push` answers with the position of the chunk in
-- the stream, and the buffer holds the end of the longer stream.
pub push-Holds :
    (all pushed : List ℕ) (r : PtyRingBuffer)
    → Holds all r
    → length all + length pushed < 2 ^ 64
    → ((push r pushed).1 ≡ length all) × Holds (all ++ pushed) (push r pushed).0
unfolding push
push-Holds all pushed r h small = (h.next, push_bytes-Holds all pushed r h small)

-- `push` never changes the capacity.
pub capacity-push : (r : PtyRingBuffer) (pushed : List ℕ) → (push r pushed).0.capacity ≡ r.capacity
unfolding push
capacity-push r [] = refl
capacity-push r (b ∷ bs) = ground arith

-- Successive reads of the terminal.
unfoldable pub push_all : PtyRingBuffer → List (List ℕ) → PtyRingBuffer
push_all r [] = r
push_all r (chunk ∷ chunks) = push_all (push r chunk).0 chunks

pub push_all-Holds :
    (all : List ℕ) (chunks : List (List ℕ)) (r : PtyRingBuffer)
    → Holds all r
    → length all + length (concat chunks) < 2 ^ 64
    → Holds (all ++ concat chunks) (push_all r chunks)
unfolding push_all
push_all-Holds all [] r h small = rw append-nil h
push_all-Holds all (chunk ∷ chunks) r h small = rw (← append_assoc all chunk (concat chunks)) (
    push_all-Holds (all ++ chunk) chunks (push r chunk).0
      (push-Holds all chunk r h (omega (arith, few))).1 (omega (arith, few)))
  where
    few :
        (length (all ++ chunk) ≡ length all + length chunk)
        × (length (chunk ++ concat chunks) ≡ length chunk + length (concat chunks))
    few = (length-append all chunk, length-append chunk (concat chunks))

pub capacity-push_all :
    (r : PtyRingBuffer) (chunks : List (List ℕ)) → (push_all r chunks).capacity ≡ r.capacity
unfolding push_all
capacity-push_all r [] = refl
capacity-push_all r (chunk ∷ chunks) =
    capacity-push_all (push r chunk).0 chunks ∙ capacity-push r chunk

-- Two slices, read from an offset on, are their bytes from that offset on.
drop-slices :
    (offset : ℕ) (first second : List ℕ)
    → (if ltb offset (length first)
        then drop offset first ++ second
        else drop (offset - length first) second)
      ≡ drop offset (first ++ second)
drop-slices offset first second = elim (Bool-cases (ltb offset (length first))) [
  | inl inside ↦
      let e : offset - length first ≡ 0 = omega (arith, ltb→lt _ _ inside) in
      rw (inside, drop-append offset first second, e)
  | inr past ↦
      rw (past, drop-append offset first second, drop_all offset first (ltb-false→le _ _ past))
]

-- The answer to a replay, whether or not the sequence number lies in the window.
pub replay_from-Holds :
    (cut seq : ℕ) (all : List ℕ) (r : PtyRingBuffer)
    → Holds all r
    → replay_from cut r seq ≡ (
        if leb (length all - r.capacity) seq && leb seq (length all)
        then some (seq, drop seq all)
        else none)
unfolding replay_from
replay_from-Holds cut seq all r h =
    rw
      (
        drop-slices (seq - r.start_seq) (take cut r.bytes) (drop cut r.bytes),
        take-append-drop cut r.bytes,
        h.window,
        drop-drop (seq - r.start_seq) (length all - r.capacity) all,
        h.start,
        h.next,
      )
      (ground (arith, whole))
  where
    whole :
        length all - r.capacity ≤ seq
        → drop (length all - r.capacity + (seq - (length all - r.capacity))) all ≡ drop seq all
    whole le = ap (λ (n : ℕ). drop n all) (omega arith)

push_all-new-Holds :
    (capacity : ℕ) (chunks : List (List ℕ))
    → length (concat chunks) < 2 ^ 64
    → Holds (concat chunks) (push_all (new capacity) chunks)
push_all-new-Holds capacity chunks small =
    push_all-Holds [] chunks (new capacity) (new-Holds capacity) (omega arith)

capacity-push_all-new :
    (capacity : ℕ) (chunks : List (List ℕ)) → (push_all (new capacity) chunks).capacity ≡ capacity
unfolding new
capacity-push_all-new capacity chunks = capacity-push_all (new capacity) chunks

-- Whatever was pushed, in whatever chunks, a replay from a position that the window reaches back to
-- gives the stream from there on, and a replay from any other position is refused.
pub replay_from-push_all :
    (capacity cut seq : ℕ) (chunks : List (List ℕ))
    → length (concat chunks) < 2 ^ 64
    → replay_from cut (push_all (new capacity) chunks) seq ≡ (
        if leb (length (concat chunks) - capacity) seq && leb seq (length (concat chunks))
        then some (seq, drop seq (concat chunks))
        else none)
unfolding push_all
replay_from-push_all capacity cut seq chunks small = rw (capacity-push_all-new capacity chunks) at (
    replay_from-Holds cut seq (concat chunks) (push_all (new capacity) chunks)
      (push_all-new-Holds capacity chunks small))

snapshot-Holds :
    {all : List ℕ} {r : PtyRingBuffer} (cut : ℕ)
    → Holds all r
    → snapshot cut r ≡ (length all - r.capacity, suffix r.capacity all)
unfolding snapshot
snapshot-Holds {all} {r} cut h = rw (take-append-drop cut r.bytes, h.window, h.start)

-- The snapshot is the end of the stream, as much as the capacity allows, and where it starts.
snapshot-push_all :
    (capacity cut : ℕ) (chunks : List (List ℕ))
    → length (concat chunks) < 2 ^ 64
    → snapshot cut (push_all (new capacity) chunks)
      ≡ (length (concat chunks) - capacity, suffix capacity (concat chunks))
unfolding push_all
snapshot-push_all capacity cut chunks small =
    rw (capacity-push_all-new capacity chunks) at
      (snapshot-Holds cut (push_all-new-Holds capacity chunks small))
