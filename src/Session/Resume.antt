-- ===== src/Session/Resume.antt =====
-- A client that attaches again goes on where it was.
use mathlib.Core.List.{append_assoc, append-nil}
use shelly.Prelude.{
  ℕ, ◌+◌, ◌-◌, ◌^◌, ◌≤◌, ◌<◌, ◌≡◌, refl, sym, ap, ◌∙◌, subst, some, List, [], ◌∷◌, ◌++◌, arith,
  length, take, drop, length-append, length-drop, take-append-drop, le→leb,
}
use shelly.Ring.{push, replay_from, snapshot, saturating_add, new}
use shelly.Ring.Window.{Holds, new-Holds, push-Holds, replay_from-Holds, capacity-push}
use shelly.Session.Output.{
  Terminal, OutputSession, record_output, attach_bytes, recovered, known_last_line,
}
use shelly.Session.Sending.{outputs, outputs-show_output, saturating_add-exact}

-- One read of the terminal, with the readings of the clock, and where the deque wraps.
pub record Read : Type 0 where
  pub cut : ℕ
  pub at : ℕ
  pub now : ℕ
  pub bytes : List ℕ

abbrev pub bytes_of : List Read → List ℕ
bytes_of [] = []
bytes_of (r ∷ reads) = r.bytes ++ bytes_of reads

-- The messages that go on from `start`: each has the number behind its last byte.
abbrev pub numbered : ℕ → List Read → List (ℕ × List ℕ)
numbered start [] = []
numbered start (r ∷ reads) =
    (start + length r.bytes, r.bytes) ∷ numbered (start + length r.bytes) reads

module _ {T : Type 0} (term : Terminal T) where
  -- The reads one after the other.
  unfoldable pub record_all : List Read → OutputSession T → OutputSession T
  unfolding record_output
  record_all [] s = s
  record_all (r ∷ reads) s = record_all reads (record_output term r.cut r.at r.now r.bytes s)

  -- What follows from the numbers that the ring holds.
  record_output-Holds :
      (r : Read) (all : List ℕ) (s : OutputSession T)
      → Holds all s.ring
      → length all + length r.bytes < 2 ^ 64
      → Holds (all ++ r.bytes) (record_output term r.cut r.at r.now r.bytes s).ring
        × (outputs (record_output term r.cut r.at r.now r.bytes s).shown.sent
            ≡ outputs s.shown.sent ++ (length all + length r.bytes, r.bytes) ∷ [])
  unfolding record_output
  record_output-Holds r all s h small =
      let (first, holds) = push-Holds all r.bytes s.ring h small in
      let line = known_last_line term s.shown.command_kind (
        recovered term (term.ingest r.bytes s.terminal).0 (snapshot r.cut (push s.ring r.bytes).0).1
          (term.ingest r.bytes s.terminal).1) in
      let numbers : saturating_add (push s.ring r.bytes).1 (length r.bytes)
          ≡ length all + length r.bytes =
        rw first (saturating_add-exact (length all) (length r.bytes) small) in
      (
        holds,
        outputs-show_output term r.at r.now line.0
              (saturating_add (push s.ring r.bytes).1 (length r.bytes)) r.bytes s.shown
            ∙ ap (λ seq. outputs s.shown.sent ++ (seq, r.bytes) ∷ []) numbers,
      )

  pub record_all-Holds :
      (reads : List Read) (all : List ℕ) (s : OutputSession T)
      → Holds all s.ring
      → length all + length (bytes_of reads) < 2 ^ 64
      → Holds (all ++ bytes_of reads) (record_all reads s).ring
        × (outputs (record_all reads s).shown.sent
            ≡ outputs s.shown.sent ++ numbered (length all) reads)
  unfolding record_all
  record_all-Holds [] all s h small =
      (rw (append-nil all) h, sym (append-nil (outputs s.shown.sent)))
  record_all-Holds (r ∷ reads) all s h small =
      let sizes = length-append r.bytes (bytes_of reads) in
      let longer = length-append all r.bytes in
      let one = record_output-Holds r all s h (omega (arith, sizes)) in
      let next : OutputSession T = record_output term r.cut r.at r.now r.bytes s in
      let rest =
        record_all-Holds reads (all ++ r.bytes) next one.0 (omega (arith, sizes, longer)) in
      (
        subst (λ whole. Holds whole (record_all reads next).ring)
            (append_assoc all r.bytes (bytes_of reads)) rest.0,
        rest.1
            ∙ (ap (λ sent. sent ++ numbered (length (all ++ r.bytes)) reads) one.1
                ∙ (append_assoc (outputs s.shown.sent) ((length all + length r.bytes, r.bytes) ∷ [])
                      (numbered (length (all ++ r.bytes)) reads)
                    ∙ ap
                        (λ n.
                          outputs s.shown.sent
                          ++ (length all + length r.bytes, r.bytes) ∷ numbered n reads)
                        longer)),
      )

  capacity-record_all :
      (reads : List Read) (s : OutputSession T)
      → (record_all reads s).ring.capacity ≡ s.ring.capacity
  unfolding record_all record_output
  capacity-record_all [] s = refl
  capacity-record_all (r ∷ reads) s =
      capacity-record_all reads (record_output term r.cut r.at r.now r.bytes s)
      ∙ capacity-push s.ring r.bytes

  attach_bytes-Holds :
      (cut seq : ℕ) (all : List ℕ) (s : OutputSession T)
      → Holds all s.ring
      → length all < 2 ^ 64
      → length all - s.ring.capacity ≤ seq
      → seq ≤ length all
      → attach_bytes term cut (some seq) s ≡ ((length all, drop seq all), s)
  unfolding attach_bytes
  attach_bytes-Holds cut seq all s h small reached seen =
      let low = le→leb (length all - s.ring.capacity) seq reached in
      let high = le→leb seq (length all) seen in
      let found : replay_from cut s.ring seq ≡ some (seq, drop seq all) =
        rw (low, high) at (replay_from-Holds cut seq all s.ring h) in
      let size : seq + length (drop seq all) ≡ length all = omega (arith, length-drop seq all) in
      let end : saturating_add seq (length (drop seq all)) ≡ length all =
        saturating_add-exact seq (length (drop seq all)) (omega (arith, size)) ∙ size in
      rw (found, attach_bytes) (ap (λ n. ((n, drop seq all), s)) end)

  -- A client that has seen the output up to `seq` and attaches again loses nothing and sees nothing
  -- twice: what it is given goes on where it was, up to all that the process has written so far, and
  -- every output message from then on carries the number behind its last byte, counted on from the
  -- number that the client was given. The window still reaches back to `seq`, the client has not seen
  -- more than there is, and all the output stays below 2^64 bytes.
  pub attach_bytes_resumed :
      (before after : List Read) (cut seq capacity : ℕ) (s : OutputSession T)
      → s.ring ≡ new capacity
      → length (bytes_of before) + length (bytes_of after) < 2 ^ 64
      → length (bytes_of before) - capacity ≤ seq
      → seq ≤ length (bytes_of before)
      → (take seq (bytes_of before) ++ (attach_bytes term cut (some seq) (record_all before s)).0.1
          ≡ bytes_of before)
        × ((attach_bytes term cut (some seq) (record_all before s)).0.0 ≡ length (bytes_of before))
        × (outputs
              (record_all after
                (attach_bytes term cut (some seq) (record_all before s)).1).shown.sent
            ≡ outputs (record_all before s).shown.sent
              ++ numbered (attach_bytes term cut (some seq) (record_all before s)).0.0 after)
  attach_bytes_resumed before after cut seq capacity s fresh small reached seen = rw attached (
    take-append-drop seq (bytes_of before),
    refl,
    (record_all-Holds after (bytes_of before) (record_all before s) holds small).1,
  )
    where
      empty : Holds [] s.ring
      empty = rw fresh (new-Holds capacity)

      holds : Holds (bytes_of before) (record_all before s).ring
      holds = (record_all-Holds before [] s empty (omega arith)).0

      room : (record_all before s).ring.capacity ≡ capacity
      room = capacity-record_all before s ∙ (rw fresh (unfold new in refl))

      attached :
          attach_bytes term cut (some seq) (record_all before s)
          ≡ ((length (bytes_of before), drop seq (bytes_of before)), record_all before s)
      attached =
          attach_bytes-Holds cut seq (bytes_of before) (record_all before s) holds (omega arith)
            (omega (arith, room)) seen
