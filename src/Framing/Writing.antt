-- ===== src/Framing/Writing.antt =====
-- `write_framed` on a writer that takes as much of the buffers as it likes.
use shelly.Prelude.{
  ℕ, zero, suc, ◌+◌, ◌-◌, ◌≤◌, ◌<◌, ◌≡◌, refl, sym, ap, ◌∙◌, inl, inr, List, ◌++◌, arith, ltb,
  length, take, drop, concat, Result, ok, err, length-append, length-drop, take_all, drop_all,
  drop-append, take-add, Bool-cases, ltb→lt, ltb-false→le, le→ltb_false,
}
use mathlib.Core.List.{append_assoc, append-nil}
use shelly.Framing.Codec.{Serializer, max_frame_len, to_be_bytes, encode_frame}
use shelly.Framing.RoundTrip.{length-to_be_bytes, encode_frame-eq-ok}
use shelly.Prelude.Io.{Io}
use shelly.Framing.Stream.{
  AsyncWrite, WriteFrameError, WriteError, io, write_zero, write_length, write_payload, buffers,
  after_write, write_failed, write_chunks, write_framed,
}

-- What is relied on of a writer: of the buffers' bytes it takes some from the front, and says how
-- many; or it fails and takes none.
abbrev pub Took : {W IoError : Type 0} → (W → List ℕ) → List ℕ → W → Result IoError ℕ × W → Type 0
Took written bytes w (ok n, w') = (n ≤ length bytes) × (written w' ≡ written w ++ take n bytes)
Took written bytes w (err e, w') = written w' ≡ written w

abbrev pub Writes : {W IoError : Type 0} → AsyncWrite W IoError → (W → List ℕ) → Type 0
Writes {W} writer written =
    (bufs : List (List ℕ)) (w : W) → Took written (concat bufs) w (writer.write_vectored bufs w)

-- How a write of a frame ends, `w` being the writer before. On success the whole frame is written.
-- On an error in the prefix or in the payload, that much of the frame is.
abbrev pub Ends :
    {W IoError E : Type 0}
    → (W → List ℕ)
    → List ℕ
    → W
    → Result (WriteFrameError IoError E) (Unit {0}) × W
    → Type 0
Ends written frame w (ok _, w') = written w' ≡ written w ++ frame
Ends written frame w (err (write_length e), w') =
    (k : ℕ) × (k < 4) × (written w' ≡ written w ++ take k frame)
Ends written frame w (err (write_payload e), w') =
    (k : ℕ) × (4 ≤ k) × (k < length frame) × (written w' ≡ written w ++ take k frame)
Ends written frame w (err _, w') = ⊥

-- The buffers of a round hold what is left of the frame.
concat-buffers :
    (prefix payload : List ℕ) (k : ℕ)
    → concat (buffers prefix payload k) ≡ drop k (prefix ++ payload)
unfolding buffers
concat-buffers prefix payload k = elim (Bool-cases (ltb k (length prefix))) [
  | inl early ↦
      let e : k - length prefix ≡ 0 = omega (arith, ltb→lt _ _ early) in
      rw (early, drop-append k prefix payload, e, append-nil)
  | inr late ↦
      rw (late, drop-append k prefix payload, drop_all k prefix (ltb-false→le _ _ late), append-nil)
]

written_all :
    {W : Type 0} (written : W → List ℕ) (frame : List ℕ) (k : ℕ) (start w : W)
    → length frame ≤ k
    → written w ≡ written start ++ take k frame
    → written w ≡ written start ++ frame
written_all written frame k start w all so_far =
    so_far ∙ ap (◌++◌ (written start)) (take_all k frame all)

module _ {W IoError : Type 0} (E : Type 0) (written : W → List ℕ) (prefix payload : List ℕ)
    (four : length prefix ≡ 4) where
  -- An error behind the first `k` bytes of the frame.
  write_failed-Ends :
      (k : ℕ) (start w : W) (e : WriteError IoError)
      → k < length (prefix ++ payload)
      → written w ≡ written start ++ take k (prefix ++ payload)
      → Ends {E = E} written (prefix ++ payload) start (err (write_failed prefix k e), w)
  unfolding write_failed
  write_failed-Ends k start w e less so_far = elim (Bool-cases (ltb k (length prefix))) [
    | inl early ↦ rw early (k, omega (arith, ltb→lt _ _ early), so_far)
    | inr late ↦ rw late (k, omega (arith, ltb-false→le _ _ late), less, so_far)
  ]

  after_write-Ends :
      (next : ℕ → Io W (WriteFrameError IoError E) (Unit {0})) (k : ℕ) (start w : W)
      (taken : Result IoError ℕ × W)
      → k < length (prefix ++ payload)
      → written w ≡ written start ++ take k (prefix ++ payload)
      → Took written (drop k (prefix ++ payload)) w taken
      → ((j : ℕ) (w' : W)
          → k < j
          → j ≤ length (prefix ++ payload)
          → written w' ≡ written start ++ take j (prefix ++ payload)
          → Ends {E = E} written (prefix ++ payload) start (next j w'))
      → Ends {E = E} written (prefix ++ payload) start (after_write next prefix k taken)
  unfolding after_write
  after_write-Ends next k start w (ok zero, w') less so_far (_, same) go_on =
      write_failed-Ends k start w' write_zero less (same ∙ append-nil (written w) ∙ so_far)
  after_write-Ends next k start w (ok (suc n), w') less so_far (few, more) go_on =
      go_on (k + suc n) w' (omega arith) (omega (arith, length-drop k (prefix ++ payload))) (
        more
        ∙ ap (λ bytes. bytes ++ take (suc n) (drop k (prefix ++ payload))) so_far
        ∙ append_assoc (written start) (take k (prefix ++ payload)) _
        ∙ ap (◌++◌ (written start)) (take-add k (suc n) (prefix ++ payload)))
  after_write-Ends next k start w (err e, w') less so_far same go_on =
      write_failed-Ends k start w' (io e) less (same ∙ so_far)

  write_chunks-Ends :
      (writer : AsyncWrite W IoError)
      → Writes writer written
      → (fuel k : ℕ) (start w : W) → length (prefix ++ payload) ≤ k + fuel
      → k ≤ length (prefix ++ payload)
      → written w ≡ written start ++ take k (prefix ++ payload)
      → Ends {E = E} written (prefix ++ payload) start (write_chunks writer fuel prefix payload k w)
  unfolding write_chunks
  write_chunks-Ends writer writes zero k start w enough le so_far =
      written_all written (prefix ++ payload) k start w (omega arith) so_far
  write_chunks-Ends writer writes (suc fuel) k start w enough le so_far =
      let size = length-append prefix payload in
      elim (Bool-cases (ltb k (length prefix + length payload))) [
        | inr done ↦ rw done (
            written_all written (prefix ++ payload) k start w
              (omega (arith, size, ltb-false→le _ _ done)) so_far)
        | inl more ↦ rw more (
            after_write-Ends (write_chunks writer fuel prefix payload) k start w
              (writer.write_vectored (buffers prefix payload k) w)
              (omega (arith, size, ltb→lt _ _ more)) so_far
              (rw (concat-buffers prefix payload k) at (writes (buffers prefix payload k) w))
              (λ j w' lt le' so_far'.
                write_chunks-Ends writer writes fuel j start w' (omega arith) le' so_far'))
      ]

-- `write_framed` enters its loop with the prefix and the payload of the frame.
write_framed_chunks :
    {W IoError T E D : Type 0} (writer : AsyncWrite W IoError) (s : Serializer T E D) (message : T)
    (payload : List ℕ) (w : W)
    → s.encode message ≡ ok payload
    → length payload ≤ max_frame_len
    → let prefix = to_be_bytes (length payload) in
      write_framed writer s message w
      ≡ write_chunks writer (length prefix + length payload) prefix payload 0 w
unfolding write_framed
write_framed_chunks writer s message payload w e small =
    rw (e, le→ltb_false max_frame_len (length payload) small)

Ends-ok :
    {W IoError E : Type 0} (written : W → List ℕ) (frame : List ℕ) (w : W)
    (r : Result (WriteFrameError IoError E) (Unit {0}) × W)
    → Ends written frame w r
    → r.0 ≡ ok tt
    → written r.1 ≡ written w ++ frame
Ends-ok written frame w (ok _, w') ends e = ends
Ends-ok written frame w (err x, w') ends e = absurd (cc)

after_write_progress :
    {W IoError E : Type 0} (next : ℕ → Io W (WriteFrameError IoError E) (Unit {0}))
    (prefix : List ℕ) (k n : ℕ) (taken : Result IoError ℕ × W)
    → taken.0 ≡ ok (suc n)
    → after_write next prefix k taken ≡ next (k + suc n) taken.1
unfolding after_write
after_write_progress next prefix k n (ok zero, w) e = absurd (ground arith)
after_write_progress next prefix k n (ok (suc m), w) e = let same : m ≡ n = ground arith in rw same
after_write_progress next prefix k n (err x, w) e = absurd (cc)

-- The loop, with a writer that always takes something.
write_chunks_total :
    {W IoError E : Type 0} (writer : AsyncWrite W IoError)
    → ((bufs : List (List ℕ)) (v : W)
        → 0 < length (concat bufs)
        → (n : ℕ) × ((writer.write_vectored bufs v).0 ≡ ok (suc n)))
    → (prefix payload : List ℕ) (fuel k : ℕ) (w : W) → length (prefix ++ payload) ≤ k + fuel
    → (write_chunks writer {E = E} fuel prefix payload k w).0 ≡ ok tt
unfolding write_chunks
write_chunks_total writer progress prefix payload zero k w enough = refl
write_chunks_total writer progress prefix payload (suc fuel) k w enough =
    elim (Bool-cases (ltb k (length prefix + length payload))) [
      | inr done ↦ rw done
      | inl more ↦
          let (n, moved) = progress (buffers prefix payload k) w (
            rw (concat-buffers prefix payload k) (
              omega (
                arith,
                length-drop k (prefix ++ payload),
                length-append prefix payload,
                ltb→lt _ _ more,
              ))) in
          rw more (
            ap (λ r. r.0)
              (after_write_progress (write_chunks writer fuel prefix payload) prefix k n _ moved)
            ∙ write_chunks_total writer progress prefix payload fuel (k + suc n) _ (omega arith))
    ]

module _ {W IoError : Type 0} (writer : AsyncWrite W IoError) (written : W → List ℕ)
    (writes : Writes writer written) where
  -- However the writer splits the work, `write_framed` either writes the bytes of `encode_frame`, all
  -- of them and nothing else, or reports an error with the place in the frame where it stopped.
  pub write_framed-Ends :
      {T E D : Type 0} (s : Serializer T E D) (message : T) (frame : List ℕ) (w : W)
      → encode_frame s message ≡ ok frame
      → Ends written frame w (write_framed writer s message w)
  write_framed-Ends {E = E} s message frame w h =
      let (payload, e, small, shape) = encode_frame-eq-ok s message h in
      let prefix = to_be_bytes (length payload) in
      rw (shape, write_framed_chunks writer s message payload w e small)
        (write_chunks-Ends E written prefix payload (length-to_be_bytes (length payload)) writer
          writes _ 0 w w (omega (arith, length-append prefix payload)) (omega arith)
          (sym (append-nil (written w))))

  -- With a writer that takes a byte at least of any bytes that it is given, the write succeeds.
  write_framed_total :
      {T E D : Type 0} (s : Serializer T E D) (message : T) (frame : List ℕ) (w : W)
      → ((bufs : List (List ℕ)) (v : W)
          → 0 < length (concat bufs)
          → (n : ℕ) × ((writer.write_vectored bufs v).0 ≡ ok (suc n)))
      → encode_frame s message ≡ ok frame
      → ((write_framed writer s message w).0 ≡ ok tt)
        × (written (write_framed writer s message w).1 ≡ written w ++ frame)
  write_framed_total s message frame w progress h =
      let (payload, e, small, shape) = encode_frame-eq-ok s message h in
      let prefix = to_be_bytes (length payload) in
      let done = write_framed_chunks writer s message payload w e small in
      let fine =
        ap (λ r. r.0) done
        ∙ write_chunks_total writer progress prefix payload _ 0 w
            (omega (arith, length-append prefix payload)) in
      (fine, Ends-ok written frame w _ (write_framed-Ends s message frame w h) fine)
