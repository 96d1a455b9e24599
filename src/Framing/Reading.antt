-- ===== src/Framing/Reading.antt =====
-- `read_framed` on a reader that delivers a given stream of bytes.
use Prim.Native.Nat.{min}
use mathlib.Core.List.{append_assoc, append-nil}
use native.Mathlib.Decide.{dec_le}
use shelly.Prelude.{
  ℕ, zero, suc, ◌+◌, ◌-◌, ◌≤◌, ◌<◌, ◌≡◌, refl, sym, ap, ◌∙◌, ◌⊎◌, inl, inr, List, [], ◌++◌, arith,
  ltb, length, take, drop, ok, err, length-append, length-take, length-drop, drop-append_self,
  drop-drop, take-add, Bool-cases, ltb→lt, ltb-false→le, lt→ltb, le→ltb_false, take-take, subst,
}
use shelly.Framing.Codec.{Serializer, max_frame_len, read_chunk_len, from_be_bytes, encode_frame}
use shelly.Framing.RoundTrip.{ReadsBack, encode_frame_parts, decode_payload-ReadsBack}
use shelly.Framing.Stream.{
  AsyncRead, read_length, read_payload, too_large, read_chunks, read_framed,
}

-- What is relied on of a reader that delivers `stream r`: `read_exact` takes the bytes asked for
-- from the front, or fails where there are not so many.
pub record Reads {R IoError : Type 0} (reader : AsyncRead R IoError) (stream : R → List ℕ)
    : Type 0 where
  pub complete :
      (n : ℕ) (r : R) → n ≤ length (stream r) → (reader.read_exact n r).0 ≡ ok (take n (stream r))
  pub left :
      (n : ℕ) (r : R) → n ≤ length (stream r) → stream (reader.read_exact n r).1 ≡ drop n (stream r)
  pub ended :
      (n : ℕ) (r : R) → length (stream r) < n → (e : IoError) × ((reader.read_exact n r).0 ≡ err e)

-- One chunk of `n` bytes, and what the other rounds add behind it.
chunks_join :
    (n len : ℕ) (payload xs : List ℕ)
    → n ≤ len - length payload
    → len - length payload ≤ length xs
    → let chunk = take n xs in
      (length (payload ++ chunk) ≡ length payload + n)
      × ((payload ++ chunk) ++ take (len - length (payload ++ chunk)) (drop n xs)
          ≡ payload ++ take (len - length payload) xs)
      × (drop (len - length (payload ++ chunk)) (drop n xs) ≡ drop (len - length payload) xs)
chunks_join n len payload xs small has =
    let size : length (payload ++ take n xs) ≡ length payload + n =
      omega (arith, length-append payload (take n xs), length-take n xs) in
    let sum : n + (len - length (payload ++ take n xs)) ≡ len - length payload = omega arith in
    (
      size,
      append_assoc payload (take n xs) _
          ∙ ap (◌++◌ payload) (take-add n _ xs ∙ ap (λ (k : ℕ). take k xs) sum),
      drop-drop _ n xs ∙ ap (λ (k : ℕ). drop k xs) sum,
    )

nothing_missing :
    (len : ℕ) (payload xs : List ℕ)
    → length payload ≤ len
    → len ≤ length payload
    → (payload ≡ payload ++ take (len - length payload) xs) × (xs ≡ drop (len - length payload) xs)
nothing_missing len payload xs le ge =
    let e : len - length payload ≡ 0 = omega arith in rw e (sym (append-nil payload), refl)

module _ {R IoError : Type 0} (reader : AsyncRead R IoError) (stream : R → List ℕ)
    (reads : Reads reader stream) where
  -- The loop reads what is missing of the payload and nothing else.
  read_chunks-Reads :
      {D : Type 0} (fuel len : ℕ) (payload : List ℕ) (r : R)
      → len ≤ length payload + fuel
      → length payload ≤ len
      → len - length payload ≤ length (stream r)
      → let result = read_chunks reader {D = D} fuel len payload r in
        (result.0 ≡ ok (payload ++ take (len - length payload) (stream r)))
        × (stream result.1 ≡ drop (len - length payload) (stream r))
  unfolding read_chunks
  read_chunks-Reads zero len payload r enough le has =
      let done = nothing_missing len payload (stream r) le (omega arith) in (ap ok done.0, done.1)
  read_chunks-Reads {D} (suc fuel) len payload r enough le has =
      elim (Bool-cases (ltb (length payload) len)) [
        | inr done ↦
            let whole = nothing_missing len payload (stream r) le (ltb-false→le _ _ done) in
            rw done (ap ok whole.0, whole.1)
        | inl more ↦
            let n : ℕ = min (len - length payload) read_chunk_len in
            let some_more : length payload < len = ltb→lt _ _ more in
            let join = chunks_join n len payload (stream r) (omega arith) has in
            let left = reads.left n r (omega arith) in
            let rest =
              read_chunks-Reads fuel len (payload ++ take n (stream r)) (reader.read_exact n r).1
                (omega (arith, join.0)) (omega (arith, join.0))
                (rw left (omega (arith, join.0, length-drop n (stream r)))) in
            rw (more, reads.complete n r (omega arith))
              (rest.0 ∙ ap ok (rw left join.1), rest.1 ∙ rw left join.2)
      ]

  -- Where the stream ends before the payload, the loop fails.
  read_chunks_short :
      {D : Type 0} (fuel len : ℕ) (payload : List ℕ) (r : R)
      → len ≤ length payload + fuel
      → length payload + length (stream r) < len
      → (e : IoError) × ((read_chunks reader {D = D} fuel len payload r).0 ≡ err (read_payload e))
  unfolding read_chunks
  read_chunks_short zero len payload r enough short = absurd (omega arith)
  read_chunks_short (suc fuel) len payload r enough short =
      let n : ℕ = min (len - length payload) read_chunk_len in
      rw (lt→ltb (length payload) len (omega arith)) (elim (dec_le n (length (stream r))) [
        | no cut ↦ let (e, failed) = reads.ended n r (omega arith) in (e, rw failed)
        | yes fits ↦
            let size : length (payload ++ take n (stream r)) ≡ length payload + n =
              omega (arith, length-append payload (take n (stream r)), length-take n (stream r)) in
            rw (reads.complete n r fits) (
              read_chunks_short fuel len (payload ++ take n (stream r)) (reader.read_exact n r).1
                (omega arith) (rw (reads.left n r fits) (omega (arith, length-drop n (stream r)))))
      ])

  -- The loop as `read_framed` calls it.
  read_payload-Reads :
      {D : Type 0} (len : ℕ) (r : R)
      → len ≤ length (stream r)
      → let result = read_chunks reader {D = D} len len [] r in
        (result.0 ≡ ok (take len (stream r))) × (stream result.1 ≡ drop len (stream r))
  read_payload-Reads {D} len r has =
      let e : len - 0 ≡ len = omega arith in
      subst
        (λ n.
          ((read_chunks reader {D = D} len len [] r).0 ≡ ok (take n (stream r)))
          × (stream (read_chunks reader {D = D} len len [] r).1 ≡ drop n (stream r)))
        e (read_chunks-Reads len len [] r (omega arith) (omega arith) (omega arith))

  -- A frame at the front of the stream is read to its end, decoded to its message, and what follows
  -- it is left in the stream.
  pub read_framed-encode_frame :
      {T E D : Type 0} (s : Serializer T E D) (message : T) (frame rest : List ℕ) (r : R)
      → ReadsBack s
      → encode_frame s message ≡ ok frame
      → stream r ≡ frame ++ rest
      → let result = read_framed reader s r in (result.0 ≡ ok message) × (stream result.1 ≡ rest)
  unfolding read_framed
  read_framed-encode_frame {D} s message frame rest r back h e =
      let (payload, enc, small, size, prefix, body) = encode_frame_parts s message frame rest h in
      let long : length (stream r) ≡ length frame + length rest =
        ap length e ∙ length-append frame rest in
      let declared : from_be_bytes (take 4 (stream r)) ≡ length payload = rw e prefix in
      let behind : stream (reader.read_exact 4 r).1 ≡ drop 4 (frame ++ rest) =
        reads.left 4 r (omega arith) ∙ ap (drop 4) e in
      let whole =
        read_payload-Reads {D = D} (length payload) (reader.read_exact 4 r).1
          (rw behind (omega (arith, length-drop 4 (frame ++ rest), length-append frame rest))) in
      rw
        (
          reads.complete 4 r (omega arith),
          declared,
          le→ltb_false max_frame_len (length payload) small,
          whole.0,
          behind,
          body,
          decode_payload-ReadsBack s message payload back enc,
        )
        (
          refl,
          whole.1
              ∙ ap (drop (length payload)) behind
              ∙ drop-drop (length payload) 4 (frame ++ rest)
              ∙ ap (λ (n : ℕ). drop n (frame ++ rest)) (sym size)
              ∙ drop-append_self frame rest,
        )

  -- A declared length over the limit is refused with only the prefix read.
  read_framed_too_large :
      {T E D : Type 0} (s : Serializer T E D) (r : R)
      → 4 ≤ length (stream r)
      → max_frame_len < from_be_bytes (take 4 (stream r))
      → let result = read_framed reader s r in
        (result.0 ≡ err (too_large (from_be_bytes (take 4 (stream r)))))
        × (stream result.1 ≡ drop 4 (stream r))
  unfolding read_framed
  read_framed_too_large s r long over =
      rw (reads.complete 4 r long, lt→ltb _ _ over) (refl, reads.left 4 r long)

  read_framed_payload_error :
      {T E D : Type 0} (s : Serializer T E D) (len : ℕ) (r : R) (e : IoError)
      → 4 ≤ length (stream r)
      → from_be_bytes (take 4 (stream r)) ≡ len
      → len ≤ max_frame_len
      → (read_chunks reader {D = D} len len [] (reader.read_exact 4 r).1).0 ≡ err (read_payload e)
      → (read_framed reader s r).0 ≡ err (read_payload e)
  unfolding read_framed
  read_framed_payload_error s len r e long declared small failed =
      rw (reads.complete 4 r long, declared, le→ltb_false max_frame_len len small, failed)

  -- A stream that ends inside a frame gives an error of the reader, never a message.
  read_framed_cut :
      {T E D : Type 0} (s : Serializer T E D) (message : T) (frame : List ℕ) (k : ℕ) (r : R)
      → encode_frame s message ≡ ok frame
      → stream r ≡ take k frame
      → k < length frame
      → (e : IoError) × (((read_framed reader s r).0 ≡ err (read_length e))
          ⊎ ((read_framed reader s r).0 ≡ err (read_payload e)))
  unfolding read_framed
  read_framed_cut {D} s message frame k r h cut short = elim (dec_le 4 k) [
    | no tiny ↦
        let (e, failed) = reads.ended 4 r (rw cut (omega (arith, length-take k frame))) in
        (e, inl (rw failed))
    | yes long ↦
        let (payload, enc, small, size, prefix, body) = encode_frame_parts s message frame [] h in
        let has : length (stream r) ≡ k = rw cut (omega (arith, length-take k frame)) in
        let declared : from_be_bytes (take 4 (stream r)) ≡ length payload =
          rw (cut, take-take 4 k frame long) (rw append-nil at prefix) in
        let behind : length (stream (reader.read_exact 4 r).1) ≡ k - 4 =
          rw (reads.left 4 r (omega arith)) (omega (arith, length-drop 4 (stream r))) in
        let (e, failed) =
          read_chunks_short {D = D} (length payload) (length payload) [] (reader.read_exact 4 r).1
            (omega arith) (omega arith) in
        (
          e,
          inr (
              read_framed_payload_error s (length payload) r e (omega arith) declared small failed),
        )
  ]
