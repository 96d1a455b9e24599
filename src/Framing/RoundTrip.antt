-- ===== src/Framing/RoundTrip.antt =====
-- `encode_frame` and `decode_frame` against each other.
use shelly.Prelude.{
  ℕ, ◌+◌, ◌^◌, ◌≤◌, ◌<◌, ◌≡◌, refl, ap, ◌∙◌, List, [], ◌++◌, arith, length, take, drop, ok, err,
  length-append, take-append, Result-cases, inl, inr, take-take, length-take, length-drop, map_err,
  subst,
}
use mathlib.Core.List.{append-nil}
use shelly.Framing.Codec.{
  Serializer, max_frame_len, to_be_bytes, from_be_bytes, decode_payload, encode_frame, decode_frame,
  incomplete, decoding,
}

pub from_be_bytes-to_be_bytes : (n : ℕ) → n < 2 ^ 32 → from_be_bytes (to_be_bytes n) ≡ n
unfolding from_be_bytes to_be_bytes
from_be_bytes-to_be_bytes n h = omega arith

pub length-to_be_bytes : (n : ℕ) → length (to_be_bytes n) ≡ 4
unfolding to_be_bytes
length-to_be_bytes n = refl

-- What is relied on of a serializer: it reads back what it wrote, and reads all of it.
abbrev pub ReadsBack : {T E D : Type 0} → Serializer T E D → Type 0
ReadsBack {T} s =
    (message : T) (payload : List ℕ)
    → s.encode message ≡ ok payload
    → s.decode payload ≡ ok (message, length payload)

module _ {T E D : Type 0} (s : Serializer T E D) where
  -- A frame is the prefix and the payload, and the payload is within the limit.
  pub encode_frame-eq-ok :
      (message : T) {frame : List ℕ}
      → encode_frame s message ≡ ok frame
      → (payload : List ℕ) × (s.encode message ≡ ok payload)
        × (length payload ≤ max_frame_len)
        × (frame ≡ to_be_bytes (length payload) ++ payload)
  unfolding encode_frame
  encode_frame-eq-ok message h = elim (Result-cases (s.encode message)) [
    | inl (payload, e) ↦ (payload, e, ground (arith, e), ground (arith, e))
    | inr (x, e) ↦ absurd (ground (arith, e))
  ]

  pub decode_payload-ReadsBack :
      (message : T) (payload : List ℕ)
      → ReadsBack s
      → s.encode message ≡ ok payload
      → decode_payload s payload ≡ ok message
  unfolding decode_payload
  decode_payload-ReadsBack message payload back e = ground (arith, back message payload e)

  frame_parts :
      (payload rest : List ℕ)
      → let frame = to_be_bytes (length payload) ++ payload in
        (take 4 (frame ++ rest) ≡ to_be_bytes (length payload))
        × (take (length payload) (drop 4 (frame ++ rest)) ≡ payload)
  unfolding to_be_bytes
  frame_parts payload rest = (refl, take-append payload rest)

  -- What `encode_frame` makes: its length, its prefix and its payload.
  pub encode_frame_parts :
      (message : T) (frame rest : List ℕ)
      → encode_frame s message ≡ ok frame
      → (payload : List ℕ) × (s.encode message ≡ ok payload)
        × (length payload ≤ max_frame_len)
        × (length frame ≡ 4 + length payload)
        × (from_be_bytes (take 4 (frame ++ rest)) ≡ length payload)
        × (take (length payload) (drop 4 (frame ++ rest)) ≡ payload)
  encode_frame_parts message frame rest h =
      let (payload, e, small, shape) = encode_frame-eq-ok message h in
      let front : frame ++ rest ≡ (to_be_bytes (length payload) ++ payload) ++ rest =
        ap (λ f. f ++ rest) shape in
      (
        payload,
        e,
        small,
        ap length shape
            ∙ length-append (to_be_bytes (length payload)) payload
            ∙ ap (λ (n : ℕ). n + length payload) (length-to_be_bytes (length payload)),
        ap (λ f. from_be_bytes (take 4 f)) front
            ∙ ap from_be_bytes (frame_parts payload rest).0
            ∙ from_be_bytes-to_be_bytes (length payload) (omega arith),
        ap (λ f. take (length payload) (drop 4 f)) front ∙ (frame_parts payload rest).1,
      )

  -- Where the declared length is allowed and present, the payload is decoded.
  decode_frame_complete :
      (frame : List ℕ) (len : ℕ)
      → from_be_bytes (take 4 frame) ≡ len
      → len ≤ max_frame_len
      → 4 + len ≤ length frame
      → decode_frame s frame ≡ map_err decoding (decode_payload s (take len (drop 4 frame)))
  unfolding decode_frame
  decode_frame_complete frame len e small whole = ground arith

  -- Where the buffer ends before the declared length, it is not.
  decode_frame_incomplete :
      (frame : List ℕ)
      → (4 ≤ length frame
          → (from_be_bytes (take 4 frame) ≤ max_frame_len)
            × (length frame < 4 + from_be_bytes (take 4 frame)))
      → decode_frame s frame ≡ err incomplete
  unfolding decode_frame
  decode_frame_incomplete frame h = ground arith

  -- A frame that `encode_frame` made is decoded to the message, whatever bytes follow it.
  pub decode_frame-encode_frame :
      (message : T) (frame rest : List ℕ)
      → ReadsBack s
      → encode_frame s message ≡ ok frame
      → decode_frame s (frame ++ rest) ≡ ok message
  decode_frame-encode_frame message frame rest back h =
      let (payload, e, small, len, prefix, body) = encode_frame_parts message frame rest h in
      decode_frame_complete (frame ++ rest) (length payload) prefix small
        (omega (arith, length-append frame rest, len))
      ∙ rw (body, decode_payload-ReadsBack message payload back e)

  -- A frame that is cut short anywhere is incomplete: it is never taken for another message.
  decode_frame_cut :
      (message : T) (frame : List ℕ) (k : ℕ)
      → encode_frame s message ≡ ok frame
      → k < length frame
      → decode_frame s (take k frame) ≡ err incomplete
  decode_frame_cut message frame k h short =
      let (payload, e, small, len, prefix, body) = encode_frame_parts message frame [] h in
      let whole = rw append-nil at prefix in
      decode_frame_incomplete (take k frame) (λ long.
        rw (take-take 4 k frame (omega (arith, length-take k frame)), whole)
          (small, omega (arith, length-take k frame, len)))

  decode_payload-eq-ok :
      (payload : List ℕ) {message : T}
      → decode_payload s payload ≡ ok message
      → s.decode payload ≡ ok (message, length payload)
  unfolding decode_payload
  decode_payload-eq-ok payload h = ground arith

  decode_frame_checks :
      (frame : List ℕ) {message : T}
      → decode_frame s frame ≡ ok message
      → let len = from_be_bytes (take 4 frame) in
        (len ≤ max_frame_len)
        × (4 + len ≤ length frame)
        × (decode_payload s (take len (drop 4 frame)) ≡ ok message)
  unfolding decode_frame
  decode_frame_checks frame h = ground arith

  -- `decode_frame` accepts no more than the limit, and only payloads that are read to their end.
  decode_frame-eq-ok :
      (frame : List ℕ) {message : T}
      → decode_frame s frame ≡ ok message
      → let len = from_be_bytes (take 4 frame) in
        (len ≤ max_frame_len)
        × (4 + len ≤ length frame)
        × (s.decode (take len (drop 4 frame)) ≡ ok (message, len))
  decode_frame-eq-ok frame {message} h =
      let len = from_be_bytes (take 4 frame) in
      let (small, whole, read) = decode_frame_checks frame h in
      let size : length (take len (drop 4 frame)) ≡ len =
        omega (arith, length-take len (drop 4 frame), length-drop 4 frame) in
      (
        small,
        whole,
        subst (λ n. s.decode (take len (drop 4 frame)) ≡ ok (message, n)) size
            (decode_payload-eq-ok (take len (drop 4 frame)) read),
      )
