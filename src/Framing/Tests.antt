-- ===== src/Framing/Tests.antt =====
-- A serializer of one byte, a reader and a writer over lists, and the theorems at frames of them.
use shelly.Prelude.{
  ℕ, suc, ◌≤◌, ◌<◌, ◌≡◌, refl, List, [], ◌∷◌, ◌++◌, arith, leb, length, take, drop, concat,
  if◌then◌else◌, Result, ok, err, le→leb,
}
use shelly.Framing.Codec.{
  Serializer, from_be_bytes, to_be_bytes, encode_frame, decode_frame, decode_payload, too_large,
}
use shelly.Framing.RoundTrip.{ReadsBack, decode_frame-encode_frame}
use shelly.Framing.Stream.{
  AsyncRead, AsyncWrite, read_framed, write_framed, read_length, read_payload,
}
use shelly.Framing.Stream
use shelly.Framing.Reading.{Reads, read_framed-encode_frame}
use shelly.Framing.Writing.{Writes, Ends, write_framed-Ends}

abbrev encode_byte : ℕ → Result (Unit {0}) (List ℕ)
encode_byte n = ok (n ∷ [])

abbrev decode_byte : List ℕ → Result (Unit {0}) (ℕ × ℕ)
decode_byte [] = err tt
decode_byte (b ∷ rest) = ok (b, 1)

abbrev byte_serializer : Serializer ℕ (Unit {0}) (Unit {0})
byte_serializer = record { encode = encode_byte; decode = decode_byte }

byte-ReadsBack : ReadsBack byte_serializer
byte-ReadsBack message [] e = absurd (ground arith)
byte-ReadsBack message (b ∷ []) e = ground arith
byte-ReadsBack message (b ∷ c ∷ rest) e = absurd (ground arith)

abbrev list_reader : AsyncRead (List ℕ) (Unit {0})
list_reader = record {
  read_exact = λ n r. (
    (if leb n (length r) then ok (take n r) else err tt),
    (if leb n (length r) then drop n r else []),
  );
}

list_reader-Reads : Reads list_reader (λ r. r)
list_reader-Reads = record {
  complete = λ n r h. ground (arith, le→leb n (length r) h);
  left = λ n r h. ground (arith, le→leb n (length r) h);
  ended = λ n r h. (tt, ground arith);
}

-- It takes three bytes at most.
abbrev list_writer : AsyncWrite (List ℕ) (Unit {0})
list_writer = record {
  write_vectored = λ bufs w. (ok (length (take 3 (concat bufs))), w ++ take 3 (concat bufs));
}

three_taken :
    (xs : List ℕ) → (length (take 3 xs) ≤ length xs) × (take (length (take 3 xs)) xs ≡ take 3 xs)
three_taken [] = (omega arith, refl)
three_taken (a ∷ []) = (omega arith, refl)
three_taken (a ∷ b ∷ []) = (omega arith, refl)
three_taken (a ∷ b ∷ c ∷ xs) = (omega arith, refl)

list_writer-Writes : Writes list_writer (λ w. w)
list_writer-Writes bufs w = let (few, same) = three_taken (concat bufs) in (few, rw same)

some_taken : (xs : List ℕ) → 0 < length xs → (n : ℕ) × (length (take 3 xs) ≡ suc n)
some_taken [] h = absurd (omega arith)
some_taken (a ∷ xs) h = (length (take 2 xs), refl)

list_writer_progress :
    (bufs : List (List ℕ)) (v : List ℕ)
    → 0 < length (concat bufs)
    → (n : ℕ) × ((list_writer.write_vectored bufs v).0 ≡ ok (suc n))
list_writer_progress bufs v h = let (n, e) = some_taken (concat bufs) h in (n, rw e)

-- The frame of the byte 7.
abbrev frame_of_seven : List ℕ
frame_of_seven = 0 ∷ 0 ∷ 0 ∷ 1 ∷ 7 ∷ []

seven_encoded : encode_frame byte_serializer 7 ≡ ok frame_of_seven
unfolding encode_frame to_be_bytes
seven_encoded = refl

-- The prefix of 0x100001 bytes, one more than the limit.
oversized : decode_frame byte_serializer (0 ∷ 16 ∷ 0 ∷ 1 ∷ []) ≡ err (too_large 0x100001)
unfolding decode_frame from_be_bytes
oversized = refl

seven_decoded : decode_frame byte_serializer frame_of_seven ≡ ok 7
unfolding decode_frame from_be_bytes decode_payload
seven_decoded = refl

seven_read : (read_framed list_reader byte_serializer (frame_of_seven ++ 9 ∷ [])).0 ≡ ok 7
unfolding read_framed Stream.read_chunks from_be_bytes decode_payload
seven_read = refl

seven_written : (write_framed list_writer byte_serializer 7 []).1 ≡ frame_of_seven
unfolding write_framed Stream.write_chunks Stream.buffers to_be_bytes
seven_written = refl

decode_frame-encode_frame_example :
    decode_frame byte_serializer (frame_of_seven ++ 9 ∷ 9 ∷ []) ≡ ok 7
decode_frame-encode_frame_example =
    decode_frame-encode_frame byte_serializer 7 frame_of_seven (9 ∷ 9 ∷ []) byte-ReadsBack
      seven_encoded

read_framed-encode_frame_example :
    ((read_framed list_reader byte_serializer (frame_of_seven ++ 9 ∷ [])).0 ≡ ok 7)
    × ((read_framed list_reader byte_serializer (frame_of_seven ++ 9 ∷ [])).1 ≡ 9 ∷ [])
read_framed-encode_frame_example =
    read_framed-encode_frame list_reader (λ r. r) list_reader-Reads byte_serializer 7 frame_of_seven
      (9 ∷ []) (frame_of_seven ++ 9 ∷ []) byte-ReadsBack seven_encoded refl

write_framed-Ends_example :
    Ends (λ w. w) frame_of_seven (1 ∷ []) (write_framed list_writer byte_serializer 7 (1 ∷ []))
write_framed-Ends_example =
    write_framed-Ends list_writer (λ w. w) list_writer-Writes byte_serializer 7 frame_of_seven
      (1 ∷ []) seven_encoded
