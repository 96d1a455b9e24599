-- ===== src/Framing/Stream.antt =====
-- Frames on asynchronous streams: `read_framed` and `write_framed`.
use Prim.Native.Nat.{min}
use shelly.Prelude.{
  ℕ, zero, suc, ◌+◌, ◌-◌, List, [], ◌∷◌, ◌++◌, ltb, length, drop, if◌then◌else◌, Result, ok, err,
  map_err,
}
use shelly.Prelude.Io.{Io, ◌>>=◌, pure, failing_with}
use shelly.Framing.Codec.{
  max_frame_len, read_chunk_len, Serializer, PayloadError, to_be_bytes, from_be_bytes,
  decode_payload,
}

-- A reader: `read_exact` answers with the bytes asked for, or with an error.
pub record AsyncRead (R IoError : Type 0) : Type 0 where
  pub read_exact : ℕ → R → Result IoError (List ℕ) × R

-- A writer: `write_vectored` answers with the number of bytes that it took from the buffers.
pub record AsyncWrite (W IoError : Type 0) : Type 0 where
  pub write_vectored : List (List ℕ) → W → Result IoError ℕ × W

pub data ReadFrameError (IoError D : Type 0) : Type 0 where
  read_length : IoError → ReadFrameError IoError D
  too_large : ℕ → ReadFrameError IoError D
  read_payload : IoError → ReadFrameError IoError D
  decoding : PayloadError D → ReadFrameError IoError D

-- An error of the writer, or the error that `write_framed` makes of a write of no bytes.
pub data WriteError (IoError : Type 0) : Type 0 where
  io : IoError → WriteError IoError
  write_zero : WriteError IoError

pub data WriteFrameError (IoError E : Type 0) : Type 0 where
  encoding : E → WriteFrameError IoError E
  too_large : ℕ → WriteFrameError IoError E
  write_length : WriteError IoError → WriteFrameError IoError E
  write_payload : WriteError IoError → WriteFrameError IoError E

module _ {R IoError : Type 0} (reader : AsyncRead R IoError) where
  -- The loop that fills the payload. A round reads a byte at least, so `len` rounds are enough.
  unfoldable pub read_chunks :
      {D : Type 0} → ℕ → ℕ → List ℕ → Io R (ReadFrameError IoError D) (List ℕ)
  read_chunks zero len payload = pure (ok payload)
  read_chunks (suc fuel) len payload =
      if ltb (length payload) len
      then (do
        chunk ←
            failing_with read_payload
              (reader.read_exact (min (len - length payload) read_chunk_len))
        read_chunks fuel len (payload ++ chunk))
      else pure (ok payload)

  unfoldable pub read_framed :
      {T E D : Type 0} → Serializer T E D → Io R (ReadFrameError IoError D) T
  read_framed s = do
    prefix ← failing_with read_length (reader.read_exact 4)
    let len = from_be_bytes prefix
    if ltb max_frame_len len then pure (err (too_large len)) else (do
      payload ← read_chunks len len []
      pure (map_err decoding (decode_payload s payload)))

-- What is still to be written of the prefix and the payload.
unfoldable pub buffers : List ℕ → List ℕ → ℕ → List (List ℕ)
buffers prefix payload written =
    if ltb written (length prefix)
    then drop written prefix ∷ payload ∷ []
    else drop (written - length prefix) payload ∷ []

unfoldable pub write_failed :
    {IoError E : Type 0} → List ℕ → ℕ → WriteError IoError → WriteFrameError IoError E
write_failed prefix written e =
    if ltb written (length prefix) then write_length e else write_payload e

-- The rest of a round behind the write; `next` is the rounds that follow.
unfoldable pub after_write :
    {W IoError E : Type 0}
    → (ℕ → Io W (WriteFrameError IoError E) (Unit {0}))
    → List ℕ
    → ℕ
    → Result IoError ℕ × W
    → Result (WriteFrameError IoError E) (Unit {0}) × W
unfolding write_failed
after_write next prefix written (ok zero, w) = (err (write_failed prefix written write_zero), w)
after_write next prefix written (ok (suc n), w) = next (written + suc n) w
after_write next prefix written (err e, w) = (err (write_failed prefix written (io e)), w)

module _ {W IoError : Type 0} (writer : AsyncWrite W IoError) where
  -- A round writes a byte at least, so as many rounds as the frame has bytes are enough.
  unfoldable pub write_chunks :
      {E : Type 0} → ℕ → List ℕ → List ℕ → ℕ → Io W (WriteFrameError IoError E) (Unit {0})
  unfolding after_write
  write_chunks zero prefix payload written = pure (ok tt)
  write_chunks (suc fuel) prefix payload written =
      if ltb written (length prefix + length payload)
      then (λ w.
          after_write (write_chunks fuel prefix payload) prefix written
            (writer.write_vectored (buffers prefix payload written) w))
      else pure (ok tt)

  unfoldable pub write_framed :
      {T E D : Type 0} → Serializer T E D → T → Io W (WriteFrameError IoError E) (Unit {0})
  write_framed s message = do
    payload ← pure (map_err encoding (s.encode message))
    let prefix = to_be_bytes (length payload)
    if ltb max_frame_len (length payload)
        then pure (err (too_large (length payload)))
        else write_chunks (length prefix + length payload) prefix payload 0
