-- ===== src/Framing/Codec.antt =====
-- Whole frames in memory: `encode_frame`, `decode_frame` and the decoding of a payload.
use shelly.Prelude.{
  ℕ, ◌+◌, ◌-◌, ◌*◌, ◌/◌, ◌%◌, ◌^◌, List, [], ◌∷◌, ◌++◌, ltb, leb, ◌==◌, length, take, drop,
  if◌then◌else◌, Result, ok, err, ◌>>=◌, ◌>>◌, guard, map_err,
}

abbrev pub max_frame_len : ℕ
max_frame_len = 1024 * 1024

abbrev pub read_chunk_len : ℕ
read_chunk_len = 8 * 1024

-- What a serializer does for the messages of a type: `decode` answers with the value and the
-- number of bytes that it has read.
pub record Serializer (T EncodeError DecodeError : Type 0) : Type 0 where
  pub encode : T → Result EncodeError (List ℕ)
  pub decode : List ℕ → Result DecodeError (T × ℕ)

-- `MessagePackDecodeError`; with bincode the trailing bytes are reported as `OtherString`.
pub data PayloadError (D : Type 0) : Type 0 where
  codec : D → PayloadError D
  trailing_bytes : ℕ → PayloadError D

pub data FrameError (E D : Type 0) : Type 0 where
  too_large : ℕ → FrameError E D
  incomplete : FrameError E D
  encoding : E → FrameError E D
  decoding : PayloadError D → FrameError E D

-- `u32::to_be_bytes` of a length that is cast to 32 bits, and `u32::from_be_bytes`.
unfoldable pub to_be_bytes : ℕ → List ℕ
to_be_bytes n = let w = n % 2 ^ 32 in w / 2 ^ 24 ∷ w / 2 ^ 16 % 256 ∷ w / 2 ^ 8 % 256 ∷ w % 256 ∷ []

unfoldable pub from_be_bytes : List ℕ → ℕ
from_be_bytes (a ∷ b ∷ c ∷ d ∷ []) = a * 2 ^ 24 + b * 2 ^ 16 + c * 2 ^ 8 + d
from_be_bytes _ = 0

module _ {T E D : Type 0} (s : Serializer T E D) where
  -- `decode_bincode` and `decode_messagepack`
  unfoldable pub decode_payload : List ℕ → Result (PayloadError D) T
  decode_payload payload = do
    (value, bytes_read) ← map_err codec (s.decode payload)
    if bytes_read == length payload
        then ok value
        else err (trailing_bytes (length payload - bytes_read))

  unfoldable pub encode_frame : T → Result (FrameError E D) (List ℕ)
  encode_frame message = do
    payload ← map_err encoding (s.encode message)
    guard (leb (length payload) max_frame_len) (too_large (length payload))
    ok (to_be_bytes (length payload) ++ payload)

  unfoldable pub decode_frame : List ℕ → Result (FrameError E D) T
  decode_frame frame =
      if ltb (length frame) 4
      then err incomplete
      else let len = from_be_bytes (take 4 frame) in
        if ltb max_frame_len len
        then err (too_large len)
        else if ltb (length frame) (4 + len)
        then err incomplete
        else map_err decoding (decode_payload (take len (drop 4 frame)))
