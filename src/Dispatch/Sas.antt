-- ===== src/Dispatch/Sas.antt =====
-- crates/protocol/src/pairing_security.rs: the locator of a pairing code, and the text that both ends of
-- a pairing compare. SHA-256 is an argument.
use shelly.Prelude.{
  ℕ, zero, suc, ◌+◌, ◌-◌, ◌/◌, ◌%◌, ltb, List, [], ◌∷◌, ◌++◌, Text, length, take, drop,
  if◌then◌else◌,
}
use shelly.Code.{normalize_code}
use shelly.Signing.{utf8}

-- `b"shelly-pair-sas-v1\0"`
abbrev pub sas_domain : List ℕ
sas_domain =
    b's' ∷ b'h' ∷ b'e' ∷ b'l' ∷ b'l' ∷ b'y' ∷ b'-' ∷ b'p' ∷ b'a' ∷ b'i' ∷ b'r' ∷ b'-' ∷ b's' ∷ b'a'
    ∷ b's' ∷ b'-' ∷ b'v' ∷ b'1' ∷ 0 ∷ []

abbrev pub sas_bytes : ℕ
sas_bytes = 10

abbrev pub sas_group_hex_chars : ℕ
sas_group_hex_chars = 4

-- A hexadecimal digit, whose letters start at `ten`.
unfoldable pub hex_digit : ℕ → ℕ → ℕ
hex_digit ten n = if ltb n 10 then 48 + n else ten + n - 10

unfoldable pub hex : ℕ → List ℕ → Text
unfolding hex_digit
hex ten [] = []
hex ten (b ∷ bytes) = hex_digit ten (b / 16 % 16) ∷ hex_digit ten (b % 16) ∷ hex ten bytes

-- `chunks` joined by dashes, for as many rounds as there are characters.
unfoldable pub join_chunks : ℕ → Text → Text
join_chunks zero s = []
join_chunks (suc fuel) s =
    let rest = join_chunks fuel (drop sas_group_hex_chars s) in
    if ltb sas_group_hex_chars (length s) then take sas_group_hex_chars s ++ b'-' ∷ rest else s

module _ (sha256 : List ℕ → List ℕ) where
  unfoldable pub pairing_code_locator : Text → Text
  unfolding hex
  pairing_code_locator code = hex b'a' (sha256 (utf8 (normalize_code code)))

  unfoldable pub pairing_sas : Text → List ℕ → List ℕ → Text
  unfolding hex join_chunks
  pairing_sas code daemon_public_key phone_public_key =
      let digest =
        sha256
          (sas_domain ++ (utf8 (normalize_code code) ++ (daemon_public_key ++ phone_public_key))) in
      let encoded = hex b'A' (take sas_bytes digest) in join_chunks (length encoded) encoded
