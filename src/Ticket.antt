-- ===== src/Ticket.antt =====
-- crates/protocol/src/types.rs: pairing tickets, as a QR code holds them, and the rendezvous record
-- that the relay publishes without the code. postcard and the base32 of data_encoding are arguments.
use shelly.Prelude.{
  ℕ, Option, some, List, [], ◌∷◌, ◌++◌, map, Text, length, ◌==◌, Result, ok, err, ◌>>=◌, ◌>>◌,
  guard, context,
}
use shelly.Code.{to_ascii_uppercase}
use shelly.Signing.{strip_prefix}
use shelly.Relay.State.{PairingRendezvous}
use shelly.Relay.Checks.{trim}
mod Decoding
mod Tests

abbrev pub ticket_prefix : Text
ticket_prefix = b's' ∷ b'h' ∷ b'1' ∷ []

pub record PairingTicket : Type 0 where
  pub code : Text
  pub node_id : Text
  pub relay_url : Option Text
  pub addrs : List Text
  pub expires_at : ℕ

pub data TicketError : Type 0 where
  missing_prefix base32 postcard : TicketError
  trailing_bytes : ℕ → TicketError

unfoldable pub rendezvous : PairingTicket → PairingRendezvous
rendezvous t = record {
  node_id = t.node_id;
  relay_url = t.relay_url;
  addrs = t.addrs;
  expires_at = t.expires_at;
}

unfoldable pub into_ticket : PairingRendezvous → Text → PairingTicket
into_ticket r code = record {
  code = code;
  node_id = r.node_id;
  relay_url = r.relay_url;
  addrs = r.addrs;
  expires_at = r.expires_at;
}

-- `postcard::to_stdvec` and `take_from_bytes`, which gives what it has not read as well, and
-- `BASE32_NOPAD`.
pub record Libraries : Type 0 where
  pub to_stdvec : PairingTicket → Option Text
  pub take_from_bytes : Text → Option (PairingTicket × Text)
  pub encode_base32 : Text → Text
  pub decode_base32 : Text → Option Text

module _ (lib : Libraries) where
  unfoldable pub encode : PairingTicket → Result TicketError Text
  encode t = do
    bytes ← context postcard (lib.to_stdvec t)
    ok (ticket_prefix ++ lib.encode_base32 bytes)

  unfoldable pub decode : Text → Result TicketError PairingTicket
  unfolding trim strip_prefix
  decode s = do
    body ← context missing_prefix (strip_prefix ticket_prefix (trim s))
    bytes ← context base32 (lib.decode_base32 (map to_ascii_uppercase body))
    found ← context postcard (lib.take_from_bytes bytes)
    guard (length found.1 == 0) (trailing_bytes (length found.1))
    ok found.0
