-- ===== src/Ticket/Decoding.antt =====
-- A ticket is read again from what it was encoded to, as it is scanned or pasted.
use shelly.Prelude.{
  ℕ, ◌≡◌, refl, ap, ◌∙◌, Bool, true, false, ◌&&◌, ◌||◌, some, [], ◌∷◌, ◌++◌, map, All, Text, leb,
  arith, ok,
}
use shelly.Code.{is_whitespace, to_ascii_uppercase}
use shelly.Relay.Checks.{trim, trim_start, trim_end}
use shelly.Ticket.{PairingTicket, Libraries, ticket_prefix, encode, decode, rendezvous, into_ticket}

unfoldable pub is_base32 : ℕ → Bool
is_base32 c = (leb b'A' c && leb c b'Z') || (leb b'2' c && leb c b'7')

abbrev pub IsBlank : Text → Type 0
IsBlank = All (λ c. is_whitespace c ≡ true)

-- What the libraries document: postcard reads what it has written and leaves nothing of it; base32
-- is read again, and is written in capital letters and digits.
pub record IsLawful (lib : Libraries) : Type 0 where
  pub tickets :
      (t : PairingTicket) (bytes : Text)
      → lib.to_stdvec t ≡ some bytes
      → lib.take_from_bytes bytes ≡ some (t, [])
  pub texts : (bytes : Text) → lib.decode_base32 (lib.encode_base32 bytes) ≡ some bytes
  pub alphabet : (bytes : Text) → All (λ c. is_base32 c ≡ true) (lib.encode_base32 bytes)

base32-not_blank : (c : ℕ) → is_base32 (to_ascii_uppercase c) ≡ true → is_whitespace c ≡ false
unfolding is_base32 to_ascii_uppercase is_whitespace
base32-not_blank c h = ground arith

trim_start-append : (left s : Text) → IsBlank left → trim_start (left ++ s) ≡ trim_start s
unfolding trim_start
trim_start-append [] s h = refl
trim_start-append (c ∷ left) s h = rw h.0 (trim_start-append left s h.1)

trim_end_blank : (s : Text) → IsBlank s → trim_end s ≡ []
unfolding trim_end
trim_end_blank [] h = refl
trim_end_blank (c ∷ s) h = rw (h.0, trim_end_blank s h.1) refl

trim_end-append :
    (s right : Text)
    → All (λ c. is_whitespace c ≡ false) s
    → IsBlank right
    → trim_end (s ++ right) ≡ s
unfolding trim_end
trim_end-append [] right clear h = trim_end_blank right h
trim_end-append (c ∷ s) right clear h = rw (clear.0, trim_end-append s right clear.1 h) refl

scanned-clear :
    (s : Text)
    → All (λ c. is_base32 c ≡ true) (map to_ascii_uppercase s)
    → All (λ c. is_whitespace c ≡ false) s
scanned-clear [] h = tt
scanned-clear (c ∷ s) h = (base32-not_blank c h.0, scanned-clear s h.1)

trim-ticket :
    (left body right : Text)
    → IsBlank left
    → IsBlank right
    → All (λ c. is_whitespace c ≡ false) body
    → trim (left ++ ((ticket_prefix ++ body) ++ right)) ≡ ticket_prefix ++ body
unfolding trim trim_start is_whitespace
trim-ticket left body right h k clear =
    ap trim_end (trim_start-append left ((ticket_prefix ++ body) ++ right) h)
    ∙ trim_end-append (ticket_prefix ++ body) right (refl, (refl, (refl, clear))) k

module _ (lib : Libraries) (law : IsLawful lib) where
  -- A ticket that was encoded is decoded to itself, also with white space around it and its base32
  -- typed in any case; and the record that the relay publishes for it gives the ticket again with the
  -- ticket's code. The libraries do what they document.
  pub decode-encode :
      (t : PairingTicket) (body left right : Text)
      → IsBlank left
      → IsBlank right
      → (bytes : Text) → lib.to_stdvec t ≡ some bytes
      → map to_ascii_uppercase body ≡ lib.encode_base32 bytes
      → (encode lib t ≡ ok (ticket_prefix ++ lib.encode_base32 bytes))
        × (decode lib (left ++ ((ticket_prefix ++ body) ++ right)) ≡ ok t)
        × (into_ticket (rendezvous t) t.code ≡ t)
  unfolding encode decode rendezvous into_ticket
  decode-encode t body left right h k bytes e same =
      let clear : All (λ c. is_whitespace c ≡ false) body =
        scanned-clear body (rw same (law.alphabet bytes)) in
      (
        rw e refl,
        rw (trim-ticket left body right h k clear, same, law.texts bytes, law.tickets t bytes e)
            refl,
        refl,
      )
