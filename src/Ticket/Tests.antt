-- ===== src/Ticket/Tests.antt =====
-- Tests of tickets, with a small serializer and a base32 that writes a byte as a run of letters.
use shelly.Prelude.{
  ℕ, zero, suc, ◌+◌, ◌≡◌, refl, ap, ◌∙◌, true, Option, none, some, List, [], ◌∷◌, ◌++◌, All, Text,
  ◌==◌, if◌then◌else◌, arith, ok, err,
}
use shelly.Code.{to_ascii_uppercase, is_whitespace}
use shelly.Signing.{strip_prefix}
use shelly.Relay.Checks.{trim}
use shelly.Ticket.{
  PairingTicket, Libraries, missing_prefix, base32, ticket_prefix, encode, decode, rendezvous,
  into_ticket,
}
use shelly.Ticket.Decoding.{is_base32, IsLawful, decode-encode}

-- Only the tickets that have a code alone are written.
abbrev written : Text → Text → Option Text → List Text → ℕ → Option Text
written code [] none [] zero = some code
written code [] none [] (suc n) = none
written code [] none (addr ∷ addrs) n = none
written code [] (some url) addrs n = none
written code (c ∷ node_id) url addrs n = none

abbrev ticket_of : Text → PairingTicket
ticket_of code = record { code = code; node_id = []; relay_url = none; addrs = []; expires_at = 0 }

abbrev letters : ℕ → Text → Text
letters zero s = b'B' ∷ s
letters (suc n) s = b'A' ∷ letters n s

abbrev spell : Text → Text
spell [] = []
spell (n ∷ bytes) = letters n (spell bytes)

-- `n` letters of a byte were read.
abbrev read : ℕ → Text → Option Text
read n [] = if n == 0 then some [] else none
read n (c ∷ s) =
    let more = read (suc n) s in
    let rest = read 0 s in
    if c == b'A'
    then more
    else if c == b'B'
    then elim rest [ none ↦ none | some bytes ↦ some (n ∷ bytes) ]
    else none

abbrev libraries : Libraries
libraries = record {
  to_stdvec = λ t. written t.code t.node_id t.relay_url t.addrs t.expires_at;
  take_from_bytes = λ bytes. some (ticket_of bytes, []);
  encode_base32 = spell;
  decode_base32 = read 0;
}

read-letters :
    (n k : ℕ) (s bytes : Text)
    → read 0 s ≡ some bytes
    → read k (letters n s) ≡ some ((k + n) ∷ bytes)
read-letters zero k s bytes e = rw e (ap (λ m. some (m ∷ bytes)) (omega arith))
read-letters (suc n) k s bytes e =
    read-letters n (suc k) s bytes e ∙ ap (λ m. some (m ∷ bytes)) (omega arith)

read-spell : (bytes : Text) → read 0 (spell bytes) ≡ some bytes
read-spell [] = refl
read-spell (n ∷ bytes) =
    read-letters n 0 (spell bytes) bytes (read-spell bytes)
    ∙ ap (λ m. some (m ∷ bytes)) (omega arith)

letters-All :
    (n : ℕ) (s : Text)
    → All (λ c. is_base32 c ≡ true) s
    → All (λ c. is_base32 c ≡ true) (letters n s)
unfolding is_base32
letters-All zero s h = (refl, h)
letters-All (suc n) s h = (refl, letters-All n s h)

spell-All : (bytes : Text) → All (λ c. is_base32 c ≡ true) (spell bytes)
spell-All [] = tt
spell-All (n ∷ bytes) = letters-All n (spell bytes) (spell-All bytes)

written-read :
    (code node_id : Text) (url : Option Text) (addrs : List Text) (n : ℕ) (bytes : Text)
    → written code node_id url addrs n ≡ some bytes
    → ticket_of bytes
      ≡ record { code = code; node_id = node_id; relay_url = url; addrs = addrs; expires_at = n }
written-read code [] none [] zero bytes e = let same : bytes ≡ code = cc e in ap ticket_of same
written-read code [] none [] (suc n) bytes e = absurd (cc e)
written-read code [] none (addr ∷ addrs) n bytes e = absurd (cc e)
written-read code [] (some url) addrs n bytes e = absurd (cc e)
written-read code (c ∷ node_id) url addrs n bytes e = absurd (cc e)

libraries-IsLawful : IsLawful libraries
libraries-IsLawful = record {
  tickets = λ t bytes e.
      ap (λ ticket. some (ticket, []))
        (written-read t.code t.node_id t.relay_url t.addrs t.expires_at bytes e);
  texts = read-spell;
  alphabet = spell-All;
}

-- A scanned ticket, and what is refused.
abbrev scanned : Text
scanned = b's' ∷ b'h' ∷ b'1' ∷ b'a' ∷ b'A' ∷ b'b' ∷ b'B' ∷ []

decode_scanned : decode libraries scanned ≡ ok (ticket_of (2 ∷ 0 ∷ []))
unfolding decode trim strip_prefix to_ascii_uppercase
decode_scanned = refl

decode_no_prefix : decode libraries (b'S' ∷ b'h' ∷ b'1' ∷ []) ≡ err missing_prefix
unfolding decode trim strip_prefix to_ascii_uppercase
decode_no_prefix = refl

decode_not_base32 : decode libraries (scanned ++ b'!' ∷ []) ≡ err base32
unfolding decode trim strip_prefix to_ascii_uppercase
decode_not_base32 = refl

decode-encode_example :
    (encode libraries (ticket_of (2 ∷ 0 ∷ [])) ≡ ok (ticket_prefix ++ spell (2 ∷ 0 ∷ [])))
    × (decode libraries (32 ∷ ((ticket_prefix ++ b'a' ∷ b'A' ∷ b'b' ∷ b'B' ∷ []) ++ 10 ∷ []))
        ≡ ok (ticket_of (2 ∷ 0 ∷ [])))
    × (into_ticket (rendezvous (ticket_of (2 ∷ 0 ∷ []))) (2 ∷ 0 ∷ []) ≡ ticket_of (2 ∷ 0 ∷ []))
unfolding to_ascii_uppercase is_whitespace
decode-encode_example =
    decode-encode libraries libraries-IsLawful (ticket_of (2 ∷ 0 ∷ []))
      (b'a' ∷ b'A' ∷ b'b' ∷ b'B' ∷ []) (32 ∷ []) (10 ∷ []) (refl, tt) (refl, tt) (2 ∷ 0 ∷ []) refl
      refl
