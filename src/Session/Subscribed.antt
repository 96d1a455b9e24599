-- ===== src/Session/Subscribed.antt =====
-- What a session has sent since a client subscribed to it.
use mathlib.Core.List.{append_assoc}
use shelly.Prelude.{
  ℕ, ◌+◌, ◌-◌, ◌^◌, ◌≤◌, ◌<◌, ◌≡◌, refl, sym, ap, ◌∙◌, some, List, [], ◌∷◌, ◌++◌, arith, length,
  length-append,
}
use shelly.Ring.{new}
use shelly.Ring.Window.{new-Holds}
use shelly.Session.Output.{Terminal, OutputSession, attach_bytes}
use shelly.Session.Sending.{outputs}
use shelly.Session.Resume.{
  Read, bytes_of, numbered, record_all, record_all-Holds, attach_bytes_resumed,
}

pub append_cancel {ℓ} : {A : Type ℓ} → (xs ys zs : List A) → xs ++ ys ≡ xs ++ zs → ys ≡ zs
append_cancel [] ys zs e = e
append_cancel (x ∷ xs) ys zs e = append_cancel xs ys zs (cc e)

pub length-bytes_of :
    (a b : List Read) → length (bytes_of (a ++ b)) ≡ length (bytes_of a) + length (bytes_of b)
length-bytes_of [] b = omega arith
length-bytes_of (r ∷ a) b = omega (
  arith,
  length-bytes_of a b,
  length-append r.bytes (bytes_of (a ++ b)),
  length-append r.bytes (bytes_of a),
)

numbered-append :
    (start : ℕ) (a b : List Read)
    → numbered start (a ++ b) ≡ numbered start a ++ numbered (start + length (bytes_of a)) b
numbered-append start [] b = ap (λ n. numbered n b) (omega arith)
numbered-append start (r ∷ a) b =
    ap (λ rest. (start + length r.bytes, r.bytes) ∷ rest)
      (numbered-append (start + length r.bytes) a b
        ∙ ap (λ n. numbered (start + length r.bytes) a ++ numbered n b)
            (omega (arith, length-append r.bytes (bytes_of a))))

module _ {T : Type 0} (term : Terminal T) where
  record_all-append :
      (a b : List Read) (s : OutputSession T)
      → record_all term (a ++ b) s ≡ record_all term b (record_all term a s)
  unfolding record_all
  record_all-append [] b s = refl
  record_all-append (r ∷ a) b s = record_all-append a b _

  -- The messages sent since the subscription, with an attachment in between, are numbered on from all
  -- that was read before it.
  pub outputs_subscribed :
      (old between after : List Read) (cut seen capacity : ℕ) (s : OutputSession T)
      → s.ring ≡ new capacity
      → length (bytes_of (old ++ between)) + length (bytes_of after) < 2 ^ 64
      → length (bytes_of (old ++ between)) - capacity ≤ seen
      → seen ≤ length (bytes_of (old ++ between))
      → outputs
          (record_all term after
            (attach_bytes term cut (some seen) (record_all term (old ++ between) s)).1).shown.sent
        ≡ outputs (record_all term old s).shown.sent
          ++ numbered (length (bytes_of old)) (between ++ after)
  outputs_subscribed old between after cut seen capacity s fresh small reached within =
      let resumed =
        attach_bytes_resumed term (old ++ between) after cut seen capacity s fresh small reached
          within in
      resumed.2
      ∙ (rw (resumed.1, record_all-append old between s, told)
            (append_assoc (outputs (record_all term old s).shown.sent)
              (numbered (length (bytes_of old)) between)
              (numbered (length (bytes_of (old ++ between))) after))
          ∙ ap (λ rest. outputs (record_all term old s).shown.sent ++ rest) joined)
    where
      sizes : length (bytes_of (old ++ between)) ≡ length (bytes_of old) + length (bytes_of between)
      sizes = length-bytes_of old between

      told :
          outputs (record_all term between (record_all term old s)).shown.sent
          ≡ outputs (record_all term old s).shown.sent ++ numbered (length (bytes_of old)) between
      told =
          (record_all-Holds term between (bytes_of old) (record_all term old s)
            (record_all-Holds term old [] s (rw fresh (new-Holds capacity))
              (omega (arith, sizes))).0
            (omega (arith, sizes))).1

      joined :
          numbered (length (bytes_of old)) between
            ++ numbered (length (bytes_of (old ++ between))) after
          ≡ numbered (length (bytes_of old)) (between ++ after)
      joined = rw sizes (sym (numbered-append (length (bytes_of old)) between after))
