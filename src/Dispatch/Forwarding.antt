-- ===== src/Dispatch/Forwarding.antt =====
-- crates/daemon/src/forward.rs and the forwarding tasks of ipc.rs and transport_iroh.rs: what a client
-- that is attached is sent of a session.
use mathlib.Core.List.{append_assoc}
use shelly.Prelude.{
  ℕ, ◌+◌, ◌-◌, ◌^◌, ◌≤◌, ◌<◌, ◌≡◌, refl, sym, ap, ◌∙◌, Bool, true, false, leb, Bool-cases, inl, inr,
  some, List, [], ◌∷◌, ◌++◌, Text, map, arith, length, take, length-append, if◌then◌else◌,
}
use shelly.Ring.{new}
use shelly.Session.Output.{Terminal, OutputSession, attach_bytes}
use shelly.Session.Resume.{Read, bytes_of, numbered, record_all, attach_bytes_resumed}
use shelly.Session.Sending.{outputs}
use shelly.Session.Subscribed.{append_cancel, length-bytes_of, outputs_subscribed}
use shelly.Dispatch.Messages.{ServerToClientMsg, output, lag}

-- What a broadcast receiver gives: a message, that it was overtaken by some, or its end.
pub data Received : Type 0 where
  event : ServerToClientMsg → Received
  lagged : (skipped : ℕ) → Received
  closed : Received

pub data ForwardedEvent : Type 0 where
  message terminal_message : ServerToClientMsg → ForwardedEvent
  ended : ForwardedEvent

unfoldable pub recv_attached_event : Text → Received → ForwardedEvent
recv_attached_event session_id (event m) = message m
recv_attached_event session_id (lagged skipped) = terminal_message (lag session_id skipped)
recv_attached_event session_id closed = ended

unfoldable pub output_was_replayed : ServerToClientMsg → ℕ → Bool
output_was_replayed (output session_id seq bytes) attached_seq = leb seq attached_seq
output_was_replayed _ attached_seq = false

-- What the task writes of what it receives, until it ends or is shut down.
unfoldable pub forward_attached_events : Text → ℕ → List Received → List ServerToClientMsg
unfolding recv_attached_event output_was_replayed
forward_attached_events session_id attached_seq [] = []
forward_attached_events session_id attached_seq (r ∷ received) =
    let rest = forward_attached_events session_id attached_seq received in
    elim (recv_attached_event session_id r) [
      | message m ↦ if output_was_replayed m attached_seq then rest else m ∷ rest
      | terminal_message m ↦ m ∷ []
      | ended ↦ []
    ]

-- The output messages, with their numbers.
abbrev pub outputs_in : List ServerToClientMsg → List (ℕ × List ℕ)
outputs_in [] = []
outputs_in (output session_id seq bytes ∷ sent) = (seq, bytes) ∷ outputs_in sent
outputs_in (_ ∷ sent) = outputs_in sent

abbrev pub bytes_in : List (ℕ × List ℕ) → List ℕ
bytes_in [] = []
bytes_in ((seq, bytes) ∷ numbers) = bytes ++ bytes_in numbers

-- The bytes of the messages with a number above the one given.
fresh_bytes : ℕ → List (ℕ × List ℕ) → List ℕ
fresh_bytes attached_seq [] = []
fresh_bytes attached_seq ((seq, bytes) ∷ numbers) =
    let rest = fresh_bytes attached_seq numbers in
    if leb seq attached_seq then rest else bytes ++ rest

forwarded-fresh :
    (session_id : Text) (attached_seq : ℕ) (sent : List ServerToClientMsg)
    → bytes_in (outputs_in (forward_attached_events session_id attached_seq (map event sent)))
      ≡ fresh_bytes attached_seq (outputs_in sent)
unfolding forward_attached_events fresh_bytes
forwarded-fresh session_id attached_seq [] = refl
forwarded-fresh session_id attached_seq (output id seq bytes ∷ sent) =
    elim (Bool-cases (leb seq attached_seq)) [
      | inl e ↦ rw e (forwarded-fresh session_id attached_seq sent)
      | inr e ↦ rw e (ap (λ rest. bytes ++ rest) (forwarded-fresh session_id attached_seq sent))
    ]
forwarded-fresh session_id attached_seq (_ ∷ sent) = forwarded-fresh session_id attached_seq sent

nil_of_length : (xs : List ℕ) → length xs ≡ 0 → xs ≡ []
nil_of_length [] e = refl
nil_of_length (x ∷ xs) e = absurd (omega arith)

-- What was read behind the attachment is all fresh.
numbered-fresh :
    (start attached_seq : ℕ) (reads : List Read)
    → attached_seq ≤ start
    → fresh_bytes attached_seq (numbered start reads) ≡ bytes_of reads
unfolding fresh_bytes
numbered-fresh start attached_seq [] h = refl
numbered-fresh start attached_seq (r ∷ reads) h =
    let ih = numbered-fresh (start + length r.bytes) attached_seq reads (omega arith) in
    elim (Bool-cases (leb (start + length r.bytes) attached_seq)) [
      | inl e ↦
          let none_read : r.bytes ≡ [] = nil_of_length r.bytes (ground arith) in
          rw e (ih ∙ ap (λ bytes. bytes ++ bytes_of reads) (sym none_read))
      | inr e ↦ rw e (ap (λ rest. r.bytes ++ rest) ih)
    ]

-- What was read before the attachment is not.
numbered-stale :
    (start attached_seq : ℕ) (between after : List Read)
    → start + length (bytes_of between) ≤ attached_seq
    → fresh_bytes attached_seq (numbered start (between ++ after))
      ≡ fresh_bytes attached_seq (numbered (start + length (bytes_of between)) after)
unfolding fresh_bytes
numbered-stale start attached_seq [] after h =
    ap (λ n. fresh_bytes attached_seq (numbered n after)) (omega arith)
numbered-stale start attached_seq (r ∷ between) after h =
    let sizes = length-append r.bytes (bytes_of between) in
    let passed : leb (start + length r.bytes) attached_seq ≡ true = ground (arith, sizes) in
    rw passed (
      numbered-stale (start + length r.bytes) attached_seq between after (omega (arith, sizes))
      ∙ ap (λ n. fresh_bytes attached_seq (numbered n after)) (omega (arith, sizes)))

-- A client that attaches while the process writes gets each byte once and in order: what it had seen,
-- the replay that it is given and what is forwarded to it are together all the output, the reads
-- before its subscription, those between its subscription and its replay, which the receiver holds
-- as well, and those afterwards, whatever other messages lie between. The output messages that the
-- receiver gets are those that the session has sent since the subscription, none of them lost; the
-- session starts with an empty ring, the window reaches back to what the client has seen, the client
-- has not seen more than there is, and all the output stays below 2^64 bytes.
pub attach_bytes-forward_attached_events :
    {T : Type 0} (term : Terminal T) (old between after : List Read) (cut seen capacity : ℕ)
    (s : OutputSession T) (session_id : Text) (sent : List ServerToClientMsg)
    → s.ring ≡ new capacity
    → length (bytes_of (old ++ between)) + length (bytes_of after) < 2 ^ 64
    → length (bytes_of (old ++ between)) - capacity ≤ seen
    → seen ≤ length (bytes_of (old ++ between))
    → outputs
        (record_all term after
          (attach_bytes term cut (some seen) (record_all term (old ++ between) s)).1).shown.sent
      ≡ outputs (record_all term old s).shown.sent ++ outputs_in sent
    → take seen (bytes_of (old ++ between))
        ++ ((attach_bytes term cut (some seen) (record_all term (old ++ between) s)).0.1
            ++ bytes_in (
                outputs_in (
                  forward_attached_events session_id
                    (attach_bytes term cut (some seen) (record_all term (old ++ between) s)).0.0
                    (map event sent))))
      ≡ bytes_of (old ++ between) ++ bytes_of after
attach_bytes-forward_attached_events term old between after cut seen capacity s session_id sent
      fresh small reached within received =
    let attached = attach_bytes term cut (some seen) (record_all term (old ++ between) s) in
    let resumed =
      attach_bytes_resumed term (old ++ between) after cut seen capacity s fresh small reached
        within in
    let sizes = length-bytes_of old between in
    let subscribed : outputs_in sent ≡ numbered (length (bytes_of old)) (between ++ after) =
      append_cancel (outputs (record_all term old s).shown.sent) _ _ (
        sym received
        ∙ outputs_subscribed term old between after cut seen capacity s fresh small reached
            within) in
    let forwarded : bytes_in
          (outputs_in (forward_attached_events session_id attached.0.0 (map event sent)))
        ≡ bytes_of after =
      forwarded-fresh session_id attached.0.0 sent
      ∙ (ap (fresh_bytes attached.0.0) subscribed
          ∙ (numbered-stale (length (bytes_of old)) attached.0.0 between after
                (omega (arith, sizes, resumed.1))
              ∙ numbered-fresh (length (bytes_of old) + length (bytes_of between)) attached.0.0
                  after (omega (arith, sizes, resumed.1)))) in
    sym (append_assoc (take seen (bytes_of (old ++ between))) attached.0.1 _)
    ∙ (ap
          (λ given.
            given
            ++ bytes_in
                (outputs_in (forward_attached_events session_id attached.0.0 (map event sent))))
          resumed.0
        ∙ ap (λ rest. bytes_of (old ++ between) ++ rest) forwarded)
