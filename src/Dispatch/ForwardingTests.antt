-- ===== src/Dispatch/ForwardingTests.antt =====
-- Witness and tests of Dispatch/Forwarding.
use shelly.Prelude.{ℕ, ◌≡◌, refl, some, none, List, [], ◌∷◌, ◌++◌, map, take, arith}
use shelly.Ring.{new, push, replay_from}
use shelly.Session.{idle}
use shelly.Session.Output.{attach_bytes}
use shelly.Session.Resume.{Read, bytes_of, record_all}
use shelly.Dispatch.Messages.{ServerToClientMsg, output, lag, agent_state_changed}
use shelly.Dispatch.Forwarding.{
  event, lagged, forward_attached_events, outputs_in, bytes_in,
  attach_bytes-forward_attached_events,
}
use shelly.Dispatch.Fixtures.{raw, live}

abbrev read_of : List ℕ → Read
read_of bytes = record { cut = 0; at = 5; now = 5; bytes = bytes }

abbrev old : List Read
old = read_of (1 ∷ 2 ∷ 3 ∷ []) ∷ []

abbrev between : List Read
between = read_of (4 ∷ 5 ∷ []) ∷ []

abbrev after : List Read
after = read_of (6 ∷ []) ∷ []

-- The receiver holds the read before the replay, a change of the state, and the read behind it.
abbrev subscribed : List ServerToClientMsg
subscribed =
    output (b's' ∷ []) 5 (4 ∷ 5 ∷ [])
    ∷ agent_state_changed (b's' ∷ []) idle none
    ∷ output (b's' ∷ []) 6 (6 ∷ [])
    ∷ []

attach_bytes-forward_attached_events_example :
    take 2 (bytes_of (old ++ between))
      ++ ((attach_bytes raw 1 (some 2) (record_all raw (old ++ between) live.shown)).0.1
          ++ bytes_in (
              outputs_in (
                forward_attached_events
                  (b's' ∷ [])
                  (attach_bytes raw 1 (some 2) (record_all raw (old ++ between) live.shown)).0.0
                  (map event subscribed))))
    ≡ bytes_of (old ++ between) ++ bytes_of after
unfolding new record_all attach_bytes replay_from push
attach_bytes-forward_attached_events_example =
    attach_bytes-forward_attached_events raw old between after 1 2 4 live.shown (b's' ∷ [])
      subscribed refl (omega arith) (omega arith) (omega arith) refl

-- A receiver that is overtaken tells the client, and nothing more is sent.
overtaken :
    forward_attached_events (b's' ∷ []) 0 (lagged 3 ∷ event (output (b's' ∷ []) 9 (1 ∷ [])) ∷ [])
    ≡ lag (b's' ∷ []) 3 ∷ []
unfolding forward_attached_events
overtaken = refl
