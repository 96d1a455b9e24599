-- ===== src/Dispatch/Expected.antt =====
-- Which answer of the desktop's socket belongs to which message.
use shelly.Prelude.{ℕ, ◌≡◌, Bool, true, false, Option, List, [], ◌∷◌, Text, text_eq}
use shelly.Prelude.Dict.{Dict, contains_key}
use shelly.Protocol.{SessionSummary}
use shelly.Session.{ClientSize, AgentState, AgentSource}
use shelly.Registry.{summaries}
use shelly.Ticket.{PairingTicket}
use shelly.Dispatch.Messages.{
  ClientToServerMsg, hello, list_sessions, subscribe_sessions, create_session, attach_session,
  detach_session, kill_session, input, resize, ping, begin_pairing, approve_pairing, list_devices,
  remove_device, agent_state_event, ServerToClientMsg, ErrorCode, session_list, session_created,
  session_killed, attached, agent_state_changed, pairing_started, device_list, pong, error,
}
use shelly.Dispatch.{Daemon, Connection, Reply, device_summaries}

-- A hello is repeated, a detach ends the connection, and the others are answered where they fail.
abbrev pub expects_answer : ClientToServerMsg → Bool
expects_answer (hello kind version protocol_version) = false
expects_answer detach_session = false
expects_answer (input id bytes) = false
expects_answer (resize id size) = false
expects_answer (approve_pairing request_id approved) = false
expects_answer _ = true

-- The lists of sessions and the ping are never refused.
abbrev pub may_fail : ClientToServerMsg → Bool
may_fail list_sessions = false
may_fail subscribe_sessions = false
may_fail (ping seq) = false
may_fail _ = true

-- The answers to a message, over the daemon behind it. A message without a line of its own has no
-- other answer than an error.
pub data IsAnswer {T : Type 0} (after : Daemon T)
    : ClientToServerMsg → ServerToClientMsg → Type 0 where
  lists : IsAnswer after list_sessions (session_list (summaries after.registry))
  subscribes : IsAnswer after subscribe_sessions (session_list after.registry.session_list)
  creates :
      (name : Text) (command : List Text) (cwd : Text) (env : Dict Text Text) (size : ClientSize)
      (id : Text) (summary : SessionSummary)
      → contains_key id after.live ≡ true
      → IsAnswer after (create_session name command cwd env size) (session_created id summary)
  attaches :
      (id : Text) (size : ClientSize) (last_seen : Option ℕ) (bytes : List ℕ) (seq : ℕ)
      → IsAnswer after (attach_session id size last_seen) (attached id bytes seq)
  kills : (id : Text) → IsAnswer after (kill_session id) (session_killed id)
  pongs : (seq : ℕ) → IsAnswer after (ping seq) (pong seq)
  starts :
      (device_name : Option Text) (ticket : PairingTicket)
      → IsAnswer after (begin_pairing device_name) (pairing_started ticket)
  devices : IsAnswer after list_devices (device_list (device_summaries after.devices))
  removes :
      (name : Text)
      → IsAnswer after (remove_device name) (device_list (device_summaries after.devices))
  hears :
      (id : Text) (source : AgentSource) (state : AgentState) (line told : Option Text)
      → IsAnswer after (agent_state_event id source state line) (agent_state_changed id state told)
  refuses :
      (message : ClientToServerMsg) (code : ErrorCode)
      → may_fail message ≡ true
      → IsAnswer after message (error code)

-- The first message sent is an answer.
abbrev pub AnswersWith :
    {T : Type 0} → Daemon T → ClientToServerMsg → List ServerToClientMsg → Type 0
AnswersWith after message [] = ⊥
AnswersWith after message (first ∷ rest) = IsAnswer after message first

abbrev pub IsAnswered : {T : Type 0} → ClientToServerMsg → Reply T Connection → Type 0
IsAnswered message r = AnswersWith r.daemon message r.sent
