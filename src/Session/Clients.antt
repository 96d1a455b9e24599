-- ===== src/Session/Clients.antt =====
-- crates/daemon/src/session.rs: the queue of the input, the clients that are attached with their sizes,
-- the kill and the exit code. The terminal and the process are interfaces.
use shelly.Prelude.{
  ℕ, zero, suc, Bool, true, false, ltb, Option, none, some, List, [], ◌∷◌, ◌++◌, Text, length,
  if◌then◌else◌, Result, ok, err, text_eq,
}
use shelly.Prelude.Dict.{Dict, lookup, insert, remove}
use shelly.Session.{Session, ClientSize, min_client_size, input_written}

abbrev pub pty_write_queue_capacity : ℕ
pty_write_queue_capacity = 64

pub data PtyWriteError : Type 0 where
  backpressure closed : PtyWriteError

-- The channel to the thread of the terminal; it is disconnected when the thread has ended.
pub record WriteQueue : Type 0 where
  pub queued : List (List ℕ)
  pub connected : Bool

unfoldable pub try_send : List ℕ → WriteQueue → Result PtyWriteError (Unit {0}) × WriteQueue
try_send [] q = (ok tt, q)
try_send (b ∷ bytes) q =
    if q.connected
    then if ltb (length q.queued) pty_write_queue_capacity
      then (ok tt, record q { queued = q.queued ++ (b ∷ bytes) ∷ [] })
      else (err backpressure, q)
    else (err closed, q)

-- The next input of the thread, once it has written what is before.
unfoldable pub try_recv : WriteQueue → Option (List ℕ) × WriteQueue
try_recv q = elim q.queued [
  | [] ↦ (none, q)
  | bytes ∷ rest ↦ (some bytes, record q { queued = rest })
]

abbrev pub answered :
    ℕ
    → Session
    → Result PtyWriteError (Unit {0}) × WriteQueue
    → Result PtyWriteError (Unit {0}) × WriteQueue × Session
answered now s (ok u, q) = (ok tt, q, input_written now s)
answered now s (err e, q) = (err e, q, s)

unfoldable pub write_input :
    ℕ → List ℕ → WriteQueue → Session → Result PtyWriteError (Unit {0}) × WriteQueue × Session
unfolding try_send
write_input now bytes q s = answered now s (try_send bytes q)

-- `values` of the map of sizes.
abbrev pub sizes_of : Dict Text ClientSize → List ClientSize
sizes_of [] = []
sizes_of ((id, size) ∷ sizes) = size ∷ sizes_of sizes

-- The sizes of the clients, the size of the terminal, and whether the debounced resize is asked for.
pub record Attached : Type 0 where
  pub attached_sizes : Dict Text ClientSize
  pub terminal_size : ClientSize
  pub scheduled : Bool

-- `resize`: whether the terminal takes the size is an argument; the projection follows it.
unfoldable pub resize : Bool → ClientSize → Attached → Bool × Attached
resize takes size a = if takes then (true, record a { terminal_size = size }) else (false, a)

unfoldable pub apply_min_attached_resize : Bool → Attached → Bool × Attached
unfolding resize
apply_min_attached_resize takes a = elim (min_client_size (sizes_of a.attached_sizes)) [
  | none ↦ (true, a)
  | some size ↦ resize takes size a
]

unfoldable pub attach_client : Bool → Text → ClientSize → Attached → Bool × Attached
unfolding apply_min_attached_resize
attach_client takes id size a =
    apply_min_attached_resize takes (record a { attached_sizes = insert id size a.attached_sizes })

-- A client that is not attached is not added.
unfoldable pub update_client_size : Text → ClientSize → Attached → Attached
update_client_size id size a = record a {
  attached_sizes = elim (lookup id a.attached_sizes) [
    | none ↦ a.attached_sizes
    | some old ↦ insert id size a.attached_sizes
  ];
  scheduled = true;
}

unfoldable pub detach_client : Text → Attached → Attached
detach_client id a = record a { attached_sizes = remove id a.attached_sizes; scheduled = true }

-- The thread of the resizes, behind its pause; a failure is logged.
unfoldable pub resize_round : Bool → Session → Attached → Attached
unfolding apply_min_attached_resize
resize_round takes s a =
    if a.scheduled
    then elim s.exit_code [
      | none ↦ (apply_min_attached_resize takes (record a { scheduled = false })).1
      | some code ↦ a
    ]
    else a

-- What `try_wait` answers of the process: an error, that it runs, or its exit code.
pub data ChildStatus : Type 0 where
  failed running : ChildStatus
  ended : ℕ → ChildStatus

-- The rounds of `reap_exit_code` that are left, from the one given.
unfoldable pub reap_from : (ℕ → ChildStatus) → ℕ → ℕ → ℕ → ℕ
reap_from try_wait fallback attempt zero = fallback
reap_from try_wait fallback attempt (suc left) =
    let rest = reap_from try_wait fallback (suc attempt) left in
    elim (try_wait attempt) [ failed ↦ fallback | running ↦ rest | ended code ↦ code ]

unfoldable pub reap_exit_code : (ℕ → ChildStatus) → ℕ → ℕ
unfolding reap_from
reap_exit_code try_wait fallback = reap_from try_wait fallback 0 40

-- The kill of the process, its answers, and what is done in any case.
pub record Process : Type 0 where
  pub group_signalled : Bool
  pub io_shutdown : Bool

unfoldable pub kill : ChildStatus → Bool → Session → Process → Bool × Session × Process
kill status kills s p =
    let primary : Bool = elim status [ failed ↦ false | running ↦ kills | ended code ↦ true ] in
    (primary, record s { killed = true }, record p { group_signalled = true; io_shutdown = true })
