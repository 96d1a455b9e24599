-- ===== src/Dispatch/Fixtures.antt =====
-- Test data of Dispatch: a daemon, what is linked, and the connections of a phone and of the desktop.
use shelly.Prelude.{ℕ, Bool, true, false, none, some, List, [], ◌∷◌, ◌++◌, Text, ok, text_eq}
use shelly.Session.{idle, unknown}
use shelly.Session.Clients.{failed}
use shelly.Session.Output.{Terminal}
use shelly.Persistence.{StoredDevice}
use shelly.Persistence.Fixtures.{libraries, device}
use shelly.Dispatch.Messages.{local_cli, ios_app}
use shelly.Registry.{LiveSession}
use shelly.Dispatch.{Spawn, Live, Daemon, World, Linked, Connection, connected}
use shelly.Dispatch.Peer.{Remote}
use shelly.Dispatch.Hello.{accepted}

-- The screen is all the bytes so far.
abbrev pub raw : Terminal (List ℕ)
raw = record {
  ingest = λ bytes t. (ok tt, t ++ bytes);
  render = λ t. (ok t, t);
  last_non_empty_line = λ t. (ok none, t);
  rebuild = λ scrollback t. scrollback;
  from_str = λ line. none;
}

abbrev pub linked : Linked (List ℕ)
linked = record {
  terminal = raw;
  store = libraries;
  sha256 = λ bytes. bytes;
  parse_key = λ key. some key;
}

abbrev pub live : Live (List ℕ)
live = record {
  shown = record {
    shown = record {
      command_kind = unknown;
      state = idle;
      working_since = none;
      last_activity = 0;
      exit_code = none;
      last_line = none;
      has_push = false;
      has_persistence = false;
      persist_dirty = false;
      killed = false;
      sent = [];
    };
    ring = record { capacity = 4; start_seq = 0; next_seq = 0; bytes = [] };
    terminal = [];
  };
  queue = record { queued = []; connected = true };
  sizes = record {
    attached_sizes = [];
    terminal_size = record { cols = 80; rows = 24 };
    scheduled = false;
  };
  process = record { group_signalled = false; io_shutdown = false };
}

abbrev pub started_under : Spawn → LiveSession
started_under asked = record {
  stored = record {
    summary = record {
      id = b's' ∷ [];
      name = asked.name;
      command = asked.command;
      cwd = asked.cwd;
      created_at = 1;
      last_activity = 1;
      state = idle;
      last_line = none;
      model = none;
    };
    scrollback_start_seq = 0;
    scrollback = [];
    exit_code = none;
  };
  was_killed = false;
}

abbrev pub world : World (List ℕ)
world = record {
  now = 9;
  cut = 0;
  takes = true;
  status = failed;
  kills = true;
  commits = true;
  nonce = [];
  start = 0;
  spawn = λ asked. some (b's' ∷ [], started_under asked);
  started = λ id. live;
  client_id = b'c' ∷ [];
  code = b'2' ∷ [];
  request_tx = 7;
  request_id = 3;
  is_open = λ tx. true;
  polled = λ round. none;
  shell = none;
  home = none;
}

abbrev pub phone_id : Text
phone_id = b'p' ∷ []

abbrev pub other_id : Text
other_id = b'o' ∷ []

abbrev pub with_devices : List (Text × StoredDevice) → Daemon (List ℕ)
with_devices devices = record {
  registry = record {
    sessions = [];
    restored = [];
    session_names = [];
    persistence = none;
    session_list = [];
  };
  live = [];
  list_scheduled = false;
  devices = record { devices = devices; persistence = none; device_revocations = []; push = [] };
  pairing = record { codes = []; approvals = (3, 3) ∷ [] };
  iroh_endpoint = some (record { node_id = b'd' ∷ []; relay_url = none; addrs = [] });
  push_enabled = false;
}

abbrev pub other : Text × StoredDevice
other = (other_id, device [] other_id 5 none none none)

abbrev pub paired_daemon : Daemon (List ℕ)
paired_daemon = with_devices ((phone_id, device [] phone_id 5 none none none) ∷ other ∷ [])

abbrev pub phone : Bool → Remote
phone paired = accepted (b'c' ∷ []) phone_id ios_app 5 paired

abbrev pub waiting : Remote
waiting = record (phone false) {
  waiting = some (record { request_id = 3; remaining_ms = 100 }, b'n' ∷ []);
}

abbrev pub desktop : Connection
desktop = connected (b'k' ∷ []) local_cli
