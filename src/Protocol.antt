-- ===== src/Protocol.antt =====
-- crates/protocol/src/types.rs: what the daemon tells of its sessions and devices.
use shelly.Prelude.{ℕ, Bool, true, false, Option, List, Text}
use shelly.Session.{AgentState}

pub data PushPlatform : Type 0 where
  apns fcm : PushPlatform

abbrev pub same_platform : PushPlatform → PushPlatform → Bool
same_platform apns apns = true
same_platform fcm fcm = true
same_platform _ _ = false

-- The id is given as its text.
pub record SessionSummary : Type 0 where
  pub id : Text
  pub name : Text
  pub command : List Text
  pub cwd : Text
  pub created_at : ℕ
  pub last_activity : ℕ
  pub state : AgentState
  pub last_line : Option Text
  pub model : Option Text
