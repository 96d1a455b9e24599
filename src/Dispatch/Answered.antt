-- ===== src/Dispatch/Answered.antt =====
-- The answers over the desktop's socket.
use shelly.Prelude.{text_eq}
use shelly.Prelude.Dict.{Dict}
use shelly.Session.{Session}
use shelly.Devices.{Devices}
use shelly.Registry.{Registry}
