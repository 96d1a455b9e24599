-- ===== src/Devices/Tests.antt =====
-- Witnesses and tests of Devices.
use shelly.Prelude.{◌≡◌, refl, true, false, none, some, [], ◌∷◌, Text, ok}
use shelly.Prelude.Dict.{lookup, insert}
use shelly.Protocol.{apns}
use shelly.Signing.{strip_prefix}
use shelly.Persistence.{StoredDevice, Persistence, database}
use shelly.Persistence
use shelly.Persistence.Fixtures.{libraries, libraries-IsLawful, device, a_nonce, empty_store}
use shelly.Devices.{
  Devices, Call, save_device, update_device_push, clear_device_push, remove_device_by_node_id,
  remove_device, find_device,
}
use shelly.Devices.Durable.{IsDurable}
use shelly.Devices.Restart.{done, then_step, saves, updates, removes, Loads, Steps-IsDurable}
use shelly.Devices.Removal.{IsOutcome, remove_device_by_node_id-IsOutcome, clear_device_push_retry}

abbrev phone_id : Text
phone_id = b'p' ∷ []

abbrev phone : StoredDevice
phone = device [] phone_id 5 none none none

abbrev call : Call
call = record { now = 9; commits = true; nonce = a_nonce }

abbrev failing : Call
failing = record { now = 9; commits = false; nonce = a_nonce }

abbrev empty : Devices
empty = record { devices = []; persistence = some empty_store; device_revocations = []; push = [] }

abbrev paired : Devices
paired = (save_device libraries call phone empty).1

abbrev with_token : Devices
with_token = (update_device_push libraries call phone_id apns (7 ∷ []) paired).1

abbrev unpaired : Devices
unpaired = (remove_device libraries call phone_id with_token).1

Steps-IsDurable_example :
    IsDurable libraries unpaired.devices unpaired.persistence
    × Loads libraries unpaired.devices unpaired.persistence
unfolding save_device update_device_push remove_device strip_prefix lookup insert
    Persistence.save_device Persistence.set_push_token find_device Persistence.remove_device
Steps-IsDurable_example =
    Steps-IsDurable libraries libraries-IsLawful (λ a b e. e)
      (then_step
        (then_step (then_step done (saves call phone empty refl (refl, refl) refl))
          (updates call phone_id apns (7 ∷ []) paired true (refl, refl) refl))
        (removes call phone_id with_token _ refl))
      (record {
        unique = tt;
        keyed = λ id d found. absurd (cc found);
        agrees = (tt, (λ id. refl), λ key bytes read found decoded. absurd (cc found));
      })

remove_device_by_node_id-IsOutcome_example :
    IsOutcome phone_id with_token
      (remove_device_by_node_id libraries call phone_id with_token).0
      (remove_device_by_node_id libraries call phone_id with_token).1
unfolding save_device update_device_push lookup insert strip_prefix Persistence.save_device
    Persistence.set_push_token
remove_device_by_node_id-IsOutcome_example =
    remove_device_by_node_id-IsOutcome libraries call phone_id with_token (refl, tt)

abbrev not_cleared : Devices
not_cleared = (clear_device_push libraries failing phone_id apns (7 ∷ []) with_token).1

clear_device_push_retry_example :
    (clear_device_push libraries call phone_id apns (7 ∷ []) not_cleared ≡ (ok true, not_cleared))
    × (not_cleared.push ≡ with_token.push)
    × (not_cleared.persistence ≡ with_token.persistence)
unfolding save_device update_device_push clear_device_push lookup insert strip_prefix
    Persistence.save_device Persistence.set_push_token Persistence.clear_push_token
clear_device_push_retry_example =
    clear_device_push_retry libraries failing call phone_id apns (7 ∷ []) with_token database refl
