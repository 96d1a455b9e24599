-- ===== src/Registry/AutoNames.antt =====
-- crates/daemon/src/ipc.rs: the names that the daemon gives to sessions.
use shelly.Prelude.{[], ◌∷◌, List, Text}

abbrev waffle : Text
waffle = b'w' ∷ b'a' ∷ b'f' ∷ b'f' ∷ b'l' ∷ b'e' ∷ []

abbrev pickle : Text
pickle = b'p' ∷ b'i' ∷ b'c' ∷ b'k' ∷ b'l' ∷ b'e' ∷ []

abbrev noodle : Text
noodle = b'n' ∷ b'o' ∷ b'o' ∷ b'd' ∷ b'l' ∷ b'e' ∷ []

abbrev bagel : Text
bagel = b'b' ∷ b'a' ∷ b'g' ∷ b'e' ∷ b'l' ∷ []

abbrev nacho : Text
nacho = b'n' ∷ b'a' ∷ b'c' ∷ b'h' ∷ b'o' ∷ []

abbrev spatula : Text
spatula = b's' ∷ b'p' ∷ b'a' ∷ b't' ∷ b'u' ∷ b'l' ∷ b'a' ∷ []

abbrev kazoo : Text
kazoo = b'k' ∷ b'a' ∷ b'z' ∷ b'o' ∷ b'o' ∷ []

abbrev widget : Text
widget = b'w' ∷ b'i' ∷ b'd' ∷ b'g' ∷ b'e' ∷ b't' ∷ []

abbrev pancake : Text
pancake = b'p' ∷ b'a' ∷ b'n' ∷ b'c' ∷ b'a' ∷ b'k' ∷ b'e' ∷ []

abbrev sprocket : Text
sprocket = b's' ∷ b'p' ∷ b'r' ∷ b'o' ∷ b'c' ∷ b'k' ∷ b'e' ∷ b't' ∷ []

abbrev marble : Text
marble = b'm' ∷ b'a' ∷ b'r' ∷ b'b' ∷ b'l' ∷ b'e' ∷ []

abbrev boomerang : Text
boomerang = b'b' ∷ b'o' ∷ b'o' ∷ b'm' ∷ b'e' ∷ b'r' ∷ b'a' ∷ b'n' ∷ b'g' ∷ []

abbrev muffin : Text
muffin = b'm' ∷ b'u' ∷ b'f' ∷ b'f' ∷ b'i' ∷ b'n' ∷ []

abbrev donut : Text
donut = b'd' ∷ b'o' ∷ b'n' ∷ b'u' ∷ b't' ∷ []

abbrev toaster : Text
toaster = b't' ∷ b'o' ∷ b'a' ∷ b's' ∷ b't' ∷ b'e' ∷ b'r' ∷ []

abbrev sprinkle : Text
sprinkle = b's' ∷ b'p' ∷ b'r' ∷ b'i' ∷ b'n' ∷ b'k' ∷ b'l' ∷ b'e' ∷ []

abbrev gizmo : Text
gizmo = b'g' ∷ b'i' ∷ b'z' ∷ b'm' ∷ b'o' ∷ []

abbrev jellybean : Text
jellybean = b'j' ∷ b'e' ∷ b'l' ∷ b'l' ∷ b'y' ∷ b'b' ∷ b'e' ∷ b'a' ∷ b'n' ∷ []

abbrev pub auto_session_names : List Text
auto_session_names =
    waffle ∷ pickle ∷ noodle ∷ bagel ∷ nacho ∷ spatula ∷ kazoo ∷ widget ∷ pancake ∷ sprocket
    ∷ marble ∷ boomerang ∷ muffin ∷ donut ∷ toaster ∷ sprinkle ∷ gizmo ∷ jellybean ∷ []
