-- ===== src/Tests/Connect.antt =====
-- A game server without matches, and a message that is the number of players.
use nodefall.Base.{ℕ, String, ◌≢◌, Option, some, [], length, eq_iff, arith, ◌*◌}
use nodefall.Runtime.Clock.{second}
use nodefall.Engine.State.{Snapshot}
use nodefall.Server.Client.{Client}
use nodefall.Server.Manager.{Manager}

abbrev pub head_count : Snapshot ℕ → Option ℕ
head_count shot = some (length shot.players)

abbrev pub dusk : ℕ
dusk = 63900060000 * second

abbrev pub empty : Manager ℕ ℕ (Client ℕ)
empty = record { matches = [] }

abbrev pub m1 : String
m1 = "m1"

pub m1_named : m1 ≢ ""
m1_named same = ground (arith, eq_iff m1 "")
