-- ===== src/Tests/Halls.antt =====
-- The theorems about a match and its connections at a match of two players.
use nodefall.Base.{
  ℕ, String, true, is_some, ◌≡◌, ◌↔◌, refl, none, some, [], ◌∷◌, ◌≢◌, eq_iff, arith,
}
use nodefall.Base.Dict.{lookup, insert}
use nodefall.Engine.State.{Input, random_spawn}
use nodefall.Engine.Session.{roster_of, new_engine, new_for_players, start_countdown, admit, join}
use nodefall.Server.Hall.{
  Hall, connects, reads, drops, player_of, connect, disconnect, step, Reach, here, next,
}
use nodefall.Server.Hall.Links.{Wired, HasFreshSocket, Reach-Wired}
use nodefall.Server.Hall.Members.Single.{new_hall, IsSingle, new_hall-Wired, members_connected}
use nodefall.Server.Hall.Stale.{drops_other}
use nodefall.Tests.Host.{tenths, counting}
use nodefall.Tests.Connect.{head_count, dusk}

abbrev fire : Input ℕ
fire = record { dx = 0; dy = 0; angle = 0; shoot = true }

abbrev opened : Hall ℕ ℕ ℕ
opened = new_hall tenths counting head_count ("ann" ∷ "bob" ∷ []) dusk 0

abbrev entered : ℕ → String → Hall ℕ ℕ ℕ → Hall ℕ ℕ ℕ
entered = connect tenths counting head_count dusk

-- Ann connects twice, over the sockets 1 and 2.
abbrev twice : Hall ℕ ℕ ℕ
twice = entered 2 "ann" (entered 1 "ann" opened)

twice_reached :
    Reach tenths counting head_count (HasFreshSocket tenths counting head_count) opened twice
unfolding new_for_players step player_of connect join admit roster_of new_engine start_countdown
    lookup insert random_spawn
twice_reached = next (connects dusk 2 "ann") (next (connects dusk 1 "ann") here refl refl) refl refl

Reach-Wired_example : Wired twice
Reach-Wired_example =
    Reach-Wired tenths counting head_count
      (new_hall-Wired tenths counting head_count ("ann" ∷ "bob" ∷ []) dusk 0) twice_reached

no_link : (m : ℕ) → player_of m [] ≢ some "ann"
unfolding player_of
no_link m open_m = cc

one_link : (m : ℕ) → player_of m (record { conn = 1; player = "ann" } ∷ []) ≢ some "bob"
unfolding player_of
one_link m open_m = ground (arith, eq_iff "ann" "bob")

-- Ann and Bob connect, and Ann's connection ends.
abbrev left : Hall ℕ ℕ ℕ
left = disconnect tenths counting head_count 1 "ann" (entered 2 "bob" (entered 1 "ann" opened))

left_reached : Reach tenths counting head_count (IsSingle tenths counting head_count) opened left
unfolding new_for_players step player_of connect join admit roster_of new_engine start_countdown
    lookup insert random_spawn
left_reached =
    next (drops 1)
      (next (connects dusk 2 "bob") (next (connects dusk 1 "ann") here (refl, no_link) refl)
        (refl, one_link) refl)
      tt refl

members_connected_example :
    (is_some (lookup "bob" left.engine.players) ≡ true)
    ↔ ((n : ℕ) × (player_of n left.links ≡ some "bob"))
members_connected_example =
    members_connected tenths counting head_count ("ann" ∷ "bob" ∷ []) dusk 0 left "bob" left_reached

drops_other_example :
    let u = disconnect tenths counting head_count 1 "ann" twice in
    (step tenths counting head_count (drops 1) twice ≡ some u)
    × (lookup "ann" u.engine.players ≡ none)
    × (player_of 2 u.links ≡ some "ann")
    × (step tenths counting head_count (reads dusk 2 (some fire)) u ≡ some u)
unfolding new_for_players player_of connect join admit roster_of new_engine start_countdown lookup
    insert random_spawn
drops_other_example =
    drops_other tenths counting head_count 1 2 dusk "ann" (some fire) twice refl refl refl
