-- ===== src/Server/Hall/Cases.antt =====
-- services/game/server: the case rule of a new connection, and who is behind a socket.
use nodefall.Base.{
  ℕ, String, ◌==◌, eq_iff, true, false, eqb, ◌≡◌, ◌∙◌, sym, ap, Option, none, some, List, [], ◌∷◌,
  arith, if◌then◌else◌, Bool-cases, inl, inr,
}
use mathlib.Core.Option.{some_inj}
use nodefall.Base.Dict.{lookup}
use nodefall.Runtime.Float.{Float}
use nodefall.Runtime.Random.{Random}
use nodefall.Engine.State.{Snapshot, random_spawn}
use nodefall.Engine.Session.{is_allowed, start_countdown, admit, join}
use nodefall.Server.Connect.{server_host, connection}
use nodefall.Server.Hall.{Link, Hall, player_of, unlink, set_adrift, connect}

pub player_of-unlink :
    (m n : ℕ) (ls : List Link)
    → player_of m (unlink n ls) ≡ (if eqb m n then none else player_of m ls)
unfolding player_of unlink
player_of-unlink m n [] = ground arith
player_of-unlink m n (l ∷ ls) = ground (arith, player_of-unlink m n ls)

-- A link with a new socket hides no other.
pub player_of-link :
    (n m : ℕ) (j player : String) (ls : List Link)
    → player_of n ls ≡ none
    → player_of m ls ≡ some j
    → player_of m (record { conn = n; player = player } ∷ ls) ≡ some j
unfolding player_of
player_of-link n m j player ls fresh open_m = elim (Bool-cases (eqb n m)) [
  | inl same ↦ let e : n ≡ m = ground arith in cc (ap (λ k. player_of k ls) e)
  | inr other ↦ rw other open_m
]

-- Two sockets of two players are two.
pub other_socket :
    (m n : ℕ) (j p : String) (ls : List Link)
    → player_of n ls ≡ some p
    → player_of m ls ≡ some j
    → (j == p) ≡ false
    → eqb m n ≡ false
other_socket m n j p ls at_n at_m ne = elim (Bool-cases (eqb m n)) [
  | inl same ↦
      let e : m ≡ n = ground arith in
      let one : j ≡ p = some_inj.0 (sym at_m ∙ ap (λ k. player_of k ls) e ∙ at_n) in
      cc ((eq_iff j p).1 one)
  | inr other ↦ other
]

module _ {F S M : Type 0} (fl : Float F) (rnd : Random F S) (marshal : Snapshot F → Option M) where
  -- The client is refused and nothing changes, or it is on the roster and is let in.
  pub connect_cases {ℓ} :
      (P : Hall F S M → Type ℓ) (now n : ℕ) (player : String) (t : Hall F S M)
      → P t
      → (is_allowed t.engine.allowed_players player ≡ true
          → let (x, y, u) = random_spawn fl rnd t.random in
            P (record {
              engine =
                  admit
                    (server_host fl rnd marshal)
                    (connection fl rnd marshal n player)
                    x
                    y
                    (start_countdown (server_host fl rnd marshal) now t.engine);
              random = u;
              links = record { conn = n; player = player } ∷ t.links;
              adrift = set_adrift (lookup player t.engine.clients) t.adrift;
            }))
      → P (connect fl rnd marshal now n player t)
  unfolding connect join
  connect_cases P now n player t refused let_in =
      elim (Bool-cases (is_allowed t.engine.allowed_players player)) [
        | inl on_roster ↦ rw on_roster (let_in on_roster)
        | inr off_roster ↦ rw off_roster refused
      ]
