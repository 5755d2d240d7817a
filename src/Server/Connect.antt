-- ===== src/Server/Connect.antt =====
-- services/game/server/server.go: `ServeWS` up to the moment when the connection's pumps start, and
-- one message of `readPump`.
use nodefall.Base.{
  ℕ, String, ◌==◌, false, Option, none, some, List, [], ◌≡◌, eq_iff, ◌≢◌, refl, arith,
  if◌then◌else◌, inl, inr, Option-cases,
}
use nodefall.Base.Dict.{lookup, insert, has, lookup-insert_self, lookup-insert_ne}
use nodefall.Http.{Answer, http_error, status_unauthorized, status_bad_request, status_not_found}
use nodefall.Runtime.Float.{Float}
use nodefall.Runtime.Random.{Random}
use nodefall.Engine.State.{Engine, Host, Input, Snapshot}
use nodefall.Engine.Session.{join, handle_input, new_for_players}
use nodefall.Engine.Roster.{is_allowed-roster_of}
use nodefall.Server.Client.{Client, client_transport}
use nodefall.Server.Manager.{Manager, Match, get, create_match, start_match}

-- How a connection attempt ends: with an HTTP error, at the upgrade (`websocket.Accept` has answered
-- by itself), with the close frame "not part of this match", or with a player in a match.
pub data Outcome : Type 0 where
  answered : Answer → Outcome
  not_upgraded closed joined : Outcome

module _ {F S M : Type 0} (fl : Float F) (rnd : Random F S) (marshal : Snapshot F → Option M) where
  -- The engine's host in this server.
  abbrev pub server_host : Host F S (Client M) M
  server_host = record { float = fl; random = rnd; transport = client_transport; marshal = marshal }

  -- A new client over the socket `n`.
  abbrev pub connection : ℕ → String → Client M
  connection n player = record { id = player; conn = n; queued = [] }

  -- `e.Join(client)`, with the match written back.
  unfoldable pub enter :
      ℕ
      → ℕ
      → String
      → String
      → Match F S (Client M)
      → Manager F S (Client M)
      → Outcome × Manager F S (Client M)
  enter now n player match_id (e, s) m =
      let (e', t, let_in) = join server_host now (connection n player) e s in
      (if let_in then joined else closed, record { matches = insert match_id (e', t) m.matches })

  -- `player` is the identity that the middleware verified, `match_id` the query parameter (empty if it
  -- is missing), `upgraded` the web socket, if `websocket.Accept` succeeded.
  unfoldable pub serve_ws :
      ℕ
      → Option String
      → String
      → Option ℕ
      → Manager F S (Client M)
      → Outcome × Manager F S (Client M)
  serve_ws now none match_id upgraded m =
      (answered (http_error "missing verified identity" status_unauthorized), m)
  serve_ws now (some player) match_id upgraded m =
      if match_id == ""
      then (answered (http_error "missing match id" status_bad_request), m)
      else elim (get server_host match_id m) [
        | none ↦ (answered (http_error "match not found" status_not_found), m)
        | some mt ↦ elim upgraded [
          | none ↦ (not_upgraded, m)
          | some n ↦ enter now n player match_id mt m
        ]
      ]

  -- A message of `readPump`: what does not decode is skipped.
  unfoldable pub read_message :
      {D : Type 0}
      → (D → Option (Input F))
      → ℕ
      → Client M
      → D
      → Engine F (Client M)
      → Engine F (Client M)
  read_message decode now c message e = elim (decode message) [
    | none ↦ e
    | some input ↦ handle_input server_host now c input e
  ]

  join_outcome :
      (ids : List String) (t now n : ℕ) (s : S) (player : String)
      → let (e, u) = new_for_players server_host ids t s in
        (join server_host now (connection n player) e u).2 ≡ has player ids
  unfolding new_for_players join
  join_outcome ids t now n s player = ground (arith, is_allowed-roster_of player ids)

  -- On a server that has started a match, a verified player whose connection is upgraded gets into
  -- that match exactly if the player is on its roster.
  pub serve_ws-start_match :
      (addr match_id player : String) (ids : List String) (t now n : ℕ) (s : S)
      (m : Manager F S (Client M))
      → match_id ≢ ""
      → (serve_ws now
          (some player)
          match_id
          (some n)
          (start_match server_host addr t s match_id ids m).1).0
        ≡ (if has player ids then joined else closed)
  unfolding serve_ws start_match create_match get enter
  serve_ws-start_match addr match_id player ids t now n s m named = ground (
    arith,
    eq_iff match_id "",
    join_outcome ids t now n s player,
    lookup-insert_self match_id m.matches (new_for_players server_host ids t s),
  )

  enter_others :
      (now n : ℕ) (player match_id other : String) (mt : Match F S (Client M))
      (m : Manager F S (Client M))
      → (match_id == other) ≡ false
      → lookup other (enter now n player match_id mt m).1.matches ≡ lookup other m.matches
  unfolding enter
  enter_others now n player match_id other mt m ne = lookup-insert_ne match_id m.matches other _ ne

  -- No connection attempt touches a match other than the one it names.
  serve_ws_others :
      (now : ℕ) (player : Option String) (match_id other : String) (upgraded : Option ℕ)
      (m : Manager F S (Client M))
      → (match_id == other) ≡ false
      → get server_host other (serve_ws now player match_id upgraded m).1 ≡ get server_host other m
  unfolding serve_ws get
  serve_ws_others now none match_id other upgraded m ne = refl
  serve_ws_others now (some player) match_id other none m ne = ground arith
  serve_ws_others now (some player) match_id other (some n) m ne =
      elim (Option-cases (lookup match_id m.matches)) [
        | inl unknown ↦ ground arith
        | inr (mt, there) ↦ ground (arith, enter_others now n player match_id other mt m ne)
      ]
