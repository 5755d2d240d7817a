-- ===== src/Server/Client.antt =====
-- services/game/server/client.go: a connection's identity and its outgoing channel.
use nodefall.Base.{
  ℕ, ◌≤◌, String, Option, none, some, ltb, List, [], ◌∷◌, ◌++◌, length, length-append, arith,
  if◌then◌else◌,
}
use nodefall.Engine.State.{Transport}

-- The capacity of the channel that `ServeWS` makes.
abbrev pub send_buffer : ℕ
send_buffer = 16

-- `conn` tells the web sockets apart that the server has accepted.
pub record Client (M : Type 0) : Type 0 where
  pub id : String
  pub conn : ℕ
  pub queued : List M

module _ {M : Type 0} where
  -- `Send` does not block: a message for a full channel is dropped.
  unfoldable pub send : M → Client M → Client M
  send msg c =
      if ltb (length c.queued) send_buffer then record c { queued = c.queued ++ msg ∷ [] } else c

  -- What `writePump` takes next, and the client after that; `none` while the channel is empty.
  unfoldable pub receive : Client M → Option (M × Client M)
  receive c = elim c.queued [ [] ↦ none | msg ∷ rest ↦ some (msg, record c { queued = rest }) ]

  -- The client as the engine sees it.
  abbrev pub client_transport : Transport (Client M) M
  client_transport = record { id = λ c. c.id; send = send }

  -- A message that is sent leaves the channel within its capacity.
  pub send_bounded :
      (msg : M) (c : Client M)
      → length c.queued ≤ send_buffer
      → length (send msg c).queued ≤ send_buffer
  unfolding send
  send_bounded msg c h = ground (arith, length-append c.queued (msg ∷ []))
