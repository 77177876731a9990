-- ===== src/Client/Incoming.antt =====
-- What arrives at `client_impl`: `on_message` and `on_decode` of sio_client_impl.cpp. `invoke` is what
-- calling a listener of a socket does.
use taquin_client_project.Base.{ℕ, Bytes, codes, if◌then◌else◌, is_pos, none, some, List, [], ◌∷◌}
use taquin_client_project.Base.SortedMap.{find, bytes_key}
use taquin_client_project.Result.{Result, ok, ◌>>=◌}
use taquin_client_project.Packet.{Packet, Codec}
use taquin_client_project.Packet.Manager.{put_payload}
use taquin_client_project.Socket.{Socket, Event}
use taquin_client_project.Socket.Messages.{on_message_packet}
use taquin_client_project.Client.{
  Client, abnormal_close, settle, tell, arm_timer, ping_timeout_timer,
}
use taquin_client_project.Client.Connection.{close_impl}
use taquin_client_project.Client.Handshake.{on_handshake, on_pong}

module _ (codec : Codec) (invoke : ℕ → Event → Socket → Event × Socket) where
  -- The packet goes to the socket of its namespace, if there is one.
  unfoldable pub deliver : Packet → Client → Result Client
  deliver p c = elim (find p.nsp c.sockets) [
    | none ↦ ok c
    | some s ↦ on_message_packet invoke p (record s { next_id = c.next_id }) >>= λ s'.
        settle codec p.nsp s' c
  ]

  -- The `switch` on the frame: message, open, close and pong; any other is ignored.
  unfoldable pub on_decode : Packet → Client → Result Client
  on_decode p c =
      if is_pos p.frame 4
      then deliver p c
      else if is_pos p.frame 0
      then on_handshake p.message c
      else if is_pos p.frame 1
      then ok (close_impl abnormal_close (codes "End by server") c)
      else if is_pos p.frame 3
      then ok (on_pong c)
      else ok c

  unfoldable pub on_decode_all : List Packet → Client → Result Client
  on_decode_all [] c = ok c
  on_decode_all (p ∷ ps) c = on_decode p c >>= on_decode_all ps

  -- A message puts the pong timeout off, and is parsed.
  unfoldable pub on_message : Bytes → Client → Result Client
  on_message payload c =
      let c' =
        if c.has_ping_timeout_timer
        then tell c (arm_timer ping_timeout_timer c.ping_timeout ∷ [])
        else c in
      put_payload codec c'.packet_mgr payload >>= λ (m, ps).
      on_decode_all ps (record c' { packet_mgr = m })
