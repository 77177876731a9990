-- ===== src/Socket/Messages.antt =====
-- The messages that a socket receives: the rest of sio_socket.cpp. `invoke` is what calling a listener
-- does: it sees the event, may answer it, and may call any method of the socket.
use taquin_client_project.Base.{
  ℕ, ◌%◌, ◌^◌, ◌-◌, ℤ, pos, negsuc, is_pos, is_nonneg, Bytes, bytes_eq, if◌then◌else◌, Option, none,
  some, List, [], ◌∷◌, ◌++◌,
}
use taquin_client_project.Base.SortedMap.{find, erase, nat_key}
use taquin_client_project.Result.{Result, ok, ◌>>=◌}
use taquin_client_project.Message.{
  Message, Ptr, Ptrs, ptr, string, array, nil, cons, to_list, deref,
}
use taquin_client_project.Message.Arrays.{push}
use taquin_client_project.Message.Lists.{from_message}
use taquin_client_project.Packet.{
  Packet, get_type, type_connect, type_disconnect, type_event, type_ack, type_error,
  type_binary_event, type_binary_ack,
}
use taquin_client_project.Socket.{
  Socket, Event, call_ack, call_error, create_event, get_bind_listener, add_log, ack, on_connected,
  on_close,
}

-- `msgId` as the `unsigned` key of `m_acks`.
abbrev pub ack_key : ℤ → ℕ
ack_key (pos n) = n
ack_key (negsuc n) = 2 ^ 32 - 1 - n % 2 ^ 32

-- The callback of an acknowledgement is erased and then called.
unfoldable pub on_socketio_ack : ℤ → List Ptr → Socket → Socket
on_socketio_ack id messages s = elim (find (ack_key id) s.acks) [
  | none ↦ s
  | some callback ↦ record s {
    acks = erase (ack_key id) s.acks;
    log = s.log ++ call_ack callback messages ∷ [];
  }
]

unfoldable pub on_socketio_error : Ptr → Socket → Socket
on_socketio_error m s = elim s.error_listener [
  | none ↦ s
  | some l ↦ add_log s (call_error l m ∷ [])
]

-- The elements of an array, or a list of the one message.
abbrev pub ack_messages : Message → List Ptr
ack_messages (array ps) = to_list ps
ack_messages m = from_message (ptr m)

-- `mlist.push` of the elements behind the name.
unfoldable pub push_all : List Ptr → List Ptr → List Ptr
push_all mlist [] = mlist
push_all mlist (p ∷ ps) = push_all (push mlist p) ps

module _ (invoke : ℕ → Event → Socket → Event × Socket) where
  abbrev pub call : Option ℕ → Event → Socket → Event × Socket
  call none ev s = (ev, s)
  call (some l) ev s = invoke l ev s

  -- The listener is called first; an event with an id is acknowledged with what it left.
  unfoldable pub on_socketio_event : Bytes → ℤ → Bytes → List Ptr → Socket → Result Socket
  on_socketio_event nsp id name messages s =
      let (ev, s') =
        call (get_bind_listener name s) (create_event nsp name messages (is_nonneg id)) s in
      if is_nonneg id then ack id ev.ack_message s' else ok s'

  -- `get_vector()[0]->get_flag() == flag_string`: the first element is dereferenced.
  unfoldable pub on_event_array : Packet → Ptrs → Socket → Result Socket
  on_event_array p nil s = ok s
  on_event_array p (cons first rest) s = deref first >>= elim [
    | string name ↦ on_socketio_event p.nsp p.pack_id name (push_all [] (to_list rest)) s
    | _ ↦ ok s
  ]

  -- An event is an array that starts with its name; any other message is ignored.
  unfoldable pub on_event_packet : Packet → Socket → Result Socket
  on_event_packet p s = deref p.message >>= elim [ array ps ↦ on_event_array p ps s | _ ↦ ok s ]

  unfoldable pub on_ack_packet : Packet → Socket → Result Socket
  on_ack_packet p s = deref p.message >>= λ m. ok (on_socketio_ack p.pack_id (ack_messages m) s)

  -- The `switch` on the type.
  unfoldable pub on_type : ℤ → Packet → Socket → Result Socket
  on_type t p s =
      if is_pos t type_connect
      then ok (on_connected s)
      else if is_pos t type_disconnect
      then ok (on_close s)
      else if is_pos t type_event
      then on_event_packet p s
      else if is_pos t type_binary_event
      then on_event_packet p s
      else if is_pos t type_ack
      then on_ack_packet p s
      else if is_pos t type_binary_ack
      then on_ack_packet p s
      else if is_pos t type_error
      then ok (on_socketio_error p.message s)
      else ok s

  unfoldable pub on_message_packet : Packet → Socket → Result Socket
  on_message_packet p s =
      if s.attached
      then (if bytes_eq p.nsp s.nsp then (get_type p >>= λ t. on_type t p s) else ok s)
      else ok s
