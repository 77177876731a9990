-- ===== src/Tests/Clients.antt =====
-- Two clients that share a photo.
use taquin_client_project.Base.{
  ℕ, ◌≡◌, refl, arith, codes, bytes_eq, ◌==◌, if◌then◌else◌, true, none, some, List, [], ◌∷◌, ◌++◌,
}
use taquin_client_project.Base.SortedMap.{find, nat_key, bytes_key}
use taquin_client_project.Result.{ok, ◌>>=◌}
use taquin_client_project.Message.Lists.{to_event_message, to_array_message}
use taquin_client_project.Packet.Head.{Nsp, named}
use taquin_client_project.Packet.Manager.{Payload}
use taquin_client_project.Socket.{Socket, Event, create_event, put_ack_message, emit, call_ack}
use taquin_client_project.Socket.Delivery.{answered}
use taquin_client_project.Client.{
  Client, new_client, con_opened, dispatch_sends, settle, from_socket,
}
use taquin_client_project.Client.Wire.{
  on_socket, send_each, sent, delay, transmitted, heard, patience, on_messages,
}
use taquin_client_project.Client.Crossing.{IsReady, event_id, event_crosses}
use taquin_client_project.Client.Answering.{IsSpeaker, IsCarried}
use taquin_client_project.Client.Request.{answer_returns}
use taquin_client_project.Tests.Wire.{
  one_document, reads_int, reads_unsigned, Carries-event, Carries-reply, picture, reply,
  chat_socket,
}

chat_name : Nsp (codes "/chat") (codes "/chat")
chat_name = named b'c' (codes "hat") (refl, (refl, (refl, (refl, tt))))

-- A listener that answers.
answering : ℕ → Event → Socket → Event × Socket
answering l ev s = (put_ack_message ev reply, s)

abbrev talking : Client
talking = record (new_client 7) {
  con_state = con_opened;
  sockets = (codes "/chat", chat_socket) ∷ [];
  has_ping_timer = true;
  has_ping_timeout_timer = true;
}

chat_socket-IsReady : IsReady chat_socket
chat_socket-IsReady = record { attached = refl; connected = refl; queue = refl; log = refl }

talking-IsSpeaker : IsSpeaker (codes "/chat") talking chat_socket
unfolding new_client find bytes_eq
talking-IsSpeaker = record {
  encodes = refl;
  decodes = refl;
  idle = refl;
  up = refl;
  low = omega arith;
  stored = refl;
  named = refl;
  ready = chat_socket-IsReady;
}

photo-IsCarried : IsCarried one_document (to_event_message (codes "photo") picture)
unfolding to_event_message
photo-IsCarried = record {
  carries = Carries-event;
  well_formed = (tt, (tt, tt));
  small = omega arith;
}

reply-IsCarried : IsCarried one_document (to_array_message reply)
unfolding to_array_message
reply-IsCarried = record {
  carries = Carries-reply;
  well_formed = (tt, (tt, tt));
  small = omega arith;
}

event_crosses_example :
    (a' : Client) × (calls : List Payload) × (on_socket one_document
        (codes "/chat")
        (emit (codes "photo") picture none)
        talking
      ≡ ok a')
    × (a'.log ≡ talking.log ++ dispatch_sends calls)
    × ((send_each calls a').log ≡ a'.log ++ sent (delay talking) calls)
    × (on_messages one_document answering (transmitted (sent (delay talking) calls)) talking ≡ (
        answered answering 3
          (codes "/chat")
          (codes "photo")
          picture
          (event_id none talking.next_id)
          (record chat_socket { next_id = talking.next_id })
        >>= λ t'. settle one_document (codes "/chat") t' (record talking {
          packet_mgr = record talking.packet_mgr { partial_packet = none };
          log = talking.log ++ heard (patience talking) (transmitted (sent (delay talking) calls));
        })))
unfolding new_client find bytes_eq
event_crosses_example =
    event_crosses one_document answering reads_int reads_unsigned (codes "/chat") (codes "/chat")
      (codes "photo") picture none 3 talking talking chat_socket chat_socket Carries-event chat_name
      (tt, tt) photo-IsCarried.small refl refl (omega arith) refl refl chat_socket-IsReady refl refl
      refl refl refl refl

answer_returns_example :
    (a1 b1 a2 : Client) × (calls replies : List Payload) × (s2 : Socket) × (on_socket one_document
        (codes "/chat")
        (emit (codes "photo") picture (some 5))
        talking
      ≡ ok a1)
    × (a1.log ≡ talking.log ++ dispatch_sends calls)
    × ((send_each calls a1).log ≡ a1.log ++ sent (delay talking) calls)
    × (on_messages one_document answering (transmitted (sent (delay talking) calls)) talking
        ≡ ok b1)
    × (b1.log
        ≡ (talking.log ++ heard (patience talking) (transmitted (sent (delay talking) calls)))
          ++ dispatch_sends replies)
    × ((send_each replies b1).log ≡ b1.log ++ sent (delay talking) replies)
    × (on_messages one_document answering
          (transmitted (sent (delay talking) replies))
          (send_each calls a1)
        ≡ ok a2)
    × (a2.log
        ≡ ((send_each calls a1).log
            ++ heard (patience talking) (transmitted (sent (delay talking) replies)))
          ++ from_socket (codes "/chat") (call_ack 5 reply) ∷ [])
    × (find (codes "/chat") a2.sockets ≡ some s2)
    × ((k : ℕ) → find k s2.acks ≡ (if talking.next_id == k then none else find k chat_socket.acks))
unfolding answering create_event put_ack_message find bytes_eq new_client
answer_returns_example =
    answer_returns one_document answering (codes "/chat") (codes "photo") picture reply 5 3 talking
      talking chat_socket chat_socket (record chat_socket { next_id = 7 })
      (put_ack_message (create_event (codes "/chat") (codes "photo") picture true) reply) reads_int
      reads_unsigned chat_name talking-IsSpeaker talking-IsSpeaker photo-IsCarried reply-IsCarried
      refl refl refl refl (record { attached = refl; connected = refl; queue = refl; log = refl })
