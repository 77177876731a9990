-- ===== src/Tests/Openings.antt =====
-- A connection that opens for a client with a socket for a chat.
use taquin_client_project.Base.{
  Bytes, bytes_eq, bytes_lt, ◌≡◌, refl, codes, true, false, none, some, List, [], ◌∷◌, ◌++◌,
}
use taquin_client_project.Base.SortedMap.{find, bytes_key}
use taquin_client_project.Result.{ok}
use taquin_client_project.Socket.{Socket, create}
use taquin_client_project.Socket
use taquin_client_project.Client.{
  Client, new_client, con_opened, con_opening, if_set, call_listener,
}
use taquin_client_project.Client.Sockets.{IsRegistry, after_each}
use taquin_client_project.Client.Connection.{on_open}
use taquin_client_project.Client.Opened.{announcements, on_open-announcements}
use taquin_client_project.Tests.Wire.{one_document}

abbrev opening : Client
opening = record (new_client 3) {
  con_state = con_opening;
  reconn_made = 2;
  open_listener = some 4;
  sockets =
      (codes "/", create true false (codes "/") 3)
      ∷ (codes "/chat", create true false (codes "/chat") 3)
      ∷ [];
}

opening-IsRegistry : IsRegistry opening.sockets
unfolding create bytes_lt bytes_eq
opening-IsRegistry = (((refl, tt), (tt, tt)), (refl, (refl, tt)))

on_open-announcements_example :
    (sockets : List (Bytes × Socket)) × (s : Socket) × (on_open one_document opening
      ≡ ok (record opening {
        con_state = con_opened;
        con = true;
        reconn_made = 0;
        sockets = sockets;
        log = (opening.log ++ announcements opening.sockets) ++ if_set (some 4) call_listener;
      }))
    × IsRegistry sockets
    × (find (codes "/") sockets ≡ some s)
    × ((k : Bytes)
        → bytes_eq (codes "/") k ≡ false
        → find k sockets ≡ after_each Socket.on_open 3 (find k opening.sockets) none)
unfolding new_client
on_open-announcements_example = on_open-announcements one_document opening refl opening-IsRegistry
