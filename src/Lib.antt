-- ===== src/Lib.antt =====
-- The C++ client of the taquin game (a sliding puzzle that players solve over a server), and the Socket.IO
-- client library that the repository builds it with.
--
-- The program. `taquin-client-cpp/main.cpp` connects to a server, logs in and answers its events: it sends
-- a start matrix, and the moves of a fixed solution one by one, each after the acknowledgement of the one
-- before. It stands on the library under `taquin-client-cpp/libs/src`: messages (`sio_message.h`) become
-- JSON values and packets (`internal/sio_packet.cpp`); a socket for each namespace (`sio_socket.cpp`) sends
-- and receives packets through one client (`internal/sio_client_impl.cpp`), which owns the connection,
-- its timers and the reconnects.
--
-- The Java client, `taquin-client-java/src/main/java/spring/taquin`, solves the puzzle itself: it packs a board
-- into a set of bits, stores every board that slides lead to in a graph, and answers with the places of the
-- blank on a way back to the solved board.
--
-- The files.
--   Base and its children: numbers, lists, byte strings, decimal text and sorted maps.
--   Result: the faults of a call that does not return.
--   Message: `sio_message.h`; Message/Objects, Message/Arrays and Message/Lists its containers.
--   Json: `accept_message` and `from_json`; Json/WellFormed, Json/Sorted and Json/RoundTrip the
--     proofs.
--   Packet: `packet`; Packet/Parse its `parse` and `parse_buffer`; Packet/Manager `packet_manager`;
--     Packet/Search, Packet/Body, Packet/Head, Packet/Receive, Packet/Sent and Packet/RoundTrip the
--     proofs, from one search to a whole transmission.
--   Socket: `event` and `socket::impl`; Socket/Messages what it receives; Socket/Threads its packet
--     queue between threads, with the proofs in Socket/Threads/Alone, Kept and Stranded; Socket/Order,
--     Socket/Acks, Socket/Delivery, Socket/Closed and Socket/Faults the other proofs.
--   Client: `client_impl`; Client/Setters its setters, Client/Connection opening, closing and reconnects;
--     Client/Handshake the handshake and the pings; Client/Incoming the messages of websocketpp;
--     Client/Sockets, Client/Registry, Client/Opened, Client/Lost and Client/Reconnect the proofs; Client/Greeting and Client/Greeting/Rounds the handshake on the wire; Client/Wire,
--     Client/Crossing, Client/Answering and Client/Request the way of an event from one client to another
--     and of its answer back.
--   App: the handlers of `main.cpp`; App/Steps and App/Bounds the proofs; App/Session its two threads up
--     to the login, App/Session/Places, Order and Progress the proofs; App/Wired what it binds on its
--     socket and does to it, App/Served a reply of it on the wire.
--   Solver: `taquin-client-java/src/main/java/spring/taquin`, the solver of the Java client. Solver/Bits
--     is `solve/Utils.java` on a `BitSet`; Solver/Board is `solve/Taquin.java`, with the width of a cell
--     in Solver/Board/Width and the solved board in Solver/Board/Solved; Solver/Graph is the search of
--     `solve/Graph.java`, with the specification of a slide in Solver/Graph/Slides and the proofs in
--     Solver/Graph/Sliding, Store, Edges, Order, Valid, Offer, Search, Layers and Complete; Solver/Paths
--     is its `dijkstra`, with the proofs in Solver/Paths/Lists, Settled, Polled, Rounds and Shortest;
--     Solver/Text is the text of a board in `solve/Utils.java`, with the proofs in Solver/Text/Words and
--     RoundTrip; Solver/Player is `TaquinClient.java`, with the proofs in Solver/Player/Constructor,
--     Fewest, Route, Solves and Hardest; Solver/Connection is `ConnectionServerSocketIO.java` and
--     `main.java`, with the proofs in Solver/Connection/Keeps, Replies, Game and Sizes.
--   Tests: concrete inputs.
--
-- The model. A method takes the state and returns the new one, or a fault: a failed assertion, a null
-- pointer, a cast that throws, an index out of range. Functions keep the names of the source. What a
-- method asks of the world (websocketpp, a timer, a listener, its client) is added to a log in order; a
-- client does what the log of a socket asks (`perform`) where the method of the socket returns. A listener is
-- a number, and what calling the listener of an event does is the parameter `invoke`. A method of
-- a socket or of the client is one step, as where calls do not overlap; Socket/Threads takes those of the packet
-- queue apart, and App/Session the two threads of `main.cpp`. A double inside a message is its bit
-- pattern. Assertions are on.
--
-- Parameters. `Codec` is RapidJSON's writer and parser with the casts of Boost from text; `Doubles` is the
-- arithmetic of `double` and `pow`, of which `DoubleLaws` says where it is exact. `poll` is that of Java's
-- `PriorityQueue`, and `parse_int` is `Integer.parseInt`. The answers of websocketpp, error codes and the clock
-- are arguments.
--
-- Bounds. Numbers of 32 bits wrap as in the source. The only fuel is that of `to_string` (n + 1 for n,
-- which has at most that many digits), that of `nBits` (17 rounds, enough up to n = 256) and that of the
-- search of boards (2 ^ sizeBS + 1 rounds, since a set of sizeBS bits has 2 ^ sizeBS values and each board is
-- queued once), and that of `dijkstra` (two rounds more than all edges, each counted both ways, since each
-- adds one triple to the first); every other loop is a recursion on a list or a number. The solver's n is
-- at most 46340, where `n*n` is exact; only the loop of `nBits` wraps it for larger n. The step of the Java player is counted without the wrap-around of an
-- `int`, which 2 ^ 31 acknowledgements of one game would reach.
--
-- Not modelled: the console of `main.cpp`, the network thread's loop, the TLS set-up, and the facade
-- `sio_client.cpp`, which forwards; RapidJSON and websocketpp, which are copies of other projects. Of Java's
-- Socket.IO and JSON libraries only what the listeners call is a parameter or an effect.
pub mod Base
pub mod Result
pub mod Message
pub mod App
pub mod Json
pub mod Packet
pub mod Socket
pub mod Client
pub mod Solver
pub mod Tests
