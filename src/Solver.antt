-- ===== src/Solver.antt =====
-- taquin-client-java/src/main/java/spring/taquin: the solver of the Java client. A board of n * n cells is
-- packed into a `BitSet`, a breadth-first search stores every board in a graph, and the shortest ways back
-- to the solved board are read from it.
pub mod Bits
pub mod Board
pub mod Graph
pub mod Paths
pub mod Text
pub mod Player
pub mod Connection
