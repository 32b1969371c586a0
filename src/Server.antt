-- ===== src/Server.antt =====
-- server/server.c: the server. `Program` has the steps in which a handler touches shared state: one
-- critical section of a store, or one `send_packet`. A handler is a program of such steps, so that
-- it can run alone and also interleaved with the threads of other clients. `Cleanup`, `GroupChat`
-- and `Handlers` have the functions of the source, `Threads` the threads of the clients, `Port` the
-- reading of a port, `Console` the commands, and `Startup` `main`. `Closed` and `Everywhere` go
-- through every handler; `Ends`, `Fuel` and `Total` are about its end, `Uses` and `Sent` about what
-- it sends, `Away` and `Leaving` about who leaves, `Broadcast` about the commands, `PortText` about
-- the texts of ports, and `Started` about the state at the start.
pub mod Program
pub mod Cleanup
pub mod GroupChat
pub mod Handlers
pub mod Invariant
pub mod Threads
pub mod Closed
pub mod Ends
pub mod Fuel
pub mod Everywhere
pub mod Total
pub mod Uses
pub mod Sent
pub mod Away
pub mod Leaving
pub mod Port
pub mod PortText
pub mod Console
pub mod Broadcast
pub mod Startup
pub mod Started
mod Tests
