-- ===== src/Lib.antt =====
-- A multi-user chat in C: clients register, log in, and exchange texts, files and group messages
-- with a server over TCP, in packets of a fixed header and at most 1024 bytes.
--
-- The parts, from the bottom up, and the files that model them:
-- * Net, Net/Stream: the loops `send_all` and `recv_all` of common/net_utils.c. What the system
--   calls return is a list of outcomes, one for each call; the loops are recursions on it.
-- * Net/Sockets, Net/Course, Net/Opening: the functions of common/net_utils.c that open sockets,
--   and the broadcast. The state has the descriptors that are open and the calls that were made;
--   Course says which calls those should be.
-- * Protocol and its modules: common/protocol.c. A packet is a record of its fields, its arrays
--   are lists of all their bytes; `send_packet` and `recv_packet` go through the loops of Net.
-- * Queue and its modules: common/message_queue.c, a ring buffer of packets, with the indices and
--   the array of the source.
-- * Files, Files/Download: common/file_utils.c, the choice of a path for a received file, and the
--   making of a directory. What the file system and malloc answer is a parameter.
-- * Group and its modules: common/group.c. A char array is the string that it holds, the store is
--   the list of its groups, newest first, with the counter and the next serial number.
-- * Crypto, Crypto/Hex: common/crypto_utils.c. OpenSSL is a parameter: what RAND_bytes gives, and
--   the digest, a function that may fail.
-- * User and its modules: common/user.c. The nodes are a heap, and the list and the chains of the
--   hash table are lists of addresses in it, so that both see a write to a node.
-- * Server and its modules: server/server.c, the handlers of the packets and the thread of a
--   client. Program has the shared state and the steps on it, Cleanup, GroupChat and Handlers are
--   the functions of the source as programs of such steps, and Threads lets any number of them
--   run. Closed, Everywhere and Uses carry a property of the steps through every program. Console
--   and Broadcast are the thread of the console, Startup and Started `main` with the loop that
--   accepts connections.
-- * Client and its modules: client/client.c, `recv_thread` with the file that it is receiving,
--   `send_file`, and in Session and Loops the prompts, the requests and the two menus of the main
--   thread. Udp is the thread that prints the broadcasts, and Startup is `main`. What the file
--   system answers is a parameter for each packet, and so is how the system calls of each request
--   go; the files written, the lines printed, and what is left of the standard input are part of
--   the state.
-- * Base, Limits: bytes, strings, numbers in decimal, `fgets`, `strtol` and `atoi` of the C
--   library, and the constants of include/protocol.h.
--
-- The server keeps one store of users and one of groups; its handlers take a packet, call the
-- operations of these stores, and answer with packets. A group lives as long as it has members
-- that are online. The bounds are those of the source: 1024 bytes in a packet, names of at most 31
-- bytes, 64 members in a group, 128 groups, 64 changes from one removal, 128 fields in a payload.
--
-- Each operation of the two stores is one critical section under the store's mutex, so a call is
-- one step on the state, and so is a call of `send_packet`; a handler is a tree of steps and of
-- what follows each answer, and between two steps of one thread any others may run. The error
-- codes are constructors with the names of the source. Pointers to structs are never NULL; a
-- string that may be NULL is an option. Whether calloc succeeds, and how a write to the storage
-- file goes, are arguments. Numbers are natural numbers, and the 32-bit wrap of the hash is
-- written out. The loops recur on the lists that they walk. `cleanup_offline_fd`, which calls
-- itself through `push_group_event`, has fuel: each call makes a user offline before it calls
-- itself, so one more than the number of users online is enough. The two menus of the client and
-- the console of the server have fuel for their rounds, and `none` stands for one that is still
-- open; the console needs one round more than its input has bytes.
--
-- Of the connections the model keeps the packets that were sent, each with the bytes that its
-- `send_packet` wrote; how the system calls of a `send_packet` go is an argument for each step,
-- and outcomes that run out stand for a connection that breaks there.
--
-- Not modelled: the creation of the threads, which Threads leaves to the steps and the client to a
-- parameter; what one `free` does to memory that a thread still uses; and the pages and the
-- gateway under web/.
pub mod Base
pub mod Limits
pub mod Net
pub mod Protocol
pub mod Queue
pub mod Files
pub mod Group
pub mod Crypto
pub mod User
pub mod Server
pub mod Client
