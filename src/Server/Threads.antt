-- ===== src/Server/Threads.antt =====
-- server/server.c: the threads of the clients, `client_handler`, in every interleaving. Between two
-- steps of one thread any others may run; the accepting loop and the peers choose what comes next.
use multi_user_chat.Base.{
  ℕ, ◌+◌, ◌^◌, ◌≤◌, ◌<◌, ◌≡◌, some, List, [], ◌∷◌, ◌++◌, Bytes, get_elem?, set, arith,
}
use multi_user_chat.Net.{Outcome, done}
use multi_user_chat.Protocol.{recv_packet}
use multi_user_chat.Server.Program.{ServerState, Call, Answer, World, perform, Program, ret, call}
use multi_user_chat.Server.Cleanup.{cleanup_offline_fd}
use multi_user_chat.Server.Handlers.{process_packet}
use multi_user_chat.Server.Invariant.{IsSound, perform-IsSound, perform-clock}

-- Where a thread is in `client_handler`: in `recv_packet`, in `process_packet`, in the
-- `cleanup_offline_fd` behind the loop, or past `close`.
pub data Phase : Type 0 where
  reading closed : Phase
  working closing : Program (Unit {0}) → Phase

pub record Thread : Type 0 where
  pub fd : ℕ
  pub phase : Phase

pub record Server : Type 0 where
  pub state : ServerState
  pub threads : List Thread

abbrev pub resume : Server → ℕ → ℕ → Phase → Server
resume server i fd phase = record server {
  threads = set server.threads i (record { fd = fd; phase = phase });
}

-- Thread `i` is in that phase.
abbrev pub At : Server → ℕ → ℕ → Phase → Type 0
At server i fd phase = get_elem? server.threads i ≡ some (record { fd = fd; phase = phase })

-- The server after a step of thread `i`.
abbrev pub acted : World → Server → (c : Call) → Server
acted world server c = record server { state = (perform world c server.state).1 }

abbrev pub answer : World → Server → (c : Call) → Answer c
answer world server c = (perform world c server.state).0

-- The fuel of a handler is any number; a handler that ran out of it would stop for good.
pub data Step (world : World) : Server → Server → Type 0 where
  accepted :
      (server : Server) (fd : ℕ)
      → Step world server
          (record server { threads = server.threads ++ (record { fd = fd; phase = reading } ∷ []) })
  received :
      (server : Server) (i fd fuel : ℕ) (os : List Outcome) (stream : Bytes)
      → At server i fd reading
      → (recv_packet os stream).status ≡ done
      → Step world server
          (resume server i fd (working (process_packet fuel fd (recv_packet os stream).packet)))
  processed :
      (server : Server) (i fd : ℕ)
      → At server i fd (working (ret tt))
      → Step world server (resume server i fd reading)
  hung_up :
      (server : Server) (i fd fuel : ℕ)
      → At server i fd reading
      → Step world server (resume server i fd (closing (cleanup_offline_fd fuel fd)))
  left :
      (server : Server) (i fd : ℕ)
      → At server i fd (closing (ret tt))
      → Step world server (resume server i fd closed)
  worked :
      (server : Server) (i fd : ℕ) (c : Call) (k : Answer c → Program (Unit {0}))
      → At server i fd (working (call c k))
      → Step world server (resume (acted world server c) i fd (working (k (answer world server c))))
  cleaned :
      (server : Server) (i fd : ℕ) (c : Call) (k : Answer c → Program (Unit {0}))
      → At server i fd (closing (call c k))
      → Step world server (resume (acted world server c) i fd (closing (k (answer world server c))))

pub data Reach (world : World) (first : Server) : Server → Type 0 where
  start : Reach world first first
  next : {s t : Server} → Reach world first s → Step world s t → Reach world first t

pub Step-clock : {world : World} {s t : Server} → Step world s t → s.state.clock ≤ t.state.clock
Step-clock (accepted s fd) = omega arith
Step-clock (received s i fd fuel os stream h e) = omega arith
Step-clock (processed s i fd h) = omega arith
Step-clock (hung_up s i fd fuel h) = omega arith
Step-clock (left s i fd h) = omega arith
Step-clock {world} (worked s i fd c k h) = omega (arith, perform-clock world c s.state)
Step-clock {world} (cleaned s i fd c k h) = omega (arith, perform-clock world c s.state)

Step-IsSound :
    {world : World} {s t : Server}
    → Step world s t
    → IsSound s.state
    → t.state.clock + 1 < 2 ^ 32
    → IsSound t.state
Step-IsSound (accepted s fd) v h = v
Step-IsSound (received s i fd fuel os stream a e) v h = v
Step-IsSound (processed s i fd a) v h = v
Step-IsSound (hung_up s i fd fuel a) v h = v
Step-IsSound (left s i fd a) v h = v
Step-IsSound {world} (worked s i fd c k a) v h =
    perform-IsSound world c s.state v (omega (arith, h, perform-clock world c s.state))
Step-IsSound {world} (cleaned s i fd c k a) v h =
    perform-IsSound world c s.state v (omega (arith, h, perform-clock world c s.state))

-- Whatever the threads of the clients do and in whatever order their steps come, as long as the
-- clock is below 2 ^ 32 - 1: from a sound state every state reached is sound, that is, the users
-- are indexed, whoever is online has a descriptor, the groups are valid, and the next serial
-- number is at most one more than the clock.
pub Reach-IsSound :
    {world : World} {first s : Server}
    → IsSound first.state
    → Reach world first s
    → s.state.clock + 1 < 2 ^ 32
    → IsSound s.state
Reach-IsSound v start h = v
Reach-IsSound v (next r st) h =
    Step-IsSound st (Reach-IsSound v r (omega (arith, h, Step-clock st))) h
