-- ===== src/Net/Course.antt =====
-- common/net_utils.c: which calls a function that opens a socket should make, and what it should
-- return.
use multi_user_chat.Base.{ℕ, ◌+◌, ◌≡◌, true, false, Option, none, some, List, [], ◌∷◌, ◌++◌, Bytes}
use multi_user_chat.Net.Sockets.{
  SocketType, SystemCall, Sockets, Network, so_reuseaddr, so_broadcast, socket, setsockopt, bind,
  listen, connect, close, sin_port, add_fd,
}

-- How the calls for a socket go, from a step on: those that were planned, those that were made, and
-- what is returned. Only `connect_tcp_server` needs an address, the others have the empty one. A
-- planned call is made if those before it succeeded; the first that fails, or an address that there
-- is not, closes the descriptor and ends with none.
pub data Course (net : Network) (address : Option Bytes) (fd : ℕ)
    : ℕ → List SystemCall → List SystemCall → Option ℕ → Type 0 where
  all_done :
      (step : ℕ) (text : Bytes) → address ≡ some text → Course net address fd step [] [] (some fd)
  no_address :
      (step : ℕ) (planned : List SystemCall)
      → address ≡ none
      → Course net address fd step planned (close fd ∷ []) none
  succeeded :
      (step : ℕ) (c : SystemCall) (planned made : List SystemCall) (r : Option ℕ)
      → net.succeeds step c ≡ true
      → Course net address fd (step + 1) planned made r
      → Course net address fd step (c ∷ planned) (c ∷ made) r
  refused :
      (step : ℕ) (c : SystemCall) (planned : List SystemCall)
      → net.succeeds step c ≡ false
      → Course net address fd step (c ∷ planned) (c ∷ close fd ∷ []) none

-- What follows a `socket` that returned this descriptor: what is open is the descriptor, if it is
-- returned, and what was open before.
pub record Following (net : Network) (address : Option Bytes) (fd : ℕ) (opened : List ℕ)
    (planned : List SystemCall) (s : Sockets) (r : Option ℕ × Sockets) : Type 0 where
  pub left_open : r.1.opened ≡ add_fd r.0 opened
  pub made : List SystemCall
  pub course : Course net address fd s.clock planned made r.0
  pub calls : r.1.calls ≡ s.calls ++ made

-- What one of the functions does from its `socket` on.
pub data Opened (net : Network) (address : Option Bytes) (type : SocketType)
    (planned : ℕ → List SystemCall) (s : Sockets) (r : Option ℕ × Sockets) : Type 0 where
  no_socket :
      net.opens s.clock ≡ none
      → r.0 ≡ none
      → r.1.calls ≡ s.calls ++ (socket type ∷ [])
      → Opened net address type planned s r
  has_socket :
      (fd : ℕ) (made : List SystemCall)
      → net.opens s.clock ≡ some fd
      → Course net address fd (s.clock + 1) (planned fd) made r.0
      → r.1.calls ≡ s.calls ++ (socket type ∷ made)
      → Opened net address type planned s r

-- On success one descriptor more is open, the one returned; on failure none.
pub record Opening (net : Network) (address : Option Bytes) (type : SocketType)
    (planned : ℕ → List SystemCall) (s : Sockets) (r : Option ℕ × Sockets) : Type 0 where
  pub left_open : r.1.opened ≡ add_fd r.0 s.opened
  pub how : Opened net address type planned s r

-- The calls of the four functions behind their `socket`.
abbrev pub server_calls : ℕ → ℕ → ℕ → List SystemCall
server_calls port backlog fd =
    setsockopt fd so_reuseaddr ∷ bind fd (sin_port port) ∷ listen fd backlog ∷ []

abbrev pub client_calls : Option Bytes → ℕ → ℕ → List SystemCall
client_calls none port fd = []
client_calls (some address) port fd = connect fd address (sin_port port) ∷ []

abbrev pub sender_calls : ℕ → List SystemCall
sender_calls fd = setsockopt fd so_broadcast ∷ []

abbrev pub receiver_calls : ℕ → ℕ → List SystemCall
receiver_calls port fd = setsockopt fd so_reuseaddr ∷ bind fd (sin_port port) ∷ []
