-- ===== src/Net.antt =====
-- common/net_utils.c: the loops `send_all` and `recv_all` around the system calls. What the calls
-- return is a list of outcomes, in order; where it is at its end the next call still blocks.
-- `Sockets` has the functions that open sockets, and `Course` and `Opening` are about them.
pub mod Stream
pub mod Sockets
pub mod Course
pub mod Opening
mod Tests
use multi_user_chat.Base.{
  ℕ, zero, suc, ◌+◌, ◌-◌, Bool, true, false, List, [], ◌∷◌, ◌++◌, Bytes, length, take, drop, min,
}

-- What one `send` or `recv` returns: a count, -1 with EINTR, or -1 with another error.
pub data Outcome : Type 0 where
  count : ℕ → Outcome
  eintr failed : Outcome

-- How a loop ends: with 0, with -1, or not yet.
pub data Status : Type 0 where
  done error blocked : Status

-- == 0
abbrev pub is_done : Status → Bool
is_done done = true
is_done _ = false

-- The state after a loop: the bytes that went through, and the outcomes that are left.
pub record Sent : Type 0 where
  pub status : Status
  pub written : Bytes
  pub later : List Outcome

-- A count is at most what was asked for; `send` returns no more than that.
unfoldable pub send_all : List Outcome → Bytes → Sent
send_all [] [] = record { status = done; written = []; later = [] }
send_all [] (b ∷ bs) = record { status = blocked; written = []; later = [] }
send_all (o ∷ os) [] = record { status = done; written = []; later = o ∷ os }
send_all (eintr ∷ os) (b ∷ bs) = send_all os (b ∷ bs)
send_all (failed ∷ os) (b ∷ bs) = record { status = error; written = []; later = os }
send_all (count zero ∷ os) (b ∷ bs) = record { status = error; written = []; later = os }
send_all (count (suc n) ∷ os) (b ∷ bs) =
    let rest = send_all os (drop n bs) in record rest { written = b ∷ take n bs ++ rest.written }

pub record Received : Type 0 where
  pub status : Status
  pub got : Bytes
  pub stream : Bytes
  pub later : List Outcome

-- The bytes that `recv` hands over when it returns `n`: from the stream, at most the `len` that
-- were asked for. A stream at its end is a closed connection, where `recv` returns 0.
unfoldable pub recv_all : List Outcome → Bytes → ℕ → Received
recv_all os stream zero = record { status = done; got = []; stream = stream; later = os }
recv_all [] stream (suc len) = record { status = blocked; got = []; stream = stream; later = [] }
recv_all (eintr ∷ os) stream (suc len) = recv_all os stream (suc len)
recv_all (failed ∷ os) stream (suc len) = record {
  status = error;
  got = [];
  stream = stream;
  later = os;
}
recv_all (count zero ∷ os) stream (suc len) = record {
  status = error;
  got = [];
  stream = stream;
  later = os;
}
recv_all (count (suc n) ∷ os) [] (suc len) = record {
  status = error;
  got = [];
  stream = [];
  later = os;
}
recv_all (count (suc n) ∷ os) (b ∷ stream) (suc len) =
    let k = min n len in
    let chunk = take k stream in
    let rest = recv_all os (drop k stream) (len - length chunk) in
    record rest { got = b ∷ chunk ++ rest.got }
