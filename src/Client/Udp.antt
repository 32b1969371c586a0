-- ===== src/Client/Udp.antt =====
-- client/client.c: `udp_thread`, which prints the broadcasts.
use multi_user_chat.Base.{List, [], ◌∷◌, ◌++◌, Bytes, bytes, take, c_str}
use multi_user_chat.Limits.{packet_data_max}

-- What one `recv` gives: a datagram, of which it keeps as much as the array holds, -1 with EINTR,
-- or -1 with another error.
pub data Datagram : Type 0 where
  message : Bytes → Datagram
  interrupted broken : Datagram

abbrev pub broadcast_line : Bytes → Bytes
broadcast_line text = bytes "[UDP广播] " ++ text

-- The lines printed, the oldest first. The calls of `recv` end where the client stops.
unfoldable pub udp_thread : List Datagram → List Bytes → List Bytes
udp_thread [] printed = printed
udp_thread (message buf ∷ ds) printed =
    udp_thread ds (printed ++ (broadcast_line (c_str (take packet_data_max buf)) ∷ []))
udp_thread (interrupted ∷ ds) printed = udp_thread ds printed
udp_thread (broken ∷ ds) printed = printed
