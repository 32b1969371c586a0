-- ===== src/Protocol.antt =====
-- common/protocol.c and include/protocol.h: packets, and their form on the wire. The arrays of a
-- packet are lists of all their bytes. An `int32_t` is its 32-bit pattern; the message types are
-- small and positive, and other patterns fall to the default branches.
pub mod Init
pub mod Made
pub mod Wire
pub mod Receive
mod Tests
use multi_user_chat.Base.{
  ℕ, ◌+◌, ◌-◌, ◌*◌, ◌/◌, ◌%◌, ◌^◌, Option, none, some, List, [], ◌∷◌, ◌++◌, Bytes, length, take,
  drop, set, get_or, replicate, ltb, ◌==◌, if◌then◌else◌,
}
use multi_user_chat.Limits.{username_max_len, packet_data_max}
use multi_user_chat.Net.{Outcome, Status, done, error, send_all, recv_all}
use Prim.Native.String.{String}

pub data MessageType : Type 0 where
  msg_register msg_login msg_private msg_group msg_online_list msg_file_begin msg_file_chunk :
      MessageType
  msg_file_end msg_logout msg_heartbeat msg_broadcast msg_ok msg_error msg_group_create :
      MessageType
  msg_group_list msg_group_message msg_group_event : MessageType

abbrev pub type_code : MessageType → ℕ
type_code msg_register = 1
type_code msg_login = 2
type_code msg_private = 3
type_code msg_group = 4
type_code msg_online_list = 5
type_code msg_file_begin = 6
type_code msg_file_chunk = 7
type_code msg_file_end = 8
type_code msg_logout = 9
type_code msg_heartbeat = 10
type_code msg_broadcast = 11
type_code msg_ok = 12
type_code msg_error = 13
type_code msg_group_create = 14
type_code msg_group_list = 15
type_code msg_group_message = 16
type_code msg_group_event = 17

-- The case labels of a `switch` over a type; `none` is the default.
unfoldable pub message_type : ℕ → Option MessageType
message_type t =
    get_or
      (none
        ∷ some msg_register
        ∷ some msg_login
        ∷ some msg_private
        ∷ some msg_group
        ∷ some msg_online_list
        ∷ some msg_file_begin
        ∷ some msg_file_chunk
        ∷ some msg_file_end
        ∷ some msg_logout
        ∷ some msg_heartbeat
        ∷ some msg_broadcast
        ∷ some msg_ok
        ∷ some msg_error
        ∷ some msg_group_create
        ∷ some msg_group_list
        ∷ some msg_group_message
        ∷ some msg_group_event
        ∷ [])
      t none

abbrev type_name : Option MessageType → String
type_name none = "UNKNOWN"
type_name (some msg_register) = "REGISTER"
type_name (some msg_login) = "LOGIN"
type_name (some msg_private) = "PRIVATE"
type_name (some msg_group) = "GROUP"
type_name (some msg_online_list) = "ONLINE_LIST"
type_name (some msg_file_begin) = "FILE_BEGIN"
type_name (some msg_file_chunk) = "FILE_CHUNK"
type_name (some msg_file_end) = "FILE_END"
type_name (some msg_logout) = "LOGOUT"
type_name (some msg_heartbeat) = "HEARTBEAT"
type_name (some msg_broadcast) = "BROADCAST"
type_name (some msg_ok) = "OK"
type_name (some msg_error) = "ERROR"
type_name (some msg_group_create) = "GROUP_CREATE"
type_name (some msg_group_list) = "GROUP_LIST"
type_name (some msg_group_message) = "GROUP_MESSAGE"
type_name (some msg_group_event) = "GROUP_EVENT"

unfoldable pub message_type_name : ℕ → String
message_type_name t = type_name (message_type t)

pub record Packet : Type 0 where
  pub type : ℕ
  pub length : ℕ
  pub sender : Bytes
  pub receiver : Bytes
  pub payload : Bytes

-- A zeroed array of `size` bytes with `s` written at its start.
abbrev pub fill : ℕ → Bytes → Bytes
fill size s = s ++ replicate (size - length s) 0

-- `none` is a NULL source.
unfoldable pub copy_fixed_string : ℕ → Option Bytes → Bytes
copy_fixed_string size none = fill size []
copy_fixed_string size (some src) = fill size (take (size - 1) src)

-- The bytes that `packet_init` copies from its buffer.
abbrev pub copied : Option Bytes → ℕ → Bytes
copied none len = []
copied (some buffer) len = take len buffer

-- `none` is the result -1; the buffer, if it is not NULL, has at least `len` bytes.
unfoldable pub packet_init : ℕ → Option Bytes → Option Bytes → Option Bytes → ℕ → Option Packet
packet_init type sender receiver buffer len =
    if ltb packet_data_max len
    then none
    else some (record {
      type = type;
      length = len;
      sender = copy_fixed_string username_max_len sender;
      receiver = copy_fixed_string username_max_len receiver;
      payload = fill packet_data_max (copied buffer len);
    })

abbrev pub text_buffer : Option Bytes → Option Bytes
text_buffer none = none
text_buffer (some text) = some (text ++ (0 ∷ []))

abbrev pub text_length : Option Bytes → ℕ
text_length none = 0
text_length (some text) = length text + 1

unfoldable pub packet_set_text : ℕ → Option Bytes → Option Bytes → Option Bytes → Option Packet
packet_set_text type sender receiver text =
    if ltb packet_data_max (text_length text)
    then none
    else packet_init type sender receiver (text_buffer text) (text_length text)

-- `htonl` in memory: the most significant byte first.
unfoldable pub htonl : ℕ → Bytes
htonl n = (n / 2 ^ 24 % 256) ∷ (n / 2 ^ 16 % 256) ∷ (n / 2 ^ 8 % 256) ∷ (n % 256) ∷ []

unfoldable pub ntohl : Bytes → ℕ
ntohl b = get_or b 0 0 * 2 ^ 24 + get_or b 1 0 * 2 ^ 16 + get_or b 2 0 * 2 ^ 8 + get_or b 3 0

-- `sizeof(WireHeader)`
abbrev pub header_size : ℕ
header_size = 72

unfoldable pub wire_header : Packet → Bytes
wire_header p = htonl p.type ++ (htonl p.length ++ (p.sender ++ p.receiver))

-- What a `send_packet` or `recv_packet` leaves of the outcomes, and the bytes it wrote.
pub record SendResult : Type 0 where
  pub status : Status
  pub written : Bytes
  pub later : List Outcome

unfoldable pub send_packet : List Outcome → Packet → SendResult
send_packet os p =
    if ltb packet_data_max p.length
    then record { status = error; written = []; later = os }
    else (let h = send_all os (wire_header p) in
        elim h.status [
          | done ↦
              if p.length == 0
              then record { status = done; written = h.written; later = h.later }
              else (let d = send_all h.later (take p.length p.payload) in
                  record { status = d.status; written = h.written ++ d.written; later = d.later })
          | other ↦ record { status = other; written = h.written; later = h.later }
        ])

-- The packet's fields from the bytes of a header; the payload is still zero.
unfoldable pub from_header : Bytes → Packet
from_header header = record {
  type = ntohl header;
  length = ntohl (drop 4 header);
  sender = set (take username_max_len (drop 8 header)) (username_max_len - 1) 0;
  receiver = set (take username_max_len (drop 40 header)) (username_max_len - 1) 0;
  payload = fill packet_data_max [];
}

pub record RecvResult : Type 0 where
  pub status : Status
  pub packet : Packet
  pub stream : Bytes
  pub later : List Outcome

abbrev pub no_packet : Packet
no_packet = record {
  type = 0;
  length = 0;
  sender = replicate username_max_len 0;
  receiver = replicate username_max_len 0;
  payload = replicate packet_data_max 0;
}

-- The packet is what the caller's buffer holds afterwards; the callers use it on success only.
unfoldable pub recv_packet : List Outcome → Bytes → RecvResult
recv_packet os stream =
    let h = recv_all os stream header_size in
    elim h.status [
      | done ↦
          let p = from_header h.got in
          if ltb packet_data_max p.length
          then record {
            status = error;
            packet = record no_packet { type = p.type; length = p.length };
            stream = h.stream;
            later = h.later;
          }
          else (if p.length == 0
              then record { status = done; packet = p; stream = h.stream; later = h.later }
              else (let d = recv_all h.later h.stream p.length in
                  record {
                    status = d.status;
                    packet = record p { payload = fill packet_data_max d.got };
                    stream = d.stream;
                    later = d.later;
                  }))
      | other ↦ record { status = other; packet = no_packet; stream = h.stream; later = h.later }
    ]
