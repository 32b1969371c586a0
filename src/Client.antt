-- ===== src/Client.antt =====
-- client/client.c: the thread that receives, and the file that it is receiving. The output is the
-- list of the lines printed, newest first; the files written are kept when they are closed.
-- What a failed search leaves in `path` is not kept: no one reads it while the file is not active.
-- `Upload` is the sending of a file, `Payload` the first packet of it, `Chunks`, `Transfer` and
-- `Delivery` are about a file on its way, and `Confined` about the paths that are written.
-- `Session` and `Loops` are the main thread, `Udp` is the thread of the broadcasts, `Startup` is
-- `main`, and `Requests` and `Served` are about what is sent.
pub mod Payload
pub mod Upload
pub mod Chunks
pub mod Transfer
pub mod Delivery
pub mod Confined
pub mod Session
pub mod Loops
pub mod Requests
pub mod Served
pub mod Udp
pub mod Startup
mod Tests
use multi_user_chat.Base.{
  ℕ, suc, ◌-◌, ◌*◌, Bool, true, false, not, ◌||◌, Option, none, some, List, [], ◌∷◌, ◌++◌, Bytes,
  bytes, c_str, copy_fixed, take, set, min, ltb, ◌==◌, add_size, print_size, if◌then◌else◌,
}
use multi_user_chat.Limits.{username_max_len}
use multi_user_chat.Net.{Outcome, done}
use multi_user_chat.Protocol.{
  MessageType, msg_ok, msg_error, msg_online_list, msg_private, msg_group, msg_file_begin,
  msg_file_chunk, msg_file_end, message_type, message_type_name, Packet, recv_packet,
}
use multi_user_chat.Files.{file_name_max_len, build_unique_download_path}
use multi_user_chat.Client.Payload.{FileBeginPayload, begin_size, payload_of}

abbrev pub file_transfer_max_bytes : ℕ
file_transfer_max_bytes = 10 * 1024 * 1024

-- `fp` is what was written to the open file.
pub record IncomingFile : Type 0 where
  pub active : Bool
  pub sender : Bytes
  pub filename : Bytes
  pub expected_size : ℕ
  pub received_size : ℕ
  pub fp : Option Bytes
  pub path : Bytes

abbrev pub no_file : IncomingFile
no_file = record {
  active = false;
  sender = [];
  filename = [];
  expected_size = 0;
  received_size = 0;
  fp = none;
  path = [];
}

-- The state of the thread: the file, the files that were closed with their paths, newest first,
-- and the lines.
pub record Receiver : Type 0 where
  pub incoming : IncomingFile
  pub saved : List (Bytes × Bytes)
  pub printed : List Bytes

-- What the file system answers while one packet is handled; `room` is how many bytes one `fwrite`
-- can take.
pub record FileSystem : Type 0 where
  pub has_directory : Bool
  pub exists_at : Bytes → Bool
  pub allocates : Bytes → Bool
  pub opens : Bytes → Bool
  pub room : ℕ

abbrev pub print_line : Bytes → Receiver → Receiver
print_line text r = record r { printed = text ∷ r.printed }

unfoldable pub close_incoming_file : Receiver → Receiver
close_incoming_file r = record r {
  incoming = no_file;
  saved = elim r.incoming.fp [
    | none ↦ r.saved
    | some contents ↦ (r.incoming.path, contents) ∷ r.saved
  ];
}

abbrev pub started : Packet → FileBeginPayload → Bytes → IncomingFile
started packet payload path = record {
  active = true;
  sender = copy_fixed username_max_len (c_str packet.sender);
  filename = copy_fixed file_name_max_len (c_str payload.filename);
  expected_size = payload.filesize;
  received_size = 0;
  fp = some [];
  path = path;
}

abbrev pub start_line : IncomingFile → Bytes
start_line file =
    bytes "开始接收文件: "
    ++ (file.filename
        ++ (bytes " -> "
            ++ (file.path ++ (bytes " (" ++ (print_size file.expected_size ++ bytes " bytes)")))))

-- The payload that was copied out of the packet, with the name terminated.
abbrev pub begin_payload : Packet → FileBeginPayload
begin_payload packet =
    let payload = payload_of packet.payload in
    record payload { filename = set payload.filename (file_name_max_len - 1) 0 }

-- The part of `handle_file_begin` that opens the file.
unfoldable pub open_file :
    FileSystem → Packet → FileBeginPayload → Option Bytes → Receiver → Receiver
open_file fs packet payload none r = print_line (bytes "创建下载路径失败") r
open_file fs packet payload (some path) r =
    if not (fs.opens path)
    then print_line (bytes "保存接收文件失败") r
    else (let file = started packet payload path in
        print_line (start_line file) (record r { incoming = file }))

-- The part of `handle_file_begin` behind the test of the length.
unfoldable pub accept_file : FileSystem → Packet → FileBeginPayload → Receiver → Receiver
accept_file fs packet payload r =
    if ltb file_transfer_max_bytes payload.filesize
    then print_line (bytes "收到的文件超过大小限制，已拒绝") r
    else open_file fs packet payload
        (build_unique_download_path fs.exists_at fs.allocates fs.has_directory (bytes "downloads")
          (c_str packet.sender) (c_str payload.filename) 512)
        r

unfoldable pub handle_file_begin : FileSystem → Packet → Receiver → Receiver
handle_file_begin fs packet r =
    let closed = close_incoming_file r in
    if not (packet.length == begin_size)
    then print_line (bytes "收到非法文件头") closed
    else accept_file fs packet (begin_payload packet) closed

-- `fwrite` and what follows it, where the file is open with some contents.
unfoldable pub write_chunk : FileSystem → Packet → Bytes → Receiver → Receiver
write_chunk fs packet contents r =
    let n = min fs.room packet.length in
    let file = record r.incoming { fp = some (contents ++ take n packet.payload) } in
    if not (n == packet.length)
    then close_incoming_file (print_line (bytes "写入接收文件失败") (record r { incoming = file }))
    else record r {
      incoming = record file { received_size = add_size r.incoming.received_size packet.length };
    }

unfoldable pub handle_file_chunk : FileSystem → Packet → Receiver → Receiver
handle_file_chunk fs packet r =
    if not r.incoming.active
    then r
    else elim r.incoming.fp [ none ↦ r | some contents ↦ write_chunk fs packet contents r ]

abbrev pub complete_line : Bytes → Bytes
complete_line path = copy_fixed 768 (bytes "文件接收完成: " ++ path)

abbrev pub mismatch_line : ℕ → ℕ → Bytes
mismatch_line received expected =
    copy_fixed 768
      (bytes "文件接收大小不匹配: 已收 " ++ (print_size received ++ (bytes " / 期望 " ++ print_size expected)))

unfoldable pub handle_file_end : Receiver → Receiver
handle_file_end r =
    let file = r.incoming in
    if not file.active
    then r
    else close_incoming_file (
        print_line
          (if file.received_size == file.expected_size
            then complete_line file.path
            else mismatch_line file.received_size file.expected_size)
          r)

abbrev pub from_line : Bytes → Packet → Bytes
from_line label packet =
    label ++ (bytes "[" ++ (c_str packet.sender ++ (bytes "]: " ++ c_str packet.payload)))

-- The `switch` of `recv_thread`.
unfoldable pub receive : FileSystem → Option MessageType → Packet → Receiver → Receiver
receive fs (some msg_ok) packet r = print_line (c_str packet.payload) r
receive fs (some msg_error) packet r = print_line (c_str packet.payload) r
receive fs (some msg_online_list) packet r = print_line (c_str packet.payload) r
receive fs (some msg_private) packet r = print_line (from_line (bytes "[私聊]") packet) r
receive fs (some msg_group) packet r = print_line (from_line (bytes "[群聊]") packet) r
receive fs (some msg_file_begin) packet r = handle_file_begin fs packet r
receive fs (some msg_file_chunk) packet r = handle_file_chunk fs packet r
receive fs (some msg_file_end) packet r = handle_file_end r
receive fs _ packet r = print_line (bytes "[系统] 收到消息类型 " ++ bytes (message_type_name packet.type)) r

-- The loop of `recv_thread`, on what comes from the socket: the outcomes of each `recv_packet`, of
-- which there are no more when the client stops, and the file system at each of its rounds.
unfoldable pub recv_thread :
    (ℕ → FileSystem) → ℕ → List (List Outcome) → Bytes → Receiver → Receiver
recv_thread world round [] stream r = close_incoming_file r
recv_thread world round (os ∷ oss) stream r =
    let got = recv_packet os stream in
    elim got.status [
      | done ↦
          recv_thread world (suc round) oss got.stream
            (receive (world round) (message_type got.packet.type) got.packet r)
      | _ ↦ close_incoming_file r
    ]
