-- ===== src/Client/Confined.antt =====
-- client/client.c: where `recv_thread` writes, whatever comes from the socket.
use multi_user_chat.Base.{
  ℕ, suc, ◌≡◌, refl, Bool, true, false, Option, none, some, List, [], ◌∷◌, ◌++◌, Bytes, bytes,
  c_str, contains, All, if◌then◌else◌,
}
use multi_user_chat.Net.{Outcome, done}
use multi_user_chat.Protocol.{
  MessageType, msg_file_begin, msg_file_chunk, msg_file_end, message_type, Packet, recv_packet,
}
use multi_user_chat.Files.Download.{build_unique_download_path_lem}
use multi_user_chat.Client.{
  IncomingFile, Receiver, FileSystem, close_incoming_file, open_file, accept_file,
  handle_file_begin, begin_payload, handle_file_chunk, write_chunk, handle_file_end, receive,
  recv_thread,
}
use multi_user_chat.Client.Payload.{FileBeginPayload}

-- A path of a file directly in the directory.
abbrev pub InDownloads : Bytes → Type 0
InDownloads path =
    (name : Bytes) × (path ≡ bytes "downloads" ++ (0x2f ∷ name)) × (contains 0x2f name ≡ false)

abbrev pub OpenIn : Option Bytes → Bytes → Type 0
OpenIn none path = Unit
OpenIn (some contents) path = InDownloads path

-- Every file written, closed or still open, is there.
pub record IsConfined (r : Receiver) : Type 0 where
  pub closed : All (λ e. InDownloads e.0) r.saved
  pub written : OpenIn r.incoming.fp r.incoming.path

if-IsConfined :
    (b : Bool) (x y : Receiver) → IsConfined x → IsConfined y → IsConfined (if b then x else y)
if-IsConfined true x y p q = p
if-IsConfined false x y p q = q

said :
    (text : Bytes) (r : Receiver)
    → IsConfined r
    → IsConfined (record r { printed = text ∷ r.printed })
said text r v = record { closed = v.closed; written = v.written }

opened :
    (file : IncomingFile) (r : Receiver)
    → OpenIn file.fp file.path
    → IsConfined r
    → IsConfined (record r { incoming = file })
opened file r at v = record { closed = v.closed; written = at }

closed_all :
    (o : Option Bytes) (path : Bytes) (saved : List (Bytes × Bytes))
    → All (λ e. InDownloads e.0) saved
    → OpenIn o path
    → All (λ e. InDownloads e.0) (elim o [ none ↦ saved | some c ↦ (path, c) ∷ saved ])
closed_all none path saved h k = h
closed_all (some c) path saved h k = (k, h)

pub close_incoming_file-IsConfined :
    (r : Receiver) → IsConfined r → IsConfined (close_incoming_file r)
unfolding close_incoming_file
close_incoming_file-IsConfined r v = record {
  closed = closed_all r.incoming.fp r.incoming.path r.saved v.closed v.written;
  written = tt;
}

module _ (fs : FileSystem) (p : Packet) where
  open_file-IsConfined :
      (payload : FileBeginPayload) (o : Option Bytes) (r : Receiver)
      → ((path : Bytes) → o ≡ some path → InDownloads path)
      → IsConfined r
      → IsConfined (open_file fs p payload o r)
  unfolding open_file
  open_file-IsConfined payload none r inside v = said _ r v
  open_file-IsConfined payload (some path) r inside v =
      let at = inside path refl in search (if-IsConfined, said, opened)

  accept_file-IsConfined :
      (payload : FileBeginPayload) (r : Receiver)
      → IsConfined r
      → IsConfined (accept_file fs p payload r)
  unfolding accept_file
  accept_file-IsConfined payload r v = if-IsConfined _ _ _ (said _ r v) (
      open_file-IsConfined payload _ r
        (λ path e.
          let (name, at, plain, free, fits) =
            build_unique_download_path_lem fs.exists_at fs.allocates fs.has_directory
              (bytes "downloads") (c_str p.sender) (c_str payload.filename) 512 path e in
          (name, at, plain))
        v)

  handle_file_begin-IsConfined :
      (r : Receiver) → IsConfined r → IsConfined (handle_file_begin fs p r)
  unfolding handle_file_begin
  handle_file_begin-IsConfined r v =
      let closed = close_incoming_file-IsConfined r v in
      if-IsConfined _ _ _ (said _ (close_incoming_file r) closed)
        (accept_file-IsConfined (begin_payload p) (close_incoming_file r) closed)

  write_chunk-IsConfined :
      (contents : Bytes) (r : Receiver)
      → InDownloads r.incoming.path
      → IsConfined r
      → IsConfined (write_chunk fs p contents r)
  unfolding write_chunk
  write_chunk-IsConfined contents r at v =
      search (if-IsConfined, said, opened, close_incoming_file-IsConfined)

  chunk-cases :
      (o : Option Bytes) (r : Receiver)
      → OpenIn o r.incoming.path
      → IsConfined r
      → IsConfined (elim o [ none ↦ r | some contents ↦ write_chunk fs p contents r ])
  chunk-cases none r at v = v
  chunk-cases (some contents) r at v = write_chunk-IsConfined contents r at v

  handle_file_chunk-IsConfined :
      (r : Receiver) → IsConfined r → IsConfined (handle_file_chunk fs p r)
  unfolding handle_file_chunk
  handle_file_chunk-IsConfined r v = if-IsConfined _ _ _ v (chunk-cases r.incoming.fp r v.written v)

  handle_file_end-IsConfined : (r : Receiver) → IsConfined r → IsConfined (handle_file_end r)
  unfolding handle_file_end
  handle_file_end-IsConfined r v = search (if-IsConfined, said, close_incoming_file-IsConfined)

  receive-IsConfined :
      (type : Option MessageType) (r : Receiver) → IsConfined r → IsConfined (receive fs type p r)
  unfolding receive
  receive-IsConfined (some msg_file_begin) r v = handle_file_begin-IsConfined r v
  receive-IsConfined (some msg_file_chunk) r v = handle_file_chunk-IsConfined r v
  receive-IsConfined (some msg_file_end) r v = handle_file_end-IsConfined r v
  receive-IsConfined _ r v = said _ r v

-- Whatever comes from the socket and whatever the file system answers, every file that
-- `recv_thread` writes, closed or open, lies directly in the directory downloads, under a name
-- without a slash.
pub recv_thread-IsConfined :
    (world : ℕ → FileSystem) (round : ℕ) (oss : List (List Outcome)) (stream : Bytes) (r : Receiver)
    → IsConfined r
    → IsConfined (recv_thread world round oss stream r)
unfolding recv_thread
recv_thread-IsConfined world round [] stream r v = close_incoming_file-IsConfined r v
recv_thread-IsConfined world round (os ∷ oss) stream r v =
    let got = recv_packet os stream in
    let next =
      recv_thread-IsConfined world (suc round) oss got.stream
        (receive (world round) (message_type got.packet.type) got.packet r)
        (receive-IsConfined (world round) got.packet (message_type got.packet.type) r v) in
    let over = close_incoming_file-IsConfined r v in
    elim got.status
      as (λ status. IsConfined (elim status [
        | done ↦
            recv_thread world (suc round) oss got.stream
              (receive (world round) (message_type got.packet.type) got.packet r)
        | _ ↦ close_incoming_file r
      ])) [ done ↦ next | _ ↦ over ]
