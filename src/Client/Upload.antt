-- ===== src/Client/Upload.antt =====
-- client/client.c: `send_file`. What `stat`, `fopen` and each `fread` give are arguments, and so
-- are the outcomes of the system calls of each `send_packet`.
use multi_user_chat.Base.{
  is_empty, ℕ, Bool, true, false, not, Option, none, some, List, [], ◌∷◌, ◌++◌, Bytes, bytes,
  length, ltb, copy_fixed, if◌then◌else◌,
}
use multi_user_chat.Net.{Outcome, Status, done, error, blocked, is_done}
use multi_user_chat.Protocol.{
  msg_file_begin, msg_file_chunk, msg_file_end, type_code, fill, Packet, packet_init, send_packet,
}
use multi_user_chat.Files.{base_filename, file_name_max_len}
use multi_user_chat.Client.{file_transfer_max_bytes}
use multi_user_chat.Client.Payload.{FileBeginPayload, begin_size, payload_bytes}

-- What one `fread` gives, and `feof` and `ferror` after it.
pub record Read : Type 0 where
  pub got : Bytes
  pub end_of_file : Bool
  pub read_error : Bool

-- The packets whose `send_packet` returned 0, in order, and the lines printed, newest first.
pub record Upload : Type 0 where
  pub sent : List Packet
  pub printed : List Bytes

abbrev pub tell : Bytes → Upload → Upload
tell text up = record up { printed = text ∷ up.printed }

abbrev pub upload_payload : Bytes → ℕ → FileBeginPayload
upload_payload path size = record {
  filename = fill file_name_max_len (copy_fixed file_name_max_len (base_filename path));
  filesize = size;
}

module _ (outcomes : ℕ → List Outcome) where
  -- `packet_init` and `send_packet`: `none` if one of them fails.
  unfoldable pub transmit : Option Packet → Upload → Option Upload
  transmit none up = none
  transmit (some packet) up =
      if is_done (send_packet (outcomes (length up.sent)) packet).status
      then some (record up { sent = up.sent ++ (packet ∷ []) })
      else none

  module _ (username receiver : Bytes) where
    unfoldable pub send_file_chunk : Bytes → Upload → Option Upload
    send_file_chunk buf up =
        transmit
          (packet_init (type_code msg_file_chunk) (some username) (some receiver) (some buf)
            (length buf))
          up

    abbrev pub send_read : Read → Upload → Option Upload
    send_read r up = if is_empty r.got then some up else send_file_chunk r.got up

    -- The loop. Where there are no more reads, the next one does not return.
    unfoldable pub send_chunks : List Read → Upload → Status × Upload
    send_chunks [] up = (blocked, up)
    send_chunks (r ∷ rs) up = elim (send_read r up) [
      | none ↦ (error, tell (bytes "文件分块发送失败") up)
      | some up' ↦ elim r.read_error [
        | true ↦ (error, tell (bytes "读取文件失败") up')
        | false ↦ elim r.end_of_file [ true ↦ (done, up') | false ↦ send_chunks rs up' ]
      ]
    ]

    unfoldable pub send_end : Status × Upload → Status × Upload
    send_end (done, up) =
        elim (transmit (packet_init (type_code msg_file_end) (some username) (some receiver) none 0)
          up) [
            | none ↦ (error, tell (bytes "文件结束包发送失败") up)
            | some up' ↦ (done, tell (bytes "文件发送请求已提交") up')
          ]
    send_end (status, up) = (status, up)

    -- `send_file` behind its prompts; `stat` gives the size of a regular file, and `none` otherwise.
    unfoldable pub send_file : Bytes → Option ℕ → Bool → List Read → Upload → Status × Upload
    send_file path none opens reads up = (error, tell (bytes "文件不存在") up)
    send_file path (some size) opens reads up =
        if ltb file_transfer_max_bytes size
        then (error, tell (bytes "文件超过 10 MiB 限制") up)
        else (if not opens
            then (error, tell (bytes "打开文件失败") up)
            else elim (transmit
                (packet_init (type_code msg_file_begin) (some username) (some receiver)
                  (some (payload_bytes (upload_payload path size))) begin_size)
                up) [
                  | none ↦ (error, tell (bytes "文件头发送失败") up)
                  | some up' ↦ send_end (send_chunks reads up')
                ])
