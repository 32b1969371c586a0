-- ===== src/Client/Transfer.antt =====
-- client/client.c: a file that `send_file` cut into packets is put together by `recv_thread`.
use multi_user_chat.Base.{
  ℕ, suc, ◌+◌, ◌-◌, ◌^◌, ◌≤◌, ◌<◌, ◌≡◌, refl, sym, ap, ap₂, subst, ◌∙◌, true, false, some, List, [],
  ◌∷◌, ◌++◌, Bytes, bytes, length, take, set, c_str, copy_fixed, min, arith, append_assoc,
  append-nil, length-append, length-take, take-all, ltb, ◌==◌, ==_iff, zeros,
}
use multi_user_chat.Protocol.{Packet, message_type, fill}
use multi_user_chat.Protocol.Init.{length-fill, get_or-zeros}
use multi_user_chat.Protocol.Wire.{set-get_or}
use multi_user_chat.Files.{base_filename, build_unique_download_path}
use multi_user_chat.Client.{
  no_file, Receiver, FileSystem, close_incoming_file, handle_file_begin, handle_file_chunk,
  handle_file_end, write_chunk, started, start_line, print_line, open_file, accept_file,
  begin_payload, complete_line, receive,
}
use multi_user_chat.Client.Payload.{
  FileBeginPayload, payload_of, payload_bytes, length-payload_bytes, payload_of-payload_bytes,
}
use multi_user_chat.Client.Upload.{upload_payload}
use multi_user_chat.Client.Chunks.{IsChunk, Chunks, no_more, chunk}

-- The rounds of `recv_thread` over packets that arrive.
abbrev pub receive_packets : (ℕ → FileSystem) → ℕ → List Packet → Receiver → Receiver
receive_packets world round [] r = r
receive_packets world round (p ∷ ps) r =
    receive_packets world (suc round) ps (receive (world round) (message_type p.type) p r)

-- In the middle of a file, with these contents so far.
pub record Receiving (path : Bytes) (saved : List (Bytes × Bytes)) (size : ℕ) (contents : Bytes)
    (r : Receiver) : Type 0 where
  pub is_active : r.incoming.active ≡ true
  pub is_open : r.incoming.fp ≡ some contents
  pub counted : r.incoming.received_size ≡ length contents
  pub expected : r.incoming.expected_size ≡ size
  pub at : r.incoming.path ≡ path
  pub before : r.saved ≡ saved

handle_file_chunk-open :
    (fs : FileSystem) (p : Packet) (r : Receiver) (c : Bytes)
    → r.incoming.active ≡ true
    → r.incoming.fp ≡ some c
    → handle_file_chunk fs p r ≡ write_chunk fs p c r
unfolding handle_file_chunk
handle_file_chunk-open fs p r c a o = simp (a, o)

module _ (path : Bytes) (saved : List (Bytes × Bytes)) (size : ℕ) where
  write_chunk-Receiving :
      (fs : FileSystem) (p : Packet) (r : Receiver) (c got : Bytes)
      → IsChunk p got
      → 1024 ≤ fs.room
      → length c + length got < 2 ^ 64
      → Receiving path saved size c r
      → Receiving path saved size (c ++ got) (write_chunk fs p c r)
  unfolding write_chunk
  write_chunk-Receiving fs p r c got k room small v =
      let n : min fs.room p.length ≡ p.length = omega (arith, k.has_length, k.small, room) in
      let same : (p.length == p.length) ≡ true = (==_iff p.length p.length).1 refl in
      rw (n, same)
        (record {
          is_active = v.is_active;
          is_open = ap (λ b. some (c ++ b)) k.has_bytes;
          counted = omega (arith, v.counted, k.has_length, small, length-append c got);
          expected = v.expected;
          at = v.at;
          before = v.before;
        })

  receive-IsChunk :
      (fs : FileSystem) (p : Packet) (r : Receiver) (c got : Bytes)
      → IsChunk p got
      → 1024 ≤ fs.room
      → length c + length got < 2 ^ 64
      → Receiving path saved size c r
      → Receiving path saved size (c ++ got) (receive fs (message_type p.type) p r)
  unfolding receive message_type
  receive-IsChunk fs p r c got k room small v =
      subst (Receiving path saved size (c ++ got))
        (sym (
          ap (λ t. receive fs (message_type t) p r) k.has_type
          ∙ handle_file_chunk-open fs p r c v.is_active v.is_open))
        (write_chunk-Receiving fs p r c got k room small v)

  pub receive-Chunks :
      (world : ℕ → FileSystem) (round : ℕ) (ps : List Packet) (r : Receiver) (c rest : Bytes)
      → ((i : ℕ) → 1024 ≤ (world i).room)
      → Chunks ps rest
      → length c + length rest < 2 ^ 64
      → Receiving path saved size c r
      → (r' : Receiver) × Receiving path saved size (c ++ rest) r'
        × ((qs : List Packet)
            → receive_packets world round (ps ++ qs) r
              ≡ receive_packets world (round + length ps) qs r')
  receive-Chunks world round ps r c rest room no_more small v = (
    r,
    subst (λ b. Receiving path saved size b r) (sym (append-nil c)) v,
    (λ qs. ap (λ i. receive_packets world i qs r) (omega arith)),
  )
  receive-Chunks world round ps r c rest room (chunk p ps' got rest' k later) small v =
      let total = length-append got rest' in
      let v' =
        receive-IsChunk (world round) p r c got k (room round) (omega (arith, total, small)) v in
      let (r', v'', same) =
        receive-Chunks world (suc round) ps' (receive (world round) (message_type p.type) p r)
          (c ++ got) rest' room later (omega (arith, total, small, length-append c got)) v' in
      (
        r',
        subst (λ b. Receiving path saved size b r') (append_assoc c got rest') v'',
        (λ qs. same qs ∙ ap (λ i. receive_packets world i qs r') (omega arith)),
      )

  -- The end of a file that came as announced.
  pub handle_file_end-Receiving :
      (r : Receiver) (c : Bytes)
      → Receiving path saved size c r
      → size ≡ length c
      → let r' = handle_file_end r in
        (r'.incoming ≡ no_file)
        × (r'.saved ≡ (path, c) ∷ saved)
        × (r'.printed ≡ complete_line path ∷ r.printed)
  unfolding handle_file_end close_incoming_file
  handle_file_end-Receiving r c v all =
      let equal : (r.incoming.received_size == r.incoming.expected_size) ≡ true =
        (==_iff r.incoming.received_size r.incoming.expected_size).1
          (omega (arith, v.counted, v.expected, all)) in
      rw (v.is_active, equal, v.is_open)
        (refl, ap₂ (λ p s. (p, c) ∷ s) v.at v.before, ap (λ p. complete_line p ∷ r.printed) v.at)

pub begin_payload-upload :
    (p : Packet) (path : Bytes) (size : ℕ)
    → p.payload ≡ fill 1024 (take 264 (payload_bytes (upload_payload path size)))
    → size < 2 ^ 64
    → begin_payload p ≡ upload_payload path size
begin_payload-upload p path size h small =
    let name = copy_fixed 256 (base_filename path) in
    let payload = upload_payload path size in
    let short : length name ≤ 255 = omega (arith, length-take 255 (base_filename path)) in
    let sized : length (fill 256 name) ≡ 256 = length-fill 256 name (omega arith) in
    let bytes_size = length-payload_bytes payload sized in
    let all = take-all 264 (payload_bytes payload) (omega arith) in
    let read : payload_of p.payload ≡ payload =
      ap payload_of (h ∙ ap (fill 1024) all)
      ∙ payload_of-payload_bytes payload (zeros (1024 - length (payload_bytes payload))) sized
          small in
    let ended : set (fill 256 name) 255 0 ≡ fill 256 name =
      set-get_or (fill 256 name) 255 0 (get_or-zeros name (256 - length name) 255 short) in
    ap (λ (q : FileBeginPayload). record q { filename = set q.filename 255 0 }) read
    ∙ ap (λ (b : Bytes). record payload { filename = b }) ended

handle_file_begin-accept :
    (fs : FileSystem) (p : Packet) (r : Receiver)
    → p.length ≡ 264
    → handle_file_begin fs p r ≡ accept_file fs p (begin_payload p) (close_incoming_file r)
unfolding handle_file_begin
handle_file_begin-accept fs p r sized =
    let equal : (p.length == 264) ≡ true = (==_iff p.length 264).1 sized in rw equal refl

accept_file-ok :
    (fs : FileSystem) (p : Packet) (r : Receiver) (payload : FileBeginPayload) (target : Bytes)
    → ltb 10485760 payload.filesize ≡ false
    → build_unique_download_path fs.exists_at fs.allocates fs.has_directory
        (bytes "downloads")
        (c_str p.sender)
        (c_str payload.filename)
        512
      ≡ some target
    → fs.opens target ≡ true
    → accept_file fs p payload r ≡ (
        let file = started p payload target in
        print_line (start_line file) (record r { incoming = file }))
unfolding accept_file open_file
accept_file-ok fs p r payload target small built opens = rw (small, built, opens) refl

pub handle_file_begin-ok :
    (fs : FileSystem) (p : Packet) (r : Receiver) (payload : FileBeginPayload) (target : Bytes)
    → p.length ≡ 264
    → begin_payload p ≡ payload
    → ltb 10485760 payload.filesize ≡ false
    → build_unique_download_path fs.exists_at fs.allocates fs.has_directory
        (bytes "downloads")
        (c_str p.sender)
        (c_str payload.filename)
        512
      ≡ some target
    → fs.opens target ≡ true
    → Receiving target (close_incoming_file r).saved payload.filesize [] (handle_file_begin fs p r)
handle_file_begin-ok fs p r payload target sized read small built opens =
    let file = started p payload target in
    let closed = close_incoming_file r in
    let e : handle_file_begin fs p r
        ≡ print_line (start_line file) (record closed { incoming = file }) =
      handle_file_begin-accept fs p r sized
      ∙ ap (λ q. accept_file fs p q closed) read
      ∙ accept_file-ok fs p closed payload target small built opens in
    subst (Receiving target closed.saved payload.filesize []) (sym e) (record {
      is_active = refl;
      is_open = refl;
      counted = refl;
      expected = refl;
      at = refl;
      before = refl;
    })
