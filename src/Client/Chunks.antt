-- ===== src/Client/Chunks.antt =====
-- client/client.c: the packets that `send_file` makes of a file, where no call fails.
use multi_user_chat.Base.{
  ℕ, ◌≤◌, ◌<◌, ◌≡◌, refl, sym, ap, subst, ◌∙◌, true, false, Option, none, some, List, [], ◌∷◌, ◌++◌,
  Bytes, length, take, All, arith, append-nil, append_assoc, take-all, length-take, copy_fixed, ltb,
}
use multi_user_chat.Net.{Outcome, done}
use multi_user_chat.Net.Stream.{Works, calls}
use multi_user_chat.Protocol.{Packet, packet_init, fill}
use multi_user_chat.Protocol.Init.{
  length-fill, IsPacket, Initialised, HasBytes, packet_init-ok, take-fill,
}
use multi_user_chat.Protocol.Wire.{send_packet_total}
use multi_user_chat.Files.{base_filename}
use multi_user_chat.Client.Payload.{payload_bytes, length-payload_bytes}
use multi_user_chat.Client.Upload.{
  Read, Upload, transmit, send_file_chunk, send_chunks, send_end, send_file, upload_payload,
}

-- What `fread` gives of a file that stays as it is: all of a full buffer, and less than that with
-- the end of the file.
pub data Reads : Bytes → List Read → Type 0 where
  last :
      (got : Bytes)
      → length got < 1024
      → Reads got (record { got = got; end_of_file = true; read_error = false } ∷ [])
  more :
      (got rest : Bytes) (rs : List Read)
      → length got ≡ 1024
      → Reads rest rs
      → Reads (got ++ rest) (record { got = got; end_of_file = false; read_error = false } ∷ rs)

pub record IsChunk (p : Packet) (got : Bytes) : Type 0 where
  pub packet : IsPacket p
  pub has_type : p.type ≡ 7
  pub has_length : p.length ≡ length got
  pub has_bytes : take p.length p.payload ≡ got
  pub small : length got ≤ 1024

-- Packets that carry these bytes.
pub data Chunks : List Packet → Bytes → Type 0 where
  no_more : Chunks [] []
  chunk :
      (p : Packet) (ps : List Packet) (got rest : Bytes)
      → IsChunk p got
      → Chunks ps rest
      → Chunks (p ∷ ps) (got ++ rest)

pub upload_name : (path : Bytes) (size : ℕ) → length (upload_payload path size).filename ≡ 256
upload_name path size =
    let name = copy_fixed 256 (base_filename path) in
    length-fill 256 name (omega (arith, length-take 255 (base_filename path)))

-- The packets of a whole file: its payload, its bytes, and its end.
pub record Uploaded (username receiver path contents : Bytes) (packets : List Packet) : Type 0 where
  pub first : Packet
  pub end : Packet
  pub chunks : List Packet
  pub in_order : packets ≡ first ∷ (chunks ++ (end ∷ []))
  pub begins :
      Initialised 6
        (some username)
        (some receiver)
        (some (payload_bytes (upload_payload path (length contents))))
        264
        first
  pub carry : Chunks chunks contents
  pub ends : Initialised 8 (some username) (some receiver) none 0 end

-- No call fails, and one for each byte of a packet makes progress.
pub record Connected (outcomes : ℕ → List Outcome) : Type 0 where
  pub works : (i : ℕ) → All Works (outcomes i)
  pub enough : (i : ℕ) → 1096 ≤ calls (outcomes i)

abbrev pub sent_more : Upload → List Packet → Upload
sent_more up ps = record up { sent = up.sent ++ ps }

pub not_ltb : (a b : ℕ) → b ≤ a → ltb a b ≡ false
not_ltb a b h = ground arith

module _ (outcomes : ℕ → List Outcome) (on : Connected outcomes) where
  pub transmit-ok :
      (p : Packet) (up : Upload)
      → IsPacket p
      → transmit outcomes (some p) up ≡ some (sent_more up (p ∷ []))
  unfolding transmit
  transmit-ok p up v =
      let e =
        send_packet_total (outcomes (length up.sent)) p v (on.works (length up.sent))
          (omega (arith, v.small, on.enough (length up.sent))) in
      rw e refl

  pub transmit-packet_init :
      (type : ℕ) (sender receiver buffer : Option Bytes) (len : ℕ) (up : Upload)
      → len ≤ 1024
      → HasBytes buffer len
      → (p : Packet) × Initialised type sender receiver buffer len p
        × (transmit outcomes (packet_init type sender receiver buffer len) up
            ≡ some (sent_more up (p ∷ [])))
  transmit-packet_init type sender receiver buffer len up h b =
      let (p, made, i) = packet_init-ok type sender receiver buffer len h b in
      (p, i, ap (λ o. transmit outcomes o up) made ∙ transmit-ok p up i.packet)

  module _ (username receiver : Bytes) where
    send_file_chunk-ok :
        (got : Bytes) (up : Upload)
        → length got ≤ 1024
        → (p : Packet) × IsChunk p got
          × (send_file_chunk outcomes username receiver got up ≡ some (sent_more up (p ∷ [])))
    unfolding send_file_chunk
    send_file_chunk-ok got up h =
        let (p, i, sent) =
          transmit-packet_init 7 (some username) (some receiver) (some got) (length got) up h
            (omega arith) in
        let whole : take (length got) got ≡ got = take-all (length got) got (omega arith) in
        (
          p,
          record {
            packet = i.packet;
            has_type = i.has_type;
            has_length = i.has_length;
            has_bytes =
                ap (λ n. take n p.payload) i.has_length
                ∙ ap (take (length got)) (i.has_payload ∙ ap (fill 1024) whole)
                ∙ take-fill 1024 got;
            small = h;
          },
          sent,
        )

    chunk_last : (p : Packet) (got : Bytes) → IsChunk p got → Chunks (p ∷ []) got
    chunk_last p got c = subst (Chunks (p ∷ [])) (append-nil got) (chunk p [] got [] c no_more)

    pub send_chunks_lem :
        (contents : Bytes) (reads : List Read) (up : Upload)
        → Reads contents reads
        → (ps : List Packet) × Chunks ps contents
          × (send_chunks outcomes username receiver reads up ≡ (done, sent_more up ps))
    unfolding send_chunks
    send_chunks_lem contents reads up (last [] h) =
        ([], no_more, ap (λ ps. (done, record up { sent = ps })) (sym (append-nil up.sent)))
    send_chunks_lem contents reads up (last (b ∷ bs) h) =
        let (p, c, sent) = send_file_chunk-ok (b ∷ bs) up (omega arith) in
        (p ∷ [], chunk_last p (b ∷ bs) c, rw (send_chunks, sent) refl)
    send_chunks_lem contents reads up (more [] rest rs full later) = absurd (omega arith)
    send_chunks_lem contents reads up (more (b ∷ bs) rest rs full later) =
        let (p, c, sent) = send_file_chunk-ok (b ∷ bs) up (omega arith) in
        let (ps, cs, done_all) = send_chunks_lem rest rs (sent_more up (p ∷ [])) later in
        (
          p ∷ ps,
          chunk p ps (b ∷ bs) rest c cs,
          rw (send_chunks, sent)
              (done_all
                ∙ ap (λ l. (done, record up { sent = l })) (append_assoc up.sent (p ∷ []) ps)),
        )

    pub send_file_lem :
        (path contents : Bytes) (reads : List Read) (up : Upload)
        → Reads contents reads
        → length contents ≤ 10485760
        → up.sent ≡ []
        → let r =
            send_file outcomes username receiver path (some (length contents)) true reads up in
          (r.0 ≡ done) × Uploaded username receiver path contents r.1.sent
    unfolding send_file send_end
    send_file_lem path contents reads up file small fresh =
        let payload = upload_payload path (length contents) in
        let sized = length-payload_bytes payload (upload_name path (length contents)) in
        let (b, ib, eb) =
          transmit-packet_init 6 (some username) (some receiver) (some (payload_bytes payload)) 264
            up (omega arith) (omega (arith, sized)) in
        let up' = sent_more up (b ∷ []) in
        let (ps, cs, ec) = send_chunks_lem contents reads up' file in
        let (e, ie, ee) =
          transmit-packet_init 8 (some username) (some receiver) none 0 (sent_more up' ps)
            (omega arith) tt in
        let within : ltb 10485760 (length contents) ≡ false =
          not_ltb 10485760 (length contents) small in
        rw (within, eb, ec, send_end, ee)
          (
            refl,
            record {
              first = b;
              end = e;
              chunks = ps;
              in_order = ap (λ (l : List Packet). ((l ++ (b ∷ [])) ++ ps) ++ (e ∷ [])) fresh;
              begins = ib;
              carry = cs;
              ends = ie;
            },
          )
