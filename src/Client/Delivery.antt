-- ===== src/Client/Delivery.antt =====
-- client/client.c: a file goes from `send_file` through a connection to `recv_thread`.
use multi_user_chat.Base.{
  ℕ, zero, suc, ◌+◌, ◌^◌, ◌≤◌, ◌<◌, ◌≡◌, refl, sym, ap, ap₂, subst, ◌∙◌, true, none, some, List, [],
  ◌∷◌, ◌++◌, Bytes, bytes, length, take, length-take, c_str, copy_fixed, arith, All, All-append,
}
use multi_user_chat.Net.{Outcome, done}
use multi_user_chat.Protocol.{Packet, message_type, recv_packet}
use multi_user_chat.Protocol.Init.{IsPacket, Initialised, c_str-fill}
use multi_user_chat.Protocol.Wire.{wire}
use multi_user_chat.Protocol.Receive.{recv_packet-total, recv_packet-wire}
use multi_user_chat.Files.{base_filename, build_unique_download_path}
use multi_user_chat.Client.{
  no_file, Receiver, FileSystem, close_incoming_file, handle_file_begin, handle_file_end,
  complete_line, receive, recv_thread,
}
use multi_user_chat.Client.Payload.{payload_bytes}
use multi_user_chat.Client.Upload.{Read, upload_payload, send_file}
use multi_user_chat.Client.Chunks.{
  Reads, Chunks, no_more, chunk, Connected, Uploaded, send_file_lem, not_ltb,
}
use multi_user_chat.Client.Transfer.{
  receive_packets, Receiving, receive-Chunks, handle_file_end-Receiving, handle_file_begin-ok,
  begin_payload-upload,
}

-- The packets on the wire, one after the other.
abbrev pub wires : List Packet → Bytes
wires [] = []
wires (p ∷ ps) = wire p ++ wires ps

-- The outcomes of the calls of `recv_packet`, from one of them on.
abbrev pub rounds : (ℕ → List Outcome) → ℕ → ℕ → List (List Outcome)
rounds outcomes i zero = []
rounds outcomes i (suc n) = outcomes i ∷ rounds outcomes (suc i) n

abbrev pub Sendable : Packet → Type 0
Sendable p = IsPacket p × (p.type < 2 ^ 32)

recv_thread-next :
    (world : ℕ → FileSystem) (round : ℕ) (os : List Outcome) (oss : List (List Outcome))
    (stream rest : Bytes) (p : Packet) (r : Receiver)
    → (recv_packet os stream).status ≡ done
    → (recv_packet os stream).packet ≡ p
    → (recv_packet os stream).stream ≡ rest
    → recv_thread world round (os ∷ oss) stream r
      ≡ recv_thread world (suc round) oss rest (receive (world round) (message_type p.type) p r)
unfolding recv_thread
recv_thread-next world round os oss stream rest p r ok got left =
    rw (recv_thread, ok)
      (ap₂
        (λ (q : Packet) s.
          recv_thread world (suc round) oss s (receive (world round) (message_type q.type) q r))
        got left)

module _ (outcomes : ℕ → List Outcome) (on : Connected outcomes) (world : ℕ → FileSystem) where
  -- `recv_thread` handles what was sent, packet by packet, and then closes the file.
  recv_thread-wires :
      (round : ℕ) (ps : List Packet) (r : Receiver)
      → All Sendable ps
      → recv_thread world round (rounds outcomes round (length ps)) (wires ps) r
        ≡ close_incoming_file (receive_packets world round ps r)
  unfolding recv_thread
  recv_thread-wires round [] r v = refl
  recv_thread-wires round (p ∷ ps) r v =
      let os = outcomes round in
      let ok =
        recv_packet-total p v.0.0 v.0.1 os (wires ps) (on.works round)
          (omega (arith, v.0.0.small, on.enough round)) in
      let (got, left) = recv_packet-wire p v.0.0 v.0.1 os (wires ps) ok in
      recv_thread-next world round os (rounds outcomes (suc round) (length ps)) (wire p ++ wires ps)
        (wires ps) p r ok got left
      ∙ recv_thread-wires (suc round) ps (receive (world round) (message_type p.type) p r) v.1

Chunks-Sendable : (ps : List Packet) (b : Bytes) → Chunks ps b → All Sendable ps
Chunks-Sendable ps b no_more = tt
Chunks-Sendable ps b (chunk p ps' got rest k later) =
    ((k.packet, omega (arith, k.has_type)), Chunks-Sendable ps' rest later)

receive-begin :
    (fs : FileSystem) (p : Packet) (r : Receiver)
    → p.type ≡ 6
    → receive fs (message_type p.type) p r ≡ handle_file_begin fs p r
unfolding receive message_type
receive-begin fs p r h = ap (λ t. receive fs (message_type t) p r) h

receive-end :
    (fs : FileSystem) (p : Packet) (r : Receiver)
    → p.type ≡ 8
    → receive fs (message_type p.type) p r ≡ handle_file_end r
unfolding receive message_type
receive-end fs p r h = ap (λ t. receive fs (message_type t) p r) h

-- A file that arrived: the receiver keeps it under the path, and says so.
pub record Arrived (target contents : Bytes) (saved : List (Bytes × Bytes)) (r : Receiver)
    : Type 0 where
  pub closed : r.incoming ≡ no_file
  pub kept : r.saved ≡ (target, contents) ∷ saved
  pub lines : List Bytes
  pub said : r.printed ≡ complete_line target ∷ lines

close_incoming_file-Arrived :
    (target contents : Bytes) (saved : List (Bytes × Bytes)) (r : Receiver)
    → Arrived target contents saved r
    → Arrived target contents saved (close_incoming_file r)
unfolding close_incoming_file
close_incoming_file-Arrived target contents saved r v = record {
  closed = refl;
  kept =
      ap (λ f. (elim f.fp [ none ↦ r.saved | some c ↦ (f.path, c) ∷ r.saved ])) v.closed ∙ v.kept;
  lines = v.lines;
  said = v.said;
}

module _ (world : ℕ → FileSystem) (username receiver path contents target : Bytes) (r : Receiver)
    (room : (i : ℕ) → 1024 ≤ (world i).room) (small : length contents ≤ 10485760)
    (built : build_unique_download_path
        (world 0).exists_at
        (world 0).allocates
        (world 0).has_directory
        (bytes "downloads")
        (c_str (take 31 username))
        (c_str (take 255 (base_filename path)))
        512
      ≡ some target)
    (opens : (world 0).opens target ≡ true) where
  receive_first :
      (p : Packet)
      → Initialised 6
          (some username)
          (some receiver)
          (some (payload_bytes (upload_payload path (length contents))))
          264
          p
      → Receiving target
          (close_incoming_file r).saved
          (length contents)
          []
          (receive (world 0) (message_type p.type) p r)
  receive_first p i =
      let payload = upload_payload path (length contents) in
      let name = copy_fixed 256 (base_filename path) in
      let named : c_str payload.filename ≡ c_str name =
        c_str-fill 256 name (omega (arith, length-take 255 (base_filename path))) in
      let built' =
        ap₂
          (λ s f.
            build_unique_download_path (world 0).exists_at (world 0).allocates
              (world 0).has_directory (bytes "downloads") s f 512)
          i.has_sender named
        ∙ built in
      subst (Receiving target (close_incoming_file r).saved (length contents) [])
        (sym (receive-begin (world 0) p r i.has_type))
        (handle_file_begin-ok (world 0) p r payload target i.has_length
          (begin_payload-upload p path (length contents) i.has_payload (omega (arith, small)))
          (not_ltb 10485760 (length contents) small) built' opens)

  receive_packets-Arrived :
      (ps : List Packet)
      → Uploaded username receiver path contents ps
      → Arrived target contents (close_incoming_file r).saved (receive_packets world 0 ps r)
  receive_packets-Arrived ps u =
      let saved = (close_incoming_file r).saved in
      let r0 = receive (world 0) (message_type u.first.type) u.first r in
      let (r1, v, same) =
        receive-Chunks target saved (length contents) world 1 u.chunks r0 [] contents room u.carry
          (omega (arith, small)) (receive_first u.first u.begins) in
      let (closed, kept, said) =
        handle_file_end-Receiving target saved (length contents) r1 contents v refl in
      let through : receive_packets world 0 ps r ≡ handle_file_end r1 =
        ap (λ l. receive_packets world 0 l r) u.in_order
        ∙ same (u.end ∷ [])
        ∙ receive-end (world (1 + length u.chunks)) u.end r1 u.ends.has_type in
      subst (Arrived target contents saved) (sym through)
        (record { closed = closed; kept = kept; lines = r1.printed; said = said })

Uploaded-Sendable :
    (username receiver path contents : Bytes) (ps : List Packet)
    → Uploaded username receiver path contents ps
    → All Sendable ps
Uploaded-Sendable username receiver path contents ps u = subst (All Sendable) (sym u.in_order) (
  (u.begins.packet, omega (arith, u.begins.has_type)),
  All-append Sendable u.chunks (u.end ∷ []) (Chunks-Sendable u.chunks contents u.carry)
      ((u.ends.packet, omega (arith, u.ends.has_type)), tt),
)

-- A file of at most 10 MiB goes through: where no system call fails, each send and receive makes
-- progress for every byte of a packet, the reads give the file, the receiver finds a free path and
-- can open and write it, `send_file` ends with success, and `recv_thread` on what it sent keeps a
-- file with the same bytes under that path, says that it is complete, and is ready for the next;
-- what it had open before is closed first.
pub recv_thread-send_file :
    (sending receiving : ℕ → List Outcome) (world : ℕ → FileSystem)
    (username receiver path contents target : Bytes) (reads : List Read) (printed : List Bytes)
    (r : Receiver)
    → Connected sending
    → Connected receiving
    → ((i : ℕ) → 1024 ≤ (world i).room)
    → Reads contents reads
    → length contents ≤ 10485760
    → build_unique_download_path
        (world 0).exists_at
        (world 0).allocates
        (world 0).has_directory
        (bytes "downloads")
        (c_str (take 31 username))
        (c_str (take 255 (base_filename path)))
        512
      ≡ some target
    → (world 0).opens target ≡ true
    → let up =
        send_file sending username receiver path
          (some (length contents))
          true
          reads
          (record { sent = []; printed = printed }) in
      (up.0 ≡ done)
      × Arrived target contents
          (close_incoming_file r).saved
          (recv_thread world 0 (rounds receiving 0 (length up.1.sent)) (wires up.1.sent) r)
recv_thread-send_file sending receiving world username receiver path contents target reads printed r
      on on' room file small built opens =
    let up =
      send_file sending username receiver path (some (length contents)) true reads
        (record { sent = []; printed = printed }) in
    let (ended, u) =
      send_file_lem sending on username receiver path contents reads
        (record { sent = []; printed = printed }) file small refl in
    let arrived =
      receive_packets-Arrived world username receiver path contents target r room small built opens
        up.1.sent u in
    let fine = Uploaded-Sendable username receiver path contents up.1.sent u in
    (
      ended,
      subst (Arrived target contents (close_incoming_file r).saved)
          (sym (recv_thread-wires receiving on' world 0 up.1.sent r fine))
          (close_incoming_file-Arrived target contents (close_incoming_file r).saved
            (receive_packets world 0 up.1.sent r) arrived),
    )
