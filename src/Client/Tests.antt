-- ===== src/Client/Tests.antt =====
-- Runs of the client: a file of five bytes, sent and received.
use multi_user_chat.Base.{
  ℕ, zero, suc, ◌≡◌, ◌++◌, none, refl, true, false, some, List, [], ◌∷◌, Bytes, bytes, length, take,
  c_str, replicate, All, arith, decimal,
}
use multi_user_chat.Net.{Outcome, count, done}
use multi_user_chat.Net.Stream.{Works, calls}
use multi_user_chat.Files.{
  split_last, base_filename, sanitize_loop, sanitize_component, split_extension, find_free,
  candidate_name, build_unique_download_path,
}
use multi_user_chat.Client.{
  receive, print_line, no_file, Receiver, FileSystem, close_incoming_file, recv_thread,
}
use multi_user_chat.Client.Upload.{Read, Upload, send_file}
use multi_user_chat.Client.Chunks.{last, Connected}
use multi_user_chat.Client.Confined.{IsConfined, recv_thread-IsConfined}
use multi_user_chat.Client.Session.{Session, Host, do_login, send_private_message}
use multi_user_chat.Client.Loops.{chat_loop, chat_loop-end_of_input}
use multi_user_chat.Client.Served.{
  first_call, Forwards, do_login-process_packet, send_private_message-receive,
}
use multi_user_chat.Protocol.{Packet, message_type}
use multi_user_chat.Protocol.Init.{IsPacket}
use multi_user_chat.Server.Program.{login}
use multi_user_chat.Server.Handlers.{process_packet}
use multi_user_chat.Client.Delivery.{wires, rounds, Arrived, recv_thread-send_file}

works : (n : ℕ) → All Works (replicate n (count 100))
works zero = tt
works (suc n) = (tt, works n)

calls-replicate : (n : ℕ) → calls (replicate n (count 100)) ≡ n
calls-replicate zero = refl
calls-replicate (suc n) = omega (arith, calls-replicate n)

abbrev line : ℕ → List Outcome
line i = replicate 1096 (count 100)

line-Connected : Connected line
line-Connected = record {
  works = λ i. works 1096;
  enough = λ i. omega (arith, calls-replicate 1096);
}

abbrev disk : ℕ → FileSystem
disk i = record {
  has_directory = true;
  exists_at = λ path. false;
  allocates = λ path. true;
  opens = λ path. true;
  room = 4096;
}

abbrev idle : Receiver
idle = record { incoming = no_file; saved = []; printed = [] }

abbrev reads : List Read
reads = record { got = bytes "hello"; end_of_file = true; read_error = false } ∷ []

abbrev target : Bytes
target = bytes "downloads/ann_a.txt"

free_path :
    build_unique_download_path
      (λ path. false)
      (λ path. true)
      true
      (bytes "downloads")
      (c_str (take 31 (bytes "ann")))
      (c_str (take 255 (base_filename (bytes "/tmp/a.txt"))))
      512
    ≡ some target
unfolding split_last base_filename sanitize_loop sanitize_component split_extension candidate_name
    find_free build_unique_download_path c_str decimal
free_path = refl

abbrev upload : Upload
upload =
    (send_file line (bytes "ann") (bytes "bob") (bytes "/tmp/a.txt") (some 5) true reads
      (record { sent = []; printed = [] })).1

recv_thread-send_file_example :
    ((send_file line
        (bytes "ann")
        (bytes "bob")
        (bytes "/tmp/a.txt")
        (some 5)
        true
        reads
        (record { sent = []; printed = [] })).0
      ≡ done)
    × Arrived target
        (bytes "hello")
        (close_incoming_file idle).saved
        (recv_thread disk 0 (rounds line 0 (length upload.sent)) (wires upload.sent) idle)
recv_thread-send_file_example =
    recv_thread-send_file line line disk (bytes "ann") (bytes "bob") (bytes "/tmp/a.txt")
      (bytes "hello") target reads [] idle line-Connected line-Connected (λ i. omega arith)
      (last (bytes "hello") (omega arith)) (omega arith) free_path refl

recv_thread-IsConfined_example :
    IsConfined (recv_thread disk 0 (rounds line 0 3) (wires upload.sent) idle)
recv_thread-IsConfined_example =
    recv_thread-IsConfined disk 0 (rounds line 0 3) (wires upload.sent) idle
      (record { closed = tt; written = tt })

abbrev host : Host
host = record {
  outcomes = λ i. line;
  arrivals = λ i. [];
  alive = λ i. true;
  size = λ i. none;
  opens = λ i. false;
  reads = λ i. [];
}

-- A session of ann, with this input.
abbrev typing : Bytes → Session
typing input = record {
  state = record { running = true; logged_in = true; username = bytes "ann" };
  input = input;
  stream = [];
  up = record { sent = []; printed = [] };
  clock = 0;
}

abbrev typed : Bytes → Bytes → Session
typed first second = typing (first ++ (0x0a ∷ (second ++ (0x0a ∷ []))))

chat_loop-end_of_input_example : chat_loop host 1000 (typing []) ≡ none
chat_loop-end_of_input_example =
    chat_loop-end_of_input host 1000 (typing []) (λ i. refl) refl refl refl

do_login-process_packet_example :
    (p : Packet) × IsPacket p
    × ((do_login host (typed (bytes "ann") (bytes "secret"))).1.up.sent ≡ p ∷ [])
    × (first_call (process_packet 2 5 p) ≡ some (login (bytes "ann") (bytes "secret") 5))
do_login-process_packet_example =
    do_login-process_packet host (typed (bytes "ann") (bytes "secret")) (bytes "ann")
      (bytes "secret") [] 2 5 refl (ground arith) (ground arith) (omega arith) (omega arith)
      line-Connected

send_private_message-receive_example :
    (p : Packet) × IsPacket p
    × ((send_private_message host (typed (bytes "bob") (bytes "hi"))).up.sent ≡ p ∷ [])
    × Forwards (process_packet 2 5 p) (bytes "bob") 6 p
    × (receive (disk 0) (message_type p.type) p idle
        ≡ print_line (bytes "[私聊][" ++ (bytes "ann" ++ (bytes "]: " ++ bytes "hi"))) idle)
send_private_message-receive_example =
    send_private_message-receive host (typed (bytes "bob") (bytes "hi")) (bytes "bob") (bytes "hi")
      [] 2 5 6 (disk 0) idle refl (ground arith) (ground arith) (omega arith) (omega arith)
      (omega arith) (ground arith) line-Connected
