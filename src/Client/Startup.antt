-- ===== src/Client/Startup.antt =====
-- client/client.c: `main`, around the main menu.
use multi_user_chat.Base.{
  ℕ, ◌≡◌, ap, ◌∙◌, Bool, true, false, Option, none, some, List, [], ◌∷◌, ◌++◌, Bytes, bytes,
  get_elem?, print_size, arith,
}
use multi_user_chat.Net.Sockets.{
  Network, Sockets, shutdown, called, add_fd, remove_fd, close_fd, connect_tcp_server,
  create_udp_broadcast_receiver,
}
use multi_user_chat.Net.Opening.{sockets_lem, remove_fd-first}
use multi_user_chat.Server.Port.{parse_port}
use multi_user_chat.Client.Session.{Session, Host, say, stop, read_line_prompt}
use multi_user_chat.Client.Loops.{main_loop}

abbrev pub default_server_ip : Bytes
default_server_ip = bytes "127.0.0.1"

abbrev pub default_tcp_port : ℕ
default_tcp_port = 9000

abbrev pub default_udp_port : ℕ
default_udp_port = 9001

-- What is typed, unless it is nothing.
abbrev pub typed_ip : Option Bytes → Bytes
typed_ip (some (b ∷ ip)) = b ∷ ip
typed_ip _ = default_server_ip

abbrev pub typed_port : Option Bytes → ℕ
typed_port (some (b ∷ port)) = parse_port (some (b ∷ port)) default_tcp_port
typed_port _ = default_tcp_port

-- The address of the server: from the arguments, or typed where there are none.
unfoldable pub server_address : List Bytes → Session → (Bytes × ℕ) × Session
server_address [] s =
    let (ip, s1) = read_line_prompt (bytes "服务器IP(默认127.0.0.1): ") 64 s in
    let (port, s2) = read_line_prompt (bytes "TCP端口(默认9000): ") 32 s1 in
    ((typed_ip ip, typed_port port), s2)
server_address (ip ∷ arguments) s = ((ip, parse_port (get_elem? arguments 0) default_tcp_port), s)

-- Without the descriptor for the broadcasts the client goes on.
abbrev pub udp_started : Option ℕ → Session → Session
udp_started none s = say (bytes "UDP 广播接收启动失败，聊天功能仍可使用") s
udp_started (some fd) s = s

abbrev pub connected_line : Bytes → ℕ → ℕ → Bytes
connected_line ip tcp_port udp_port =
    bytes "已连接服务器 "
    ++ (ip ++ (bytes ":" ++ (print_size tcp_port ++ (bytes "，UDP广播端口 " ++ print_size udp_port))))

-- What `main` closes behind its loop.
abbrev pub close_udp : Option ℕ → Sockets → Sockets
close_udp none k = k
close_udp (some fd) k = close_fd fd k

abbrev pub close_server : ℕ → Sockets → Sockets
close_server fd k = close_fd fd (called (shutdown fd) k)

-- Behind the main menu; `none` is a menu that is still open.
abbrev pub menu_over : ℕ → Option ℕ → Sockets → Option Session → Option (Bool × Session × Sockets)
menu_over fd udp_fd k none = none
menu_over fd udp_fd k (some s) = some (true, stop s, close_udp udp_fd (close_server fd k))

module _ (net : Network) (host : Host) (fuel : ℕ) where
  -- `main` behind the call of `create_udp_broadcast_receiver`.
  abbrev pub run_menu :
      Bytes → ℕ → ℕ → ℕ → Session → Option ℕ × Sockets → Option (Bool × Session × Sockets)
  run_menu ip tcp_port udp_port fd s (udp_fd, k) =
      menu_over fd udp_fd k
        (main_loop host fuel (say (connected_line ip tcp_port udp_port) (udp_started udp_fd s)))

  abbrev pub run_client :
      Bytes → ℕ → ℕ → Session → Option ℕ × Sockets → Option (Bool × Session × Sockets)
  run_client ip tcp_port udp_port s (none, k) = some (false, s, k)
  run_client ip tcp_port udp_port s (some fd, k) =
      run_menu ip tcp_port udp_port fd s (create_udp_broadcast_receiver net udp_port k)

  -- `main`, with its arguments behind the name of the program: whether it returns 0.
  unfoldable pub client_main : List Bytes → Session → Sockets → Option (Bool × Session × Sockets)
  client_main arguments s k =
      let ((ip, tcp_port), s1) = server_address arguments s in
      let udp_port = parse_port (get_elem? arguments 2) default_udp_port in
      run_client ip tcp_port udp_port s1 (connect_tcp_server net ip tcp_port k)

-- The descriptors that are open are those from before.
abbrev pub Restored : List ℕ → Option (Bool × Session × Sockets) → Type 0
Restored opened none = Unit
Restored opened (some (succeeded, s, k)) = k.opened ≡ opened

remove_fd-both : (udp fd : ℕ) (fds : List ℕ) → remove_fd udp (remove_fd fd (udp ∷ fd ∷ fds)) ≡ fds
unfolding remove_fd
remove_fd-both udp fd fds = ground arith

close_udp-close_server :
    (udp_fd : Option ℕ) (fd : ℕ) (k : Sockets) (opened : List ℕ)
    → k.opened ≡ add_fd udp_fd (fd ∷ opened)
    → (close_udp udp_fd (close_server fd k)).opened ≡ opened
close_udp-close_server none fd k opened e = ap (remove_fd fd) e ∙ remove_fd-first fd opened
close_udp-close_server (some udp) fd k opened e =
    ap (λ o. remove_fd udp (remove_fd fd o)) e ∙ remove_fd-both udp fd opened

menu_over-Restored :
    (fd : ℕ) (udp_fd : Option ℕ) (k : Sockets) (over : Option Session) (opened : List ℕ)
    → k.opened ≡ add_fd udp_fd (fd ∷ opened)
    → Restored opened (menu_over fd udp_fd k over)
menu_over-Restored fd udp_fd k none opened e = tt
menu_over-Restored fd udp_fd k (some s) opened e = close_udp-close_server udp_fd fd k opened e

module _ (net : Network) (host : Host) (fuel : ℕ) where
  run_menu-Restored :
      (ip : Bytes) (tcp_port udp_port fd : ℕ) (s : Session) (opened : List ℕ)
      (r : Option ℕ × Sockets)
      → r.1.opened ≡ add_fd r.0 (fd ∷ opened)
      → Restored opened (run_menu net host fuel ip tcp_port udp_port fd s r)
  run_menu-Restored ip tcp_port udp_port fd s opened (udp_fd, k) e =
      menu_over-Restored fd udp_fd k
        (main_loop host fuel (say (connected_line ip tcp_port udp_port) (udp_started udp_fd s)))
        opened e

  run_client-Restored :
      (ip : Bytes) (tcp_port udp_port : ℕ) (s : Session) (opened : List ℕ) (r : Option ℕ × Sockets)
      → r.1.opened ≡ add_fd r.0 opened
      → Restored opened (run_client net host fuel ip tcp_port udp_port s r)
  run_client-Restored ip tcp_port udp_port s opened (none, k) e = e
  run_client-Restored ip tcp_port udp_port s opened (some fd, k) e =
      run_menu-Restored ip tcp_port udp_port fd s opened
        (create_udp_broadcast_receiver net udp_port k)
        ((sockets_lem net udp_port 0 [] k).3.left_open
          ∙ ap (add_fd (create_udp_broadcast_receiver net udp_port k).0) e)

  -- Whenever `main` ends it has closed what it opened.
  client_main-Restored :
      (arguments : List Bytes) (s : Session) (k : Sockets)
      → Restored k.opened (client_main net host fuel arguments s k)
  unfolding client_main
  client_main-Restored arguments s k =
      let a = server_address arguments s in
      run_client-Restored a.0.0 a.0.1 (parse_port (get_elem? arguments 2) default_udp_port) a.1
        k.opened (connect_tcp_server net a.0.0 a.0.1 k)
        (sockets_lem net a.0.1 0 a.0.0 k).1.left_open
