-- ===== src/Client/Loops.antt =====
-- client/client.c: the loops of the two menus. Fuel bounds the rounds; `none` is a loop that goes
-- on after that many.
use multi_user_chat.Base.{
  is_empty, ℕ, zero, suc, ◌+◌, ◌≡◌, refl, ap, ◌∙◌, Bool, true, false, ◌&&◌, ◌||◌, Option, none,
  some, List, [], ◌∷◌, Bytes, bytes, ◌==◌, if◌then◌else◌, arith,
}
use multi_user_chat.Client.Session.{
  Session, Host, say, stop, no_choice, read_line_prompt, read_menu_choice, do_register, do_login,
  request_online_list, send_private_message, send_group_message, ask_and_send_file, logout,
}

-- The lines of a menu, printed one after the other.
abbrev pub print_lines : List Bytes → Session → Session
print_lines [] s = s
print_lines (line ∷ lines) s = print_lines lines (say line s)

unfoldable pub show_main_menu : Session → Session
show_main_menu s =
    print_lines
      (bytes "========= 多用户网络通信系统 =========" ∷ bytes "1. 注册" ∷ bytes "2. 登录" ∷ bytes "3. 退出" ∷ []) s

unfoldable pub show_chat_menu : Session → Session
show_chat_menu s =
    print_lines
      (bytes "========= 聊天功能菜单 ========="
        ∷ bytes "1. 查看在线用户"
        ∷ bytes "2. 发送私聊消息"
        ∷ bytes "3. 发送群聊消息"
        ∷ bytes "4. 发送文件"
        ∷ bytes "5. 退出登录"
        ∷ bytes "6. 退出系统"
        ∷ [])
      s

abbrev pub invalid_choice : Session → Session
invalid_choice s = say (bytes "无效选择") s

-- What `read_menu_choice` leaves at the end of the input.
abbrev answered : Session → Session
answered s = record (say (bytes "请选择: ") s) { clock = s.clock + 1 }

read_menu_choice-end : (s : Session) → s.input ≡ [] → read_menu_choice s ≡ (no_choice, answered s)
unfolding read_menu_choice read_line_prompt
read_menu_choice-end s empty =
    let e : is_empty s.input ≡ true = ap is_empty empty in
    rw (read_menu_choice, read_line_prompt, e) refl

module _ (host : Host) where
  -- `state->running`, which the receiving thread clears when it ends.
  abbrev pub is_running : Session → Bool
  is_running s = s.state.running && host.alive s.clock

  -- The `switch` of `chat_loop`: whether the loop goes on.
  unfoldable pub chat_turn : ℕ → Session → Bool × Session
  chat_turn choice s =
      if choice == 1
      then (true, request_online_list host s)
      else (if choice == 2
          then (true, send_private_message host s)
          else (if choice == 3
              then (true, send_group_message host s)
              else (if choice == 4
                  then (true, ask_and_send_file host s)
                  else (if choice == 5
                      then (false, logout host s)
                      else (if choice == 6
                          then (false, stop (logout host s))
                          else (true, invalid_choice s))))))

  unfoldable pub chat_loop : ℕ → Session → Option Session
  chat_loop zero s = none
  chat_loop (suc fuel) s = elim (is_running s && s.state.logged_in) [
    | false ↦ some s
    | true ↦
        let (choice, s1) = read_menu_choice (show_chat_menu s) in
        let (again, s2) = chat_turn choice s1 in
        elim again [ true ↦ chat_loop fuel s2 | false ↦ some s2 ]
  ]

  -- The `switch` of `main_loop`; `chat` is the call of `chat_loop`.
  unfoldable pub main_turn : (Session → Option Session) → ℕ → Session → Option Session
  main_turn chat choice s =
      if choice == 1
      then some (do_register host s)
      else (if choice == 2
          then (let (accepted, s') = do_login host s in if accepted then chat s' else some s')
          else (if choice == 3 || choice == no_choice
              then some (stop s)
              else some (invalid_choice s)))

  unfoldable pub main_loop : ℕ → Session → Option Session
  main_loop zero s = none
  main_loop (suc fuel) s = elim (is_running s) [
    | false ↦ some s
    | true ↦
        let (choice, s1) = read_menu_choice (show_main_menu s) in
        elim (main_turn (chat_loop fuel) choice s1) [ none ↦ none | some s2 ↦ main_loop fuel s2 ]
  ]

  chat_loop-round :
      (fuel : ℕ) (s : Session)
      → (is_running s && s.state.logged_in) ≡ true
      → chat_loop (suc fuel) s ≡ (
          let r = read_menu_choice (show_chat_menu s) in
          let t = chat_turn r.0 r.1 in elim t.0 [ true ↦ chat_loop fuel t.1 | false ↦ some t.1 ])
  unfolding chat_loop
  chat_loop-round fuel s h = rw (chat_loop, h) refl

  chat_turn-no_choice : (s : Session) → chat_turn no_choice s ≡ (true, invalid_choice s)
  unfolding chat_turn
  chat_turn-no_choice s = refl

  -- While the receiving thread runs, `chat_loop` of a client that is logged in never ends once its
  -- input is at its end: it goes on after every number of rounds.
  pub chat_loop-end_of_input :
      (fuel : ℕ) (s : Session)
      → ((i : ℕ) → host.alive i ≡ true)
      → s.state.running ≡ true
      → s.state.logged_in ≡ true
      → s.input ≡ []
      → chat_loop fuel s ≡ none
  unfolding chat_loop show_chat_menu
  chat_loop-end_of_input zero s alive running on empty = refl
  chat_loop-end_of_input (suc fuel) s alive running on empty =
      let going : (is_running s && s.state.logged_in) ≡ true = ground (arith, alive s.clock) in
      let asked = show_chat_menu s in
      chat_loop-round fuel s going
      ∙ ap
          (λ r.
            let t = chat_turn r.0 r.1 in elim t.0 [ true ↦ chat_loop fuel t.1 | false ↦ some t.1 ])
          (read_menu_choice-end asked empty)
      ∙ ap (λ t. elim t.0 [ true ↦ chat_loop fuel t.1 | false ↦ some t.1 ])
          (chat_turn-no_choice (answered asked))
      ∙ chat_loop-end_of_input fuel (invalid_choice (answered asked)) alive running on empty
