-- ===== src/Client/Requests.antt =====
-- client/client.c: the prompts and the requests of the main
-- thread, with lines that fit.
use multi_user_chat.Base.{
  is_empty, is_empty-append, ℕ, ◌+◌, ◌-◌, ◌<◌, ◌≡◌, ◌≢◌, refl, ap, ◌∙◌, Bool, true, false, some, [],
  ◌∷◌, ◌++◌, Bytes, length, c_str, c_str-plain, IsCString, fgets, cut_line, fgets-line,
  cut_line-line, IsLine, IsLine-IsCString, IsLine-ends, All-append, Bool-cases, inl, inr, arith,
}
use multi_user_chat.Net.{is_done}
use multi_user_chat.Protocol.{MessageType, type_code, msg_login, Packet, recv_packet}
use multi_user_chat.Protocol.Init.{Initialised, packet_set_text-ok}
use multi_user_chat.Client.Chunks.{Connected, sent_more, transmit-ok}
use multi_user_chat.Client.Session.{
  Session, Host, say, read_line_prompt, read_account, read_two, send_text_packet,
  wait_for_auth_response, do_login, post, posted, login_answered, login_account, login_posted,
  first_line, second_line,
}

abbrev asked : Bytes → Bytes → Session → Session
asked prompt rest s = record (say prompt s) { input = rest }

-- A line that fits is read whole, and no more than it.
read_line_prompt-line :
    (prompt : Bytes) (size : ℕ) (line rest : Bytes) (s : Session)
    → IsLine line
    → length line + 1 < size
    → s.input ≡ line ++ (0x0a ∷ rest)
    → read_line_prompt prompt size s ≡ (some line, asked prompt rest s)
unfolding read_line_prompt
read_line_prompt-line prompt size line rest s h fits e =
    let full : is_empty s.input ≡ false = ap is_empty e ∙ is_empty-append line rest 0x0a in
    let ends = IsLine-ends line h in
    let got : fgets (size - 1) s.input ≡ (line ++ (0x0a ∷ []), rest) =
      ap (fgets (size - 1)) e ∙ fgets-line (size - 1) line rest ends (omega arith) in
    let string : c_str (line ++ (0x0a ∷ [])) ≡ line ++ (0x0a ∷ []) =
      c_str-plain _
        (All-append (λ b. b ≢ 0) line (0x0a ∷ []) (IsLine-IsCString line h) (omega arith, tt)) in
    rw (read_line_prompt, full)
      (ap
          (λ (r : Bytes × Bytes).
            (some (cut_line (c_str r.0)), record (say prompt s) { input = r.1 }))
          got
        ∙ ap (λ l. (some (cut_line l), asked prompt rest s)) string
        ∙ ap (λ l. (some l, asked prompt rest s)) (cut_line-line line [] ends))

module _ (host : Host) where
  pub posted_text :
      (type : MessageType) (sender receiver text : Bytes) (s : Session)
      → Connected (host.outcomes s.clock)
      → length text < 1024
      → IsCString text
      → (p : Packet) × Initialised
          (type_code type)
          (some sender)
          (some receiver)
          (some (text ++ (0 ∷ [])))
          (length text + 1)
          p
        × (c_str p.payload ≡ text)
        × (send_text_packet host type sender receiver text s
            ≡ (true, record s { up = sent_more s.up (p ∷ []); clock = s.clock + 1 }))
  unfolding send_text_packet
  posted_text type sender receiver text s on small string =
      let (p, made, i, payload, _) =
        packet_set_text-ok (type_code type) (some sender) (some receiver) text small string in
      let sent = transmit-ok (host.outcomes s.clock) on p s.up i.packet in
      (p, i, payload, ap (λ o. post host o s) made ∙ ap (λ t. posted t s) sent)

  wait_for_auth_response-sent :
      (s : Session) → (wait_for_auth_response host s).1.up.sent ≡ s.up.sent
  unfolding wait_for_auth_response
  wait_for_auth_response-sent s =
      elim (Bool-cases (is_done (recv_packet (host.arrivals s.clock) s.stream).status)) [
        | inl good ↦ rw (wait_for_auth_response, good) refl
        | inr bad ↦ rw (wait_for_auth_response, bad) refl
      ]

  login_answered-sent :
      (u : Bytes) (r : Bool × Session) → (login_answered u r).1.up.sent ≡ r.1.up.sent
  login_answered-sent u (true, s) = refl
  login_answered-sent u (false, s) = refl

  pub read_two-lines :
      (first second : Bytes) (size size' : ℕ) (a b rest : Bytes) (s : Session)
      → IsLine a
      → IsLine b
      → length a + 1 < size
      → length b + 1 < size'
      → s.input ≡ a ++ (0x0a ∷ (b ++ (0x0a ∷ rest)))
      → read_two first size second size' s
        ≡ (some (a, b), asked second rest (asked first (b ++ (0x0a ∷ rest)) s))
  unfolding read_two
  read_two-lines first second size size' a b rest s ha hb fits fits' e =
      ap (first_line second size')
        (read_line_prompt-line first size a (b ++ (0x0a ∷ rest)) s ha fits e)
      ∙ ap (second_line a) (
          read_line_prompt-line second size' b rest (asked first (b ++ (0x0a ∷ rest)) s) hb fits'
            refl)

  pub do_login-sent :
      (s s1 s2 : Session) (u p : Bytes)
      → read_account s ≡ (some (u, p), s1)
      → send_text_packet host msg_login u [] p s1 ≡ (true, s2)
      → (do_login host s).1.up.sent ≡ s2.up.sent
  unfolding do_login
  do_login-sent s s1 s2 u p account sent =
      ap (λ r. (login_account host r).1.up.sent) account
      ∙ ap (λ r. (login_posted host u r).1.up.sent) sent
      ∙ login_answered-sent u (wait_for_auth_response host s2)
      ∙ wait_for_auth_response-sent s2
