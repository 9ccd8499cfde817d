-- ===== src/Server/Login/Accepting.antt =====
-- The end of a login: a client whose login was correct is sent its id.
use tin_system_do_wspolpracy.Base.{
  Bytes, List, [], ap, arith, drop, false, length, ok, pos, refl, some, suc, true, ℕ, ℤ, ◌++◌, ◌-◌,
  ◌∙◌, ◌∷◌, ◌≡◌, ◌≤◌,
}
use tin_system_do_wspolpracy.ByteWidth.{get_byte_width_counts}
use tin_system_do_wspolpracy.ClientsMonitor.{
  ClientsMonitor, LoginState, get_login_state, get_socket_read_state, get_socket_write_state,
  get_socket_write_bytes_number, login_ended, is_logged, update_logged, header_to_recv,
  header_to_send, msg_recvd,
}
use tin_system_do_wspolpracy.ClientsMonitor.Fields.{header_out, message_out}
use tin_system_do_wspolpracy.ClientsMonitor.Phases.{
  write_state_of_header_out, write_bytes_of_header_out, read_state_of_message_out,
  read_state_of_update_logged, login_ended-update_logged, logged_after,
}
use tin_system_do_wspolpracy.Header.{header_size}
use tin_system_do_wspolpracy.IntMap.{find}
use tin_system_do_wspolpracy.Message.{client_id, get_string_rep, get_message_type}
use tin_system_do_wspolpracy.MsgType
use tin_system_do_wspolpracy.Server.State.{Server, Sent, accepted}
use tin_system_do_wspolpracy.Server.State.Ensures.{bind_ok}
use tin_system_do_wspolpracy.Server.Transfer.{inline_capacity, send_msg, after_sent}
use tin_system_do_wspolpracy.Server.Transfer.Sending.{send_msg-whole}
use tin_system_do_wspolpracy.Server.Transfer.Headers.{header_of, send_msg-header}
use tin_system_do_wspolpracy.Server.Login.{
  going, send_header, send_body, recv_header, recv_login, login_round, client_login,
  login_successful,
}
use tin_system_do_wspolpracy.Text.{to_string}

-- What the client is sent: its id, announced by a header.
abbrev pub id_text : ℕ → Bytes
id_text sockfd = to_string (pos sockfd)

owes_id : ℕ → LoginState
owes_id sockfd = record {
  msg_type = MsgType.client_id;
  msg_len = pos (length (id_text sockfd));
  info = pos sockfd;
}

get_login_state_lem :
    (sockfd : ℕ) (cm : ClientsMonitor)
    → get_socket_read_state sockfd cm ≡ msg_recvd
    → find sockfd cm.logged_clients ≡ some false
    → get_login_state sockfd cm ≡ owes_id sockfd
unfolding owes_id get_login_state is_logged login_ended
get_login_state_lem sockfd cm r l = ground (arith, (get_byte_width_counts sockfd).0)

-- The states on the way.
abbrev header_gone : ℕ → List Sent → Server → Server
header_gone sockfd rest s = record s {
  clients = header_out sockfd (pos (length (id_text sockfd))) s.clients;
  sends = rest;
  sent = s.sent ++ ((sockfd, get_string_rep (header_of 4 (length (id_text sockfd)))) ∷ []);
}

send_header-id :
    (sockfd : ℕ) (res : ℤ) (s : Server) (rest : List Sent)
    → length (id_text sockfd) ≤ inline_capacity
    → get_socket_write_state sockfd s.clients ≡ header_to_send
    → get_socket_write_bytes_number sockfd s.clients ≡ pos header_size
    → s.sends ≡ accepted header_size ∷ rest
    → send_header sockfd (owes_id sockfd) res s
      ≡ ok (going (pos 1) false, header_gone sockfd rest s)
unfolding owes_id send_header
send_header-id sockfd res s rest short ws wb e =
    rw (ws, send_header)
      (bind_ok (send_msg sockfd (header_of 4 (length (id_text sockfd)))) _ s (pos 1)
        (header_gone sockfd rest s)
        (send_msg-header sockfd 4 (length (id_text sockfd)) s rest (omega arith) (omega arith) wb
          e))

-- The state when the id is out as well.
abbrev pub id_gone : ℕ → List Sent → Server → Server
id_gone sockfd rest s = record s {
  clients =
      update_logged sockfd
        (message_out sockfd (header_out sockfd (pos (length (id_text sockfd))) s.clients));
  sends = rest;
  sent =
      (s.sent ++ ((sockfd, get_string_rep (header_of 4 (length (id_text sockfd)))) ∷ []))
      ++ ((sockfd, id_text sockfd) ∷ []);
}

send_id_lem :
    (sockfd : ℕ) (s : Server) (rest : List Sent)
    → length (id_text sockfd) ≤ inline_capacity
    → get_socket_write_bytes_number sockfd s.clients ≡ pos (length (id_text sockfd))
    → s.sends ≡ accepted (length (id_text sockfd)) ∷ rest
    → send_msg sockfd (client_id (pos sockfd)) s
      ≡ ok (
        pos 1,
        record s {
          clients = message_out sockfd s.clients;
          sends = rest;
          sent = s.sent ++ ((sockfd, id_text sockfd) ∷ []);
        },
      )
unfolding after_sent get_message_type get_string_rep
send_id_lem sockfd s rest short wb e =
    let text = id_text sockfd in
    let whole : drop (length text - length text) text ≡ text =
      let none_left : length text - length text ≡ 0 = omega arith in rw none_left refl in
    send_msg-whole sockfd (client_id (pos sockfd)) (length text) s rest wb (omega arith) short e
    ∙ ap
        (λ t. ok (
          pos 1,
          record s {
            clients = message_out sockfd s.clients;
            sends = rest;
            sent = s.sent ++ ((sockfd, t) ∷ []);
          },
        ))
        whole

send_body-id :
    (sockfd : ℕ) (res : ℤ) (s : Server) (rest : List Sent)
    → length (id_text sockfd) ≤ inline_capacity
    → s.sends ≡ accepted (length (id_text sockfd)) ∷ rest
    → let s' = record s { clients = header_out sockfd (pos (length (id_text sockfd))) s.clients } in
      send_body sockfd (owes_id sockfd) res false s'
      ≡ ok (
        going (pos 1) true,
        record s {
          clients = update_logged sockfd (message_out sockfd s'.clients);
          sends = rest;
          sent = s.sent ++ ((sockfd, id_text sockfd) ∷ []);
        },
      )
unfolding owes_id send_body
send_body-id sockfd res s rest short e =
    let cm = header_out sockfd (pos (length (id_text sockfd))) s.clients in
    let s' : Server = record s { clients = cm } in
    rw (write_state_of_header_out sockfd (pos (length (id_text sockfd))) s.clients, send_body)
      (bind_ok (send_msg sockfd (client_id (pos sockfd))) _ s' (pos 1) _
        (send_id_lem sockfd s' rest short (write_bytes_of_header_out sockfd _ s.clients) e))

-- Once the message is out, the blocks for what the client sends do not run.
recv_header-idle :
    (sockfd : ℕ) (res : ℤ) (s : Server) → recv_header sockfd res true s ≡ ok (going res true, s)
unfolding recv_header
recv_header-idle sockfd res s = ground arith

recv_login-idle :
    (sockfd : ℕ) (res : ℤ) (s : Server)
    → get_socket_read_state sockfd s.clients ≡ header_to_recv
    → recv_login sockfd res true s ≡ ok (going res true, s)
unfolding recv_login
recv_login-idle sockfd res s e = rw (e, recv_login) refl

login_round-id :
    (sockfd : ℕ) (res : ℤ) (s : Server) (rest : List Sent)
    → length (id_text sockfd) ≤ inline_capacity
    → get_socket_write_state sockfd s.clients ≡ header_to_send
    → get_socket_write_bytes_number sockfd s.clients ≡ pos header_size
    → get_socket_read_state sockfd s.clients ≡ msg_recvd
    → find sockfd s.clients.logged_clients ≡ some false
    → s.sends ≡ accepted header_size ∷ accepted (length (id_text sockfd)) ∷ rest
    → login_round sockfd res s ≡ ok (going (pos 1) true, id_gone sockfd rest s)
unfolding login_round
login_round-id sockfd res s rest k ws wb rs logged e =
    let n = length (id_text sockfd) in
    let s₁ = header_gone sockfd (accepted n ∷ rest) s in
    let s₂ = id_gone sockfd rest s in
    let received =
      read_state_of_update_logged sockfd (message_out sockfd (header_out sockfd (pos n) s.clients))
      ∙ read_state_of_message_out sockfd (header_out sockfd (pos n) s.clients) in
    rw (get_login_state_lem sockfd s.clients rs logged) (
      bind_ok (send_header sockfd (owes_id sockfd) res) _ s (going (pos 1) false) s₁
        (send_header-id sockfd res s (accepted n ∷ rest) k ws wb e)
      ∙ bind_ok (send_body sockfd (owes_id sockfd) (pos 1) false) _ s₁ (going (pos 1) true) s₂ (
          send_body-id sockfd (pos 1)
            (record s {
              sends = accepted n ∷ rest;
              sent = s.sent ++ ((sockfd, get_string_rep (header_of 4 n)) ∷ []);
            })
            rest k refl)
      ∙ bind_ok (recv_header sockfd (pos 1) true) _ s₂ (going (pos 1) true) s₂
          (recv_header-idle sockfd (pos 1) s₂)
      ∙ recv_login-idle sockfd (pos 1) s₂ received)

-- When the login of a client was accepted and its id, of at most 15 characters, is to be sent, of
-- whose header all bytes are unsent, and the kernel takes the header and then the id whole, one call of
-- `client_login` sends exactly these, succeeds, and leaves the login ended.
pub client_login-id :
    (fuel sockfd : ℕ) (res : ℤ) (s : Server) (rest : List Sent)
    → length (id_text sockfd) ≤ inline_capacity
    → get_socket_write_state sockfd s.clients ≡ header_to_send
    → get_socket_write_bytes_number sockfd s.clients ≡ pos header_size
    → get_socket_read_state sockfd s.clients ≡ msg_recvd
    → find sockfd s.clients.logged_clients ≡ some false
    → s.sends ≡ accepted header_size ∷ accepted (length (id_text sockfd)) ∷ rest
    → (client_login (suc fuel) sockfd res s ≡ ok (login_successful, id_gone sockfd rest s))
      × (login_ended sockfd (id_gone sockfd rest s).clients ≡ true)
unfolding client_login
client_login-id fuel sockfd res s rest k ws wb rs logged e =
    let cm = message_out sockfd (header_out sockfd (pos (length (id_text sockfd))) s.clients) in
    let ended =
      login_ended-update_logged sockfd cm
        (logged_after sockfd (pos (length (id_text sockfd))) s.clients ∙ logged) in
    (rw (login_round-id sockfd res s rest k ws wb rs logged e, client_login) (rw ended refl), ended)
