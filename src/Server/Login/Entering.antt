-- ===== src/Server/Login/Entering.antt =====
-- A login that is sent whole and is correct, from its header to the id that answers it.
use tin_system_do_wspolpracy.Server.Transfer.{inline_capacity}
use tin_system_do_wspolpracy.Base.{
  Bool, Bool-cases, Bytes, List, ap, arith, false, inl, inr, length, minus_one, none, ok, pos, refl,
  some, suc, true, ℕ, ℤ, ◌∙◌, ◌∷◌, ◌≡◌, ◌≤◌,
}
use tin_system_do_wspolpracy.ClientsMonitor.{
  ClientsMonitor, LoginState, SocketState, get_login_state, get_socket_read_state,
  get_socket_write_state, get_socket_write_bytes_number, login_ended, is_rejected, remove_rejected,
  add_logged_client, set_socket_read_state, set_socket_read_bytes_number, set_socket_write_state,
  set_socket_write_bytes_number, header_to_send, msg_sent, msg_recvd,
}
use tin_system_do_wspolpracy.ClientsMonitor.Fields.{
  find-set_socket_read_state, find-set_socket_read_bytes_number, find-set_socket_write_bytes_number,
  find-set_socket_write_state,
}
use tin_system_do_wspolpracy.Files.{Files}
use tin_system_do_wspolpracy.Header.{Header, header_size, parse_from_string}
use tin_system_do_wspolpracy.IntMap.{find}
use tin_system_do_wspolpracy.IntMap.Laws.{find-update}
use tin_system_do_wspolpracy.LoginHandler.{LoginHandler, check_login, correct}
use tin_system_do_wspolpracy.Server.State.{Server, Received, bytes}
use tin_system_do_wspolpracy.Server.State.Ensures.{bind_ok}
use tin_system_do_wspolpracy.Server.Login.{
  going, send_header, send_body, recv_header, login_round, client_login,
}
use tin_system_do_wspolpracy.Server.Login.Admitting.{
  IsListening, header_in, recv_header-in, header_in-IsAnnounced, login_read, admit, login_in,
  recv_login-in,
}
use tin_system_do_wspolpracy.Server.Login.Accepting.{id_text, id_gone, client_login-id}
use tin_system_do_wspolpracy.Server.Login.{login_successful}
use tin_system_do_wspolpracy.Server.State.{accepted, Sent}

-- The blocks that write do not run when the server has written its message.
send_header-off :
    (sockfd : ℕ) (ls : LoginState) (res : ℤ) (s : Server)
    → get_socket_write_state sockfd s.clients ≡ msg_sent
    → send_header sockfd ls res s ≡ ok (going res false, s)
unfolding send_header
send_header-off sockfd ls res s e = rw (e, send_header) refl

send_body-off :
    (sockfd : ℕ) (ls : LoginState) (res : ℤ) (s : Server)
    → get_socket_write_state sockfd s.clients ≡ msg_sent
    → send_body sockfd ls res false s ≡ ok (going res false, s)
unfolding send_body
send_body-off sockfd ls res s e = rw (e, send_body) refl

clients_state-admit : (k : ℕ) (cm : ClientsMonitor) → (admit k cm).clients_state ≡ cm.clients_state
unfolding add_logged_client remove_rejected
clients_state-admit k cm = elim (Bool-cases (is_rejected k cm)) [
  | inl e ↦ rw e refl
  | inr e ↦ rw e refl
]

logged-admit :
    (k : ℕ) (cm : ClientsMonitor)
    → find k cm.logged_clients ≡ none
    → find k (admit k cm).logged_clients ≡ some false
unfolding add_logged_client remove_rejected
logged-admit k cm e =
    let added = find-update k k false (λ (w : Bool). w) cm.logged_clients in
    elim (Bool-cases (is_rejected k cm)) [
      | inl r ↦ rw r (ground (arith, added))
      | inr r ↦ rw r (ground (arith, added))
    ]

-- The id may be sent.
find-admit :
    (k : ℕ) (cm : ClientsMonitor)
    → find k (admit k (login_read k cm)).clients_state
      ≡ some (record {
        read_state = msg_recvd;
        read_bytes = pos 0;
        write_state = header_to_send;
        write_bytes = pos header_size;
      })
find-admit k cm =
    let a = set_socket_write_state k header_to_send cm in
    let b = set_socket_write_bytes_number k (pos header_size) a in
    let c = set_socket_read_state k msg_recvd b in
    ap (find k) (clients_state-admit k (login_read k cm))
    ∙ ground (
      arith,
      find-set_socket_read_bytes_number k (pos 0) c,
      find-set_socket_read_state k msg_recvd b,
      find-set_socket_write_bytes_number k (pos header_size) a,
      find-set_socket_write_state k header_to_send cm,
    )

-- The state when the header and the login are in.
abbrev pub admitted :
    ℕ → Bytes → Bytes → Header → LoginHandler → Files → List Received → Server → Server
admitted sockfd head_text text head handler files rest s =
    login_in sockfd text handler files rest (header_in sockfd head_text head (bytes text ∷ rest) s)

login_round-admits :
    (sockfd n a c : ℕ) (res : ℤ) (head_text text : Bytes) (head : Header) (handler : LoginHandler)
    (files : Files) (s : Server) (rest : List Received)
    → IsListening sockfd s
    → length (a ∷ head_text) ≡ header_size
    → parse_from_string (a ∷ head_text) ≡ ok head
    → head.msg_len ≡ pos n
    → length (c ∷ text) ≡ n
    → check_login (c ∷ text) s.login_handler s.files ≡ ok (correct, handler, files)
    → s.recvs ≡ bytes (a ∷ head_text) ∷ bytes (c ∷ text) ∷ rest
    → login_round sockfd res s
      ≡ ok
          (going (pos 1) true, admitted sockfd (a ∷ head_text) (c ∷ text) head handler files rest s)
unfolding login_round
login_round-admits sockfd n a c res head_text text head handler files s rest h six p len l good e =
    let ls = get_login_state sockfd s.clients in
    let s₁ = header_in sockfd (a ∷ head_text) head (bytes (c ∷ text) ∷ rest) s in
    bind_ok (send_header sockfd ls res) _ s (going res false) s
      (send_header-off sockfd ls res s h.has_asked)
    ∙ bind_ok (send_body sockfd ls res false) _ s (going res false) s
        (send_body-off sockfd ls res s h.has_asked)
    ∙ bind_ok (recv_header sockfd res false) _ s (going (pos 1) false) s₁
        (recv_header-in sockfd a res head_text head s (bytes (c ∷ text) ∷ rest) h six p e)
    ∙ recv_login-in sockfd n c (pos 1) text handler files s₁ rest
        (header_in-IsAnnounced sockfd n (a ∷ head_text) head (bytes (c ∷ text) ∷ rest) s h len) l
        good refl

-- What the getters read.
getters :
    (k : ℕ) (cm : ClientsMonitor) (st : SocketState)
    → find k cm.clients_state ≡ some st
    → (get_socket_write_state k cm ≡ st.write_state)
      × (get_socket_write_bytes_number k cm ≡ st.write_bytes)
      × (get_socket_read_state k cm ≡ st.read_state)
unfolding get_socket_write_state get_socket_write_bytes_number get_socket_read_state
getters k cm st e = (ground (arith, e), ground (arith, e), ground (arith, e))

-- Accepted, but not told so.
login_ended-admit :
    (k : ℕ) (cm : ClientsMonitor)
    → find k cm.logged_clients ≡ none
    → login_ended k (admit k cm) ≡ false
unfolding login_ended
login_ended-admit k cm e = rw (logged-admit k cm e, login_ended) refl

-- When the server waits for a login of a client that is not logged in, and the kernel hands over a
-- six-byte header that parses and announces the length of the login, then the login whole, which
-- `check_login` accepts, one call of `client_login` takes both, keeps the accounts as the check left them
-- and switches to another client; and if the kernel then takes the header and the id, of at most 15
-- characters, whole, the next call sends these two, succeeds, and leaves the login ended.
pub client_login-enters :
    (fuel fuel' sockfd n a c : ℕ) (res res' : ℤ) (head_text text : Bytes) (head : Header)
    (handler : LoginHandler) (files : Files) (s : Server) (rest : List Received) (sends : List Sent)
    → IsListening sockfd s
    → length (a ∷ head_text) ≡ header_size
    → parse_from_string (a ∷ head_text) ≡ ok head
    → head.msg_len ≡ pos n
    → length (c ∷ text) ≡ n
    → check_login (c ∷ text) s.login_handler s.files ≡ ok (correct, handler, files)
    → s.recvs ≡ bytes (a ∷ head_text) ∷ bytes (c ∷ text) ∷ rest
    → length (id_text sockfd) ≤ inline_capacity
    → s.sends ≡ accepted header_size ∷ accepted (length (id_text sockfd)) ∷ sends
    → let s₁ = admitted sockfd (a ∷ head_text) (c ∷ text) head handler files rest s in
      (client_login (suc fuel) sockfd res s ≡ ok (minus_one, s₁))
      × (client_login (suc fuel') sockfd res' s₁ ≡ ok (login_successful, id_gone sockfd sends s₁))
      × (login_ended sockfd (id_gone sockfd sends s₁).clients ≡ true)
unfolding client_login set_socket_read_bytes_number set_socket_read_state set_socket_write_state
    set_socket_write_bytes_number
client_login-enters fuel fuel' sockfd n a c res res' head_text text head handler files s rest sends
      h six p len l good e short f =
    let s₁ = admitted sockfd (a ∷ head_text) (c ∷ text) head handler files rest s in
    let cm = (header_in sockfd (a ∷ head_text) head (bytes (c ∷ text) ∷ rest) s).clients in
    let ready = getters sockfd (admit sockfd (login_read sockfd cm)) _ (find-admit sockfd cm) in
    let told =
      client_login-id fuel' sockfd res' s₁ sends short ready.0 ready.1 ready.2
        (logged-admit sockfd (login_read sockfd cm) h.unknown) f in
    (
      rw
          (
            login_round-admits sockfd n a c res head_text text head handler files s rest h six p len
                l good e,
            client_login,
          )
          (rw (login_ended-admit sockfd (login_read sockfd cm) h.unknown) refl),
      told.0,
      told.1,
    )
