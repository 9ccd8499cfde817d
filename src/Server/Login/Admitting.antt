-- ===== src/Server/Login/Admitting.antt =====
-- Receiving a login: its header, the text, and what is kept of a client whose login is correct.
use tin_system_do_wspolpracy.Base.{
  ==_self, Bytes, List, [], false, if◌then◌else◌, length, none, ok, pos, refl, take_self, true, ℕ,
  ℤ, ◌∙◌, ◌∷◌, ◌≡◌,
}
use tin_system_do_wspolpracy.ClientsMonitor.{
  ClientsMonitor, get_socket_read_state, get_socket_write_state, get_socket_read_bytes_number,
  login_ended, is_rejected, remove_rejected, add_logged_client, set_socket_read_state,
  set_socket_read_bytes_number, set_socket_write_state, set_socket_write_bytes_number,
  header_to_recv, header_recvd, header_to_send, msg_sent, msg_recvd,
}
use tin_system_do_wspolpracy.ClientsMonitor.Fields.{read_bytes_set}
use tin_system_do_wspolpracy.ClientsMonitor.Phases.{
  write_state_of_read_bytes, write_state_of_read_state, read_state_of_header_in,
}
use tin_system_do_wspolpracy.Files.{Files}
use tin_system_do_wspolpracy.Header.{Header, header_size, parse_from_string}
use tin_system_do_wspolpracy.IntMap.{find}
use tin_system_do_wspolpracy.LoginHandler.{LoginHandler, check_login, correct}
use tin_system_do_wspolpracy.MsgType
use tin_system_do_wspolpracy.Networking.{add_client}
use tin_system_do_wspolpracy.RecvBuffers.{clear_buff, get_string_from_bytes}
use tin_system_do_wspolpracy.RecvBuffers.Laws.{
  contents, contents-clear_buff, contents-cpy_to_recv_buff,
}
use tin_system_do_wspolpracy.Server.State.{Server, Received, bytes, pure, ◌>>=◌, ◌>>◌}
use tin_system_do_wspolpracy.Server.State.Ensures.{bind_ok}
use tin_system_do_wspolpracy.Server.Transfer.{recv_msg, after_recvd, read_buffer, lift}
use tin_system_do_wspolpracy.Server.Transfer.Receiving.{arrived, recv_msg-whole}
use tin_system_do_wspolpracy.Server.Login.{going, recv_header, recv_login, check, settle}

-- The server waits for a login: it has asked, nobody is logged in here, and nothing has come.
pub record IsListening (sockfd : ℕ) (s : Server) : Type 0 where
  pub has_asked : get_socket_write_state sockfd s.clients ≡ msg_sent
  pub state : get_socket_read_state sockfd s.clients ≡ header_to_recv
  pub to_read : get_socket_read_bytes_number sockfd s.clients ≡ pos header_size
  pub unknown : find sockfd s.clients.logged_clients ≡ none
  pub nothing : contents sockfd s.recv_buffers ≡ []

login_ended_unknown :
    (sockfd : ℕ) (cm : ClientsMonitor)
    → find sockfd cm.logged_clients ≡ none
    → login_ended sockfd cm ≡ false
unfolding login_ended
login_ended_unknown sockfd cm e = rw (e, login_ended) refl

-- What came in is in the buffer.
contents-arrived :
    (sockfd : ℕ) (text : Bytes) (s : Server) (rest : List Received)
    → contents sockfd s.recv_buffers ≡ []
    → contents sockfd (arrived sockfd text rest s).recv_buffers ≡ text
contents-arrived sockfd text s rest e =
    contents-cpy_to_recv_buff sockfd sockfd text (length text) s.recv_buffers
    ∙ rw (==_self sockfd, e, take_self text) refl

-- The state when the header is in, and taken out of the buffer.
abbrev pub header_in : ℕ → Bytes → Header → List Received → Server → Server
header_in sockfd text head rest s =
    let came = arrived sockfd text rest s in
    record came {
      recv_buffers = clear_buff sockfd (get_string_from_bytes sockfd came.recv_buffers).1;
      clients =
          set_socket_read_bytes_number sockfd head.msg_len
            (set_socket_read_state sockfd header_recvd s.clients);
    }

after_recvd-header :
    (sockfd : ℕ) (text : Bytes) (head : Header) (s : Server)
    → contents sockfd s.recv_buffers ≡ text
    → parse_from_string text ≡ ok head
    → (after_recvd sockfd MsgType.header >> pure (pos 1)) s
      ≡ ok (
        pos 1,
        record s {
          recv_buffers = (get_string_from_bytes sockfd s.recv_buffers).1;
          clients =
              set_socket_read_bytes_number sockfd head.msg_len
                (set_socket_read_state sockfd header_recvd s.clients);
        },
      )
unfolding after_recvd read_buffer get_string_from_bytes
after_recvd-header sockfd text head s e p = rw (e, ◌>>=◌, ◌>>◌, lift) (rw (p, ◌>>=◌, lift) refl)

pub recv_header-in :
    (sockfd c : ℕ) (res : ℤ) (text : Bytes) (head : Header) (s : Server) (rest : List Received)
    → IsListening sockfd s
    → length (c ∷ text) ≡ header_size
    → parse_from_string (c ∷ text) ≡ ok head
    → s.recvs ≡ bytes (c ∷ text) ∷ rest
    → recv_header sockfd res false s
      ≡ ok (going (pos 1) false, header_in sockfd (c ∷ text) head rest s)
unfolding recv_header
recv_header-in sockfd c res text head s rest h l p e =
    let came = arrived sockfd (c ∷ text) rest s in
    let now : Server = record came {
      recv_buffers = (get_string_from_bytes sockfd came.recv_buffers).1;
      clients =
          set_socket_read_bytes_number sockfd head.msg_len
            (set_socket_read_state sockfd header_recvd s.clients);
    } in
    rw (h.has_asked, h.state, login_ended_unknown sockfd s.clients h.unknown, recv_header)
      (bind_ok (recv_msg sockfd MsgType.header) _ s (pos 1) now (
        recv_msg-whole sockfd MsgType.header header_size c text s rest h.to_read l e
        ∙ after_recvd-header sockfd (c ∷ text) head came
            (contents-arrived sockfd (c ∷ text) s rest h.nothing) p))

-- A login of `n` bytes was announced, and nothing of it has come.
pub record IsAnnounced (sockfd n : ℕ) (s : Server) : Type 0 where
  pub has_asked : get_socket_write_state sockfd s.clients ≡ msg_sent
  pub state : get_socket_read_state sockfd s.clients ≡ header_recvd
  pub to_read : get_socket_read_bytes_number sockfd s.clients ≡ pos n
  pub unknown : find sockfd s.clients.logged_clients ≡ none
  pub nothing : contents sockfd s.recv_buffers ≡ []

pub header_in-IsAnnounced :
    (sockfd n : ℕ) (text : Bytes) (head : Header) (rest : List Received) (s : Server)
    → IsListening sockfd s
    → head.msg_len ≡ pos n
    → IsAnnounced sockfd n (header_in sockfd text head rest s)
unfolding set_socket_read_bytes_number set_socket_read_state
header_in-IsAnnounced sockfd n text head rest s h e = record {
  has_asked =
      write_state_of_read_bytes sockfd 2 head.msg_len _
        (write_state_of_read_state sockfd 2 header_recvd s.clients h.has_asked);
  state = read_state_of_header_in sockfd head.msg_len s.clients;
  to_read =
      read_bytes_set sockfd head.msg_len (set_socket_read_state sockfd header_recvd s.clients) ∙ e;
  unknown = h.unknown;
  nothing = contents-clear_buff sockfd sockfd _ ∙ rw (==_self sockfd) refl;
}

-- The monitor when the login is in: a header is to be sent.
abbrev pub login_read : ℕ → ClientsMonitor → ClientsMonitor
login_read k cm = set_socket_read_bytes_number k (pos 0) (
    set_socket_read_state k msg_recvd (
      set_socket_write_bytes_number k (pos header_size)
        (set_socket_write_state k header_to_send cm)))

abbrev pub admit : ℕ → ClientsMonitor → ClientsMonitor
admit k cm = add_logged_client k (if is_rejected k cm then remove_rejected k cm else cm)

-- The state when the login was accepted.
abbrev pub login_in : ℕ → Bytes → LoginHandler → Files → List Received → Server → Server
login_in sockfd text handler files rest s =
    let came = arrived sockfd text rest s in
    record came {
      recv_buffers = clear_buff sockfd (get_string_from_bytes sockfd came.recv_buffers).1;
      clients = admit sockfd (login_read sockfd s.clients);
      login_handler = handler;
      files = files;
      networking = add_client sockfd s.networking;
    }

pub recv_login-in :
    (sockfd n c : ℕ) (res : ℤ) (text : Bytes) (handler : LoginHandler) (files : Files) (s : Server)
    (rest : List Received)
    → IsAnnounced sockfd n s
    → length (c ∷ text) ≡ n
    → check_login (c ∷ text) s.login_handler s.files ≡ ok (correct, handler, files)
    → s.recvs ≡ bytes (c ∷ text) ∷ rest
    → recv_login sockfd res false s
      ≡ ok (going (pos 1) true, login_in sockfd (c ∷ text) handler files rest s)
unfolding recv_login after_recvd read_buffer get_string_from_bytes check settle
recv_login-in sockfd n c res text handler files s rest h l p e =
    let came = arrived sockfd (c ∷ text) rest s in
    let now : Server = record came { clients = login_read sockfd s.clients } in
    rw (h.has_asked, h.state, login_ended_unknown sockfd s.clients h.unknown, recv_login)
      (bind_ok (recv_msg sockfd MsgType.login) _ s (pos 1) now
          (recv_msg-whole sockfd MsgType.login n c text s rest h.to_read l e ∙ refl)
        ∙ rw (contents-arrived sockfd (c ∷ text) s rest h.nothing, ◌>>=◌) (rw (p, ◌>>=◌) refl))
