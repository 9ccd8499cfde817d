-- ===== src/Server/Incoming/Closing.antt =====
-- A connection that the peer has closed.
use tin_system_do_wspolpracy.Base.{List, [], arith, false, ok, pos, refl, suc, true, ℕ, ◌∷◌, ◌≡◌}
use tin_system_do_wspolpracy.ClientsMonitor
use tin_system_do_wspolpracy.ClientsMonitor.{login_ended, get_socket_read_bytes_number}
use tin_system_do_wspolpracy.IntMap.{erase, has}
use tin_system_do_wspolpracy.MsgType
use tin_system_do_wspolpracy.Networking.{is_waiting_for_header, is_waiting_for_msg}
use tin_system_do_wspolpracy.NotepadHandler.{is_active}
use tin_system_do_wspolpracy.RecvBuffers.{delete_buff}
use tin_system_do_wspolpracy.Server.State.{close, ◌>>=◌, ◌>>◌, Server, Received, Garbage, bytes}
use tin_system_do_wspolpracy.Server.Transfer.Receiving.{recv_msg-reply}
use tin_system_do_wspolpracy.Server.Incoming.{
  handle_existing_incoming_connection, incoming_loop, incoming_round, incoming_header, incoming_msg,
  leave_notepad, remove_socket, closing, keep_on,
}

-- The state without the descriptor, which the process has closed.
abbrev pub forgotten : ℕ → List Received → Server → Server
forgotten sockfd rest s = record s {
  master = erase sockfd s.master;
  recv_buffers = delete_buff sockfd s.recv_buffers;
  clients = ClientsMonitor.remove_socket sockfd s.clients;
  recvs = rest;
  open_sockets = erase sockfd s.open_sockets;
}

leave_notepad_quiet :
    (g : Garbage) (sockfd : ℕ) (s : Server)
    → is_active sockfd s.notepad ≡ false
    → leave_notepad g sockfd s ≡ ok (tt, s)
unfolding leave_notepad
leave_notepad_quiet g sockfd s quiet = rw (quiet, leave_notepad) refl

incoming_header-closing :
    (g : Garbage) (sockfd n : ℕ) (s : Server) (rest : List Received)
    → is_waiting_for_header sockfd s.clients ≡ true
    → get_socket_read_bytes_number sockfd s.clients ≡ pos n
    → is_active sockfd s.notepad ≡ false
    → s.recvs ≡ bytes [] ∷ rest
    → incoming_header g sockfd s ≡ ok (closing, record s { recvs = rest })
unfolding incoming_header leave_notepad
incoming_header-closing g sockfd n s rest waits rb quiet e =
    rw (waits, incoming_header)
      (rw (recv_msg-reply sockfd MsgType.header n (bytes []) s rest rb (omega arith) e, ◌>>=◌)
        (rw (leave_notepad_quiet g sockfd (record s { recvs = rest }) quiet, ◌>>=◌, ◌>>◌) refl))

incoming_msg_idle :
    (sockfd : ℕ) (s : Server)
    → is_waiting_for_msg sockfd s.clients ≡ false
    → incoming_msg sockfd s ≡ ok (keep_on, s)
unfolding incoming_msg
incoming_msg_idle sockfd s idle = rw (idle, incoming_msg) refl

incoming_round-closing :
    (fuel : ℕ) (g : Garbage) (sockfd n : ℕ) (s : Server) (rest : List Received)
    → login_ended sockfd s.clients ≡ true
    → is_waiting_for_header sockfd s.clients ≡ true
    → is_waiting_for_msg sockfd s.clients ≡ false
    → get_socket_read_bytes_number sockfd s.clients ≡ pos n
    → is_active sockfd s.notepad ≡ false
    → s.recvs ≡ bytes [] ∷ rest
    → incoming_round fuel g sockfd s ≡ ok (closing, record s { recvs = rest })
unfolding incoming_round
incoming_round-closing fuel g sockfd n s rest ended waits idle rb quiet e =
    rw (ended, incoming_round)
      (rw (incoming_header-closing g sockfd n s rest waits rb quiet e, ◌>>=◌)
        (rw (incoming_msg_idle sockfd (record s { recvs = rest }) idle, ◌>>=◌) refl))

incoming_loop_lem :
    (rounds fuel : ℕ) (g : Garbage) (sockfd : ℕ) (s s' : Server)
    → incoming_round fuel g sockfd s ≡ ok (closing, s')
    → incoming_loop (suc rounds) fuel g sockfd s ≡ ok (true, s')
unfolding incoming_loop
incoming_loop_lem rounds fuel g sockfd s s' e = rw (e, incoming_loop) refl

remove_socket_open :
    (sockfd : ℕ) (s : Server)
    → has sockfd s.open_sockets ≡ true
    → remove_socket sockfd s
      ≡ ok (
        tt,
        record s { master = erase sockfd s.master; open_sockets = erase sockfd s.open_sockets },
      )
unfolding remove_socket close
remove_socket_open sockfd s is_open = rw (is_open, ◌>>=◌, ◌>>◌) refl

-- A logged-in client that does not edit, whose socket is open and whose header is awaited is forgotten
-- in the first round once `recv` answers 0 bytes, however many were asked for: its progress, its login,
-- its buffer and its place among the descriptors go, its socket is closed, and nothing else changes:
-- `max_sd` stays as it is even when it was the descriptor that went.
pub handle_existing_incoming_connection-forgets :
    (fuel : ℕ) (g : Garbage) (sockfd n : ℕ) (s : Server) (rest : List Received)
    → login_ended sockfd s.clients ≡ true
    → is_waiting_for_header sockfd s.clients ≡ true
    → is_waiting_for_msg sockfd s.clients ≡ false
    → get_socket_read_bytes_number sockfd s.clients ≡ pos n
    → is_active sockfd s.notepad ≡ false
    → has sockfd s.open_sockets ≡ true
    → s.recvs ≡ bytes [] ∷ rest
    → handle_existing_incoming_connection (suc fuel) g sockfd s ≡ ok (tt, forgotten sockfd rest s)
unfolding handle_existing_incoming_connection
handle_existing_incoming_connection-forgets fuel g sockfd n s rest ended waits idle rb quiet is_open
      e =
    let round = incoming_round-closing (suc fuel) g sockfd n s rest ended waits idle rb quiet e in
    let s₁ : Server = record s {
      recvs = rest;
      recv_buffers = delete_buff sockfd s.recv_buffers;
      clients = ClientsMonitor.remove_socket sockfd s.clients;
    } in
    rw (incoming_loop_lem fuel (suc fuel) g sockfd s (record s { recvs = rest }) round, ◌>>=◌)
      (remove_socket_open sockfd s₁ is_open)
