-- ===== src/Examples/Transfers.antt =====
-- The theorems of the transfers on concrete inputs.
use tin_system_do_wspolpracy.Base.{
  List, [], arith, false, not, ok, pos, refl, true, ℕ, ◌&&◌, ◌==◌, ◌∷◌, ◌≡◌,
}
use tin_system_do_wspolpracy.ClientsMonitor.{
  new_state, get_socket_write_bytes_number, get_socket_read_bytes_number,
}
use tin_system_do_wspolpracy.Header.{header_size}
use tin_system_do_wspolpracy.IntMap.{IntSet, find}
use tin_system_do_wspolpracy.LoginHandler
use tin_system_do_wspolpracy.Message.{Message, get_string_rep, get_message_type}
use tin_system_do_wspolpracy.MsgType
use tin_system_do_wspolpracy.Networking.{set_multicast}
use tin_system_do_wspolpracy.NotepadHandler
use tin_system_do_wspolpracy.Server.State.{Server, Sent, Received, accepted, bytes}
use tin_system_do_wspolpracy.Server.Transfer.{send_msg}
use tin_system_do_wspolpracy.Server.Transfer.Headers.{
  header_of, header_sent_from, multicast_send-header_sent_from,
}
use tin_system_do_wspolpracy.Server.Transfer.Pieces.{
  Transmitted, send_calls, send_calls-Transmitted,
}
use tin_system_do_wspolpracy.ClientsMonitor.{msg_recvd, login_ended, get_socket_read_state}
use tin_system_do_wspolpracy.Networking.{is_waiting_for_header, is_waiting_for_msg}
use tin_system_do_wspolpracy.NotepadHandler.{is_active}
use tin_system_do_wspolpracy.Server.State.{Garbage}
use tin_system_do_wspolpracy.Server.Incoming.{handle_existing_incoming_connection}
use tin_system_do_wspolpracy.Server.Incoming.Closing.{
  forgotten, handle_existing_incoming_connection-forgets,
}
use tin_system_do_wspolpracy.Server.Transfer.Arrivals.{
  Collected, joined, recv_calls, recv_calls-Collected,
}
use tin_system_do_wspolpracy.Networking.Multicast.{Notified}
use tin_system_do_wspolpracy.Server.Incoming.{multicast_edit}
use tin_system_do_wspolpracy.Server.Incoming.Spreading.{multicast_edit-Notified}
use tin_system_do_wspolpracy.Text.{codes}

-- Descriptor 5 has `n` bytes to send and `r` to receive, and the kernel gives these answers.
abbrev serving : ℕ → ℕ → List Sent → List Received → Server
serving n r sends recvs = record {
  max_sd = 5;
  listening = 3;
  master = (3, tt) ∷ (5, tt) ∷ [];
  recv_buffers = record { buffers = (5, []) ∷ [] };
  clients = record {
    clients_state = (5, record new_state { write_bytes = pos n; read_bytes = pos r }) ∷ [];
    logged_clients = [];
    rejected_logins = [];
  };
  login_handler = LoginHandler.init;
  networking = record { netstate = []; send_queues = [] };
  notepad = NotepadHandler.init (pos 0);
  files = [];
  recvs = recvs;
  sends = sends;
  sent = [];
  open_sockets = (3, tt) ∷ (5, tt) ∷ [];
  bad_closes = [];
}

abbrev hello : Message
hello = Message.edit (codes "hello")

-- Three answers that take the five bytes.
abbrev in_pieces : Server
in_pieces = serving 5 0 (accepted 2 ∷ accepted 1 ∷ accepted 2 ∷ []) []

send_calls-Transmitted_example : Transmitted 5 hello 5 [] in_pieces (send_calls 3 5 hello in_pieces)
unfolding find get_socket_write_bytes_number get_string_rep get_message_type
send_calls-Transmitted_example =
    send_calls-Transmitted 5 hello 2 (1 ∷ 2 ∷ []) 5 in_pieces [] refl
      (omega arith, (omega arith, (omega arith, tt))) refl refl (omega arith) (omega arith) refl

abbrev header_ready : Server
header_ready = serving header_size 0 (accepted header_size ∷ []) []

abbrev editors : IntSet
editors = (5, tt) ∷ []

-- An edit of four bytes: the type is cut off its header.
abbrev four_ready : Server
four_ready = serving header_size 0 (accepted 4 ∷ []) []

multicast_send-header_sent_from_example :
    let after =
      set_multicast editors MsgType.edit (pos 4) (four_ready.clients, four_ready.networking) in
    let s' : Server = record four_ready { clients = after.0; networking = after.1 } in
    send_msg 5 (header_of 3 4) s' ≡ header_sent_from 4 5 3 4 [] s'
unfolding find
multicast_send-header_sent_from_example =
    multicast_send-header_sent_from editors MsgType.edit 4 5 3 4 four_ready [] (omega arith, tt)
      refl (omega arith) (omega arith) refl

-- Two pieces of the five bytes that are expected.
abbrev arriving : Server
arriving = serving 0 5 [] (bytes (codes "he") ∷ bytes (codes "llo") ∷ [])

recv_calls-Collected_example :
    Collected 5 MsgType.edit
      (joined (codes "he" ∷ codes "llo" ∷ []))
      []
      arriving
      (recv_calls 2 5 MsgType.edit arriving)
unfolding find get_socket_read_bytes_number
recv_calls-Collected_example =
    recv_calls-Collected 5 MsgType.edit (codes "he") (codes "llo" ∷ []) arriving [] (tt, (tt, tt))
      refl refl

-- A client whose login has ended, whose edit was just received and which sent more.
abbrev received_all : Server
received_all = record (serving 0 0 [] (bytes [] ∷ [])) {
  clients = record {
    clients_state = (5, record new_state { read_state = msg_recvd }) ∷ [];
    logged_clients = (5, true) ∷ [];
    rejected_logins = [];
  };
}

abbrev garbage : Garbage
garbage = record { found = false; res = pos 0; creators = λ _. pos 0 }

handle_existing_incoming_connection-forgets_example :
    handle_existing_incoming_connection 1 garbage 5 received_all
    ≡ ok (tt, forgotten 5 [] received_all)
unfolding find login_ended is_waiting_for_header is_waiting_for_msg get_socket_read_state
    get_socket_read_bytes_number is_active
handle_existing_incoming_connection-forgets_example =
    handle_existing_incoming_connection-forgets 0 garbage 5 0 received_all [] refl refl refl refl
      refl refl refl

abbrev quiet : Server
quiet = serving 0 0 [] []

-- Descriptors 5 and 7 edit.
abbrev two_editors : Server
two_editors = record quiet {
  notepad = record (NotepadHandler.init (pos 0)) { contributors = (5, tt) ∷ (7, tt) ∷ [] };
}

multicast_edit-Notified_example :
    (s' : Server) × (multicast_edit 5 40 two_editors ≡ ok (tt, s'))
    × Notified MsgType.edit
        (pos 40)
        (is_active 7 two_editors.notepad && not (5 == 7))
        7
        (two_editors.clients, two_editors.networking)
        (s'.clients, s'.networking)
    × (s' ≡ record two_editors { clients = s'.clients; networking = s'.networking })
multicast_edit-Notified_example =
    multicast_edit-Notified 5 40 7 two_editors (omega arith, (omega arith, tt))
