-- ===== src/Examples/Sockets.antt =====
-- The theorems of the sockets that the server opens and closes, and of the loop of a login, on concrete
-- inputs.
use tin_system_do_wspolpracy.Base.{
  Bytes, List, [], arith, false, fault, inl, inr, minus_one, ok, out_of_fuel, pos, refl, true,
  undefined, ◌∷◌, ◌≡◌,
}
use tin_system_do_wspolpracy.ClientsMonitor.{
  get_socket_write_bytes_number, get_socket_write_state, header_sent, header_to_send, login_ended,
  new_state,
}
use tin_system_do_wspolpracy.MsgType
use tin_system_do_wspolpracy.Networking.{
  get_msg_len, NetState, Networking, queue, to_send_msg, get_msg_type,
}
use tin_system_do_wspolpracy.NotepadHandler
use tin_system_do_wspolpracy.NotepadHandler.{NotepadHandler, tracked, is_to_fetch_changes}
use tin_system_do_wspolpracy.NotepadHandler.Tracking.{pending}
use tin_system_do_wspolpracy.Server.Outbound.{outbound_msg, outbound_loop}
use tin_system_do_wspolpracy.Server.Outbound.Ending.{Ends, outbound_loop-Ends}
use tin_system_do_wspolpracy.Server.Outbound.Spinning.{outbound_loop-spins}
use tin_system_do_wspolpracy.Server.Outbound.Delivering.{
  outbound_msg_dangling, delivered, outbound_msg-delivers,
}
use tin_system_do_wspolpracy.Text.{codes}
use tin_system_do_wspolpracy.Server.Login.{client_login}
use tin_system_do_wspolpracy.Server.Login.Ending.{Finishes, client_login-Finishes}
use tin_system_do_wspolpracy.Server.State.{Server, Garbage, accepted}
use tin_system_do_wspolpracy.Server.State.Ensures.{Ensures}
use tin_system_do_wspolpracy.Server.Run.Passes.{run-IsWatched}
use tin_system_do_wspolpracy.Server.Run.Watching.{Watched}
use tin_system_do_wspolpracy.IntMap.{find}
use tin_system_do_wspolpracy.Server.Listening.{Answers, set_listening}
use tin_system_do_wspolpracy.Server.Process.{new_server}
use tin_system_do_wspolpracy.Server.Listening.Opened.{still_open, only, set_listening-still_open}
use tin_system_do_wspolpracy.Server.Run.{Selected, connected, run}

-- `socket` gives descriptor 3, and `listen` fails.
abbrev answers : Answers
answers = record {
  socket = pos 3;
  setsockopt = pos 0;
  ioctl = pos 0;
  bind = pos 0;
  listen = minus_one;
}

set_listening-still_open_example :
    still_open (set_listening answers 54000 []).1 [] ≡ only (set_listening answers 54000 []).0
set_listening-still_open_example = set_listening-still_open answers 54000

abbrev garbage : Garbage
garbage = record { found = false; res = pos 0; creators = λ _. pos 0 }

-- Descriptor 5 connects; then `select` fails.
abbrev selections : List Selected
selections =
    record {
      socket_count = pos 1;
      read_set = (3, tt) ∷ [];
      write_set = [];
      accepts = connected 5 true true ∷ [];
    }
    ∷ record { socket_count = minus_one; read_set = []; write_set = []; accepts = [] }
    ∷ []

-- Descriptor 5 has been accepted, and the kernel takes the header in two pieces.
abbrev greeting : Server
greeting = record (new_server (pos 0) [] [] (accepted 2 ∷ accepted 4 ∷ [])) {
  clients = record {
    clients_state = (5, new_state) ∷ [];
    logged_clients = [];
    rejected_logins = [];
  };
}

client_login-Finishes_example : Finishes 5 (pos 0) greeting (client_login 3 5 (pos 0) greeting)
unfolding get_socket_write_state find new_server
client_login-Finishes_example = client_login-Finishes 3 5 (pos 0) greeting (inl refl) (omega arith)

-- Descriptor 7 is owed the edit of 5, and was sent its header.
abbrev an_edit : NetState
an_edit = record { msg_type = MsgType.edit; msg_len = pos 2 }

abbrev edit_text : Bytes
edit_text = codes "hi"

abbrev owing : Server
owing = record (new_server (pos 0) [] [] (accepted 2 ∷ [])) {
  clients = record {
    clients_state = (7, record new_state { write_state = header_sent; write_bytes = pos 2 }) ∷ [];
    logged_clients = (7, true) ∷ [];
    rejected_logins = [];
  };
  networking = record { netstate = (7, an_edit) ∷ []; send_queues = (7, an_edit ∷ []) ∷ [] };
  notepad = record (NotepadHandler.init (pos 0)) {
    opened = true;
    contributors = (5, tt) ∷ (7, tt) ∷ [];
    changes_buffs = (5, edit_text) ∷ [];
    changes_tracker = (5, []) ∷ (7, pending 5 edit_text ∷ []) ∷ [];
  };
}

outbound_msg-delivers_example :
    (q : NotepadHandler) × (n : Networking) × (outbound_msg 7 owing
      ≡ ok (true, delivered 7 edit_text [] q n owing))
    × (tracked 7 q ≡ [])
    × (queue 7 n ≡ [])
unfolding new_server find to_send_msg get_socket_write_state get_msg_type is_to_fetch_changes
    get_socket_write_bytes_number
outbound_msg-delivers_example =
    outbound_msg-delivers 7 5 edit_text [] [] (pos 2) [] owing refl refl refl refl refl refl refl
      (omega arith) refl refl

-- The edit has 16 bytes.
abbrev long_text : Bytes
long_text = codes "sixteen letters."

abbrev owing_long : Server
owing_long = record owing {
  clients = record {
    clients_state = (7, record new_state { write_state = header_sent; write_bytes = pos 16 }) ∷ [];
    logged_clients = (7, true) ∷ [];
    rejected_logins = [];
  };
  notepad = record (NotepadHandler.init (pos 0)) {
    opened = true;
    contributors = (5, tt) ∷ (7, tt) ∷ [];
    changes_buffs = (5, long_text) ∷ [];
    changes_tracker = (5, []) ∷ (7, pending 5 long_text ∷ []) ∷ [];
  };
}

outbound_msg_dangling_example : outbound_msg 7 owing_long ≡ fault undefined
unfolding new_server find to_send_msg get_socket_write_state get_msg_type is_to_fetch_changes
    get_socket_write_bytes_number
outbound_msg_dangling_example =
    outbound_msg_dangling 7 5 long_text [] owing_long refl refl refl refl refl refl (omega arith)
      refl

-- Descriptor 3 listens.
abbrev listener : Server
listener = record (new_server (pos 0) [] [] []) { max_sd = 3; listening = 3; master = (3, tt) ∷ [] }

run-IsWatched_example : Ensures Watched (run 9 garbage selections listener)
unfolding new_server
run-IsWatched_example =
    run-IsWatched 9 garbage selections listener (((refl, refl), tt), (tt, tt)) (omega arith, tt)

-- Descriptor 7 has announced a statement of its own, whose header is now sent back to it.
abbrev a_statement : NetState
a_statement = record { msg_type = MsgType.statement; msg_len = pos 1 }

abbrev echoing : Server
echoing = record (new_server (pos 0) [] [] (accepted 6 ∷ [])) {
  clients = record {
    clients_state =
        (7, record new_state { write_state = header_to_send; write_bytes = pos 6 }) ∷ [];
    logged_clients = (7, true) ∷ [];
    rejected_logins = [];
  };
  networking = record { netstate = (7, a_statement) ∷ []; send_queues = (7, an_edit ∷ []) ∷ [] };
}

outbound_loop-spins_example : outbound_loop 20 1 garbage 7 echoing ≡ fault out_of_fuel
unfolding new_server find get_socket_write_state get_msg_type get_msg_len
    get_socket_write_bytes_number login_ended
outbound_loop-spins_example =
    outbound_loop-spins 20 1 garbage 7 1 1 echoing [] refl refl refl refl refl refl (omega arith)
      (omega arith) refl

outbound_loop-Ends_example : Ends 1 garbage 7 owing (outbound_loop 2 1 garbage 7 owing)
unfolding new_server find get_socket_write_state get_msg_type login_ended
outbound_loop-Ends_example =
    outbound_loop-Ends 2 1 garbage 7 owing refl (refl, inr refl) (omega arith)
