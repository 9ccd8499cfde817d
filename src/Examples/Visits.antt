-- ===== src/Examples/Visits.antt =====
-- The whole program on a concrete input.
use tin_system_do_wspolpracy.Server.Transfer.{
  dangling, nonblock_send, recv_msg, recv_nbytes, send_buff, send_msg, send_nbytes, unsent,
}
use tin_system_do_wspolpracy.Server.Incoming.{
  handle_existing_incoming_connection, incoming_login, incoming_loop, incoming_round, remove_socket,
}
use tin_system_do_wspolpracy.Message.{get_message_type, get_string_rep}
use tin_system_do_wspolpracy.Header
use tin_system_do_wspolpracy.ByteWidth.{get_byte_width}
use tin_system_do_wspolpracy.Base.{List, [], false, minus_one, ok, pos, refl, true, ◌∷◌, ◌≡◌}
use tin_system_do_wspolpracy.ClientsMonitor
use tin_system_do_wspolpracy.ClientsMonitor.{
  add_new_cli, get_login_state, get_socket_read_bytes_number, get_socket_write_bytes_number,
  get_socket_write_state, get_to_write_connections_number, get_write_descriptors, header_sent,
  header_to_send, login_ended, new_state, set_socket_read_bytes_number, set_socket_read_state,
  set_socket_write_bytes_number, set_socket_write_state, wants_to_write,
}
use tin_system_do_wspolpracy.Text.{codes, digits, read_digits, stoi, substr, to_string}
use tin_system_do_wspolpracy.RecvBuffers.{add_new, delete_buff}
use tin_system_do_wspolpracy.Server.Login.{
  client_login, login_round, recv_header, recv_login, send_body, send_header,
}
use tin_system_do_wspolpracy.Server.State.{bytes, close, Server, Garbage, accepted}
use tin_system_do_wspolpracy.Server.Process.Stopping.{IsClosed, main-IsClosed}
use tin_system_do_wspolpracy.IntMap.{erase, keys, update}
use tin_system_do_wspolpracy.Server.Listening.{Answers, set_listening}
use tin_system_do_wspolpracy.Server.Process.{
  perform, serve, cleanup, close_from, new_server, main, run_server,
}
use tin_system_do_wspolpracy.Server.Run.{
  ready_of, enter, raise, to_watch, Selected, connected, run, run_pass, run_descriptors,
  on_readable, on_writable, handle_new_connection,
}

-- Everything succeeds, and descriptor 3 listens.
abbrev answers : Answers
answers = record { socket = pos 3; setsockopt = pos 0; ioctl = pos 0; bind = pos 0; listen = pos 0 }

abbrev garbage : Garbage
garbage = record { found = false; res = pos 0; creators = λ _. pos 0 }

-- Descriptor 5 connects, is asked to log in, and leaves.
abbrev visits : List Selected
visits =
    record {
      socket_count = pos 1;
      read_set = (3, tt) ∷ [];
      write_set = [];
      accepts = connected 5 true true ∷ [];
    }
    ∷ record { socket_count = pos 1; read_set = (5, tt) ∷ []; write_set = []; accepts = [] }
    ∷ record { socket_count = pos 1; read_set = (5, tt) ∷ []; write_set = []; accepts = [] }
    ∷ record { socket_count = minus_one; read_set = []; write_set = []; accepts = [] }
    ∷ []

abbrev visitor : Server
visitor = new_server (pos 0) [] (bytes [] ∷ []) (accepted 6 ∷ accepted 1 ∷ [])

abbrev ended : Server
ended = record visitor {
  max_sd = 5;
  listening = 3;
  master = (3, tt) ∷ [];
  recvs = [];
  sends = [];
  sent = (5, codes "010001") ∷ (5, codes "1") ∷ [];
}

main-ended : main 9 garbage answers visits visitor ≡ ok (tt, ended)
unfolding add_new add_new_cli cleanup client_login close close_from enter erase
    get_socket_write_bytes_number get_to_write_connections_number get_write_descriptors
    handle_new_connection keys main new_server on_readable on_writable perform raise ready_of run
    run_descriptors run_pass run_server serve set_listening get_byte_width get_login_state
    get_socket_read_bytes_number ClientsMonitor.remove_socket set_socket_read_bytes_number
    set_socket_read_state set_socket_write_bytes_number set_socket_write_state Header.get_string_rep
    get_message_type get_string_rep delete_buff handle_existing_incoming_connection incoming_login
    incoming_loop incoming_round remove_socket login_round recv_header recv_login send_body
    send_header dangling nonblock_send recv_msg recv_nbytes send_buff send_msg send_nbytes unsent
    digits read_digits stoi substr to_string to_watch update wants_to_write
main-ended = refl

main-IsClosed_example : IsClosed ended
main-IsClosed_example =
    main-IsClosed 9 garbage answers visits (pos 0) [] (bytes [] ∷ []) (accepted 6 ∷ accepted 1 ∷ [])
      ended (((refl, refl), tt), (tt, (tt, (tt, tt)))) main-ended
