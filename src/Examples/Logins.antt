-- ===== src/Examples/Logins.antt =====
-- The theorems of the end of a login on a concrete input.
use tin_system_do_wspolpracy.TextFileHandler.{get_filename_at_pos, get_size}
use tin_system_do_wspolpracy.Server.Transfer.{recv_msg, recv_nbytes}
use tin_system_do_wspolpracy.RecvBuffers.{cpy_to_recv_buff, get_string_from_bytes}
use tin_system_do_wspolpracy.Base.{
  Bytes, Outcome, [], arith, false, fault, inl, minus_one, ok, pos, refl, true, ℕ, ◌∷◌, ◌≡◌,
}
use tin_system_do_wspolpracy.ClientsMonitor.{
  add_logged_client, add_rejected_login, get_login_state, get_socket_read_bytes_number,
  get_socket_read_state, get_socket_write_bytes_number, get_socket_write_state, header_recvd,
  header_to_recv, is_logged, is_rejected, login_ended, msg_recvd, msg_sent, new_state,
  set_socket_read_bytes_number, set_socket_read_state, set_socket_write_bytes_number,
  set_socket_write_state,
}
use tin_system_do_wspolpracy.Header.{header_size, Header, parse_from_string}
use tin_system_do_wspolpracy.IntMap.{find, update}
use tin_system_do_wspolpracy.Server.Process.{new_server}
use tin_system_do_wspolpracy.Server.Login.{
  client_login, login_round, login_successful, recv_header, recv_login, send_body, send_header,
}
use tin_system_do_wspolpracy.Server.Login.Accepting.{id_gone, client_login-id}
use tin_system_do_wspolpracy.Server.State.{Server, accepted, bytes, Garbage}
use tin_system_do_wspolpracy.Server.Login.Vouching.{client_login-vouched}
use tin_system_do_wspolpracy.Server.Incoming.{incoming_login, incoming_loop, incoming_round}
use tin_system_do_wspolpracy.Server.Incoming.Ending.{Ends, incoming_loop-Ends}
use tin_system_do_wspolpracy.Server.Incoming.Guarding.{incoming_loop_shared}
use tin_system_do_wspolpracy.LoginHandler.{
  lacks_blanks, LoginHandler, check_login, cmp_login_info, correct, find_user,
  get_users_info_filename, is_buff_empty, is_lexically_correct, is_login_info_correct, load_users,
  parse_login_info_from_string, user_exists, users_file,
}
use tin_system_do_wspolpracy.LoginHandler
use tin_system_do_wspolpracy.Files.{Files, content, file_exists, read_to_buffer}
use tin_system_do_wspolpracy.Server.Login.Admitting.{IsListening}
use tin_system_do_wspolpracy.Server.Login.Entering.{admitted, client_login-enters}
use tin_system_do_wspolpracy.Text.{
  all_digits, stoi, read_digits, codes, digits, find_text, same_text, substr, to_string,
}

-- The login of descriptor 5 was accepted.
abbrev welcome : Server
welcome = record (new_server (pos 0) [] [] (accepted header_size ∷ accepted 1 ∷ [])) {
  clients = record {
    clients_state = (5, record new_state { read_state = msg_recvd }) ∷ [];
    logged_clients = (5, false) ∷ [];
    rejected_logins = [];
  };
}

client_login-id_example :
    (client_login 1 5 (pos 0) welcome ≡ ok (login_successful, id_gone 5 [] welcome))
    × (login_ended 5 (id_gone 5 [] welcome).clients ≡ true)
unfolding new_server find get_socket_write_state get_socket_read_state get_socket_write_bytes_number
    to_string digits
client_login-id_example =
    client_login-id 0 5 (pos 0) welcome [] (omega arith) refl refl refl refl refl

-- Ann's password is pw.
abbrev known : Files
known = (users_file, codes "ann pw\n") ∷ []

abbrev passed : LoginHandler × Files
passed = elim (check_login (codes "ann\npw") LoginHandler.init known) [
  | fault e ↦ (LoginHandler.init, [])
  | ok (result, handler, files) ↦ (handler, files)
]

ann_passes :
    check_login (codes "ann\npw") LoginHandler.init known ≡ ok (correct, passed.0, passed.1)
unfolding check_login get_users_info_filename get_filename_at_pos file_exists content same_text
    is_login_info_correct is_lexically_correct parse_login_info_from_string find_text user_exists
    get_size load_users is_buff_empty read_to_buffer find_user cmp_login_info substr
ann_passes = refl

-- Descriptor 5 was asked for its login, and sends hers, with its header before it.
abbrev knocks : Server
knocks =
    record (new_server (pos 0) known (bytes (codes "000006") ∷ bytes (codes "ann\npw") ∷ [])
      (accepted header_size ∷ accepted 1 ∷ [])) {
        clients = record {
          clients_state =
              (
                5,
                record {
                  read_state = header_to_recv;
                  read_bytes = pos header_size;
                  write_state = msg_sent;
                  write_bytes = pos 0;
                },
              )
              ∷ [];
          logged_clients = [];
          rejected_logins = [];
        };
      }

abbrev six_bytes : Header
six_bytes = record { msg_type = pos 0; msg_len = pos 6 }

abbrev let_in : Server
let_in = admitted 5 (codes "000006") (codes "ann\npw") six_bytes passed.0 passed.1 [] knocks

knocks-IsListening : IsListening 5 knocks
unfolding new_server find get_socket_write_state get_socket_read_state get_socket_read_bytes_number
knocks-IsListening = record {
  has_asked = refl;
  state = refl;
  to_read = refl;
  unknown = refl;
  nothing = refl;
}

knocks_once : client_login 1 5 (pos 0) knocks ≡ ok (minus_one, let_in)
unfolding new_server parse_from_string all_digits to_string digits substr stoi read_digits
knocks_once =
    (client_login-enters 0 0 5 6 b'0' b'a' (pos 0) (pos 0) (codes "00006") (codes "nn\npw")
      six_bytes passed.0 passed.1 knocks [] [] knocks-IsListening refl refl refl refl ann_passes
      refl (omega arith) refl).0

client_login-enters_example :
    (client_login 1 5 (pos 0) knocks ≡ ok (minus_one, let_in))
    × (client_login 1 5 (pos 0) let_in ≡ ok (login_successful, id_gone 5 [] let_in))
    × (login_ended 5 (id_gone 5 [] let_in).clients ≡ true)
unfolding new_server parse_from_string all_digits to_string digits substr stoi read_digits
client_login-enters_example =
    client_login-enters 0 0 5 6 b'0' b'a' (pos 0) (pos 0) (codes "00006") (codes "nn\npw") six_bytes
      passed.0 passed.1 knocks [] [] knocks-IsListening refl refl refl refl ann_passes refl
      (omega arith) refl

client_login-vouched_example :
    (◌≡◌ {A = ℕ} 5 5)
    × (text : Bytes) × (check_login text knocks.login_handler knocks.files
        ≡ ok (correct, let_in.login_handler, let_in.files))
unfolding is_logged add_logged_client update is_rejected set_socket_read_bytes_number
    set_socket_read_state set_socket_write_bytes_number set_socket_write_state
client_login-vouched_example =
    client_login-vouched 1 5 (pos 0) minus_one knocks let_in 5 knocks_once refl refl

-- Her password is wrong.
abbrev guesses : Server
guesses = record (new_server (pos 0) known (bytes (codes "ann\nno") ∷ []) []) {
  clients = record {
    clients_state =
        (
          5,
          record {
            read_state = header_recvd;
            read_bytes = pos 6;
            write_state = msg_sent;
            write_bytes = pos 0;
          },
        )
        ∷ [];
    logged_clients = [];
    rejected_logins = [];
  };
}

abbrev state_of : {A : Type 0} → Outcome (A × Server) → Server
state_of (ok (a, s)) = s
state_of (fault e) = guesses

abbrev nonsense : Garbage
nonsense = record { found = false; res = pos 0; creators = λ _. pos 0 }

abbrev kept_out : Server
kept_out = state_of (incoming_loop 1 1 nonsense 5 guesses)

incoming_loop_shared_example :
    (kept_out.notepad ≡ guesses.notepad)
    × (kept_out.networking.send_queues ≡ guesses.networking.send_queues)
unfolding check_login client_login get_socket_write_state incoming_loop new_server
    add_rejected_login get_login_state get_socket_read_bytes_number set_socket_read_bytes_number
    set_socket_read_state set_socket_write_bytes_number set_socket_write_state content file_exists
    read_to_buffer update cmp_login_info find_user get_users_info_filename is_buff_empty
    is_lexically_correct is_login_info_correct load_users parse_login_info_from_string user_exists
    cpy_to_recv_buff get_string_from_bytes incoming_login incoming_round login_round recv_header
    recv_login send_body send_header recv_msg recv_nbytes find_text same_text substr
    get_filename_at_pos get_size
incoming_loop_shared_example = incoming_loop_shared 1 1 nonsense 5 guesses kept_out false refl refl

-- The client is logged in and the kernel hands over its header in two pieces.
abbrev editing : Server
editing = record (new_server (pos 0) known (bytes (codes "03") ∷ bytes (codes "0004") ∷ []) []) {
  clients = record {
    clients_state =
        (
          5,
          record {
            read_state = header_to_recv;
            read_bytes = pos 6;
            write_state = msg_sent;
            write_bytes = pos 0;
          },
        )
        ∷ [];
    logged_clients = (5, true) ∷ [];
    rejected_logins = [];
  };
}

incoming_loop-Ends_example : Ends 1 nonsense 5 editing (incoming_loop 3 1 nonsense 5 editing)
unfolding new_server find get_socket_read_state login_ended
incoming_loop-Ends_example =
    incoming_loop-Ends 3 1 nonsense 5 editing (refl, inl refl) (omega arith)
