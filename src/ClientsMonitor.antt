-- ===== src/ClientsMonitor.antt =====
-- server/ClientsMonitor.h and server/ClientsMonitor.cpp: how far each connection has read and written
-- its current message, and who has logged in.
pub mod Announce
pub mod Fields
pub mod Phases
pub mod Writers
pub mod Logins
pub mod LifeCycle
use tin_system_do_wspolpracy.Base.{
  Bool, List, [], false, if◌then◌else◌, length, minus_one, minus_two, none, not, pos, some, true, ℕ,
  ℤ, ◌&&◌, ◌++◌, ◌+◌, ◌==ℤ◌, ◌>>=◌, ◌>>◌, ◌||◌, ◌∷◌,
}
use tin_system_do_wspolpracy.ByteWidth.{get_byte_width}
use tin_system_do_wspolpracy.Header.{header_size}
use tin_system_do_wspolpracy.IntMap.{IntMap, IntSet, find, has, update, insert, erase, keys, add}
use tin_system_do_wspolpracy.MsgType
use tin_system_do_wspolpracy.Message.{login_req, login_rej}

-- `socket_read_states`, where a read state that was never set is 0, and `socket_write_states`.
abbrev pub idle : ℤ
idle = minus_one

abbrev pub header_to_recv : ℤ
header_to_recv = pos 0

abbrev pub header_recvd : ℤ
header_recvd = pos 1

abbrev pub msg_recvd : ℤ
msg_recvd = pos 2

abbrev pub header_to_send : ℤ
header_to_send = pos 0

abbrev pub header_sent : ℤ
header_sent = pos 1

abbrev pub msg_sent : ℤ
msg_sent = pos 2

-- The pair of pairs `socket_state`.
pub record SocketState : Type 0 where
  pub read_state : ℤ
  pub read_bytes : ℤ
  pub write_state : ℤ
  pub write_bytes : ℤ

-- What `operator[]` puts at a missing key.
abbrev pub zero_state : SocketState
zero_state = record {
  read_state = pos 0;
  read_bytes = pos 0;
  write_state = pos 0;
  write_bytes = pos 0;
}

abbrev pub new_state : SocketState
new_state = record {
  read_state = idle;
  read_bytes = pos 0;
  write_state = header_to_send;
  write_bytes = pos header_size;
}

pub record ClientsMonitor : Type 0 where
  pub clients_state : IntMap SocketState
  pub logged_clients : IntMap Bool
  pub rejected_logins : IntSet

pub record LoginState : Type 0 where
  pub msg_type : ℤ
  pub msg_len : ℤ
  pub info : ℤ

unfoldable pub add_new_cli : ℕ → ClientsMonitor → ClientsMonitor
add_new_cli sockfd cm = record cm { clients_state = insert sockfd new_state cm.clients_state }

-- A getter answers -2 for a descriptor that it does not know.
get_field : (SocketState → ℤ) → ℕ → ClientsMonitor → ℤ
get_field field sockfd cm = elim (find sockfd cm.clients_state) [
  | none ↦ minus_two
  | some s ↦ field s
]

unfoldable pub get_socket_read_state : ℕ → ClientsMonitor → ℤ
unfolding get_field
get_socket_read_state = get_field λ s. s.read_state

unfoldable pub get_socket_read_bytes_number : ℕ → ClientsMonitor → ℤ
unfolding get_field
get_socket_read_bytes_number = get_field λ s. s.read_bytes

unfoldable pub get_socket_write_state : ℕ → ClientsMonitor → ℤ
unfolding get_field
get_socket_write_state = get_field λ s. s.write_state

unfoldable pub get_socket_write_bytes_number : ℕ → ClientsMonitor → ℤ
unfolding get_field
get_socket_write_bytes_number = get_field λ s. s.write_bytes

-- A setter creates a state where there is none.
pub set_field : (SocketState → SocketState) → ℕ → ClientsMonitor → ClientsMonitor
set_field f sockfd cm = record cm { clients_state = update sockfd zero_state f cm.clients_state }

unfoldable pub set_socket_read_state : ℕ → ℤ → ClientsMonitor → ClientsMonitor
unfolding set_field
set_socket_read_state sockfd val = set_field (λ s. record s { read_state = val }) sockfd

unfoldable pub set_socket_read_bytes_number : ℕ → ℤ → ClientsMonitor → ClientsMonitor
unfolding set_field
set_socket_read_bytes_number sockfd val = set_field (λ s. record s { read_bytes = val }) sockfd

unfoldable pub set_socket_write_state : ℕ → ℤ → ClientsMonitor → ClientsMonitor
unfolding set_field
set_socket_write_state sockfd val = set_field (λ s. record s { write_state = val }) sockfd

unfoldable pub set_socket_write_bytes_number : ℕ → ℤ → ClientsMonitor → ClientsMonitor
unfolding set_field
set_socket_write_bytes_number sockfd val = set_field (λ s. record s { write_bytes = val }) sockfd

-- The server has something to write to this descriptor.
unfoldable pub wants_to_write : ClientsMonitor → ℕ → Bool
unfolding get_socket_write_state
wants_to_write cm sockfd =
    get_socket_write_state sockfd cm ==ℤ header_to_send
    || get_socket_write_state sockfd cm ==ℤ header_sent

count_writers : ClientsMonitor → List ℕ → ℕ → ℕ
count_writers cm [] count = count
count_writers cm (sockfd ∷ rest) count =
    count_writers cm rest (if wants_to_write cm sockfd then count + 1 else count)

unfoldable pub get_to_write_connections_number : ClientsMonitor → ℕ
unfolding count_writers
get_to_write_connections_number cm = count_writers cm (keys cm.clients_state) 0

collect_writers : ClientsMonitor → List ℕ → List ℕ → List ℕ
collect_writers cm [] res = res
collect_writers cm (sockfd ∷ rest) res =
    collect_writers cm rest (if wants_to_write cm sockfd then res ++ (sockfd ∷ []) else res)

unfoldable pub get_write_descriptors : ClientsMonitor → List ℕ
unfolding collect_writers
get_write_descriptors cm = collect_writers cm (keys cm.clients_state) []

unfoldable pub get_existing_conns : ClientsMonitor → ℕ
get_existing_conns cm = length cm.clients_state

unfoldable pub is_logged : ℕ → ClientsMonitor → Bool
is_logged sockfd cm = has sockfd cm.logged_clients

unfoldable pub add_logged_client : ℕ → ClientsMonitor → ClientsMonitor
add_logged_client sockfd cm = record cm { logged_clients = insert sockfd false cm.logged_clients }

unfoldable pub add_rejected_login : ℕ → ClientsMonitor → ClientsMonitor
add_rejected_login sockfd cm = record cm { rejected_logins = add sockfd cm.rejected_logins }

unfoldable pub remove_rejected : ℕ → ClientsMonitor → ClientsMonitor
remove_rejected sockfd cm = record cm { rejected_logins = erase sockfd cm.rejected_logins }

unfoldable pub is_rejected : ℕ → ClientsMonitor → Bool
is_rejected sockfd cm = has sockfd cm.rejected_logins

unfoldable pub update_logged : ℕ → ClientsMonitor → ClientsMonitor
update_logged sockfd cm = elim (find sockfd cm.logged_clients) [
  | none ↦ cm
  | some sent ↦ record cm { logged_clients = update sockfd true (λ _. true) cm.logged_clients }
]

unfoldable pub login_ended : ℕ → ClientsMonitor → Bool
login_ended sockfd cm = elim (find sockfd cm.logged_clients) [ none ↦ false | some sent ↦ sent ]

unfoldable pub get_login_state : ℕ → ClientsMonitor → LoginState
unfolding get_socket_read_state is_logged login_ended is_rejected
get_login_state sockfd cm =
    if get_socket_read_state sockfd cm ==ℤ idle
    then record {
      msg_type = MsgType.statement;
      msg_len = get_byte_width login_req;
      info = login_req;
    }
    else if is_logged sockfd cm && not (login_ended sockfd cm)
    then record {
      msg_type = MsgType.client_id;
      msg_len = get_byte_width (pos sockfd);
      info = pos sockfd;
    }
    else if is_rejected sockfd cm
    then record {
      msg_type = MsgType.statement;
      msg_len = get_byte_width login_rej;
      info = login_rej;
    }
    else record { msg_type = minus_two; msg_len = minus_one; info = minus_one }

unfoldable pub remove_socket : ℕ → ClientsMonitor → ClientsMonitor
remove_socket sockfd cm = record {
  clients_state =
      if has sockfd cm.clients_state then erase sockfd cm.clients_state else cm.clients_state;
  logged_clients =
      if has sockfd cm.logged_clients then erase sockfd cm.logged_clients else cm.logged_clients;
  rejected_logins =
      if has sockfd cm.rejected_logins then erase sockfd cm.rejected_logins else cm.rejected_logins;
}
