-- ===== src/ClientsMonitor/LifeCycle.antt =====
-- The life of a connection as the login handler drives the monitor: an independent machine of phases
-- for each descriptor, and the operations of the monitor as its transitions.
pub mod Refining
use tin_system_do_wspolpracy.Base.{
  Bool, List, Option, [], false, if◌then◌else◌, minus_one, minus_two, none, not, pos, some, true, ℕ,
  ℤ, ◌==ℤ◌, ◌==◌, ◌>>=◌, ◌>>◌, ◌∷◌,
}
use tin_system_do_wspolpracy.ClientsMonitor.{
  ClientsMonitor, LoginState, idle, add_new_cli, add_rejected_login, remove_rejected,
  add_logged_client, update_logged, remove_socket, set_socket_read_state, set_socket_write_state,
  login_req, get_byte_width, login_rej,
}
use tin_system_do_wspolpracy.MsgType

-- Unknown; asked for a login; heard from; refused; accepted and owed its id; told its id.
pub data Phase : Type 0 where
  absent : Phase
  asked : Phase
  heard : Phase
  refused : Phase
  accepted : Phase
  entered : Phase

-- The operations of the monitor; the last two record progress in a transfer.
pub data Op : Type 0 where
  connects : Op
  refuses : Op
  pardons : Op
  accepts : Op
  tells : Op
  leaves : Op
  reads : ℤ → Op
  writes : ℤ → Op

abbrev pub Event : Type 0
Event = ℕ × Op

-- What an operation does to the monitor.
unfoldable pub operate : ℕ → Op → ClientsMonitor → ClientsMonitor
operate k connects = add_new_cli k
operate k refuses = add_rejected_login k
operate k pardons = remove_rejected k
operate k accepts = add_logged_client k
operate k tells = update_logged k
operate k leaves = remove_socket k
operate k (reads v) = set_socket_read_state k v
operate k (writes v) = set_socket_write_state k v

unfoldable pub run : List Event → ClientsMonitor → ClientsMonitor
run [] cm = cm
run ((k, o) ∷ events) cm = run events (operate k o cm)

-- The phase after an operation, where the operation has its turn.
unfoldable pub next : Op → Phase → Option Phase
next connects absent = some asked
next connects p = none
next refuses heard = some refused
next refuses refused = some refused
next refuses p = none
next pardons refused = some heard
next pardons p = some p
next accepts heard = some accepted
next accepts accepted = some accepted
next accepts entered = some entered
next accepts p = none
next tells accepted = some entered
next tells p = some p
next leaves p = some absent
next (reads v) absent = none
next (reads v) asked = some (if v ==ℤ idle then asked else heard)
next (reads v) p = if v ==ℤ idle then none else some p
next (writes v) absent = none
next (writes v) p = some p

-- The phase of descriptor `k` after a run; the operations on other descriptors do not count.
unfoldable pub replay : ℕ → List Event → Phase → Option Phase
replay k [] p = some p
replay k ((j, o) ∷ events) p = elim (if j == k then next o p else some p) [
  | none ↦ none
  | some q ↦ replay k events q
]

abbrev pub knows : Phase → Bool
knows absent = false
knows p = true

abbrev pub awaits_login : Phase → Bool
awaits_login asked = true
awaits_login p = false

abbrev pub is_turned_down : Phase → Bool
is_turned_down refused = true
is_turned_down p = false

-- Whether the client is logged in, and if so whether it knows.
abbrev pub session : Phase → Option Bool
session accepted = some false
session entered = some true
session p = none

abbrev pub has_session : Phase → Bool
has_session accepted = true
has_session entered = true
has_session p = false

abbrev pub is_told : Phase → Bool
is_told entered = true
is_told p = false

-- The message of the login handler that is next for a client.
abbrev pub owed : ℕ → Phase → LoginState
owed k asked = record {
  msg_type = MsgType.statement;
  msg_len = get_byte_width login_req;
  info = login_req;
}
owed k accepted = record {
  msg_type = MsgType.client_id;
  msg_len = get_byte_width (pos k);
  info = pos k;
}
owed k refused = record {
  msg_type = MsgType.statement;
  msg_len = get_byte_width login_rej;
  info = login_rej;
}
owed k p = record { msg_type = minus_two; msg_len = minus_one; info = minus_one }

abbrev pub empty : ClientsMonitor
empty = record { clients_state = []; logged_clients = []; rejected_logins = [] }
