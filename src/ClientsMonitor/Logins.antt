-- ===== src/ClientsMonitor/Logins.antt =====
-- What the server sends a client after its login was accepted or not, and what is forgotten with it.
use tin_system_do_wspolpracy.Base.{
  Bool, arith, false, if◌then◌else◌, none, some, true, ℕ, ◌==ℤ◌, ◌==◌, ◌≡◌,
}
use tin_system_do_wspolpracy.IntMap.{find}
use tin_system_do_wspolpracy.IntMap.Laws.{find-update, find-erase}
use tin_system_do_wspolpracy.Message.{login_rej}
use tin_system_do_wspolpracy.MsgType
use tin_system_do_wspolpracy.ClientsMonitor.{
  ClientsMonitor, idle, get_socket_read_state, get_login_state, add_logged_client,
  add_rejected_login, is_logged, is_rejected, login_ended, update_logged, remove_socket,
}

-- A client that was not logged in, whose read state is not IDLE and that is now accepted is owed
-- its id, and its login has not ended; after `update_logged` it has.
pub add_logged_client-owes :
    (sockfd : ℕ) (cm : ClientsMonitor)
    → is_logged sockfd cm ≡ false
    → (get_socket_read_state sockfd cm ==ℤ idle) ≡ false
    → ((get_login_state sockfd (add_logged_client sockfd cm)).msg_type ≡ MsgType.client_id)
      × (login_ended sockfd (add_logged_client sockfd cm) ≡ false)
      × (login_ended sockfd (update_logged sockfd (add_logged_client sockfd cm)) ≡ true)
unfolding is_logged get_login_state login_ended add_logged_client update_logged
    get_socket_read_state
add_logged_client-owes sockfd cm h r =
    let logged = add_logged_client sockfd cm in
    let added = find-update sockfd sockfd false (λ (w : Bool). w) cm.logged_clients in
    let absent : find sockfd cm.logged_clients ≡ none = ground arith in
    let first : find sockfd logged.logged_clients ≡ some false = ground (arith, added) in
    let ended = find-update sockfd sockfd true (λ (_ : Bool). true) logged.logged_clients in
    (ground (arith, first), ground (arith, first), ground (arith, first, ended))

-- A client that is not logged in, whose read state is not IDLE and that is now refused is owed the
-- rejection, and its login has not ended.
pub add_rejected_login-owes :
    (sockfd : ℕ) (cm : ClientsMonitor)
    → is_logged sockfd cm ≡ false
    → (get_socket_read_state sockfd cm ==ℤ idle) ≡ false
    → ((get_login_state sockfd (add_rejected_login sockfd cm)).msg_type ≡ MsgType.statement)
      × ((get_login_state sockfd (add_rejected_login sockfd cm)).info ≡ login_rej)
      × (login_ended sockfd (add_rejected_login sockfd cm) ≡ false)
unfolding is_logged get_login_state login_ended add_rejected_login is_rejected get_socket_read_state
add_rejected_login-owes sockfd cm h r =
    let added = find-update sockfd sockfd tt (λ (w : Unit {0}). w) cm.rejected_logins in
    (ground (arith, added), ground (arith, added), ground arith)

-- After `remove_socket` the descriptor is unknown, not logged in and not rejected; every other one keeps
-- its progress and its login.
pub remove_socket-forgets :
    (j sockfd : ℕ) (cm : ClientsMonitor)
    → let after = remove_socket sockfd cm in
      (find j after.clients_state ≡ (if sockfd == j then none else find j cm.clients_state))
      × (find j after.logged_clients ≡ (if sockfd == j then none else find j cm.logged_clients))
      × (is_rejected j after ≡ (if sockfd == j then false else is_rejected j cm))
unfolding remove_socket is_rejected
remove_socket-forgets j sockfd cm = (
  ground (arith, find-erase j sockfd cm.clients_state),
  ground (arith, find-erase j sockfd cm.logged_clients),
  ground (arith, find-erase j sockfd cm.rejected_logins),
)
