-- ===== src/ClientsMonitor/Phases.antt =====
-- What a change of one field leaves of the states of the descriptor.
use tin_system_do_wspolpracy.Base.{
  Bool, Option-cases, arith, false, inl, inr, pos, refl, some, true, ℕ, ℤ, ◌≡◌,
}
use tin_system_do_wspolpracy.IntMap.{find}
use tin_system_do_wspolpracy.IntMap.Laws.{find-update}
use tin_system_do_wspolpracy.ClientsMonitor.{
  ClientsMonitor, get_socket_read_state, get_socket_write_state, set_socket_write_bytes_number,
  set_socket_read_bytes_number, set_socket_read_state, header_recvd, header_sent, header_to_recv,
  set_socket_write_state, update_logged, login_ended, get_socket_write_bytes_number,
}
use tin_system_do_wspolpracy.ClientsMonitor.Fields.{
  find-header_out, find-set_socket_read_state, find-set_socket_read_bytes_number,
  find-set_socket_write_bytes_number, header_out, find-message_out, message_out,
}

module _ (k n : ℕ) (v : ℤ) (cm : ClientsMonitor) where
  pub write_state_of_write_bytes :
      get_socket_write_state k cm ≡ pos n
      → get_socket_write_state k (set_socket_write_bytes_number k v cm) ≡ pos n
  unfolding get_socket_write_state
  write_state_of_write_bytes e = elim (Option-cases (find k cm.clients_state)) [
    | inl missing ↦ ground arith
    | inr (s, found) ↦ ground (arith, find-set_socket_write_bytes_number k v cm)
  ]

  pub write_state_of_read_bytes :
      get_socket_write_state k cm ≡ pos n
      → get_socket_write_state k (set_socket_read_bytes_number k v cm) ≡ pos n
  unfolding get_socket_write_state
  write_state_of_read_bytes e = elim (Option-cases (find k cm.clients_state)) [
    | inl missing ↦ ground arith
    | inr (s, found) ↦ ground (arith, find-set_socket_read_bytes_number k v cm)
  ]

  pub write_state_of_read_state :
      get_socket_write_state k cm ≡ pos n
      → get_socket_write_state k (set_socket_read_state k v cm) ≡ pos n
  unfolding get_socket_write_state
  write_state_of_read_state e = elim (Option-cases (find k cm.clients_state)) [
    | inl missing ↦ ground arith
    | inr (s, found) ↦ ground (arith, find-set_socket_read_state k v cm)
  ]

  pub read_state_of_read_bytes :
      get_socket_read_state k cm ≡ pos n
      → get_socket_read_state k (set_socket_read_bytes_number k v cm) ≡ pos n
  unfolding get_socket_read_state
  read_state_of_read_bytes e = elim (Option-cases (find k cm.clients_state)) [
    | inl missing ↦ ground arith
    | inr (s, found) ↦ ground (arith, find-set_socket_read_bytes_number k v cm)
  ]

-- A header is out, or in.
pub write_state_of_header_out :
    (k : ℕ) (v : ℤ) (cm : ClientsMonitor)
    → get_socket_write_state k (header_out k v cm) ≡ header_sent
unfolding get_socket_write_state
write_state_of_header_out k v cm = ground (arith, find-header_out k v cm)

pub read_state_of_header_in :
    (k : ℕ) (v : ℤ) (cm : ClientsMonitor)
    → get_socket_read_state k
        (set_socket_read_bytes_number k v (set_socket_read_state k header_recvd cm))
      ≡ header_recvd
unfolding get_socket_read_state
read_state_of_header_in k v cm =
    let in_state = set_socket_read_state k header_recvd cm in
    ground (
      arith,
      find-set_socket_read_bytes_number k v in_state,
      find-set_socket_read_state k header_recvd cm,
    )

pub write_bytes_of_header_out :
    (k : ℕ) (v : ℤ) (cm : ClientsMonitor) → get_socket_write_bytes_number k (header_out k v cm) ≡ v
unfolding get_socket_write_bytes_number
write_bytes_of_header_out k v cm = ground (arith, find-header_out k v cm)

-- A message is out.
pub read_state_of_message_out :
    (k : ℕ) (cm : ClientsMonitor) → get_socket_read_state k (message_out k cm) ≡ header_to_recv
unfolding get_socket_read_state
read_state_of_message_out k cm = ground (arith, find-message_out k cm)

-- Sending leaves the logins alone.
pub logged_after :
    (k : ℕ) (v : ℤ) (cm : ClientsMonitor)
    → find k (message_out k (header_out k v cm)).logged_clients ≡ find k cm.logged_clients
unfolding set_socket_read_state set_socket_read_bytes_number set_socket_write_state
    set_socket_write_bytes_number
logged_after k v cm = refl

pub read_state_of_update_logged :
    (sockfd : ℕ) (cm : ClientsMonitor)
    → get_socket_read_state sockfd (update_logged sockfd cm) ≡ get_socket_read_state sockfd cm
unfolding update_logged get_socket_read_state
read_state_of_update_logged sockfd cm = ground arith

pub login_ended-update_logged :
    (sockfd : ℕ) (cm : ClientsMonitor)
    → find sockfd cm.logged_clients ≡ some false
    → login_ended sockfd (update_logged sockfd cm) ≡ true
unfolding update_logged login_ended
login_ended-update_logged sockfd cm e =
    ground (arith, find-update sockfd sockfd true (λ (_ : Bool). true) cm.logged_clients)
