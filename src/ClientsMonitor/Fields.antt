-- ===== src/ClientsMonitor/Fields.antt =====
-- A field of a descriptor's progress reads back as it was set, and the other fields and the other
-- descriptors stay.
use tin_system_do_wspolpracy.Base.{arith, if◌then◌else◌, pos, some, ℕ, ℤ, ◌==◌, ◌≡◌}
use tin_system_do_wspolpracy.IntMap.{find, get_or}
use tin_system_do_wspolpracy.IntMap.Laws.{find-update}
use tin_system_do_wspolpracy.Header.{header_size}
use tin_system_do_wspolpracy.ClientsMonitor.{
  ClientsMonitor, SocketState, zero_state, set_socket_read_state, set_field, header_to_recv,
  set_socket_write_bytes_number, set_socket_write_state, header_sent, set_socket_read_bytes_number,
  get_socket_write_bytes_number, get_socket_read_bytes_number, msg_sent,
}

-- The progress of descriptor `j` after any setter.
pub find-set_field :
    (f : SocketState → SocketState) (j k : ℕ) (cm : ClientsMonitor)
    → find j (set_field f k cm).clients_state ≡ (
        if k == j
        then some (f (get_or zero_state (find j cm.clients_state)))
        else find j cm.clients_state)
unfolding set_field
find-set_field f j k cm = ground (arith, find-update j k zero_state f cm.clients_state)

-- What the getters read of a descriptor that is known.
abbrev pub progress : ℕ → ClientsMonitor → SocketState
progress k cm = get_or zero_state (find k cm.clients_state)

module _ (k : ℕ) (v : ℤ) (cm : ClientsMonitor) where
  pub find-set_socket_read_state :
      find k (set_socket_read_state k v cm).clients_state
      ≡ some (record (progress k cm) { read_state = v })
  unfolding set_socket_read_state
  find-set_socket_read_state =
      ground (arith, find-set_field (λ (s : SocketState). record s { read_state = v }) k k cm)

  pub find-set_socket_read_bytes_number :
      find k (set_socket_read_bytes_number k v cm).clients_state
      ≡ some (record (progress k cm) { read_bytes = v })
  unfolding set_socket_read_bytes_number
  find-set_socket_read_bytes_number =
      ground (arith, find-set_field (λ (s : SocketState). record s { read_bytes = v }) k k cm)

  pub find-set_socket_write_state :
      find k (set_socket_write_state k v cm).clients_state
      ≡ some (record (progress k cm) { write_state = v })
  unfolding set_socket_write_state
  find-set_socket_write_state =
      ground (arith, find-set_field (λ (s : SocketState). record s { write_state = v }) k k cm)

  pub find-set_socket_write_bytes_number :
      find k (set_socket_write_bytes_number k v cm).clients_state
      ≡ some (record (progress k cm) { write_bytes = v })
  unfolding set_socket_write_bytes_number
  find-set_socket_write_bytes_number =
      ground (arith, find-set_field (λ (s : SocketState). record s { write_bytes = v }) k k cm)

  pub read_bytes_set : get_socket_read_bytes_number k (set_socket_read_bytes_number k v cm) ≡ v
  unfolding get_socket_read_bytes_number
  read_bytes_set = ground (arith, find-set_socket_read_bytes_number)

  pub write_bytes_set : get_socket_write_bytes_number k (set_socket_write_bytes_number k v cm) ≡ v
  unfolding get_socket_write_bytes_number
  write_bytes_set = ground (arith, find-set_socket_write_bytes_number)

-- The monitor when a header is out that announces a body of `v` bytes.
abbrev pub header_out : ℕ → ℤ → ClientsMonitor → ClientsMonitor
header_out k v cm = set_socket_write_bytes_number k v (set_socket_write_state k header_sent cm)

-- The monitor when a message is out, and a header may be received.
abbrev pub message_out : ℕ → ClientsMonitor → ClientsMonitor
message_out k cm = set_socket_write_bytes_number k (pos 0) (
    set_socket_write_state k msg_sent (
      set_socket_read_bytes_number k (pos header_size) (set_socket_read_state k header_to_recv cm)))

pub find-header_out :
    (k : ℕ) (v : ℤ) (cm : ClientsMonitor)
    → find k (header_out k v cm).clients_state
      ≡ some (record (progress k cm) { write_state = header_sent; write_bytes = v })
find-header_out k v cm = ground (
  arith,
  find-set_socket_write_bytes_number k v (set_socket_write_state k header_sent cm),
  find-set_socket_write_state k header_sent cm,
)

pub find-message_out :
    (k : ℕ) (cm : ClientsMonitor)
    → find k (message_out k cm).clients_state
      ≡ some (record {
        read_state = header_to_recv;
        read_bytes = pos header_size;
        write_state = msg_sent;
        write_bytes = pos 0;
      })
find-message_out k cm =
    let a = set_socket_read_state k header_to_recv cm in
    let b = set_socket_read_bytes_number k (pos header_size) a in
    let c = set_socket_write_state k msg_sent b in
    ground (
      arith,
      find-set_socket_write_bytes_number k (pos 0) c,
      find-set_socket_write_state k msg_sent b,
      find-set_socket_read_bytes_number k (pos header_size) a,
      find-set_socket_read_state k header_to_recv cm,
    )
