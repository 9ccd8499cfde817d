-- ===== src/Networking.antt =====
-- server/Networking.h and server/Networking.cpp: the message that each logged-in client is exchanging,
-- and the queues of messages still to be sent.
pub mod Queues
pub mod Multicast
use tin_system_do_wspolpracy.Base.{
  Bool, List, Outcome, [], false, fault, if◌then◌else◌, length, minus_one, minus_two, none, not, ok,
  pos, some, suc, true, undefined, zero, ℕ, ℤ, ◌++◌, ◌==ℤ◌, ◌>>=◌, ◌>>◌, ◌||◌, ◌∷◌,
}
use tin_system_do_wspolpracy.ClientsMonitor.{
  ClientsMonitor, get_socket_read_state, get_socket_write_state, set_socket_write_bytes_number,
  set_socket_write_state, header_to_recv, header_recvd, header_to_send, header_sent, msg_sent,
}
use tin_system_do_wspolpracy.IntMap.{IntMap, IntSet, find, update, insert, assign, get_or, keys}
use tin_system_do_wspolpracy.MsgType

pub record NetState : Type 0 where
  pub msg_type : ℤ
  pub msg_len : ℤ

abbrev pub new_netstate : NetState
new_netstate = record { msg_type = MsgType.header; msg_len = pos 0 }

pub record Networking : Type 0 where
  pub netstate : IntMap NetState
  pub send_queues : IntMap (List NetState)

-- The second test compares a read state with a write constant; both are 2, as is `MSG_RECVD`.
unfoldable pub is_waiting_for_header : ℕ → ClientsMonitor → Bool
is_waiting_for_header sockfd cm =
    get_socket_read_state sockfd cm ==ℤ header_to_recv
    || get_socket_read_state sockfd cm ==ℤ msg_sent

unfoldable pub is_waiting_for_msg : ℕ → ClientsMonitor → Bool
is_waiting_for_msg sockfd cm = get_socket_read_state sockfd cm ==ℤ header_recvd

unfoldable pub to_send_header : ℕ → ClientsMonitor → Bool
to_send_header sockfd cm = get_socket_write_state sockfd cm ==ℤ header_to_send

unfoldable pub to_send_msg : ℕ → ClientsMonitor → Bool
to_send_msg sockfd cm = get_socket_write_state sockfd cm ==ℤ header_sent

unfoldable pub add_client : ℕ → Networking → Networking
add_client sockfd n = record n { netstate = insert sockfd new_netstate n.netstate }

-- A setter looks the descriptor up first, and leaves an unknown one unknown.
set_field : (NetState → NetState) → ℕ → Networking → Networking
set_field f sockfd n = elim (find sockfd n.netstate) [
  | none ↦ n
  | some s ↦ record n { netstate = update sockfd new_netstate f n.netstate }
]

unfoldable pub set_msg_type : ℕ → ℤ → Networking → Networking
unfolding set_field
set_msg_type sockfd msg_t = set_field (λ s. record s { msg_type = msg_t }) sockfd

unfoldable pub set_msg_len : ℕ → ℤ → Networking → Networking
unfolding set_field
set_msg_len sockfd msg_l = set_field (λ s. record s { msg_len = msg_l }) sockfd

unfoldable pub get_msg_type : ℕ → Networking → ℤ
get_msg_type sockfd n = elim (find sockfd n.netstate) [ none ↦ minus_two | some s ↦ s.msg_type ]

unfoldable pub get_msg_len : ℕ → Networking → ℤ
get_msg_len sockfd n = elim (find sockfd n.netstate) [ none ↦ minus_one | some s ↦ s.msg_len ]

unfoldable pub add_to_send : ℕ → ℤ → ℤ → Networking → Networking
add_to_send sockfd msg_type msg_len n = record n {
  send_queues =
      update sockfd [] (λ q. q ++ (record { msg_type = msg_type; msg_len = msg_len } ∷ []))
        n.send_queues;
}

-- One round of `set_multicast`.
unfoldable pub notify : ℤ → ℤ → ℕ → ClientsMonitor × Networking → ClientsMonitor × Networking
notify msg_t msg_len elem (cm, n) = (
  set_socket_write_state elem header_to_send (set_socket_write_bytes_number elem msg_len cm),
  add_to_send elem msg_t msg_len (set_msg_len elem msg_len (set_msg_type elem msg_t n)),
)

notify_each : ℤ → ℤ → List ℕ → ClientsMonitor × Networking → ClientsMonitor × Networking
notify_each msg_t msg_len [] s = s
notify_each msg_t msg_len (elem ∷ rest) s =
    notify_each msg_t msg_len rest (notify msg_t msg_len elem s)

unfoldable pub set_multicast :
    IntSet → ℤ → ℤ → ClientsMonitor × Networking → ClientsMonitor × Networking
unfolding notify_each
set_multicast receivers msg_t msg_len = notify_each msg_t msg_len (keys receivers)

-- The queue that `send_queues[sockfd]` reads.
abbrev pub queue : ℕ → Networking → List NetState
queue sockfd n = get_or [] (find sockfd n.send_queues)

-- `operator[]` puts an empty queue where there is none.
abbrev touch : ℕ → Networking → Networking
touch sockfd n = record n { send_queues = insert sockfd [] n.send_queues }

unfoldable pub get_queue_len : ℕ → Networking → ℕ × Networking
get_queue_len sockfd n = (length (queue sockfd n), touch sockfd n)

-- `found` is not initialised in the source: what the variable holds at first is an argument.
first_obs : Bool → ℤ → ℤ → List NetState → ℤ
first_obs true res msg_t q = res
first_obs false res msg_t [] = res
first_obs false res msg_t (s ∷ q) =
    if s.msg_type ==ℤ msg_t then first_obs true s.msg_len msg_t q else first_obs false res msg_t q

unfoldable pub get_first_obs_len : Bool → ℕ → ℤ → Networking → ℤ × Networking
unfolding first_obs
get_first_obs_len found sockfd msg_t n =
    (first_obs found minus_one msg_t (queue sockfd n), touch sockfd n)

-- Where the loop of `remove_sent` leaves `it`, which starts at the front.
seek : ℤ → ℕ → ℕ → List NetState → ℕ
seek msg_t it i [] = it
seek msg_t it i (s ∷ q) = if s.msg_type ==ℤ msg_t then i else seek msg_t it (suc i) q

erase_at : ℕ → List NetState → List NetState
erase_at i [] = []
erase_at zero (s ∷ q) = q
erase_at (suc i) (s ∷ q) = s ∷ erase_at i q

-- Erasing at the end of an empty list is undefined.
erase_sent : ℤ → List NetState → Outcome (List NetState)
unfolding seek erase_at
erase_sent msg_t [] = fault undefined
erase_sent msg_t (s ∷ q) = ok (erase_at (seek msg_t 0 0 (s ∷ q)) (s ∷ q))

unfoldable pub remove_sent : ℕ → ℤ → Networking → Outcome Networking
unfolding erase_sent
remove_sent sockfd msg_t n = do
  q ← erase_sent msg_t (queue sockfd n)
  ok (record n { send_queues = assign sockfd q n.send_queues })
