-- ===== src/Server/Transfer.antt =====
-- `nonblock_send`, `send_nbytes`, `nonblock_recv`, `recv_nbytes`, `send_msg` and `recv_msg`: one call of
-- the kernel each, and what its answer does to the progress of the message.
pub mod Sending
pub mod Pieces
pub mod Headers
pub mod Receiving
pub mod Arrivals
pub mod Spent
pub mod Used
pub mod Progress
pub mod Keeping
use tin_system_do_wspolpracy.Base.{
  Bytes, List, Outcome, [], fault, if◌then◌else◌, leb, length, ltb_ℤ, minus_one, minus_three,
  minus_two, negsuc, ok, out_of_range, pos, take, undefined, ℕ, ℤ, ◌&&◌, ◌++◌, ◌-ℤ◌, ◌-◌, ◌==ℤ◌,
  ◌∷◌,
}
use tin_system_do_wspolpracy.ClientsMonitor.{
  get_socket_read_bytes_number, get_socket_write_bytes_number, set_socket_read_state,
  set_socket_read_bytes_number, set_socket_write_state, set_socket_write_bytes_number,
  header_to_recv, header_recvd, msg_recvd, header_to_send, header_sent, msg_sent,
}
use tin_system_do_wspolpracy.Header.{header_size, msg_type_len, parse_from_string}
use tin_system_do_wspolpracy.Message.{Message, get_string_rep, get_message_type}
use tin_system_do_wspolpracy.MsgType
use tin_system_do_wspolpracy.RecvBuffers.{cpy_to_recv_buff, get_string_from_bytes}
use tin_system_do_wspolpracy.Server.State.{
  Server, Received, Sent, M, pure, ◌>>=◌, ◌>>◌, asks, modify, on_clients, on_buffers,
}
use tin_system_do_wspolpracy.Text.{substr, stoi}

-- A result of the standard library, as a step that leaves the state alone.
abbrev pub lift : {A : Type 0} → Outcome A → M A
lift (ok a) s = ok (a, s)
lift (fault e) s = fault e

pub take_send : List Sent → Sent × List Sent
take_send [] = (Sent.blocked, [])
take_send (a ∷ sends) = (a, sends)

pub take_recv : List Received → Received × List Received
take_recv [] = (Received.blocked, [])
take_recv (a ∷ recvs) = (a, recvs)

-- The kernel takes a prefix of the bytes that it is given.
answer_send : ℕ → Bytes → Sent → M ℤ
answer_send sockfd buff Sent.failed = pure minus_two
answer_send sockfd buff Sent.blocked = pure minus_one
answer_send sockfd buff (Sent.accepted k) = do
  modify λ s. record s { sent = s.sent ++ ((sockfd, take k buff) ∷ []) }
  pure (pos k)

unfoldable pub nonblock_send : ℕ → Bytes → M ℤ
unfolding take_send answer_send
nonblock_send sockfd buff = do
  answer ← asks λ s. (take_send s.sends).0
  modify λ s. record s { sends = (take_send s.sends).1 }
  answer_send sockfd buff answer

-- The last `nbytes` bytes of the message. An offset below 0 becomes a huge `size_t`, past the end.
unfoldable pub unsent : Bytes → ℤ → Outcome Bytes
unsent msg_bytes (negsuc n) = fault out_of_range
unsent msg_bytes (pos n) = elim (pos (length msg_bytes) -ℤ pos n) [
  | negsuc k ↦ fault out_of_range
  | pos offset ↦ substr msg_bytes offset n
]

-- A std::string of the GNU library keeps up to this many characters within itself.
abbrev pub inline_capacity : ℕ
inline_capacity = 15

-- What the pointer to the characters of a temporary string reads once the string is gone: a short text
-- still stands where it stood, and the memory of a longer one has been freed.
unfoldable pub dangling : Bytes → Outcome Bytes
dangling text = if leb (length text) inline_capacity then ok text else fault undefined

-- `msg_bytes.substr(offset, nbytes).c_str()`, as `send` reads it.
unfoldable pub send_buff : Message → ℤ → Outcome Bytes
send_buff msg nbytes = elim (unsent (get_string_rep msg) nbytes) [
  | ok text ↦ dangling text
  | fault e ↦ fault e
]

unfoldable pub send_nbytes : ℕ → Message → ℤ → M ℤ
send_nbytes sockfd msg nbytes = do
  buff ← lift (send_buff msg nbytes)
  bytes_sent ← nonblock_send sockfd buff
  if bytes_sent ==ℤ minus_one
      then pure minus_one
      else if ltb_ℤ bytes_sent minus_one
      then pure minus_two
      else pure bytes_sent

-- A whole header is out: the body that it announces is next. A whole body is out: so is the message,
-- and a header may be received.
unfoldable pub after_sent : ℕ → Message → M (Unit {0})
after_sent sockfd msg =
    if get_message_type msg ==ℤ MsgType.header
    then (do
      len_text ← lift (substr (get_string_rep msg) msg_type_len (header_size - msg_type_len))
      to_send_bytes ← lift (stoi len_text)
      on_clients (set_socket_write_state sockfd header_sent)
      on_clients (set_socket_write_bytes_number sockfd to_send_bytes))
    else (do
      on_clients (set_socket_read_state sockfd header_to_recv)
      on_clients (set_socket_read_bytes_number sockfd (pos header_size))
      on_clients (set_socket_write_state sockfd msg_sent)
      on_clients (set_socket_write_bytes_number sockfd (pos 0)))

unfoldable pub send_msg : ℕ → Message → M ℤ
unfolding after_sent
send_msg sockfd msg = do
  to_send ← asks λ s. get_socket_write_bytes_number sockfd s.clients
  res ← send_nbytes sockfd msg to_send
  if res ==ℤ minus_one
      then pure minus_one
      else if res ==ℤ to_send
      then (do after_sent sockfd msg; pure (pos 1))
      else if ltb_ℤ (pos 0) res && ltb_ℤ res to_send
      then (do on_clients (set_socket_write_bytes_number sockfd (to_send -ℤ res)); pure (pos 0))
      else pure res

answer_recv : ℕ → Received → M ℤ
answer_recv sockfd Received.failed = pure minus_three
answer_recv sockfd Received.blocked = pure minus_one
answer_recv sockfd (Received.bytes []) = pure minus_two
answer_recv sockfd (Received.bytes (c ∷ s)) = do
  on_buffers (cpy_to_recv_buff (c ∷ s) (length (c ∷ s)) sockfd)
  pure (pos (length (c ∷ s)))

-- `nonblock_recv` and `recv_nbytes`. A local array of a negative length is undefined.
unfoldable pub recv_nbytes : ℕ → ℤ → M ℤ
unfolding take_recv answer_recv
recv_nbytes sockfd (negsuc n) = lift (fault undefined)
recv_nbytes sockfd (pos n) = do
  answer ← asks λ s. (take_recv s.recvs).0
  modify λ s. record s { recvs = (take_recv s.recvs).1 }
  answer_recv sockfd answer

-- What the buffer of the descriptor holds.
unfoldable pub read_buffer : ℕ → M Bytes
read_buffer sockfd s =
    let (text, buffers) = get_string_from_bytes sockfd s.recv_buffers in
    ok (text, record s { recv_buffers = buffers })

-- A whole header is in: the body that it announces is next. A whole body is in: the server answers.
unfoldable pub after_recvd : ℕ → ℤ → M (Unit {0})
unfolding read_buffer
after_recvd sockfd msg_type =
    if msg_type ==ℤ MsgType.header
    then (do
      text ← read_buffer sockfd
      header ← lift (parse_from_string text)
      on_clients (set_socket_read_state sockfd header_recvd)
      on_clients (set_socket_read_bytes_number sockfd header.msg_len))
    else (do
      on_clients (set_socket_write_state sockfd header_to_send)
      on_clients (set_socket_write_bytes_number sockfd (pos header_size))
      on_clients (set_socket_read_state sockfd msg_recvd)
      on_clients (set_socket_read_bytes_number sockfd (pos 0)))

unfoldable pub recv_msg : ℕ → ℤ → M ℤ
unfolding after_recvd read_buffer
recv_msg sockfd msg_type = do
  to_recv ← asks λ s. get_socket_read_bytes_number sockfd s.clients
  res ← recv_nbytes sockfd to_recv
  if res ==ℤ minus_one
      then pure minus_one
      else if res ==ℤ to_recv
      then (do after_recvd sockfd msg_type; pure (pos 1))
      else if ltb_ℤ (pos 0) res && ltb_ℤ res to_recv
      then (do
        recvd ← read_buffer sockfd
        on_clients (set_socket_read_bytes_number sockfd (to_recv -ℤ res))
        pure (pos 0))
      else pure res
