-- ===== src/Server/Transfer/Keeping.antt =====
-- A transfer changes the progress of its message, the buffers and what the kernel has to answer, and
-- leaves all else alone.
use tin_system_do_wspolpracy.Base.{
  Bytes, Outcome, [], fault, negsuc, ok, pos, refl, undefined, ℕ, ℤ, ◌∷◌,
}
use tin_system_do_wspolpracy.Message.{Message}
use tin_system_do_wspolpracy.ClientsMonitor.{
  set_socket_write_state, set_socket_write_bytes_number, set_socket_read_state,
  set_socket_read_bytes_number,
}
use tin_system_do_wspolpracy.RecvBuffers.{get_string_from_bytes}
use tin_system_do_wspolpracy.Server.State.{Server, Sent, Received, bytes, accepted}
use tin_system_do_wspolpracy.Server.State.Keeping.{
  IsKeeping, keeping, pure-IsKeeping, IsKeeping-after,
}
use tin_system_do_wspolpracy.Server.Transfer.{
  send_msg, send_nbytes, nonblock_send, after_sent, recv_msg, recv_nbytes, after_recvd, read_buffer,
  answer_send, answer_recv, lift,
}

-- The state without what a transfer writes.
abbrev pub beyond : Server → Server
beyond s = record s {
  recv_buffers = record { buffers = [] };
  clients = record s.clients { clients_state = [] };
  recvs = [];
  sends = [];
  sent = [];
}

pub lift-IsKeeping : {X A : Type 0} {f : Server → X} (o : Outcome A) → IsKeeping f (lift o)
lift-IsKeeping (ok a) = pure-IsKeeping a
lift-IsKeeping (fault e) = record { keeps = λ s. tt }

answer_send-IsKeeping :
    (sockfd : ℕ) (buff : Bytes) (a : Sent) → IsKeeping beyond (answer_send sockfd buff a)
unfolding answer_send
answer_send-IsKeeping sockfd buff Sent.failed = pure-IsKeeping _
answer_send-IsKeeping sockfd buff Sent.blocked = pure-IsKeeping _
answer_send-IsKeeping sockfd buff (accepted k) = search (keeping) depth 14

nonblock_send-IsKeeping : (sockfd : ℕ) (buff : Bytes) → IsKeeping beyond (nonblock_send sockfd buff)
unfolding nonblock_send
nonblock_send-IsKeeping sockfd buff = search (keeping, answer_send-IsKeeping) depth 14

send_nbytes-IsKeeping :
    (sockfd : ℕ) (msg : Message) (n : ℤ) → IsKeeping beyond (send_nbytes sockfd msg n)
unfolding send_nbytes
send_nbytes-IsKeeping sockfd msg n =
    search (keeping, lift-IsKeeping, nonblock_send-IsKeeping) depth 14

after_sent-IsKeeping : (sockfd : ℕ) (msg : Message) → IsKeeping beyond (after_sent sockfd msg)
unfolding after_sent set_socket_write_state set_socket_write_bytes_number set_socket_read_state
    set_socket_read_bytes_number
after_sent-IsKeeping sockfd msg = search (keeping, lift-IsKeeping) depth 14

send_msg-beyond : (sockfd : ℕ) (msg : Message) → IsKeeping beyond (send_msg sockfd msg)
unfolding send_msg set_socket_write_bytes_number
send_msg-beyond sockfd msg = search (keeping, send_nbytes-IsKeeping, after_sent-IsKeeping) depth 14

answer_recv-IsKeeping : (sockfd : ℕ) (a : Received) → IsKeeping beyond (answer_recv sockfd a)
unfolding answer_recv
answer_recv-IsKeeping sockfd Received.failed = pure-IsKeeping _
answer_recv-IsKeeping sockfd Received.blocked = pure-IsKeeping _
answer_recv-IsKeeping sockfd (bytes []) = pure-IsKeeping _
answer_recv-IsKeeping sockfd (bytes (c ∷ b)) = search (keeping) depth 14

recv_nbytes-IsKeeping : (sockfd : ℕ) (n : ℤ) → IsKeeping beyond (recv_nbytes sockfd n)
unfolding recv_nbytes
recv_nbytes-IsKeeping sockfd (negsuc n) = lift-IsKeeping (fault undefined)
recv_nbytes-IsKeeping sockfd (pos n) = search (keeping, answer_recv-IsKeeping) depth 14

read_buffer-beyond : (sockfd : ℕ) → IsKeeping beyond (read_buffer sockfd)
unfolding read_buffer get_string_from_bytes
read_buffer-beyond sockfd = record { keeps = λ s. refl }

after_recvd-IsKeeping : (sockfd : ℕ) (msg_type : ℤ) → IsKeeping beyond (after_recvd sockfd msg_type)
unfolding after_recvd set_socket_write_state set_socket_write_bytes_number set_socket_read_state
    set_socket_read_bytes_number
after_recvd-IsKeeping sockfd msg_type =
    search (keeping, lift-IsKeeping, read_buffer-beyond) depth 14

recv_msg-beyond : (sockfd : ℕ) (msg_type : ℤ) → IsKeeping beyond (recv_msg sockfd msg_type)
unfolding recv_msg set_socket_read_bytes_number
recv_msg-beyond sockfd msg_type =
    search (keeping, recv_nbytes-IsKeeping, read_buffer-beyond, after_recvd-IsKeeping) depth 14

-- What a reading of the state without these parts says.
module _ {X : Type 0} (g : Server → X) where
  pub send_msg-IsKeeping :
      (sockfd : ℕ) (msg : Message) → IsKeeping (λ s. g (beyond s)) (send_msg sockfd msg)
  send_msg-IsKeeping sockfd msg = IsKeeping-after g (send_msg-beyond sockfd msg)

  pub recv_msg-IsKeeping :
      (sockfd : ℕ) (msg_type : ℤ) → IsKeeping (λ s. g (beyond s)) (recv_msg sockfd msg_type)
  recv_msg-IsKeeping sockfd msg_type = IsKeeping-after g (recv_msg-beyond sockfd msg_type)

  pub read_buffer-IsKeeping : (sockfd : ℕ) → IsKeeping (λ s. g (beyond s)) (read_buffer sockfd)
  read_buffer-IsKeeping sockfd = IsKeeping-after g (read_buffer-beyond sockfd)
