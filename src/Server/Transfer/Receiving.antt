-- ===== src/Server/Transfer/Receiving.antt =====
-- `recv_msg` on every answer of the kernel.
use tin_system_do_wspolpracy.Base.{
  Bool-cases, Bytes, List, Outcome, [], arith, if◌then◌else◌, inl, inr, length, minus_one,
  minus_three, minus_two, ok, pos, refl, ℕ, ℤ, ◌-◌, ◌<◌, ◌==◌, ◌∷◌, ◌≡◌, ◌≤◌,
}
use tin_system_do_wspolpracy.ClientsMonitor.{
  get_socket_read_bytes_number, set_socket_read_bytes_number,
}
use tin_system_do_wspolpracy.RecvBuffers.{cpy_to_recv_buff, get_string_from_bytes}
use tin_system_do_wspolpracy.Server.State.{◌>>=◌, ◌>>◌, pure, Server, Received, bytes}
use tin_system_do_wspolpracy.Server.Transfer.{recv_nbytes, recv_msg, after_recvd}

-- The state when bytes have come in.
abbrev pub arrived : ℕ → Bytes → List Received → Server → Server
arrived sockfd text rest s = record s {
  recv_buffers = cpy_to_recv_buff text (length text) sockfd s.recv_buffers;
  recvs = rest;
}

recv_nbytes_bytes :
    (sockfd n c : ℕ) (text : Bytes) (s : Server) (rest : List Received)
    → s.recvs ≡ bytes (c ∷ text) ∷ rest
    → recv_nbytes sockfd (pos n) s ≡ ok (pos (length (c ∷ text)), arrived sockfd (c ∷ text) rest s)
unfolding recv_nbytes
recv_nbytes_bytes sockfd n c text s rest e = rw e refl

pub recv_msg-partial :
    (sockfd : ℕ) (msg_type : ℤ) (n c : ℕ) (text : Bytes) (s : Server) (rest : List Received)
    → get_socket_read_bytes_number sockfd s.clients ≡ pos n
    → length (c ∷ text) < n
    → s.recvs ≡ bytes (c ∷ text) ∷ rest
    → recv_msg sockfd msg_type s
      ≡ ok (
        pos 0,
        record (arrived sockfd (c ∷ text) rest s) {
          recv_buffers =
              (get_string_from_bytes sockfd (arrived sockfd (c ∷ text) rest s).recv_buffers).1;
          clients = set_socket_read_bytes_number sockfd (pos (n - length (c ∷ text))) s.clients;
        },
      )
unfolding recv_msg
recv_msg-partial sockfd msg_type n c text s rest rb part e =
    rw (rb, recv_msg) (rw (recv_nbytes_bytes sockfd n c text s rest e, ◌>>=◌) (ground arith))

pub recv_msg-whole :
    (sockfd : ℕ) (msg_type : ℤ) (n c : ℕ) (text : Bytes) (s : Server) (rest : List Received)
    → get_socket_read_bytes_number sockfd s.clients ≡ pos n
    → length (c ∷ text) ≡ n
    → s.recvs ≡ bytes (c ∷ text) ∷ rest
    → recv_msg sockfd msg_type s
      ≡ (after_recvd sockfd msg_type >> pure (pos 1)) (arrived sockfd (c ∷ text) rest s)
unfolding recv_msg
recv_msg-whole sockfd msg_type n c text s rest rb all e =
    rw (rb, recv_msg) (rw (recv_nbytes_bytes sockfd n c text s rest e, ◌>>=◌) (ground arith))

-- The kernel hands over no more bytes than it is asked for.
abbrev pub IsReceived : ℕ → Received → Type 0
IsReceived n (bytes text) = length text ≤ n
IsReceived n Received.blocked = Unit {0}
IsReceived n Received.failed = Unit {0}

-- What a call with `n` bytes to receive comes to: 1 and the next state of the descriptor when all are
-- in, 0 and the bytes still missing when a part is, both with the bytes behind those in the buffer;
-- -1 when the call would block, -2 when the connection is closed and -3 when it failed, and then
-- nothing else changes.
abbrev pub reply : ℕ → ℤ → ℕ → List Received → Server → Received → Outcome (ℤ × Server)
reply sockfd msg_type n rest s (bytes []) = ok (minus_two, record s { recvs = rest })
reply sockfd msg_type n rest s (bytes (c ∷ text)) =
    let received = arrived sockfd (c ∷ text) rest s in
    if length (c ∷ text) == n
    then (after_recvd sockfd msg_type >> pure (pos 1)) received
    else ok (
      pos 0,
      record received {
        recv_buffers = (get_string_from_bytes sockfd received.recv_buffers).1;
        clients = set_socket_read_bytes_number sockfd (pos (n - length (c ∷ text))) s.clients;
      },
    )
reply sockfd msg_type n rest s Received.blocked = ok (minus_one, record s { recvs = rest })
reply sockfd msg_type n rest s Received.failed = ok (minus_three, record s { recvs = rest })

-- One call of `recv_msg`, on every answer of the kernel: the result and the state that `reply` names.
pub recv_msg-reply :
    (sockfd : ℕ) (msg_type : ℤ) (n : ℕ) (answer : Received) (s : Server) (rest : List Received)
    → get_socket_read_bytes_number sockfd s.clients ≡ pos n
    → IsReceived n answer
    → s.recvs ≡ answer ∷ rest
    → recv_msg sockfd msg_type s ≡ reply sockfd msg_type n rest s answer
unfolding recv_msg recv_nbytes
recv_msg-reply sockfd msg_type n (bytes []) s rest rb most e = rw (rb, recv_msg) (rw e refl)
recv_msg-reply sockfd msg_type n (bytes (c ∷ text)) s rest rb most e =
    elim (Bool-cases (length (c ∷ text) == n)) [
      | inl all ↦ rw all (recv_msg-whole sockfd msg_type n c text s rest rb (ground arith) e)
      | inr part ↦ rw part (recv_msg-partial sockfd msg_type n c text s rest rb (ground arith) e)
    ]
recv_msg-reply sockfd msg_type n Received.blocked s rest rb most e = rw (rb, recv_msg) (rw e refl)
recv_msg-reply sockfd msg_type n Received.failed s rest rb most e = rw (rb, recv_msg) (rw e refl)
