-- ===== src/Server/Transfer/Progress.antt =====
-- What one call of `send_msg` or `recv_msg` uses up of the kernel's answers, whatever they are.
use tin_system_do_wspolpracy.Base.{
  arith, false, inl, inr, ltb_ℤ, minus_one, pos, refl, subst, sym, true, ℕ, ℤ, ◌&&◌, ◌-ℤ◌, ◌-◌, ◌<◌,
  ◌==ℤ◌, ◌≡◌, ◌⊎◌,
}
use tin_system_do_wspolpracy.ClientsMonitor.Phases.{
  write_state_of_write_bytes, write_state_of_read_bytes, write_state_of_read_state,
  read_state_of_read_bytes, write_state_of_header_out, read_state_of_header_in,
}
use tin_system_do_wspolpracy.ClientsMonitor.{
  get_socket_write_state, get_socket_write_bytes_number, get_socket_read_bytes_number, login_ended,
  get_socket_read_state, msg_sent, header_recvd, header_to_recv, set_socket_read_state,
  set_socket_read_bytes_number, header_sent, header_to_send,
}
use tin_system_do_wspolpracy.Header.{Header, msg_type_len, header_size, parse_from_string}
use tin_system_do_wspolpracy.Text.{substr, stoi}
use tin_system_do_wspolpracy.Message.{Message, get_string_rep, get_message_type}
use tin_system_do_wspolpracy.MsgType
use tin_system_do_wspolpracy.Server.State.{Server, pure}
use tin_system_do_wspolpracy.Server.State.Ensures.{Ensures, Ensures-bind, Ensures-if}
use tin_system_do_wspolpracy.Server.Transfer.{
  send_msg, send_nbytes, after_sent, recv_msg, recv_nbytes, after_recvd, read_buffer,
  get_string_from_bytes,
}
use tin_system_do_wspolpracy.Server.Transfer.Spent.{
  left, IsSpent, Ensures-lift, send_nbytes-IsSpent, recv_nbytes-IsSpent,
}

-- The server has written its message, the login has not ended, and a header is in this state.
abbrev pub IsAwaiting : ℕ → ℤ → Server → Type 0
IsAwaiting sockfd state s =
    (get_socket_write_state sockfd s.clients ≡ msg_sent)
    × (login_ended sockfd s.clients ≡ false)
    × (get_socket_read_state sockfd s.clients ≡ state)

-- A call with a header, when one is to be sent, failed or would block, or the whole header is out, or
-- one is still to be sent and an answer was used up.
abbrev pub HeaderOut : ℕ → Server → ℤ → Server → Type 0
HeaderOut sockfd s r s' =
    (ltb_ℤ r (pos 0) ≡ true)
    ⊎ ((get_socket_write_state sockfd s'.clients ≡ header_sent)
        ⊎ ((get_socket_write_state sockfd s'.clients ≡ header_to_send) × (left s' < left s)))

after_sent-header :
    (sockfd : ℕ) (h : Header) (s : Server)
    → Ensures
        (λ _ s'. get_socket_write_state sockfd s'.clients ≡ header_sent)
        (after_sent sockfd (Message.header h) s)
unfolding after_sent get_message_type
after_sent-header sockfd h s =
    let P : Unit {0} → Server → Type 0 =
      λ _ s'. get_socket_write_state sockfd s'.clients ≡ header_sent in
    Ensures-lift P
      (substr (get_string_rep (Message.header h)) msg_type_len (header_size - msg_type_len)) _ s
      λ text. Ensures-lift P (stoi text) _ s λ n. write_state_of_header_out sockfd n s.clients

pub send_msg-HeaderOut :
    (sockfd : ℕ) (h : Header) (s : Server)
    → get_socket_write_state sockfd s.clients ≡ header_to_send
    → Ensures (HeaderOut sockfd s) (send_msg sockfd (Message.header h) s)
unfolding send_msg
send_msg-HeaderOut sockfd h s ready =
    let to_send = get_socket_write_bytes_number sockfd s.clients in
    let P = HeaderOut sockfd s in
    Ensures-bind (IsSpent s) P (send_nbytes sockfd (Message.header h) to_send) _ s
      (send_nbytes-IsSpent sockfd (Message.header h) to_send s)
      λ r s' spent.
        let still =
          subst (λ c. get_socket_write_state sockfd c ≡ header_to_send) (sym spent.0) ready in
        Ensures-if P (r ==ℤ minus_one) (pure minus_one) _ s' (λ _. inl refl)
          λ _.
            Ensures-if P (r ==ℤ to_send) _ _ s'
              (λ _.
                Ensures-bind _ P (after_sent sockfd (Message.header h)) _ s'
                  (after_sent-header sockfd h s') λ _ s'' out. inr (inl out))
              λ _.
                Ensures-if P (ltb_ℤ (pos 0) r && ltb_ℤ r to_send) _ (pure r) s'
                  (λ part. elim spent.1 [
                    | inl failed ↦ absurd (ground arith)
                    | inr less ↦
                        inr (inr (write_state_of_write_bytes sockfd 0 _ s'.clients still, less))
                  ])
                  λ _. elim spent.1 [ inl failed ↦ inl failed | inr less ↦ inr (inr (still, less)) ]

-- A call for a header, when one is to be received: the same, and the server writes nothing.
abbrev pub HeaderIn : ℕ → Server → ℤ → Server → Type 0
HeaderIn sockfd s r s' =
    (ltb_ℤ r (pos 0) ≡ true)
    ⊎ (IsAwaiting sockfd header_recvd s'
        ⊎ (IsAwaiting sockfd header_to_recv s' × (left s' < left s)))

IsAwaiting-clients :
    (sockfd : ℕ) (state : ℤ) (s s' : Server)
    → s'.clients ≡ s.clients
    → IsAwaiting sockfd state s
    → IsAwaiting sockfd state s'
IsAwaiting-clients sockfd state s s' e h = rw e h

-- A part of the header is in.
read_bytes_set-IsAwaiting :
    (sockfd : ℕ) (v : ℤ) (s : Server)
    → IsAwaiting sockfd header_to_recv s
    → IsAwaiting sockfd header_to_recv (record s {
      recv_buffers = (get_string_from_bytes sockfd s.recv_buffers).1;
      clients = set_socket_read_bytes_number sockfd v s.clients;
    })
unfolding login_ended set_socket_read_bytes_number
read_bytes_set-IsAwaiting sockfd v s h = (
  write_state_of_read_bytes sockfd 2 v s.clients h.0,
  h.1,
  read_state_of_read_bytes sockfd 0 v s.clients h.2,
)

after_recvd-header :
    (sockfd : ℕ) (s : Server)
    → IsAwaiting sockfd header_to_recv s
    → Ensures (λ _ s'. IsAwaiting sockfd header_recvd s') (after_recvd sockfd MsgType.header s)
unfolding after_recvd read_buffer login_ended set_socket_read_state set_socket_read_bytes_number
after_recvd-header sockfd s awaits =
    let P : Unit {0} → Server → Type 0 = λ _ s'. IsAwaiting sockfd header_recvd s' in
    let (text, buffers) = get_string_from_bytes sockfd s.recv_buffers in
    let s' = record s { recv_buffers = buffers } in
    Ensures-lift P (parse_from_string text) _ s' λ h. (
      write_state_of_read_bytes sockfd 2 h.msg_len _
          (write_state_of_read_state sockfd 2 header_recvd s.clients awaits.0),
      awaits.1,
      read_state_of_header_in sockfd h.msg_len s.clients,
    )

pub recv_msg-HeaderIn :
    (sockfd : ℕ) (s : Server)
    → IsAwaiting sockfd header_to_recv s
    → Ensures (HeaderIn sockfd s) (recv_msg sockfd MsgType.header s)
unfolding recv_msg read_buffer
recv_msg-HeaderIn sockfd s awaits =
    let to_recv = get_socket_read_bytes_number sockfd s.clients in
    let P = HeaderIn sockfd s in
    Ensures-bind (IsSpent s) P (recv_nbytes sockfd to_recv) _ s
      (recv_nbytes-IsSpent sockfd to_recv s)
      λ r s' spent.
        let still = IsAwaiting-clients sockfd header_to_recv s s' spent.0 awaits in
        Ensures-if P (r ==ℤ minus_one) (pure minus_one) _ s' (λ _. inl refl)
          λ _.
            Ensures-if P (r ==ℤ to_recv) _ _ s'
              (λ _.
                Ensures-bind _ P (after_recvd sockfd MsgType.header) _ s'
                  (after_recvd-header sockfd s' still) λ _ s'' recvd. inr (inl recvd))
              λ _.
                Ensures-if P (ltb_ℤ (pos 0) r && ltb_ℤ r to_recv) _ (pure r) s'
                  (λ part. elim spent.1 [
                    | inl failed ↦ absurd (ground arith)
                    | inr less ↦
                        inr (inr (read_bytes_set-IsAwaiting sockfd (to_recv -ℤ r) s' still, less))
                  ])
                  λ _. elim spent.1 [ inl failed ↦ inl failed | inr less ↦ inr (inr (still, less)) ]
