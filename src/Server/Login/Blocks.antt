-- ===== src/Server/Login/Blocks.antt =====
-- The blocks of `client_login` when the loop is to go on.
use tin_system_do_wspolpracy.Base.{
  Bool, arith, false, if◌then◌else◌, inl, inr, ltb_ℤ, minus_one, not, pos, refl, true, ℕ, ℤ, ◌&&◌,
  ◌<◌, ◌==ℤ◌, ◌≡◌, ◌⊎◌,
}
use tin_system_do_wspolpracy.ClientsMonitor.{
  LoginState, get_socket_read_state, get_socket_write_state, login_ended, update_logged,
  header_to_recv, header_recvd, header_to_send, header_sent, msg_sent,
}
use tin_system_do_wspolpracy.Header.{Header}
use tin_system_do_wspolpracy.Message.{header, statement, client_id}
use tin_system_do_wspolpracy.MsgType
use tin_system_do_wspolpracy.Server.State.{Server, on_clients, pure}
use tin_system_do_wspolpracy.Server.State.Ensures.{Ensures, Ensures-bind, Ensures-if, Ensures-after}
use tin_system_do_wspolpracy.Server.Transfer.{send_msg, recv_msg, read_buffer}
use tin_system_do_wspolpracy.Server.Transfer.Spent.{left}
use tin_system_do_wspolpracy.Server.Transfer.Progress.{
  IsAwaiting, HeaderOut, HeaderIn, send_msg-HeaderOut, recv_msg-HeaderIn,
}
use tin_system_do_wspolpracy.Server.Login.{
  Flow, going, returned, send_header, send_body, recv_header, recv_login, check, settle,
}

-- The login is on its way: the server has a header to send, or has sent it, or waits for the client.
abbrev pub IsConversing : ℕ → Server → Type 0
IsConversing sockfd s =
    (get_socket_write_state sockfd s.clients ≡ header_to_send)
    ⊎ ((get_socket_write_state sockfd s.clients ≡ header_sent)
        ⊎ (IsAwaiting sockfd header_to_recv s ⊎ IsAwaiting sockfd header_recvd s))

-- What holds when the loop is to go on.
abbrev pub Still : (Server → Type 0) → Flow → Server → Type 0
Still P (going res true) s' = Unit {0}
Still P (going res false) s' = P s'
Still P (returned res) s' = Unit {0}

-- A header is still to be sent, after an answer was used up.
abbrev pub Resends : ℕ → Server → Server → Type 0
Resends sockfd s s' =
    (get_socket_write_state sockfd s'.clients ≡ header_to_send) × (left s' < left s)

abbrev pub Waits : ℕ → Server → Type 0
Waits sockfd s = IsAwaiting sockfd header_to_recv s ⊎ IsAwaiting sockfd header_recvd s

abbrev pub AfterHeader : ℕ → Server → Server → Type 0
AfterHeader sockfd s s' =
    (get_socket_write_state sockfd s'.clients ≡ header_sent)
    ⊎ (Resends sockfd s s' ⊎ (Waits sockfd s' × (left s' ≡ left s)))

abbrev pub AfterBody : ℕ → Server → Server → Type 0
AfterBody sockfd s s' = Resends sockfd s s' ⊎ (Waits sockfd s' × (left s' ≡ left s))

abbrev pub AfterRecvd : ℕ → Server → Server → Type 0
AfterRecvd sockfd s s' =
    Resends sockfd s s'
    ⊎ (IsAwaiting sockfd header_recvd s'
        ⊎ (IsAwaiting sockfd header_to_recv s' × (left s' < left s)))

abbrev pub AfterRound : ℕ → Server → Server → Type 0
AfterRound sockfd s s' = IsConversing sockfd s' × (left s' < left s)

pub send_header-AfterHeader :
    (sockfd : ℕ) (ls : LoginState) (res : ℤ) (s : Server)
    → IsConversing sockfd s
    → Ensures (Still (AfterHeader sockfd s)) (send_header sockfd ls res s)
unfolding send_header
send_header-AfterHeader sockfd ls res s c =
    let P = Still (AfterHeader sockfd s) in
    let state = get_socket_write_state sockfd s.clients in
    let h : Header = record { msg_type = ls.msg_type; msg_len = ls.msg_len } in
    Ensures-if P (state ==ℤ header_to_send) _ (pure (going res false)) s
      (λ e.
        Ensures-bind (HeaderOut sockfd s) P (send_msg sockfd (header h)) _ s
          (send_msg-HeaderOut sockfd h s (ground (arith, e)))
          λ r s' out.
            Ensures-if P (r ==ℤ minus_one) (pure (going r true)) _ s' (λ _. tt)
              λ other.
                Ensures-if P (ltb_ℤ r minus_one) (pure (returned r)) (pure (going r false)) s'
                  (λ _. tt)
                  λ above. elim out [
                    | inl failed ↦ absurd (ground arith)
                    | inr (inl sent) ↦ inl sent
                    | inr (inr more) ↦ inr (inl more)
                  ])
      λ e. elim c [
        | inl ready ↦ absurd (ground arith)
        | inr (inl sent) ↦ inl sent
        | inr (inr waits) ↦ inr (inr (waits, refl))
      ]

pub send_body-AfterBody :
    (sockfd : ℕ) (ls : LoginState) (res : ℤ) (s s' : Server)
    → AfterHeader sockfd s s'
    → Ensures (Still (AfterBody sockfd s)) (send_body sockfd ls res false s')
unfolding send_body
send_body-AfterBody sockfd ls res s s' c =
    let P = Still (AfterBody sockfd s) in
    let state = get_socket_write_state sockfd s'.clients in
    Ensures-if P (state ==ℤ header_sent && not false) _ (pure (going res false)) s'
      (λ _.
        Ensures-after P
          (if ls.msg_type ==ℤ MsgType.statement
            then send_msg sockfd (statement ls.info)
            else if ls.msg_type ==ℤ MsgType.client_id
            then send_msg sockfd (client_id (pos sockfd))
            else pure res)
          _ s'
          λ r s''.
            Ensures-if P (r ==ℤ minus_one) (pure (going r true)) _ s'' (λ _. tt)
              λ _.
                Ensures-if P (r ==ℤ pos 1) _ (pure (returned r)) s''
                  (λ _.
                    Ensures-after P
                      (if ls.msg_type ==ℤ MsgType.client_id
                        then on_clients (update_logged sockfd)
                        else pure tt)
                      (λ _. pure (going r true)) s'' λ _ _. tt)
                  λ _. tt)
      λ e. elim c [ inl sent ↦ absurd (ground arith) | inr rest ↦ rest ]

pub recv_header-AfterRecvd :
    (sockfd : ℕ) (res : ℤ) (s s' : Server)
    → AfterBody sockfd s s'
    → Ensures (Still (AfterRecvd sockfd s)) (recv_header sockfd res false s')
unfolding recv_header
recv_header-AfterRecvd sockfd res s s' (inl again) =
    let P = Still (AfterRecvd sockfd s) in
    let cm = s'.clients in
    Ensures-if P
      (get_socket_read_state sockfd cm ==ℤ header_to_recv
        && get_socket_write_state sockfd cm ==ℤ msg_sent
        && not (login_ended sockfd cm)
        && not false)
      _ (pure (going res false)) s' (λ e. absurd (ground arith)) λ e. inl again
recv_header-AfterRecvd sockfd res s s' (inr (waits, same)) =
    let P = Still (AfterRecvd sockfd s) in
    let cm = s'.clients in
    Ensures-if P
      (get_socket_read_state sockfd cm ==ℤ header_to_recv
        && get_socket_write_state sockfd cm ==ℤ msg_sent
        && not (login_ended sockfd cm)
        && not false)
      _ (pure (going res false)) s'
      (λ e. elim waits [
        | inr recvd ↦ absurd (ground arith)
        | inl awaits ↦
            Ensures-bind (HeaderIn sockfd s') P (recv_msg sockfd MsgType.header) _ s'
              (recv_msg-HeaderIn sockfd s' awaits)
              λ r s'' came.
                Ensures-if P (r ==ℤ minus_one) (pure (going r true)) _ s'' (λ _. tt)
                  λ _.
                    Ensures-if P (r ==ℤ pos 1) _ (pure (returned r)) s''
                      (λ one. elim came [
                        | inl failed ↦ absurd (ground arith)
                        | inr (inl recvd) ↦ inr (inl recvd)
                        | inr (inr (again, less)) ↦ inr (inr (again, omega arith))
                      ])
                      λ _. tt
      ])
      λ e. elim waits [ inl awaits ↦ absurd (ground arith) | inr recvd ↦ inr (inl recvd) ]

-- The block for the login goes on to another round only past its test.
pub recv_login_tested :
    (P : Server → Type 0) (sockfd : ℕ) (res : ℤ) (switch_client : Bool) (s : Server)
    → ((get_socket_read_state sockfd s.clients ==ℤ header_recvd
            && get_socket_write_state sockfd s.clients ==ℤ msg_sent
            && not (login_ended sockfd s.clients))
          ≡ false
        → Still P (going res switch_client) s)
    → Ensures (Still P) (recv_login sockfd res switch_client s)
unfolding recv_login
recv_login_tested P sockfd res switch_client s h =
    let cm = s.clients in
    Ensures-if (Still P)
      (get_socket_read_state sockfd cm ==ℤ header_recvd
        && get_socket_write_state sockfd cm ==ℤ msg_sent
        && not (login_ended sockfd cm))
      _ (pure (going res switch_client)) s
      (λ _. Ensures-after (Still P) (recv_msg sockfd MsgType.login) _ s λ r s'.
        Ensures-if (Still P) (r ==ℤ minus_one) (pure (going r true)) _ s' (λ _. tt)
          λ _.
            Ensures-if (Still P) (r ==ℤ pos 1) _ (pure (returned r)) s'
              (λ _. Ensures-after (Still P) (read_buffer sockfd) _ s' λ text a.
                Ensures-after (Still P) (check text) _ a
                  λ result b. Ensures-after (Still P) (settle sockfd result) _ b λ _ c. tt)
              λ _. tt)
      h

pub recv_login-AfterRound :
    (sockfd : ℕ) (res : ℤ) (s s' : Server)
    → AfterRecvd sockfd s s'
    → Ensures (Still (AfterRound sockfd s)) (recv_login sockfd res false s')
recv_login-AfterRound sockfd res s s' c =
    recv_login_tested (AfterRound sockfd s) sockfd res false s' λ e. elim c [
      | inl (ready, less) ↦ (inl ready, less)
      | inr (inl recvd) ↦ absurd (ground arith)
      | inr (inr (awaits, less)) ↦ (inr (inr (inl awaits)), less)
    ]

-- After a block that switches to another client, the blocks behind it do not go on.
module _ (P : Server → Type 0) (sockfd : ℕ) (res : ℤ) (s : Server) where
  pub send_body_switched : (ls : LoginState) → Ensures (Still P) (send_body sockfd ls res true s)
  unfolding send_body
  send_body_switched ls =
      Ensures-if (Still P) (get_socket_write_state sockfd s.clients ==ℤ header_sent && not true) _
        (pure (going res true)) s (λ e. absurd (ground arith)) λ _. tt

  pub recv_header_switched : Ensures (Still P) (recv_header sockfd res true s)
  unfolding recv_header
  recv_header_switched =
      let cm = s.clients in
      Ensures-if (Still P)
        (get_socket_read_state sockfd cm ==ℤ header_to_recv
          && get_socket_write_state sockfd cm ==ℤ msg_sent
          && not (login_ended sockfd cm)
          && not true)
        _ (pure (going res true)) s (λ e. absurd (ground arith)) λ _. tt
