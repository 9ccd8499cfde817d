-- ===== src/Server/Login.antt =====
-- `client_login`: the server asks for a login, receives it, and answers with the client's id or with a
-- rejection, for as long as the kernel lets it.
pub mod Blocks
pub mod Rounds
pub mod Keeping
pub mod Ending
pub mod Accepting
pub mod Standing
pub mod Vetting
pub mod Vouching
pub mod Admitting
pub mod Entering
use tin_system_do_wspolpracy.Base.{
  Bool, Bytes, false, fault, if◌then◌else◌, ltb_ℤ, minus_one, not, ok, out_of_fuel, pos, suc, true,
  zero, ℕ, ℤ, ◌&&◌, ◌==ℤ◌,
}
use tin_system_do_wspolpracy.ClientsMonitor.{
  LoginState, get_login_state, get_socket_read_state, get_socket_write_state, login_ended,
  update_logged, is_rejected, remove_rejected, add_logged_client, add_rejected_login,
  header_to_recv, header_recvd, header_to_send, header_sent, msg_sent,
}
use tin_system_do_wspolpracy.LoginHandler.{check_login, correct}
use tin_system_do_wspolpracy.Message.{header, statement, client_id}
use tin_system_do_wspolpracy.MsgType
use tin_system_do_wspolpracy.Networking.{add_client}
use tin_system_do_wspolpracy.RecvBuffers.{clear_buff}
use tin_system_do_wspolpracy.Server.State.{
  M, pure, ◌>>=◌, ◌>>◌, asks, on_clients, on_networking, on_buffers,
}
use tin_system_do_wspolpracy.Server.Transfer.{send_msg, recv_msg, read_buffer}

-- How the body of the loop goes on: with `res` and `switch_client`, or by a `return`.
pub data Flow : Type 0 where
  going : ℤ → Bool → Flow
  returned : ℤ → Flow

-- The header, or what is left of it.
unfoldable pub send_header : ℕ → LoginState → ℤ → M Flow
send_header sockfd ls res = do
  state ← asks λ s. get_socket_write_state sockfd s.clients
  if state ==ℤ header_to_send
      then (do
        res' ← send_msg sockfd (header (record { msg_type = ls.msg_type; msg_len = ls.msg_len }))
        if res' ==ℤ minus_one
            then pure (going res' true)
            else if ltb_ℤ res' minus_one
            then pure (returned res')
            else pure (going res' false))
      else pure (going res false)

-- The body; with neither type `res` keeps what it held.
unfoldable pub send_body : ℕ → LoginState → ℤ → Bool → M Flow
send_body sockfd ls res switch_client = do
  state ← asks λ s. get_socket_write_state sockfd s.clients
  if state ==ℤ header_sent && not switch_client
      then (do
        res' ←
            if ls.msg_type ==ℤ MsgType.statement
            then send_msg sockfd (statement ls.info)
            else if ls.msg_type ==ℤ MsgType.client_id
            then send_msg sockfd (client_id (pos sockfd))
            else pure res
        if res' ==ℤ minus_one
            then pure (going res' true)
            else if res' ==ℤ pos 1
            then (do
              if ls.msg_type ==ℤ MsgType.client_id
                  then on_clients (update_logged sockfd)
                  else pure tt
              pure (going res' true))
            else pure (returned res'))
      else pure (going res switch_client)

unfoldable pub recv_header : ℕ → ℤ → Bool → M Flow
recv_header sockfd res switch_client = do
  cm ← asks λ s. s.clients
  if get_socket_read_state sockfd cm ==ℤ header_to_recv
        && get_socket_write_state sockfd cm ==ℤ msg_sent
        && not (login_ended sockfd cm)
        && not switch_client
      then (do
        res' ← recv_msg sockfd MsgType.header
        if res' ==ℤ minus_one
            then pure (going res' true)
            else if res' ==ℤ pos 1
            then (do on_buffers (clear_buff sockfd); pure (going res' false))
            else pure (returned res'))
      else pure (going res switch_client)

-- `check_login`, with the handler and the files that it changes.
pub check : Bytes → M ℤ
check text s = elim (check_login text s.login_handler s.files) [
  | fault e ↦ fault e
  | ok (result, handler, files) ↦ ok (result, record s { login_handler = handler; files = files })
]

-- The monitor and the network state after a login was accepted or not.
pub settle : ℕ → ℤ → M (Unit {0})
settle sockfd login_result =
    if login_result ==ℤ correct
    then (do
      on_clients λ cm. if is_rejected sockfd cm then remove_rejected sockfd cm else cm
      on_clients (add_logged_client sockfd)
      on_networking (add_client sockfd))
    else on_clients (add_rejected_login sockfd)

-- This block does not ask for `switch_client`.
unfoldable pub recv_login : ℕ → ℤ → Bool → M Flow
unfolding check settle
recv_login sockfd res switch_client = do
  cm ← asks λ s. s.clients
  if get_socket_read_state sockfd cm ==ℤ header_recvd
        && get_socket_write_state sockfd cm ==ℤ msg_sent
        && not (login_ended sockfd cm)
      then (do
        res' ← recv_msg sockfd MsgType.login
        if res' ==ℤ minus_one
            then pure (going res' true)
            else if res' ==ℤ pos 1
            then (do
              text ← read_buffer sockfd
              login_result ← check text
              settle sockfd login_result
              on_buffers (clear_buff sockfd)
              pure (going res' true))
            else pure (returned res'))
      else pure (going res switch_client)

-- A block runs unless one before it returned.
abbrev then_block : Flow → (ℤ → Bool → M Flow) → M Flow
then_block (going res switch_client) block = block res switch_client
then_block (returned res) block = pure (returned res)

-- One round of the loop.
unfoldable pub login_round : ℕ → ℤ → M Flow
login_round sockfd res = do
  ls ← asks λ s. get_login_state sockfd s.clients
  sent_header ← send_header sockfd ls res
  sent_body ← then_block sent_header (send_body sockfd ls)
  recvd_header ← then_block sent_body (recv_header sockfd)
  then_block recvd_header (recv_login sockfd)

abbrev pub login_successful : ℤ
login_successful = pos 0

abbrev pub login_result : ℕ → M ℤ
login_result sockfd = asks λ s. if login_ended sockfd s.clients then login_successful else minus_one

-- The loop, a round of fuel for each pass.
unfoldable pub client_login : ℕ → ℕ → ℤ → M ℤ
client_login zero sockfd res s = fault out_of_fuel
client_login (suc fuel) sockfd res s = elim (login_round sockfd res s) [
  | fault e ↦ fault e
  | ok (returned res', s') ↦ ok (res', s')
  | ok (going res' true, s') ↦ login_result sockfd s'
  | ok (going res' false, s') ↦ client_login fuel sockfd res' s'
]
