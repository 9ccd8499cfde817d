-- ===== src/Server/Outbound.antt =====
-- `handle_existing_outbound_connection`: what a writable descriptor is owed is sent.
pub mod Keeping
pub mod Delivering
pub mod Spinning
pub mod Blocks
pub mod Ending
use tin_system_do_wspolpracy.Base.{
  Bool, Bytes, false, fault, if◌then◌else◌, length, ltb_ℤ, minus_one, not, ok, out_of_fuel, pos,
  suc, true, zero, ℕ, ℤ, ◌==ℤ◌, ◌||◌,
}
use tin_system_do_wspolpracy.ClientsMonitor.{login_ended}
use tin_system_do_wspolpracy.Message.{header, edit}
use tin_system_do_wspolpracy.MsgType
use tin_system_do_wspolpracy.Networking.{
  to_send_header, to_send_msg, get_msg_type, get_msg_len, set_msg_len, get_first_obs_len,
  remove_sent,
}
use tin_system_do_wspolpracy.NotepadHandler.{
  is_to_fetch_changes, get_notepad_current_size, get_file_as_str, get_changes, get_stored_changes,
  edit_contents, remove_sent_changes,
}
use tin_system_do_wspolpracy.Server.Incoming.{on_notepad, multicast_edit}
use tin_system_do_wspolpracy.Server.Login.{client_login}
use tin_system_do_wspolpracy.Server.State.{
  Garbage, M, pure, ◌>>=◌, ◌>>◌, asks, modify, on_networking,
}
use tin_system_do_wspolpracy.Server.Transfer.{lift, send_msg}

-- The two branches of a client that is not logged in: it leaves the loop once it cannot go on, or once
-- the login has ended.
unfoldable pub outbound_login : ℕ → Garbage → ℕ → M Bool
outbound_login fuel g sockfd = do
  res ← client_login fuel sockfd g.res
  ended ← asks λ s. login_ended sockfd s.clients
  pure (ltb_ℤ res (pos 0) || ended)

-- The length of the oldest message of the type that is queued.
unfoldable pub first_obs_len : Garbage → ℕ → ℤ → M ℤ
first_obs_len g sockfd msg_type s =
    let (len, n) = get_first_obs_len g.found sockfd msg_type s.networking in
    ok (len, record s { networking = n })

-- The length that the header announces: for an edit, of the whole document or of the oldest message
-- in the queue.
pub outbound_len : Garbage → ℕ → ℤ → M ℤ
outbound_len g sockfd msg_type = do
  s ← asks λ s. s
  if msg_type ==ℤ MsgType.edit
      then (if is_to_fetch_changes sockfd s.notepad
          then (do
            let msg_len = pos (get_notepad_current_size s.notepad)
            on_networking (set_msg_len sockfd msg_len)
            pure msg_len)
          else (do
            msg_len ← first_obs_len g sockfd msg_type
            on_networking (set_msg_len sockfd msg_len)
            pure msg_len))
      else pure (get_msg_len sockfd s.networking)

unfoldable pub outbound_header : Garbage → ℕ → M Bool
unfolding outbound_len
outbound_header g sockfd = do
  s ← asks λ s. s
  if to_send_header sockfd s.clients
      then (do
        let msg_type = get_msg_type sockfd s.networking
        msg_len ← outbound_len g sockfd msg_type
        res ← send_msg sockfd (header (record { msg_type = msg_type; msg_len = msg_len }))
        pure (res ==ℤ minus_one))
      else pure false

-- The changes to send, with what `get_changes` notes about the round.
pub take_changes : ℕ → M Bytes
take_changes sockfd = do
  p ← asks λ s. s.notepad
  taken ← lift (get_changes sockfd p)
  modify λ s. record s { notepad = taken.1 }
  pure taken.0

-- The whole document is out: the edit that waited for it is applied and passed on.
pub after_file : ℕ → M (Unit {0})
after_file sockfd = do
  p ← asks λ s. s.notepad
  edit_text ← lift (get_stored_changes sockfd p)
  on_notepad (edit_contents edit_text)
  multicast_edit sockfd (length edit_text)

-- An edit of somebody else is out.
pub after_changes : ℕ → ℤ → M (Unit {0})
after_changes sockfd msg_type = do
  on_notepad (remove_sent_changes sockfd)
  s ← asks λ s. s
  n ← lift (remove_sent sockfd msg_type s.networking)
  modify λ s. record s { networking = n }

unfoldable pub outbound_msg : ℕ → M Bool
unfolding take_changes after_file after_changes
outbound_msg sockfd = do
  s ← asks λ s. s
  let msg_type = get_msg_type sockfd s.networking
  if to_send_msg sockfd s.clients
      then (if msg_type ==ℤ MsgType.edit
          then (do
            let fetches = is_to_fetch_changes sockfd s.notepad
            edit_msg ← if fetches then pure (get_file_as_str s.notepad) else take_changes sockfd
            res ← send_msg sockfd (edit edit_msg)
            if res ==ℤ minus_one
                then pure true
                else if res ==ℤ pos 1
                then (do
                  if fetches then after_file sockfd else after_changes sockfd msg_type
                  pure true)
                else pure false)
          else pure false)
      else pure false

-- One round of the loop.
unfoldable pub outbound_round : ℕ → Garbage → ℕ → M Bool
outbound_round fuel g sockfd = do
  ended ← asks λ s. login_ended sockfd s.clients
  if not ended
      then outbound_login fuel g sockfd
      else (do a ← outbound_header g sockfd; b ← outbound_msg sockfd; pure (a || b))

unfoldable pub outbound_loop : ℕ → ℕ → Garbage → ℕ → M (Unit {0})
outbound_loop zero fuel g sockfd s = fault out_of_fuel
outbound_loop (suc rounds) fuel g sockfd s = elim (outbound_round fuel g sockfd s) [
  | fault e ↦ fault e
  | ok (true, s') ↦ ok (tt, s')
  | ok (false, s') ↦ outbound_loop rounds fuel g sockfd s'
]

-- `handle_existing_outbound_connection`.
unfoldable pub handle_existing_outbound_connection : ℕ → Garbage → ℕ → M (Unit {0})
handle_existing_outbound_connection fuel g sockfd = outbound_loop fuel fuel g sockfd
