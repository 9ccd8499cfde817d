-- ===== src/Server/Incoming.antt =====
-- `handle_existing_incoming_connection`: what a readable descriptor has sent is received and handled.
pub mod Closing
pub mod Spreading
pub mod Guarding
pub mod Progress
pub mod Ending
pub mod Keeping
use tin_system_do_wspolpracy.Base.{
  Bool, Outcome, false, fault, if◌then◌else◌, length, ltb_ℤ, minus_one, minus_two, not, ok,
  out_of_fuel, pos, suc, true, zero, ℕ, ◌&&◌, ◌==ℤ◌, ◌==◌, ◌||◌,
}
use tin_system_do_wspolpracy.ClientsMonitor.{login_ended}
use tin_system_do_wspolpracy.ClientsMonitor
use tin_system_do_wspolpracy.Header.{parse_from_string}
use tin_system_do_wspolpracy.IntMap.{erase}
use tin_system_do_wspolpracy.MsgType
use tin_system_do_wspolpracy.Networking.{
  is_waiting_for_header, is_waiting_for_msg, get_msg_type, set_msg_type, set_msg_len, add_to_send,
  set_multicast,
}
use tin_system_do_wspolpracy.NotepadHandler.{
  NotepadHandler, is_active, add_client, remove_contributor, get_active_users_number, save_to_file,
  store_changes, is_to_fetch_changes, edit_contents, get_contributors,
}
use tin_system_do_wspolpracy.RecvBuffers.{clear_buff, delete_buff}
use tin_system_do_wspolpracy.Server.Login.{client_login}
use tin_system_do_wspolpracy.Server.State.{
  close, Garbage, M, pure, ◌>>=◌, ◌>>◌, asks, modify, on_clients, on_networking, on_buffers,
}
use tin_system_do_wspolpracy.Server.Transfer.{lift, recv_msg, read_buffer}

-- The two flags of the loop.
pub record Flags : Type 0 where
  pub close_conn : Bool
  pub change_cli : Bool

abbrev pub keep_on : Flags
keep_on = record { close_conn = false; change_cli = false }

abbrev closing : Flags
closing = record { close_conn = true; change_cli = false }

abbrev changing : Flags
changing = record { close_conn = false; change_cli = true }

-- A step on the notepad, which may end the process.
abbrev pub on_notepad : (NotepadHandler → Outcome NotepadHandler) → M (Unit {0})
on_notepad f = do p ← asks λ s. s.notepad; q ← lift (f p); modify λ s. record s { notepad = q }

-- Everybody who edits, but the sender, is to be sent the edit.
unfoldable pub multicast_edit : ℕ → ℕ → M (Unit {0})
multicast_edit sockfd edit_len = modify λ s.
    let receivers = erase sockfd (get_contributors s.notepad) in
    let after = set_multicast receivers MsgType.edit (pos edit_len) (s.clients, s.networking) in
    record s { clients = after.0; networking = after.1 }

unfoldable pub incoming_login : ℕ → Garbage → ℕ → M Flags
incoming_login fuel g sockfd = do
  login_state ← client_login fuel sockfd g.res
  pure (
      if ltb_ℤ login_state (pos 0)
      then record { close_conn = not (login_state ==ℤ minus_one); change_cli = true }
      else keep_on)

-- The last editor to leave has the document saved.
pub leave_notepad : Garbage → ℕ → M (Unit {0})
leave_notepad g sockfd = do
  p ← asks λ s. s.notepad
  if is_active sockfd p
      then (do
        on_notepad λ q. ok (remove_contributor sockfd q)
        s ← asks λ s. s
        if get_active_users_number s.notepad == 0
            then (do
              files ← lift (save_to_file g.creators s.notepad s.files)
              modify λ s. record s { files = files })
            else pure tt)
      else pure tt

pub join_notepad : ℕ → M (Unit {0})
join_notepad sockfd = do
  s ← asks λ s. s
  joined ← lift (add_client sockfd s.notepad s.files)
  modify λ s. record s { notepad = joined.0; files = joined.1 }

-- What the header of a logged-in client announces becomes its current message.
pub take_header : ℕ → M (Unit {0})
unfolding join_notepad
take_header sockfd = do
  text ← read_buffer sockfd
  header ← lift (parse_from_string text)
  p ← asks λ s. s.notepad
  if header.msg_type ==ℤ MsgType.edit && not (is_active sockfd p)
      then join_notepad sockfd
      else pure tt
  on_networking (set_msg_type sockfd header.msg_type)
  on_networking (set_msg_len sockfd header.msg_len)
  on_buffers (clear_buff sockfd)

unfoldable pub incoming_header : Garbage → ℕ → M Flags
unfolding take_header leave_notepad
incoming_header g sockfd = do
  cm ← asks λ s. s.clients
  if is_waiting_for_header sockfd cm
      then (do
        res ← recv_msg sockfd MsgType.header
        if ltb_ℤ res (pos 0)
            then (if ltb_ℤ res minus_one
                then (do
                  if res ==ℤ minus_two then leave_notepad g sockfd else pure tt
                  pure closing)
                else pure changing)
            else if res ==ℤ pos 1
            then (do take_header sockfd; pure keep_on)
            else pure keep_on)
      else pure keep_on

-- An edit is stored for the others; unless its sender must fetch the document first, it is applied.
pub take_edit : ℕ → M (Unit {0})
take_edit sockfd = do
  edit_text ← read_buffer sockfd
  on_notepad (store_changes sockfd edit_text)
  p ← asks λ s. s.notepad
  if not (is_to_fetch_changes sockfd p)
      then (do on_notepad (edit_contents edit_text); multicast_edit sockfd (length edit_text))
      else (do
        on_networking (set_msg_type sockfd MsgType.edit)
        on_networking (add_to_send sockfd MsgType.edit minus_one))
  on_buffers (clear_buff sockfd)

unfoldable pub incoming_msg : ℕ → M Flags
unfolding take_edit
incoming_msg sockfd = do
  s ← asks λ s. s
  if is_waiting_for_msg sockfd s.clients
      then (do
        let msg_type = get_msg_type sockfd s.networking
        res ← recv_msg sockfd msg_type
        if ltb_ℤ res (pos 0)
            then pure (if ltb_ℤ res minus_one then closing else changing)
            else if res ==ℤ pos 1
            then (do if msg_type ==ℤ MsgType.edit then take_edit sockfd else pure tt; pure changing)
            else pure keep_on)
      else pure keep_on

-- One round of the loop.
unfoldable pub incoming_round : ℕ → Garbage → ℕ → M Flags
incoming_round fuel g sockfd = do
  ended ← asks λ s. login_ended sockfd s.clients
  if not ended then incoming_login fuel g sockfd else (do
    a ← incoming_header g sockfd
    b ← incoming_msg sockfd
    pure (record {
      close_conn = a.close_conn || b.close_conn;
      change_cli = a.change_cli || b.change_cli;
    }))

-- The loop, with a round of fuel for each pass, and as much for the loop of each login.
unfoldable pub incoming_loop : ℕ → ℕ → Garbage → ℕ → M Bool
incoming_loop zero fuel g sockfd s = fault out_of_fuel
incoming_loop (suc rounds) fuel g sockfd s = elim (incoming_round fuel g sockfd s) [
  | fault e ↦ fault e
  | ok (flags, s') ↦ elim (flags.close_conn || flags.change_cli) [
    | true ↦ ok (flags.close_conn, s')
    | false ↦ incoming_loop rounds fuel g sockfd s'
  ]
]

-- `close` and `FD_CLR`. The new maximum that the source looks for is a copy that it drops.
unfoldable pub remove_socket : ℕ → M (Unit {0})
remove_socket sockfd = do close sockfd; modify λ s. record s { master = erase sockfd s.master }

unfoldable pub handle_existing_incoming_connection : ℕ → Garbage → ℕ → M (Unit {0})
handle_existing_incoming_connection fuel g sockfd = do
  close_conn ← incoming_loop fuel fuel g sockfd
  if close_conn
      then (do
        on_clients (ClientsMonitor.remove_socket sockfd)
        on_buffers (delete_buff sockfd)
        remove_socket sockfd)
      else pure tt
