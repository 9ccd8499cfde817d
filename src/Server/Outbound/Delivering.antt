-- ===== src/Server/Outbound/Delivering.antt =====
-- The edit of one editor on its way out to another.
use tin_system_do_wspolpracy.Base.{
  ==_self, Bytes, List, Outcome, [], ap, arith, drop, false, fault, length, ok, pos, refl, true,
  undefined, ℕ, ℤ, ◌++◌, ◌-◌, ◌<◌, ◌∙◌, ◌∷◌, ◌≡◌, ◌≤◌,
}
use tin_system_do_wspolpracy.ClientsMonitor.{get_socket_write_bytes_number}
use tin_system_do_wspolpracy.ClientsMonitor.Fields.{message_out}
use tin_system_do_wspolpracy.Message.{edit, get_string_rep, get_message_type}
use tin_system_do_wspolpracy.MsgType
use tin_system_do_wspolpracy.Networking.{
  NetState, Networking, queue, to_send_msg, get_msg_type, remove_sent,
}
use tin_system_do_wspolpracy.Networking.Queues.{remove_sent_oldest}
use tin_system_do_wspolpracy.NotepadHandler.{
  NotepadHandler, PendingChanges, tracked, get_changes, remove_sent_changes, is_to_fetch_changes,
}
use tin_system_do_wspolpracy.NotepadHandler.Rounds.{
  remove_sent_changes_lem, sent_on, tracked-sent_on,
}
use tin_system_do_wspolpracy.NotepadHandler.Tracking.{pending, stored, begun, get_changes_lem}
use tin_system_do_wspolpracy.Server.State.{Server, Sent, accepted}
use tin_system_do_wspolpracy.Server.State.Ensures.{bind_ok, bind_fault}
use tin_system_do_wspolpracy.Server.Transfer.{inline_capacity, send_msg, lift, after_sent}
use tin_system_do_wspolpracy.Server.Transfer.Sending.{send_msg-whole, send_msg_dangling}
use tin_system_do_wspolpracy.Server.Incoming.{on_notepad}
use tin_system_do_wspolpracy.Server.Outbound.{outbound_msg, take_changes, after_changes}

take_changes_lem :
    (j : ℕ) (text : Bytes) (s : Server) (p : NotepadHandler)
    → get_changes j s.notepad ≡ ok (text, p)
    → take_changes j s ≡ ok (text, record s { notepad = p })
unfolding take_changes
take_changes_lem j text s p e =
    bind_ok (lift (get_changes j s.notepad)) _ s (text, p) s (ap (λ o. lift o s) e)

whole_text : (text : Bytes) → drop (length text - length text) text ≡ text
whole_text text = let e : length text - length text ≡ 0 = omega arith in rw e refl

send_edit_lem :
    (j : ℕ) (text : Bytes) (s : Server) (more : List Sent)
    → length text ≤ inline_capacity
    → get_socket_write_bytes_number j s.clients ≡ pos (length text)
    → s.sends ≡ accepted (length text) ∷ more
    → send_msg j (edit text) s
      ≡ ok (
        pos 1,
        record s {
          sends = more;
          sent = s.sent ++ ((j, text) ∷ []);
          clients = message_out j s.clients;
        },
      )
unfolding after_sent get_message_type get_string_rep
send_edit_lem j text s more short wb e =
    send_msg-whole j (edit text) (length text) s more wb (omega arith) short e
    ∙ ap
        (λ t. ok (
          pos 1,
          record s {
            sends = more;
            sent = s.sent ++ ((j, t) ∷ []);
            clients = message_out j s.clients;
          },
        ))
        (whole_text text)

on_notepad_ok :
    (f : NotepadHandler → Outcome NotepadHandler) (q : NotepadHandler) (s : Server)
    → f s.notepad ≡ ok q
    → on_notepad f s ≡ ok (tt, record s { notepad = q })
on_notepad_ok f q s e = bind_ok (lift (f s.notepad)) _ s q s (ap (λ o. lift o s) e)

after_changes_lem :
    (j : ℕ) (t : ℤ) (s : Server) (q : NotepadHandler) (n : Networking)
    → remove_sent_changes j s.notepad ≡ ok q
    → remove_sent j t s.networking ≡ ok n
    → after_changes j t s ≡ ok (tt, record s { notepad = q; networking = n })
unfolding after_changes
after_changes_lem j t s q n e f =
    let s' : Server = record s { notepad = q } in
    bind_ok (on_notepad (remove_sent_changes j)) _ s tt s'
      (on_notepad_ok (remove_sent_changes j) q s e)
    ∙ bind_ok (lift (remove_sent j t s.networking)) _ s' n s' (ap (λ o. lift o s') f)

-- The state when the change is out.
abbrev pub delivered : ℕ → Bytes → List Sent → NotepadHandler → Networking → Server → Server
delivered j text more q n s = record s {
  notepad = q;
  networking = n;
  clients = message_out j s.clients;
  sends = more;
  sent = s.sent ++ ((j, text) ∷ []);
}

outbound_msg_lem :
    (j : ℕ) (text : Bytes) (more : List Sent) (p q : NotepadHandler) (n : Networking) (s : Server)
    → to_send_msg j s.clients ≡ true
    → get_msg_type j s.networking ≡ MsgType.edit
    → is_to_fetch_changes j s.notepad ≡ false
    → get_changes j s.notepad ≡ ok (text, p)
    → length text ≤ inline_capacity
    → get_socket_write_bytes_number j s.clients ≡ pos (length text)
    → s.sends ≡ accepted (length text) ∷ more
    → remove_sent_changes j p ≡ ok q
    → remove_sent j MsgType.edit s.networking ≡ ok n
    → outbound_msg j s ≡ ok (true, delivered j text more q n s)
unfolding outbound_msg
outbound_msg_lem j text more p q n s ready type fetched got short wb takes removed unqueued =
    let s₁ : Server = record s { notepad = p } in
    let s₂ : Server = record s₁ {
      sends = more;
      sent = s.sent ++ ((j, text) ∷ []);
      clients = message_out j s.clients;
    } in
    rw (ready, outbound_msg)
      (rw type (
        rw fetched (
          bind_ok (take_changes j) _ s text s₁ (take_changes_lem j text s p got)
          ∙ bind_ok (send_msg j (edit text)) _ s₁ (pos 1) s₂
              (send_edit_lem j text s₁ more short wb takes)
          ∙ bind_ok (after_changes j MsgType.edit) _ s₂ tt (delivered j text more q n s)
              (after_changes_lem j MsgType.edit s₂ q n removed unqueued))))

-- With `changes_left` at 0, when an editor that does not fetch the document was sent the header for the
-- edit of another one, is owed this edit next, which is all that the other one has stored, has it first
-- in its queue, and the kernel takes the bytes of the edit, at most 15 and all unsent: these bytes go out,
-- the change and the message are owed no more, and what is owed behind them stays.
pub outbound_msg-delivers :
    (j k : ℕ) (text : Bytes) (more : List Sent) (waiting : List PendingChanges) (len : ℤ)
    (unsent : List NetState) (s : Server)
    → to_send_msg j s.clients ≡ true
    → get_msg_type j s.networking ≡ MsgType.edit
    → is_to_fetch_changes j s.notepad ≡ false
    → s.notepad.changes_left ≡ pos 0
    → tracked j s.notepad ≡ pending k text ∷ waiting
    → stored k s.notepad ≡ text
    → queue j s.networking ≡ record { msg_type = MsgType.edit; msg_len = len } ∷ unsent
    → length text ≤ inline_capacity
    → get_socket_write_bytes_number j s.clients ≡ pos (length text)
    → s.sends ≡ accepted (length text) ∷ more
    → (q : NotepadHandler) × (n : Networking) × (outbound_msg j s
        ≡ ok (true, delivered j text more q n s))
      × (tracked j q ≡ waiting)
      × (queue j n ≡ unsent)
outbound_msg-delivers j k text more waiting len unsent s ready type fetched left owes holds queued
      short wb takes =
    let p = begun (pending k text) s.notepad in
    let got = get_changes_lem j s.notepad k text waiting owes holds left in
    let (first, n, unqueued, queues) =
      remove_sent_oldest j s.networking [] (record { msg_type = MsgType.edit; msg_len = len })
        unsent queued tt in
    (
      sent_on j waiting p,
      n,
      outbound_msg_lem j text more p (sent_on j waiting p) n s ready type fetched got short wb takes
          (remove_sent_changes_lem j p (pending k text) waiting owes left) unqueued,
      tracked-sent_on j waiting p,
      queues j ∙ rw (==_self j) refl,
    )

-- With `changes_left` at 0, when an editor that does not fetch the document was sent the header for the
-- edit of another one, is owed this edit next, which is all that the other one has stored and longer
-- than 15 bytes, and all of its bytes are unsent, sending it comes to undefined behaviour, whatever the
-- kernel answers.
pub outbound_msg_dangling :
    (j k : ℕ) (text : Bytes) (waiting : List PendingChanges) (s : Server)
    → to_send_msg j s.clients ≡ true
    → get_msg_type j s.networking ≡ MsgType.edit
    → is_to_fetch_changes j s.notepad ≡ false
    → s.notepad.changes_left ≡ pos 0
    → tracked j s.notepad ≡ pending k text ∷ waiting
    → stored k s.notepad ≡ text
    → inline_capacity < length text
    → get_socket_write_bytes_number j s.clients ≡ pos (length text)
    → outbound_msg j s ≡ fault undefined
unfolding outbound_msg get_string_rep
outbound_msg_dangling j k text waiting s ready type fetched left owes holds long wb =
    let p = begun (pending k text) s.notepad in
    let s₁ : Server = record s { notepad = p } in
    let got = get_changes_lem j s.notepad k text waiting owes holds left in
    let never = send_msg_dangling j (edit text) (length text) s₁ wb (omega arith) long in
    rw (ready, outbound_msg)
      (rw type (
        rw fetched (
          bind_ok (take_changes j) _ s text s₁ (take_changes_lem j text s p got)
          ∙ bind_fault (send_msg j (edit text)) _ s₁ undefined never)))
