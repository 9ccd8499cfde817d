-- ===== src/Server/Incoming/Spreading.antt =====
-- Whom an edit is passed on to.
use tin_system_do_wspolpracy.Base.{arith, not, ok, pos, refl, subst, ℕ, ◌&&◌, ◌==◌, ◌≡◌}
use tin_system_do_wspolpracy.IntMap.{erase, has}
use tin_system_do_wspolpracy.IntMap.Laws.{find-erase}
use tin_system_do_wspolpracy.IntMap.Order.{IsSorted, erase-IsSorted}
use tin_system_do_wspolpracy.MsgType
use tin_system_do_wspolpracy.Networking.{set_multicast}
use tin_system_do_wspolpracy.Networking.Multicast.{Notified, set_multicast-Notified}
use tin_system_do_wspolpracy.NotepadHandler.{is_active, get_contributors}
use tin_system_do_wspolpracy.Server.State.{Server}
use tin_system_do_wspolpracy.Server.Incoming.{multicast_edit}

has-erase :
    (j sockfd : ℕ) (s : Server)
    → has j (erase sockfd (get_contributors s.notepad))
      ≡ (is_active j s.notepad && not (sockfd == j))
unfolding is_active get_contributors
has-erase j sockfd s = ground (arith, find-erase j sockfd s.notepad.contributors)

-- An edit of `edit_len` bytes is queued once for every editor but its sender, and each of these is set to
-- send a header; the queue and the write state of the sender and of whoever does not edit stay, and
-- of the server's state only the monitor and the network state change.
pub multicast_edit-Notified :
    (sockfd edit_len j : ℕ) (s : Server)
    → IsSorted s.notepad.contributors
    → (s' : Server) × (multicast_edit sockfd edit_len s ≡ ok (tt, s'))
      × Notified MsgType.edit
          (pos edit_len)
          (is_active j s.notepad && not (sockfd == j))
          j
          (s.clients, s.networking)
          (s'.clients, s'.networking)
      × (s' ≡ record s { clients = s'.clients; networking = s'.networking })
unfolding multicast_edit get_contributors
multicast_edit-Notified sockfd edit_len j s sorted =
    let receivers = erase sockfd s.notepad.contributors in
    let after = set_multicast receivers MsgType.edit (pos edit_len) (s.clients, s.networking) in
    let told =
      set_multicast-Notified receivers MsgType.edit (pos edit_len) j s.clients s.networking
        (erase-IsSorted sockfd s.notepad.contributors sorted) in
    (
      record s { clients = after.0; networking = after.1 },
      refl,
      subst (λ b. Notified MsgType.edit (pos edit_len) b j (s.clients, s.networking) after)
          (has-erase j sockfd s) told,
      refl,
    )
