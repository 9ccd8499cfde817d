-- ===== src/Server/Incoming/Keeping.antt =====
-- What the handler of a readable descriptor does to the set of descriptors and its bound.
use tin_system_do_wspolpracy.Base.{
  Bool, Bool-cases, Outcome, Outcome-cases, ap, inl, inr, pos, subst, suc, zero, ℕ, ◌||◌,
}
use tin_system_do_wspolpracy.NotepadHandler.{NotepadHandler, get_contributors}
use tin_system_do_wspolpracy.IntMap.{IntMap, erase}
use tin_system_do_wspolpracy.MsgType
use tin_system_do_wspolpracy.Networking.Multicast.{set_multicast_logged}
use tin_system_do_wspolpracy.Server.State.{Garbage, Server}
use tin_system_do_wspolpracy.Server.State.Ensures.{Ensures}
use tin_system_do_wspolpracy.Server.State.Keeping.{
  IsKeeping, Same, Same-Ensures, keeping, IsKeeping-after, watch, Watch,
}
use tin_system_do_wspolpracy.Server.Transfer.Keeping.{
  lift-IsKeeping, recv_msg-IsKeeping, read_buffer-IsKeeping,
}
use tin_system_do_wspolpracy.Server.Login.Keeping.{client_login-watch}
use tin_system_do_wspolpracy.Server.Incoming.{
  on_notepad, multicast_edit, incoming_login, leave_notepad, join_notepad, take_header,
  incoming_header, take_edit, incoming_msg, incoming_round, incoming_loop,
}

-- What the handlers of a logged-in client do not write.
abbrev pub enrolled : Server → Watch × IntMap Bool
enrolled s = (watch s, s.clients.logged_clients)

pub on_notepad-IsKeeping :
    (f : NotepadHandler → Outcome NotepadHandler) → IsKeeping enrolled (on_notepad f)
on_notepad-IsKeeping f = search (keeping, lift-IsKeeping) depth 14

pub multicast_edit-IsKeeping :
    (sockfd edit_len : ℕ) → IsKeeping enrolled (multicast_edit sockfd edit_len)
unfolding multicast_edit
multicast_edit-IsKeeping sockfd edit_len = record {
  keeps = λ s.
      ap (λ m. (watch s, m))
        (set_multicast_logged (erase sockfd (get_contributors s.notepad)) MsgType.edit
          (pos edit_len) (s.clients, s.networking));
}

incoming_login-IsKeeping :
    (fuel : ℕ) (g : Garbage) (sockfd : ℕ) → IsKeeping watch (incoming_login fuel g sockfd)
unfolding incoming_login
incoming_login-IsKeeping fuel g sockfd = search (keeping, client_login-watch) depth 14

leave_notepad-IsKeeping : (g : Garbage) (sockfd : ℕ) → IsKeeping enrolled (leave_notepad g sockfd)
unfolding leave_notepad
leave_notepad-IsKeeping g sockfd = search (keeping, on_notepad-IsKeeping, lift-IsKeeping) depth 14

join_notepad-IsKeeping : (sockfd : ℕ) → IsKeeping enrolled (join_notepad sockfd)
unfolding join_notepad
join_notepad-IsKeeping sockfd = search (keeping, lift-IsKeeping) depth 14

take_header-IsKeeping : (sockfd : ℕ) → IsKeeping enrolled (take_header sockfd)
unfolding take_header
take_header-IsKeeping sockfd =
    search (keeping, lift-IsKeeping, read_buffer-IsKeeping enrolled, join_notepad-IsKeeping) depth
      14

pub incoming_header-IsKeeping :
    (g : Garbage) (sockfd : ℕ) → IsKeeping enrolled (incoming_header g sockfd)
unfolding incoming_header
incoming_header-IsKeeping g sockfd =
    search (keeping, recv_msg-IsKeeping enrolled, leave_notepad-IsKeeping, take_header-IsKeeping)
      depth 14

take_edit-IsKeeping : (sockfd : ℕ) → IsKeeping enrolled (take_edit sockfd)
unfolding take_edit
take_edit-IsKeeping sockfd =
    search (keeping, read_buffer-IsKeeping enrolled, on_notepad-IsKeeping, multicast_edit-IsKeeping)
      depth 14

pub incoming_msg-IsKeeping : (sockfd : ℕ) → IsKeeping enrolled (incoming_msg sockfd)
unfolding incoming_msg
incoming_msg-IsKeeping sockfd =
    search (keeping, recv_msg-IsKeeping enrolled, take_edit-IsKeeping) depth 14

incoming_header-watch : (g : Garbage) (sockfd : ℕ) → IsKeeping watch (incoming_header g sockfd)
incoming_header-watch g sockfd = IsKeeping-after (λ p. p.0) (incoming_header-IsKeeping g sockfd)

incoming_msg-watch : (sockfd : ℕ) → IsKeeping watch (incoming_msg sockfd)
incoming_msg-watch sockfd = IsKeeping-after (λ p. p.0) (incoming_msg-IsKeeping sockfd)

incoming_round-IsKeeping :
    (fuel : ℕ) (g : Garbage) (sockfd : ℕ) → IsKeeping watch (incoming_round fuel g sockfd)
unfolding incoming_round
incoming_round-IsKeeping fuel g sockfd =
    search (keeping, incoming_login-IsKeeping, incoming_header-watch, incoming_msg-watch) depth 14

pub incoming_loop-IsKeeping :
    (rounds fuel : ℕ) (g : Garbage) (sockfd : ℕ)
    → IsKeeping watch (incoming_loop rounds fuel g sockfd)
unfolding incoming_loop
incoming_loop-IsKeeping zero fuel g sockfd = record { keeps = λ s. tt }
incoming_loop-IsKeeping (suc rounds) fuel g sockfd = record {
  keeps = λ s. elim (Outcome-cases (incoming_round fuel g sockfd s)) [
    | inr (e, bad) ↦ rw (bad, incoming_loop) tt
    | inl ((flags, s'), good) ↦
        let same =
          subst (Ensures λ _ t. Same watch s t) good
            ((incoming_round-IsKeeping fuel g sockfd).keeps s) in
        elim (Bool-cases (flags.close_conn || flags.change_cli)) [
          | inl leaves ↦ rw (good, incoming_loop) (rw leaves same)
          | inr stays ↦
              rw (good, incoming_loop)
                (rw stays (
                  Same-Ensures watch (incoming_loop rounds fuel g sockfd s') s s' same
                    ((incoming_loop-IsKeeping rounds fuel g sockfd).keeps s')))
        ]
  ];
}
