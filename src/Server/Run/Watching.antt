-- ===== src/Server/Run/Watching.antt =====
-- The highest descriptor bounds those that the server watches.
use tin_system_do_wspolpracy.Base.{
  All, Bool-cases, List, [], arith, false, if◌then◌else◌, inl, inr, ltb, true, ◌∷◌, ◌≡◌,
}
use tin_system_do_wspolpracy.IntMap.{add}
use tin_system_do_wspolpracy.IntMap.Bounds.{Within, Within-mono, Within-add}
use tin_system_do_wspolpracy.ClientsMonitor.{add_new_cli}
use tin_system_do_wspolpracy.RecvBuffers.{add_new}
use tin_system_do_wspolpracy.Server.State.{Server, fd_setsize}
use tin_system_do_wspolpracy.Server.State.Ensures.{Ensures}
use tin_system_do_wspolpracy.Server.Run.{Accepted, connected, handle_new_connection, enter, raise}

abbrev pub IsWatched : Server → Type 0
IsWatched s = Within s.max_sd s.master

-- The socket could be set up.
abbrev pub IsSetUp : Accepted → Type 0
IsSetUp (connected new_cli nonblocking quick) = (nonblocking ≡ true) × (quick ≡ true)
IsSetUp Accepted.blocked = Unit {0}
IsSetUp Accepted.failed = Unit {0}

-- What holds after a step.
abbrev pub Watched : {A : Type 0} → A → Server → Type 0
Watched a s = IsWatched s

-- When every new socket can be set up and `max_sd` bounds the descriptors watched, it bounds them after
-- connections were accepted as well.
pub handle_new_connection-IsWatched :
    (accepts : List Accepted) (s : Server)
    → All IsSetUp accepts
    → IsWatched s
    → Ensures Watched (handle_new_connection accepts s)
unfolding handle_new_connection enter raise
handle_new_connection-IsWatched [] s all w = w
handle_new_connection-IsWatched (Accepted.blocked ∷ accepts) s all w = w
handle_new_connection-IsWatched (Accepted.failed ∷ accepts) s all w = w
handle_new_connection-IsWatched (connected k false quick ∷ accepts) s all w =
    let never = all.0.0 in cc
handle_new_connection-IsWatched (connected k true false ∷ accepts) s all w =
    let never = all.0.1 in cc
handle_new_connection-IsWatched (connected k true true ∷ accepts) s all w =
    let top = if ltb s.max_sd k then k else s.max_sd in
    let above = Within-mono s.max_sd top s.master (ground arith) w in
    elim (Bool-cases (ltb k fd_setsize)) [
      | inr large ↦ rw large tt
      | inl small ↦ rw small (
          handle_new_connection-IsWatched accepts
            (record s {
              max_sd = top;
              master = add k s.master;
              recv_buffers = (add_new k s.recv_buffers).0;
              clients = add_new_cli k s.clients;
              open_sockets = add k s.open_sockets;
            })
            all.1 (Within-add top k s.master (ground arith) above))
    ]
