-- ===== src/Server/Run/Tracking.antt =====
-- The descriptors that the server watches are those that are open, through the whole loop of `run`.
pub mod Loop
use tin_system_do_wspolpracy.Base.{
  All, Bool-cases, List, Outcome, [], arith, false, fault, if◌then◌else◌, inl, inr, leb, ltb, none,
  ok, refl, subst, suc, sym, true, ℕ, ◌==◌, ◌∙◌, ◌∷◌, ◌≡◌,
}
use tin_system_do_wspolpracy.IntMap.{IntSet, has, add, find}
use tin_system_do_wspolpracy.IntMap.Bounds.{
  Within, Within-mono, Within-add, Within-erase, has-add, has-erase,
}
use tin_system_do_wspolpracy.ClientsMonitor
use tin_system_do_wspolpracy.ClientsMonitor.{
  is_logged, get_socket_read_state, idle, get_to_write_connections_number, get_write_descriptors,
  add_new_cli,
}
use tin_system_do_wspolpracy.RecvBuffers.{delete_buff, add_new}
use tin_system_do_wspolpracy.Server.State.{Server, Garbage, M, pure, close, fd_setsize, ◌>>=◌}
use tin_system_do_wspolpracy.Server.State.Ensures.{Ensures, Ensures-bind, Ensures-if}
use tin_system_do_wspolpracy.Server.State.Keeping.{IsKeeping, Same, watch, Watch}
use tin_system_do_wspolpracy.Server.Incoming.{
  incoming_loop, remove_socket, handle_existing_incoming_connection,
}
use tin_system_do_wspolpracy.Server.Incoming.Keeping.{incoming_loop-IsKeeping}
use tin_system_do_wspolpracy.Server.Run.{
  Accepted, Selected, Pass, connected, handle_new_connection, enter, raise, to_watch, on_readable,
  on_writable, ready_of, run_descriptors, run_pass, run,
}
use tin_system_do_wspolpracy.Server.Run.Watching.{IsSetUp}
use tin_system_do_wspolpracy.Server.Run.Passes.{to_watch-IsKeeping, on_writable-IsKeeping}

-- The descriptors watched are those that are open, none of them is above `max_sd`, and `close` was
-- only called for one that was open.
abbrev TrackedWatch : Watch → Type 0
TrackedWatch (max_sd, listening, master, open_sockets, bad_closes) =
    Within max_sd master × ((k : ℕ) → has k open_sockets ≡ has k master) × (bad_closes ≡ [])

abbrev pub IsTracked : Server → Type 0
IsTracked s = TrackedWatch (watch s)

-- From `current` on, what is ready is watched.
abbrev Covers : ℕ → IntSet → Watch → Type 0
Covers current ready (max_sd, listening, master, open_sockets, bad_closes) =
    (k : ℕ) → leb current k ≡ true → has k ready ≡ true → has k master ≡ true

abbrev pub IsSafe : ℕ → IntSet → Server → Type 0
IsSafe current ready s = IsTracked s × Covers current ready (watch s)

abbrev pub Safely : ℕ → IntSet → {A : Type 0} → A → Server → Type 0
Safely current ready a s = IsSafe current ready s

abbrev pub Tracked : {A : Type 0} → A → Server → Type 0
Tracked a s = IsTracked s

module _ (current : ℕ) (ready : IntSet) where
  pub keeping-IsSafe :
      {A : Type 0} (m : M A) (s : Server)
      → IsKeeping watch m
      → IsSafe current ready s
      → Ensures (Safely current ready) (m s)
  keeping-IsSafe m s h w = go (m s) (h.keeps s)
    where
      go :
          {B : Type 0} (o : Outcome (B × Server))
          → Ensures (λ _ t. Same watch s t) o
          → Ensures (Safely current ready) o
      go (ok (b, t)) same =
          subst (λ (u : Watch). TrackedWatch u × Covers current ready u) (sym same) w
      go (fault e) same = tt

  pub accepts-IsSafe :
      (accepts : List Accepted) (s : Server)
      → All IsSetUp accepts
      → IsSafe current ready s
      → Ensures (Safely current ready) (handle_new_connection accepts s)
  unfolding handle_new_connection enter raise
  accepts-IsSafe [] s all w = w
  accepts-IsSafe (Accepted.blocked ∷ accepts) s all w = w
  accepts-IsSafe (Accepted.failed ∷ accepts) s all w = w
  accepts-IsSafe (connected k false quick ∷ accepts) s all w = let never = all.0.0 in cc
  accepts-IsSafe (connected k true false ∷ accepts) s all w = let never = all.0.1 in cc
  accepts-IsSafe (connected k true true ∷ accepts) s all ((within, agree, none_bad), covered) =
      let top = if ltb s.max_sd k then k else s.max_sd in
      let above = Within-mono s.max_sd top s.master (ground arith) within in
      elim (Bool-cases (ltb k fd_setsize)) [
        | inr large ↦ rw large tt
        | inl small ↦ rw small (
            accepts-IsSafe accepts
              (record s {
                max_sd = top;
                master = add k s.master;
                recv_buffers = (add_new k s.recv_buffers).0;
                clients = add_new_cli k s.clients;
                open_sockets = add k s.open_sockets;
              })
              all.1
              (
                (
                  Within-add top k s.master (ground arith) above,
                  λ j. rw (has-add j k s.open_sockets, has-add j k s.master, agree j) refl,
                  none_bad,
                ),
                λ j from is_ready.
                    rw (has-add j k s.master, covered j from is_ready)
                      (elim (Bool-cases (k == j)) [ inl e ↦ rw e refl | inr e ↦ rw e refl ]),
              ))
      ]

-- Descriptor `current` goes, and what comes behind it stays.
pub remove_socket-IsSafe :
    (current : ℕ) (ready : IntSet) (s : Server)
    → has current ready ≡ true
    → IsSafe current ready s
    → Ensures (Safely (suc current) ready) (remove_socket current s)
unfolding remove_socket close
remove_socket-IsSafe current ready s is_ready ((within, agree, none_bad), covered) =
    let is_open : has current s.open_sockets ≡ true =
      agree current ∙ covered current (ground arith) is_ready in
    rw is_open (
      (
        Within-erase s.max_sd current s.master within,
        λ j. rw (has-erase j current s.open_sockets, has-erase j current s.master, agree j) refl,
        none_bad,
      ),
      λ j from r. rw (has-erase j current s.master, covered j (ground arith) r) (ground arith),
    )

pub covers_next :
    (current : ℕ) (ready : IntSet) (s : Server)
    → IsSafe current ready s
    → IsSafe (suc current) ready s
covers_next current ready s (t, covered) = (t, λ j from r. covered j (ground arith) r)
