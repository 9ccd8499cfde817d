-- ===== src/Server/Run/Passes.antt =====
-- `max_sd` bounds the descriptors watched through the whole loop of `run`.
use tin_system_do_wspolpracy.Base.{
  All, Bool-cases, List, Outcome, [], false, fault, if◌then◌else◌, inl, inr, leb, ltb, ltb_ℤ, not,
  ok, pos, refl, subst, suc, sym, true, zero, ℕ, ◌&&◌, ◌==ℤ◌, ◌==◌, ◌||◌, ◌∷◌,
}
use tin_system_do_wspolpracy.IntMap.{IntSet, has}
use tin_system_do_wspolpracy.IntMap.Bounds.{Within, Within-erase}
use tin_system_do_wspolpracy.ClientsMonitor
use tin_system_do_wspolpracy.RecvBuffers.{delete_buff}
use tin_system_do_wspolpracy.ClientsMonitor.{
  login_ended, is_logged, get_socket_read_state, idle, get_to_write_connections_number,
  get_write_descriptors,
}
use tin_system_do_wspolpracy.Server.State.{close, Server, Garbage, M, pure, asks, ◌>>=◌}
use tin_system_do_wspolpracy.Server.State.Ensures.{Ensures, Ensures-bind, Ensures-if}
use tin_system_do_wspolpracy.Server.State.Keeping.{IsKeeping, Same, keeping, pure-IsKeeping, watch}
use tin_system_do_wspolpracy.Server.Incoming.{
  incoming_loop, remove_socket, handle_existing_incoming_connection,
}
use tin_system_do_wspolpracy.Server.Incoming.Keeping.{incoming_loop-IsKeeping}
use tin_system_do_wspolpracy.Server.Outbound.Keeping.{handle_existing_outbound_connection-IsKeeping}
use tin_system_do_wspolpracy.Server.Run.{
  Selected, Pass, handle_new_connection, to_watch, queue_waits, on_readable, on_writable,
  run_descriptors, run_pass, run,
}
use tin_system_do_wspolpracy.Server.Run.Watching.{
  IsWatched, Watched, IsSetUp, handle_new_connection-IsWatched,
}

keeping-IsWatched :
    {A : Type 0} (m : M A) (s : Server) → IsKeeping watch m → IsWatched s → Ensures Watched (m s)
keeping-IsWatched m s h w = go (m s) (h.keeps s)
  where
    go :
        {B : Type 0} (o : Outcome (B × Server))
        → Ensures (λ _ t. Same watch s t) o
        → Ensures Watched o
    go (ok (b, t)) same = subst (λ w. Within w.0 w.2) (sym same) w
    go (fault e) same = tt

remove_socket-IsWatched :
    (sockfd : ℕ) (s : Server) → IsWatched s → Ensures Watched (remove_socket sockfd s)
unfolding remove_socket close
remove_socket-IsWatched sockfd s w = elim (Bool-cases (has sockfd s.open_sockets)) [
  | inl e ↦ rw e (Within-erase s.max_sd sockfd s.master w)
  | inr e ↦ rw e (Within-erase s.max_sd sockfd s.master w)
]

incoming-IsWatched :
    (fuel : ℕ) (g : Garbage) (sockfd : ℕ) (s : Server)
    → IsWatched s
    → Ensures Watched (handle_existing_incoming_connection fuel g sockfd s)
unfolding handle_existing_incoming_connection
incoming-IsWatched fuel g sockfd s w =
    Ensures-bind Watched Watched (incoming_loop fuel fuel g sockfd) _ s
      (keeping-IsWatched _ s (incoming_loop-IsKeeping fuel fuel g sockfd) w)
      λ close_conn s' w'.
        Ensures-if Watched close_conn _ (pure tt) s'
          (λ _.
            remove_socket-IsWatched sockfd
              (record s' {
                clients = ClientsMonitor.remove_socket sockfd s'.clients;
                recv_buffers = delete_buff sockfd s'.recv_buffers;
              })
              w')
          λ _. w'

queue_waits-IsKeeping : (fd : ℕ) → IsKeeping watch (queue_waits fd)
unfolding queue_waits
queue_waits-IsKeeping fd = record { keeps = λ s. refl }

watch_one-IsKeeping :
    (fd : ℕ) (later : M (List ℕ))
    → IsKeeping watch later
    → IsKeeping watch (do
      ended ← asks λ s. login_ended fd s.clients
      keeps ← if not ended then pure true else queue_waits fd
      others ← later
      pure (if keeps then fd ∷ others else others))
watch_one-IsKeeping fd later h = search (keeping, queue_waits-IsKeeping) depth 14

pub to_watch-IsKeeping : (fds : List ℕ) → IsKeeping watch (to_watch fds)
unfolding to_watch
to_watch-IsKeeping [] = pure-IsKeeping []
to_watch-IsKeeping (fd ∷ fds) = record {
  keeps = (watch_one-IsKeeping fd (to_watch fds) (to_watch-IsKeeping fds)).keeps;
}

on_readable-IsWatched :
    (fuel : ℕ) (g : Garbage) (sel : Selected) (current_desc : ℕ) (pass : Pass) (s : Server)
    → All IsSetUp sel.accepts
    → IsWatched s
    → Ensures Watched (on_readable fuel g sel current_desc pass s)
unfolding on_readable
on_readable-IsWatched fuel g sel current_desc pass s all w =
    Ensures-if Watched (has current_desc sel.read_set) _ (pure pass) s
      (λ _.
        Ensures-if Watched (current_desc == s.listening) _ _ s
          (λ _.
            Ensures-bind Watched Watched (handle_new_connection sel.accepts) _ s
              (handle_new_connection-IsWatched sel.accepts s all w) λ _ s' w'. w')
          λ _.
            Ensures-if Watched
              (not (is_logged current_desc s.clients)
                || not (get_socket_read_state current_desc s.clients ==ℤ idle))
              _ _ s
              (λ _.
                Ensures-bind Watched Watched
                  (handle_existing_incoming_connection fuel g current_desc) _ s
                  (incoming-IsWatched fuel g current_desc s w) λ _ s' w'. w')
              λ _. w)
      λ _. w

pub on_writable-IsKeeping :
    (fuel : ℕ) (g : Garbage) (write_set : IntSet) (current_desc : ℕ) (pass : Pass)
    → IsKeeping watch (on_writable fuel g write_set current_desc pass)
unfolding on_writable
on_writable-IsKeeping fuel g write_set current_desc pass =
    search (keeping, handle_existing_outbound_connection-IsKeeping) depth 14

-- A pass over the descriptors.
run_descriptors-IsWatched :
    (rounds fuel : ℕ) (g : Garbage) (sel : Selected) (write_set : IntSet) (current_desc : ℕ)
    (pass : Pass) (s : Server)
    → All IsSetUp sel.accepts
    → IsWatched s
    → Ensures Watched (run_descriptors rounds fuel g sel write_set current_desc pass s)
unfolding run_descriptors
run_descriptors-IsWatched zero fuel g sel write_set current_desc pass s all w = tt
run_descriptors-IsWatched (suc rounds) fuel g sel write_set current_desc pass s all w =
    elim (Bool-cases (leb current_desc s.max_sd && ltb_ℤ (pos 0) pass.desc_ready)) [
      | inr over ↦ rw (over, run_descriptors) w
      | inl goes_on ↦
          rw (goes_on, run_descriptors)
            (Ensures-bind Watched Watched
              (λ t.
                (on_readable fuel g sel current_desc pass
                    >>= on_writable fuel g write_set current_desc)
                  t)
              (λ pass' s'. run_descriptors rounds fuel g sel write_set (suc current_desc) pass' s')
              s
              (Ensures-bind Watched Watched (on_readable fuel g sel current_desc pass) _ s
                (on_readable-IsWatched fuel g sel current_desc pass s all w)
                λ p s' w'.
                  keeping-IsWatched _ s' (on_writable-IsKeeping fuel g write_set current_desc p) w')
              λ p s' w'.
                run_descriptors-IsWatched rounds fuel g sel write_set (suc current_desc) p s' all
                  w')
    ]

run_pass-IsWatched :
    (fuel : ℕ) (g : Garbage) (sel : Selected) (s : Server)
    → All IsSetUp sel.accepts
    → IsWatched s
    → Ensures Watched (run_pass fuel g sel s)
unfolding run_pass
run_pass-IsWatched fuel g sel s all w =
    let writers = get_to_write_connections_number s.clients in
    let fds = get_write_descriptors s.clients in
    let asked : M (Unit {0}) = if ltb 0 writers then (to_watch fds >>= λ _. pure tt) else pure tt in
    Ensures-bind Watched Watched asked _ s
      (Ensures-if Watched (ltb 0 writers) _ (pure tt) s
        (λ _.
          Ensures-bind Watched Watched (to_watch fds) _ s
            (keeping-IsWatched _ s (to_watch-IsKeeping fds) w) λ _ s' w'. w')
        λ _. w)
      λ _ s' w'.
        Ensures-if Watched (ltb_ℤ sel.socket_count (pos 1)) (pure false) _ s' (λ _. w')
          λ _. run_descriptors-IsWatched fuel fuel g _ _ 0 _ s' all w'

-- When every new socket can be set up, `max_sd` bounds the descriptors watched after the loop of `run`
-- as it did before it.
pub run-IsWatched :
    (fuel : ℕ) (g : Garbage) (sels : List Selected) (s : Server)
    → All (λ sel. All IsSetUp sel.accepts) sels
    → IsWatched s
    → Ensures Watched (run fuel g sels s)
unfolding run
run-IsWatched fuel g [] s all w = w
run-IsWatched fuel g (sel ∷ sels) s all w =
    Ensures-bind Watched Watched (run_pass fuel g sel) _ s (run_pass-IsWatched fuel g sel s all.0 w)
      λ goes_on s' w'.
        Ensures-if Watched goes_on (run fuel g sels) (pure tt) s'
          (λ _. run-IsWatched fuel g sels s' all.1 w') λ _. w'
