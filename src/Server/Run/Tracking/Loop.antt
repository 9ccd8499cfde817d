-- ===== src/Server/Run/Tracking/Loop.antt =====
-- What is watched is what is open, through the handlers of readable descriptors and the loop of `run`.
use tin_system_do_wspolpracy.Base.{
  All, Bool-cases, List, [], arith, false, if◌then◌else◌, inl, inr, leb, ltb, ltb_ℤ, not, pos, suc,
  true, zero, ℕ, ◌&&◌, ◌==ℤ◌, ◌==◌, ◌||◌, ◌∷◌, ◌≡◌,
}
use tin_system_do_wspolpracy.IntMap.{IntSet, has, find}
use tin_system_do_wspolpracy.ClientsMonitor
use tin_system_do_wspolpracy.ClientsMonitor.{
  is_logged, get_socket_read_state, idle, get_to_write_connections_number, get_write_descriptors,
  add_new_cli,
}
use tin_system_do_wspolpracy.RecvBuffers.{delete_buff}
use tin_system_do_wspolpracy.Server.State.{Server, Garbage, M, pure, ◌>>=◌}
use tin_system_do_wspolpracy.Server.State.Ensures.{Ensures, Ensures-bind, Ensures-if}
use tin_system_do_wspolpracy.Server.Incoming.{incoming_loop, handle_existing_incoming_connection}
use tin_system_do_wspolpracy.Server.Incoming.Keeping.{incoming_loop-IsKeeping}
use tin_system_do_wspolpracy.Server.Run.{
  Selected, Pass, handle_new_connection, to_watch, on_readable, on_writable, ready_of,
  run_descriptors, run_pass, run,
}
use tin_system_do_wspolpracy.Server.Run.Watching.{IsSetUp}
use tin_system_do_wspolpracy.Server.Run.Passes.{to_watch-IsKeeping, on_writable-IsKeeping}
use tin_system_do_wspolpracy.Server.Run.Tracking.{
  IsTracked, Tracked, IsSafe, Safely, keeping-IsSafe, accepts-IsSafe, remove_socket-IsSafe,
  covers_next,
}

incoming-IsSafe :
    (fuel : ℕ) (g : Garbage) (current : ℕ) (ready : IntSet) (s : Server)
    → has current ready ≡ true
    → IsSafe current ready s
    → Ensures (Safely (suc current) ready) (handle_existing_incoming_connection fuel g current s)
unfolding handle_existing_incoming_connection
incoming-IsSafe fuel g current ready s is_ready w =
    let next = Safely (suc current) ready in
    Ensures-bind (Safely current ready) next (incoming_loop fuel fuel g current) _ s
      (keeping-IsSafe current ready _ s (incoming_loop-IsKeeping fuel fuel g current) w)
      λ close_conn s' w'.
        Ensures-if next close_conn _ (pure tt) s'
          (λ _.
            remove_socket-IsSafe current ready
              (record s' {
                clients = ClientsMonitor.remove_socket current s'.clients;
                recv_buffers = delete_buff current s'.recv_buffers;
              })
              is_ready w')
          λ _. covers_next current ready s' w'

on_readable-IsSafe :
    (fuel : ℕ) (g : Garbage) (sel : Selected) (current : ℕ) (pass : Pass) (s : Server)
    → All IsSetUp sel.accepts
    → IsSafe current sel.read_set s
    → Ensures (Safely (suc current) sel.read_set) (on_readable fuel g sel current pass s)
unfolding on_readable
on_readable-IsSafe fuel g sel current pass s all w =
    let ready = sel.read_set in
    let next = Safely (suc current) ready in
    Ensures-if next (has current ready) _ (pure pass) s
      (λ is_ready.
        Ensures-if next (current == s.listening) _ _ s
          (λ _.
            Ensures-bind (Safely current ready) next (handle_new_connection sel.accepts) _ s
              (accepts-IsSafe current ready sel.accepts s all w)
              λ _ s' w'. covers_next current ready s' w')
          λ _.
            Ensures-if next
              (not (is_logged current s.clients)
                || not (get_socket_read_state current s.clients ==ℤ idle))
              _ _ s
              (λ _.
                Ensures-bind (Safely (suc current) ready) next
                  (handle_existing_incoming_connection fuel g current) _ s
                  (incoming-IsSafe fuel g current ready s is_ready w) λ _ s' w'. w')
              λ _. covers_next current ready s w)
      λ _. covers_next current ready s w

run_descriptors-IsTracked :
    (rounds fuel : ℕ) (g : Garbage) (sel : Selected) (write_set : IntSet) (current : ℕ)
    (pass : Pass) (s : Server)
    → All IsSetUp sel.accepts
    → IsSafe current sel.read_set s
    → Ensures Tracked (run_descriptors rounds fuel g sel write_set current pass s)
unfolding run_descriptors
run_descriptors-IsTracked zero fuel g sel write_set current pass s all w = tt
run_descriptors-IsTracked (suc rounds) fuel g sel write_set current pass s all w =
    let ready = sel.read_set in
    let next = Safely (suc current) ready in
    elim (Bool-cases (leb current s.max_sd && ltb_ℤ (pos 0) pass.desc_ready)) [
      | inr over ↦ rw (over, run_descriptors) w.0
      | inl goes_on ↦
          rw (goes_on, run_descriptors)
            (Ensures-bind next Tracked
              (λ t.
                (on_readable fuel g sel current pass >>= on_writable fuel g write_set current) t)
              (λ pass' s'. run_descriptors rounds fuel g sel write_set (suc current) pass' s') s
              (Ensures-bind next next (on_readable fuel g sel current pass) _ s
                (on_readable-IsSafe fuel g sel current pass s all w)
                λ p s' w'.
                  keeping-IsSafe (suc current) ready _ s'
                    (on_writable-IsKeeping fuel g write_set current p) w')
              λ p s' w'.
                run_descriptors-IsTracked rounds fuel g sel write_set (suc current) p s' all w')
    ]

has-ready_of : (k : ℕ) (set ready : IntSet) → has k (ready_of set ready) ≡ true → has k set ≡ true
unfolding ready_of find
has-ready_of k [] ready e = e
has-ready_of k ((j, v) ∷ set) ready e = ground (arith, has-ready_of k set ready)

run_pass-IsTracked :
    (fuel : ℕ) (g : Garbage) (sel : Selected) (s : Server)
    → All IsSetUp sel.accepts
    → IsTracked s
    → Ensures Tracked (run_pass fuel g sel s)
unfolding run_pass
run_pass-IsTracked fuel g sel s all w =
    let writers = get_to_write_connections_number s.clients in
    let fds = get_write_descriptors s.clients in
    let ready = ready_of s.master sel.read_set in
    let asked : M (Unit {0}) = if ltb 0 writers then (to_watch fds >>= λ _. pure tt) else pure tt in
    let start : IsSafe 0 ready s = (w, λ k _ r. has-ready_of k s.master sel.read_set r) in
    Ensures-bind (Safely 0 ready) Tracked asked _ s
      (Ensures-if (Safely 0 ready) (ltb 0 writers) _ (pure tt) s
        (λ _.
          Ensures-bind (Safely 0 ready) (Safely 0 ready) (to_watch fds) _ s
            (keeping-IsSafe 0 ready _ s (to_watch-IsKeeping fds) start) λ _ s' w'. w')
        λ _. start)
      λ _ s' w'.
        Ensures-if Tracked (ltb_ℤ sel.socket_count (pos 1)) (pure false) _ s' (λ _. w'.0)
          λ _.
            run_descriptors-IsTracked fuel fuel g (record sel { read_set = ready }) _ 0 _ s' all w'

-- When every new socket can be set up, the loop of `run` keeps it that what is watched is what is open, up
-- to `max_sd`, and only closes what is open.
pub run-IsTracked :
    (fuel : ℕ) (g : Garbage) (sels : List Selected) (s : Server)
    → All (λ sel. All IsSetUp sel.accepts) sels
    → IsTracked s
    → Ensures Tracked (run fuel g sels s)
unfolding run
run-IsTracked fuel g [] s all w = w
run-IsTracked fuel g (sel ∷ sels) s all w =
    Ensures-bind Tracked Tracked (run_pass fuel g sel) _ s (run_pass-IsTracked fuel g sel s all.0 w)
      λ goes_on s' w'.
        Ensures-if Tracked goes_on (run fuel g sels) (pure tt) s'
          (λ _. run-IsTracked fuel g sels s' all.1 w') λ _. w'
