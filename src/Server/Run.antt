-- ===== src/Server/Run.antt =====
-- The loop of `run`, and `handle_new_connection`. What `select` and `accept` answer is an input, as are
-- the results of the calls that set a new socket up.
pub mod Watching
pub mod Passes
pub mod Tracking
use tin_system_do_wspolpracy.Base.{
  Bool, List, [], false, fault, if◌then◌else◌, leb, ltb, ltb_ℤ, not, ok, out_of_fuel, pos, suc,
  true, undefined, zero, ℕ, ℤ, ◌&&◌, ◌-ℤ◌, ◌==ℤ◌, ◌==◌, ◌||◌, ◌∷◌,
}
use tin_system_do_wspolpracy.ClientsMonitor.{
  login_ended, is_logged, add_new_cli, get_socket_read_state, get_to_write_connections_number,
  get_write_descriptors, idle, wants_to_write,
}
use tin_system_do_wspolpracy.IntMap.{IntSet, add, has}
use tin_system_do_wspolpracy.Networking.{get_queue_len}
use tin_system_do_wspolpracy.RecvBuffers.{add_new}
use tin_system_do_wspolpracy.Server.State.{
  opened, fd_setsize, Server, Garbage, M, pure, ◌>>=◌, ◌>>◌, asks, modify, on_clients, on_buffers,
}
use tin_system_do_wspolpracy.Server.Incoming.{handle_existing_incoming_connection}
use tin_system_do_wspolpracy.Server.Outbound.{handle_existing_outbound_connection}

-- An answer of `accept`: a descriptor, with whether it could be made nonblocking and had its option
-- set.
pub data Accepted : Type 0 where
  connected : ℕ → Bool → Bool → Accepted
  blocked : Accepted
  failed : Accepted

-- The new descriptor is open, and enters the set, the monitor and the buffers.
unfoldable pub enter : ℕ → M (Unit {0})
enter new_cli =
    if ltb new_cli fd_setsize
    then (do
      opened new_cli
      modify λ s. record s { master = add new_cli s.master }
      on_clients (add_new_cli new_cli)
      on_buffers λ r. (add_new new_cli r).0)
    else λ s. fault undefined

-- `if (new_cli > max_sd) max_sd = new_cli;`
unfoldable pub raise : ℕ → M (Unit {0})
raise new_cli = modify λ s. record s { max_sd = if ltb s.max_sd new_cli then new_cli else s.max_sd }

-- The loop ends past the last answer, where `accept` would block. A socket that cannot be set up ends
-- it too, and stays entered.
unfoldable pub handle_new_connection : List Accepted → M Bool
handle_new_connection [] = pure true
handle_new_connection (blocked ∷ accepts) = pure true
handle_new_connection (failed ∷ accepts) = pure false
handle_new_connection (connected new_cli nonblocking quick ∷ accepts) =
    let later : M Bool = handle_new_connection accepts in
    enter new_cli >> (if nonblocking && quick then raise new_cli >> later else pure true)

-- What `select` answers, with the descriptors that are readable and the connections that are waiting then.
pub record Selected : Type 0 where
  pub socket_count : ℤ
  pub read_set : IntSet
  pub write_set : IntSet
  pub accepts : List Accepted

-- `networking.get_queue_len(elem) > 0`, which may create the queue.
pub queue_waits : ℕ → M Bool
queue_waits elem s =
    let (len, n) = get_queue_len elem s.networking in ok (ltb 0 len, record s { networking = n })

-- The descriptors that `select` is asked to watch for writing: those of a client that is logging in, or
-- with something in its queue.
unfoldable pub to_watch : List ℕ → M (List ℕ)
unfolding queue_waits
to_watch [] = pure []
to_watch (elem ∷ rest) = do
  ended ← asks λ s. login_ended elem s.clients
  keeps ← if not ended then pure true else queue_waits elem
  others ← to_watch rest
  pure (if keeps then elem ∷ others else others)

-- `select` leaves in a set those of its descriptors that are ready.
unfoldable pub ready_of : IntSet → IntSet → IntSet
ready_of [] ready = []
ready_of ((k, v) ∷ set) ready =
    let rest = ready_of set ready in if has k ready then (k, v) ∷ rest else rest

-- The variables of a pass.
pub record Pass : Type 0 where
  pub run_server : Bool
  pub desc_ready : ℤ

-- A readable descriptor.
unfoldable pub on_readable : ℕ → Garbage → Selected → ℕ → Pass → M Pass
on_readable fuel g sel current_desc pass =
    if has current_desc sel.read_set
    then (do
      s ← asks λ s. s
      let counted : Pass = record pass { desc_ready = pass.desc_ready -ℤ pos 1 }
      if current_desc == s.listening
          then (do
            goes_on ← handle_new_connection sel.accepts
            pure (record counted { run_server = goes_on }))
          else if not (is_logged current_desc s.clients)
              || not (get_socket_read_state current_desc s.clients ==ℤ idle)
          then (do handle_existing_incoming_connection fuel g current_desc; pure counted)
          else pure counted)
    else pure pass

-- A writable descriptor counts, whether or not there is something to write.
unfoldable pub on_writable : ℕ → Garbage → IntSet → ℕ → Pass → M Pass
on_writable fuel g write_set current_desc pass =
    if has current_desc write_set
    then (do
      wants ← asks λ s. wants_to_write s.clients current_desc
      if wants then handle_existing_outbound_connection fuel g current_desc else pure tt
      pure (record pass { desc_ready = pass.desc_ready -ℤ pos 1 }))
    else pure pass

-- The loop over the descriptors, with a round of fuel for each.
unfoldable pub run_descriptors : ℕ → ℕ → Garbage → Selected → IntSet → ℕ → Pass → M Bool
run_descriptors zero fuel g sel write_set current_desc pass s = fault out_of_fuel
run_descriptors (suc rounds) fuel g sel write_set current_desc pass s =
    let goes_on = leb current_desc s.max_sd && ltb_ℤ (pos 0) pass.desc_ready in
    let round : M Pass =
      on_readable fuel g sel current_desc pass >>= on_writable fuel g write_set current_desc in
    elim goes_on [
      | false ↦ ok (pass.run_server, s)
      | true ↦ elim (round s) [
        | fault e ↦ fault e
        | ok (pass', s') ↦ run_descriptors rounds fuel g sel write_set (suc current_desc) pass' s'
      ]
    ]

-- One pass of the loop of `run`, with its answer: whether the server runs on.
unfoldable pub run_pass : ℕ → Garbage → Selected → M Bool
run_pass fuel g sel = do
  writers ← asks λ s. get_to_write_connections_number s.clients
  fds ← asks λ s. get_write_descriptors s.clients
  watched ← asks λ s. s.master
  if ltb 0 writers then (to_watch fds >>= λ _. pure tt) else pure tt
  if ltb_ℤ sel.socket_count (pos 1)
      then pure false
      else run_descriptors fuel fuel g (record sel { read_set = ready_of watched sel.read_set })
          (if ltb 0 writers then sel.write_set else []) 0
          (record { run_server = true; desc_ready = sel.socket_count })

-- The loop, for as long as `select` answers.
unfoldable pub run : ℕ → Garbage → List Selected → M (Unit {0})
run fuel g [] = pure tt
run fuel g (sel ∷ sels) = do
  goes_on ← run_pass fuel g sel
  let later : M (Unit {0}) = run fuel g sels
  if goes_on then later else pure tt
