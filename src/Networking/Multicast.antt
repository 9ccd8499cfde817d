-- ===== src/Networking/Multicast.antt =====
-- What `set_multicast` leaves for each receiver, and for everybody else.
use tin_system_do_wspolpracy.Base.{
  Bool, Bool-cases, List, [], arith, false, if◌then◌else◌, inl, inr, refl, some, subst, suc, sym,
  true, ℕ, ℤ, ◌++◌, ◌==◌, ◌∙◌, ◌∷◌, ◌≡◌,
}
use tin_system_do_wspolpracy.ClientsMonitor.{
  ClientsMonitor, SocketState, zero_state, get_socket_write_state, get_socket_write_bytes_number,
  set_socket_write_state, set_socket_write_bytes_number, header_to_send,
}
use tin_system_do_wspolpracy.IntMap.{IntMap, IntSet, find, has, keys, update, get_or}
use tin_system_do_wspolpracy.IntMap.Laws.{find-update}
use tin_system_do_wspolpracy.IntMap.Order.{RisesFrom, IsSorted, find_below}
use tin_system_do_wspolpracy.Networking.{
  NetState, Networking, new_netstate, get_msg_type, set_field, set_msg_type, set_msg_len,
  add_to_send, notify, notify_each, set_multicast, queue,
}

abbrev pub message : ℤ → ℤ → NetState
message t l = record { msg_type = t; msg_len = l }

-- The state of descriptor `j` after a message for it was queued, or after none was.
pub record Notified (t l : ℤ) (hit : Bool) (j : ℕ) (before after : ClientsMonitor × Networking)
    : Type 0 where
  pub queued :
      queue j after.1 ≡ (if hit then queue j before.1 ++ (message t l ∷ []) else queue j before.1)
  pub write_state :
      get_socket_write_state j after.0
      ≡ (if hit then header_to_send else get_socket_write_state j before.0)
  pub write_bytes :
      get_socket_write_bytes_number j after.0
      ≡ (if hit then l else get_socket_write_bytes_number j before.0)

-- The setters of the current message leave the queues alone.
send_queues-set_field :
    (f : NetState → NetState) (k : ℕ) (n : Networking)
    → (set_field f k n).send_queues ≡ n.send_queues
unfolding set_field
send_queues-set_field f k n = ground arith

abbrev ready : SocketState → SocketState
ready s = record s { write_state = header_to_send }

abbrev sized : ℤ → SocketState → SocketState
sized l s = record s { write_bytes = l }

-- The two writes of a round to the monitor, as one.
find-notify :
    (l : ℤ) (k j : ℕ) (m : IntMap SocketState)
    → find j (update k zero_state ready (update k zero_state (sized l) m))
      ≡ (if k == j then some (ready (sized l (get_or zero_state (find j m)))) else find j m)
find-notify l k j m = ground (
  arith,
  find-update j k zero_state ready (update k zero_state (sized l) m),
  find-update j k zero_state (sized l) m,
  find-update k k zero_state (sized l) m,
)

queue-notify :
    (t l : ℤ) (k j : ℕ) (n : Networking)
    → queue j (add_to_send k t l (set_msg_len k l (set_msg_type k t n)))
      ≡ (if k == j then queue j n ++ (message t l ∷ []) else queue j n)
unfolding add_to_send set_msg_len set_msg_type
queue-notify t l k j n =
    let typed : Networking = set_field (λ s. record s { msg_type = t }) k n in
    let both : Networking = set_field (λ s. record s { msg_len = l }) k typed in
    let kept : both.send_queues ≡ n.send_queues =
      send_queues-set_field _ k typed ∙ send_queues-set_field _ k n in
    let push = λ (q : List NetState). q ++ (message t l ∷ []) in
    rw kept (ground (arith, find-update j k [] push n.send_queues))

notify-Notified :
    (t l : ℤ) (k j : ℕ) (cm : ClientsMonitor) (n : Networking)
    → Notified t l (k == j) j (cm, n) (notify t l k (cm, n))
unfolding notify set_socket_write_state set_socket_write_bytes_number get_socket_write_state
    get_socket_write_bytes_number
notify-Notified t l k j cm n = record {
  queued = queue-notify t l k j n;
  write_state = ground (arith, find-notify l k j cm.clients_state);
  write_bytes = ground (arith, find-notify l k j cm.clients_state);
}

Notified-after :
    (t l : ℤ) (hit : Bool) (j : ℕ) (a b c : ClientsMonitor × Networking)
    → Notified t l hit j a b
    → Notified t l false j b c
    → Notified t l hit j a c
Notified-after t l hit j a b c p q = record {
  queued = q.queued ∙ p.queued;
  write_state = q.write_state ∙ p.write_state;
  write_bytes = q.write_bytes ∙ p.write_bytes;
}

Notified-before :
    (t l : ℤ) (hit : Bool) (j : ℕ) (a b c : ClientsMonitor × Networking)
    → Notified t l false j a b
    → Notified t l hit j b c
    → Notified t l hit j a c
Notified-before t l hit j a b c p q = record {
  queued = rw (← p.queued) (q.queued);
  write_state = rw (← p.write_state) (q.write_state);
  write_bytes = rw (← p.write_bytes) (q.write_bytes);
}

notify_each-Notified :
    (t l : ℤ) (first j : ℕ) (m : IntSet) (s : ClientsMonitor × Networking)
    → RisesFrom first m
    → Notified t l (has j m) j s (notify_each t l (keys m) s)
unfolding notify_each keys find
notify_each-Notified t l first j [] s r = record {
  queued = refl;
  write_state = refl;
  write_bytes = refl;
}
notify_each-Notified t l first j ((k, v) ∷ m) (cm, n) r =
    let s' = notify t l k (cm, n) in
    let one = notify-Notified t l k j cm n in
    let rest = notify_each-Notified t l (suc k) j m s' r.1 in
    elim (Bool-cases (k == j)) [
      | inl e ↦
          let gone : has j m ≡ false = ground (arith, find_below (suc k) j m (ground arith) r.1) in
          let here : has j ((k, v) ∷ m) ≡ true = ground arith in
          let P = λ (b : Bool). Notified t l b j (cm, n) (notify_each t l (keys m) s') in
          subst P (sym here) (
            Notified-after t l true j (cm, n) s' _ (subst (λ b. Notified t l b j (cm, n) s') e one)
              (subst (λ b. Notified t l b j s' (notify_each t l (keys m) s')) gone rest))
      | inr e ↦
          let there : has j ((k, v) ∷ m) ≡ has j m = ground arith in
          let P = λ (b : Bool). Notified t l b j (cm, n) (notify_each t l (keys m) s') in
          subst P (sym there) (
            Notified-before t l (has j m) j (cm, n) s' _
              (subst (λ b. Notified t l b j (cm, n) s') e one) rest)
    ]

-- A multicast to a sorted set queues the message once for each receiver, behind what its queue
-- holds, and sets the receiver to send a header of `msg_len` bytes; the queue, the write state and
-- the unsent bytes of everybody else stay.
pub set_multicast-Notified :
    (receivers : IntSet) (msg_t msg_len : ℤ) (j : ℕ) (cm : ClientsMonitor) (n : Networking)
    → IsSorted receivers
    → Notified msg_t msg_len
        (has j receivers)
        j
        (cm, n)
        (set_multicast receivers msg_t msg_len (cm, n))
unfolding set_multicast
set_multicast-Notified receivers msg_t msg_len j cm n r =
    notify_each-Notified msg_t msg_len 0 j receivers (cm, n) r

notify_each_logged :
    (t l : ℤ) (fds : List ℕ) (s : ClientsMonitor × Networking)
    → (notify_each t l fds s).0.logged_clients ≡ s.0.logged_clients
unfolding notify_each notify set_socket_write_state set_socket_write_bytes_number
notify_each_logged t l [] s = refl
notify_each_logged t l (fd ∷ fds) s = notify_each_logged t l fds (notify t l fd s)

-- A multicast changes nobody's login.
pub set_multicast_logged :
    (receivers : IntSet) (t l : ℤ) (s : ClientsMonitor × Networking)
    → (set_multicast receivers t l s).0.logged_clients ≡ s.0.logged_clients
unfolding set_multicast
set_multicast_logged receivers t l s = notify_each_logged t l (keys receivers) s

-- A change of the length leaves the type.
pub get_msg_type-set_msg_len :
    (k : ℕ) (l : ℤ) (n : Networking) → get_msg_type k (set_msg_len k l n) ≡ get_msg_type k n
unfolding get_msg_type set_msg_len set_field
get_msg_type-set_msg_len k l n =
    ground
      (arith, find-update k k new_netstate (λ (s : NetState). record s { msg_len = l }) n.netstate)
