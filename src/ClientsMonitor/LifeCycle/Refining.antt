-- ===== src/ClientsMonitor/LifeCycle/Refining.antt =====
-- The monitor against the machine of phases.
use tin_system_do_wspolpracy.Base.{
  ==_iff, Bool, Bool-cases, List, Option-cases, [], ap, arith, false, inl, inr, refl, some, subst,
  sym, true, ℕ, ◌==ℤ◌, ◌==◌, ◌∷◌, ◌≡◌,
}
use tin_system_do_wspolpracy.ClientsMonitor.{
  ClientsMonitor, idle, get_socket_read_state, get_login_state, is_logged, is_rejected, login_ended,
  new_state, SocketState, add_new_cli, add_rejected_login, remove_rejected, add_logged_client,
  update_logged, remove_socket, set_socket_read_state, set_socket_write_state,
}
use tin_system_do_wspolpracy.ClientsMonitor.Fields.{find-set_field}
use tin_system_do_wspolpracy.ClientsMonitor.LifeCycle.{
  Phase, absent, Op, has_session, is_told, connects, refuses, pardons, accepts, tells, leaves,
  reads, writes, Event, operate, run, next, replay, knows, awaits_login, is_turned_down, session,
  owed, empty,
}
use tin_system_do_wspolpracy.IntMap.{find, has, get_or}
use tin_system_do_wspolpracy.IntMap.Laws.{find-update, find-erase}

-- The descriptor's entries in the monitor are those of the phase.
abbrev Represents : ℕ → ClientsMonitor → Phase → Type 0
Represents k cm p =
    (has k cm.clients_state ≡ knows p)
    × ((get_socket_read_state k cm ==ℤ idle) ≡ awaits_login p)
    × (find k cm.logged_clients ≡ session p)
    × (is_rejected k cm ≡ is_turned_down p)

-- Nothing that is read of descriptor `k` changes.
abbrev SameFor : ℕ → ClientsMonitor → ClientsMonitor → Type 0
SameFor k cm cm' =
    (find k cm'.clients_state ≡ find k cm.clients_state)
    × (find k cm'.logged_clients ≡ find k cm.logged_clients)
    × (find k cm'.rejected_logins ≡ find k cm.rejected_logins)

operate_other :
    (j k : ℕ) (o : Op) (cm : ClientsMonitor) → (j == k) ≡ false → SameFor k cm (operate j o cm)
unfolding operate add_new_cli add_rejected_login remove_rejected add_logged_client update_logged
    remove_socket set_socket_read_state set_socket_write_state
operate_other j k connects cm h = (
  ground (arith, find-update k j new_state (λ (w : SocketState). w) cm.clients_state),
  refl,
  refl,
)
operate_other j k refuses cm h =
    (refl, refl, ground (arith, find-update k j tt (λ (w : Unit {0}). w) cm.rejected_logins))
operate_other j k pardons cm h = (refl, refl, ground (arith, find-erase k j cm.rejected_logins))
operate_other j k accepts cm h =
    (refl, ground (arith, find-update k j false (λ (w : Bool). w) cm.logged_clients), refl)
operate_other j k tells cm h = (
  ground arith,
  ground (arith, find-update k j true (λ (_ : Bool). true) cm.logged_clients),
  ground arith,
)
operate_other j k leaves cm h = (
  ground (arith, find-erase k j cm.clients_state),
  ground (arith, find-erase k j cm.logged_clients),
  ground (arith, find-erase k j cm.rejected_logins),
)
operate_other j k (reads v) cm h = (
  ground (arith, find-set_field (λ (s : SocketState). record s { read_state = v }) k j cm),
  refl,
  refl,
)
operate_other j k (writes v) cm h = (
  ground (arith, find-set_field (λ (s : SocketState). record s { write_state = v }) k j cm),
  refl,
  refl,
)

keep_Represents :
    (k : ℕ) (cm cm' : ClientsMonitor) (p : Phase)
    → SameFor k cm cm'
    → Represents k cm p
    → Represents k cm' p
unfolding is_rejected get_socket_read_state
keep_Represents k cm cm' p (s, l, r) (a, b, c, d) =
    (ground (arith, s), ground (arith, s), ground (arith, l), ground (arith, r))

operate_same :
    (k : ℕ) (o : Op) (cm : ClientsMonitor) (p q : Phase)
    → next o p ≡ some q
    → Represents k cm p
    → Represents k (operate k o cm) q
unfolding operate add_new_cli add_rejected_login remove_rejected add_logged_client update_logged
    remove_socket set_socket_read_state set_socket_write_state is_rejected get_socket_read_state
    next
operate_same k connects cm p q h (a, b, c, d) =
    let f = find-update k k new_state (λ (w : SocketState). w) cm.clients_state in
    (ground (arith, f, a, h), ground (arith, f, a, h), ground (arith, c, h), ground (arith, d, h))
operate_same k refuses cm p q h (a, b, c, d) =
    let f = find-update k k tt (λ (w : Unit {0}). w) cm.rejected_logins in
    (ground (arith, a, h), ground (arith, b, h), ground (arith, c, h), ground (arith, f, d, h))
operate_same k pardons cm p q h (a, b, c, d) =
    let f = find-erase k k cm.rejected_logins in
    (ground (arith, a, h), ground (arith, b, h), ground (arith, c, h), ground (arith, f, d, h))
operate_same k accepts cm p q h (a, b, c, d) =
    let f = find-update k k false (λ (w : Bool). w) cm.logged_clients in
    (ground (arith, a, h), ground (arith, b, h), ground (arith, f, c, h), ground (arith, d, h))
operate_same k tells cm p q h (a, b, c, d) =
    let f = find-update k k true (λ (_ : Bool). true) cm.logged_clients in
    (ground (arith, a, h), ground (arith, b, h), ground (arith, f, c, h), ground (arith, d, h))
operate_same k leaves cm p q h (a, b, c, d) =
    let f = find-erase k k cm.clients_state in
    let g = find-erase k k cm.logged_clients in
    let i = find-erase k k cm.rejected_logins in
    (ground (arith, f, h), ground (arith, f, h), ground (arith, g, h), ground (arith, i, h))
operate_same k (reads v) cm p q h (a, b, c, d) =
    let f = find-set_field (λ (s : SocketState). record s { read_state = v }) k k cm in
    (ground (arith, f, a, h), ground (arith, f, a, h), ground (arith, c, h), ground (arith, d, h))
operate_same k (writes v) cm p q h (a, b, c, d) =
    let f = find-set_field (λ (s : SocketState). record s { write_state = v }) k k cm in
    (
      ground (arith, f, a, h),
      ground (arith, f, a, b, h),
      ground (arith, c, h),
      ground (arith, d, h),
    )

run-Represents :
    (k : ℕ) (events : List Event) (cm : ClientsMonitor) (p q : Phase)
    → Represents k cm p
    → replay k events p ≡ some q
    → Represents k (run events cm) q
unfolding run replay
run-Represents k [] cm p q r h = subst (Represents k cm) (ap (get_or p) h) r
run-Represents k ((j, o) ∷ events) cm p q r h = elim (Bool-cases (j == k)) [
  | inl e ↦ elim (Option-cases (next o p)) [
    | inl n ↦ ground (arith, n)
    | inr (p', n) ↦
        run-Represents k events (operate j o cm) p' q
          (subst (λ i. Represents k (operate i o cm) p') (sym ((==_iff j k).0 e))
            (operate_same k o cm p p' n r))
          (ground (arith, n))
  ]
  | inr e ↦
      run-Represents k events (operate j o cm) p q
        (keep_Represents k cm (operate j o cm) p (operate_other j k o cm e) r) (ground arith)
]

-- What the login handler reads of a descriptor.
read_Represents :
    (k : ℕ) (cm : ClientsMonitor) (p : Phase)
    → Represents k cm p
    → (get_login_state k cm ≡ owed k p)
      × (is_logged k cm ≡ has_session p)
      × (login_ended k cm ≡ is_told p)
unfolding get_login_state is_logged login_ended get_socket_read_state is_rejected
read_Represents k cm p (a, b, c, d) =
    (ground (arith, a, b, c, d), ground (arith, c), ground (arith, c))

empty-Represents : (k : ℕ) → Represents k empty absent
unfolding get_socket_read_state is_rejected find
empty-Represents k = (refl, refl, refl, refl)

-- Of a descriptor whose operations of a run come in an order that the machine of phases allows, the
-- monitor answers after the run what its phase says, whatever the run does to other descriptors:
-- whether it is known, logged in, told so or refused, and which message of the login is next.
pub run-Refines :
    (k : ℕ) (events : List Event) (p : Phase)
    → replay k events absent ≡ some p
    → let cm = run events empty in
      (get_login_state k cm ≡ owed k p)
      × (has k cm.clients_state ≡ knows p)
      × (is_logged k cm ≡ has_session p)
      × (login_ended k cm ≡ is_told p)
      × (is_rejected k cm ≡ is_turned_down p)
run-Refines k events p h =
    let r = run-Represents k events empty absent p (empty-Represents k) h in
    let (g, l, t) = read_Represents k (run events empty) p r in (g, r.0, l, t, r.3)
