-- ===== src/Examples/Connections.antt =====
-- The life of two connections on a concrete run.
use tin_system_do_wspolpracy.Base.{List, [], false, refl, true, ◌∷◌, ◌≡◌}
use tin_system_do_wspolpracy.ClientsMonitor.{
  get_login_state, is_logged, login_ended, is_rejected, msg_recvd,
}
use tin_system_do_wspolpracy.ClientsMonitor.LifeCycle.{
  Event, entered, connects, refuses, pardons, accepts, tells, leaves, reads, run, next, replay,
  empty, owed,
}
use tin_system_do_wspolpracy.ClientsMonitor.LifeCycle.Refining.{run-Refines}
use tin_system_do_wspolpracy.IntMap.{has}

-- Descriptor 5 is refused once and then enters, while 6 comes and goes.
abbrev visit : List Event
visit =
    (5, connects)
    ∷ (6, connects)
    ∷ (5, reads msg_recvd)
    ∷ (5, refuses)
    ∷ (6, leaves)
    ∷ (5, pardons)
    ∷ (5, accepts)
    ∷ (5, tells)
    ∷ []

run-Refines_example :
    let cm = run visit empty in
    (get_login_state 5 cm ≡ owed 5 entered)
    × (has 5 cm.clients_state ≡ true)
    × (is_logged 5 cm ≡ true)
    × (login_ended 5 cm ≡ true)
    × (is_rejected 5 cm ≡ false)
unfolding replay next
run-Refines_example = run-Refines 5 visit entered refl
