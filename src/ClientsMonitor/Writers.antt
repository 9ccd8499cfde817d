-- ===== src/ClientsMonitor/Writers.antt =====
-- The descriptors that `get_write_descriptors` collects, and their number.
use tin_system_do_wspolpracy.Base.{
  Bool, Bool-cases, List, [], append-nil, append_assoc, arith, if◌then◌else◌, inl, inr, length, sym,
  ℕ, ◌++◌, ◌+◌, ◌∙◌, ◌∷◌, ◌≡◌,
}
use tin_system_do_wspolpracy.IntMap.{keys}
use tin_system_do_wspolpracy.ClientsMonitor.{
  ClientsMonitor, wants_to_write, count_writers, collect_writers, get_to_write_connections_number,
  get_write_descriptors,
}

-- The elements that pass a test, in order.
abbrev pub filter : (ℕ → Bool) → List ℕ → List ℕ
filter p [] = []
filter p (x ∷ xs) = if p x then x ∷ filter p xs else filter p xs

collect_writers-filter :
    (cm : ClientsMonitor) (fds res : List ℕ)
    → collect_writers cm fds res ≡ res ++ filter (wants_to_write cm) fds
unfolding collect_writers
collect_writers-filter cm [] res = sym (append-nil res)
collect_writers-filter cm (fd ∷ fds) res = elim (Bool-cases (wants_to_write cm fd)) [
  | inl e ↦ rw e (
      collect_writers-filter cm fds (res ++ (fd ∷ []))
      ∙ append_assoc res (fd ∷ []) (filter (wants_to_write cm) fds))
  | inr e ↦ rw e (collect_writers-filter cm fds res)
]

count_writers-filter :
    (cm : ClientsMonitor) (fds : List ℕ) (count : ℕ)
    → count_writers cm fds count ≡ count + length (filter (wants_to_write cm) fds)
unfolding count_writers
count_writers-filter cm [] count = omega arith
count_writers-filter cm (fd ∷ fds) count = elim (Bool-cases (wants_to_write cm fd)) [
  | inl e ↦ rw e (omega (arith, count_writers-filter cm fds (count + 1)))
  | inr e ↦ rw e (count_writers-filter cm fds count)
]

-- `get_write_descriptors` lists exactly the descriptors known whose write state is that of a header or
-- a body to send, in the order of the map, and `get_to_write_connections_number` is their number.
pub get_write_descriptors-filter :
    (cm : ClientsMonitor)
    → (get_write_descriptors cm ≡ filter (wants_to_write cm) (keys cm.clients_state))
      × (get_to_write_connections_number cm ≡ length (get_write_descriptors cm))
unfolding get_write_descriptors get_to_write_connections_number
get_write_descriptors-filter cm =
    let fds = keys cm.clients_state in
    let collected = collect_writers-filter cm fds [] in
    (collected, rw collected (omega (arith, count_writers-filter cm fds 0)))
