-- ===== src/Server/Process/Stopping.antt =====
-- What is open when the program ends.
use tin_system_do_wspolpracy.Base.{
  All, Bool-cases, List, [], ap, arith, false, if◌then◌else◌, inl, inr, leb, ltb, negsuc, ok, pos,
  refl, subst, suc, sym, true, zero, ℕ, ℤ, ◌&&◌, ◌+◌, ◌==◌, ◌∙◌, ◌≡◌,
}
use tin_system_do_wspolpracy.Files.{Files}
use tin_system_do_wspolpracy.IntMap.{IntSet, has, find, erase, add}
use tin_system_do_wspolpracy.IntMap.Bounds.{Within-add, has-Within, has-erase, add_nil}
use tin_system_do_wspolpracy.Server.State.{Server, Garbage, Received, Sent, pure, close, fd_setsize}
use tin_system_do_wspolpracy.Server.State.Ensures.{Ensures, Ensures-bind, bind_ok, Ensures-map}
use tin_system_do_wspolpracy.Server.Run.{Selected, run}
use tin_system_do_wspolpracy.Server.Run.Watching.{IsSetUp}
use tin_system_do_wspolpracy.Server.Run.Tracking.{IsTracked, Tracked}
use tin_system_do_wspolpracy.Server.Run.Tracking.Loop.{run-IsTracked}
use tin_system_do_wspolpracy.Server.Listening.{
  Answers, set_listening, set_socket, set_socket_opt, make_nonblocking, bind_address, set_to_listen,
}
use tin_system_do_wspolpracy.Server.Process.{
  initialize_fd_set, close_from, cleanup, perform, serve, run_server, main, new_server,
  default_port,
}

-- No socket is open, and `close` was never called for one that was not.
abbrev pub IsClosed : Server → Type 0
IsClosed s = ((fd : ℕ) → has fd s.open_sockets ≡ false) × (s.bad_closes ≡ [])

abbrev Closed : {A : Type 0} → A → Server → Type 0
Closed a s = IsClosed s

-- What is open in the loop that closes the descriptors of the set.
abbrev IsClosing : ℕ → IntSet → Server → Type 0
IsClosing current set s =
    ((fd : ℕ) → has fd s.open_sockets ≡ (has fd set && leb current fd)) × (s.bad_closes ≡ [])

close-IsClosing :
    (current : ℕ) (set : IntSet) (s : Server)
    → IsClosing current set s
    → Ensures
        (λ _ s'. IsClosing (suc current) set s')
        ((if has current set then close current else pure tt) s)
unfolding close
close-IsClosing current set s (agree, none_bad) = elim (Bool-cases (has current set)) [
  | inr e ↦ rw e (
    (λ fd. agree fd ∙ elim (Bool-cases (fd == current)) [
      | inl same ↦ ground (arith, has_same fd current set same)
      | inr other ↦ ground arith
    ]),
    none_bad,
  )
  | inl e ↦
      let is_open : has current s.open_sockets ≡ true = agree current ∙ ground arith in
      rw e (
        rw is_open
          ((λ fd. rw (has-erase fd current s.open_sockets, agree fd) (ground arith)), none_bad))
]
  where
    has_same : (j k : ℕ) (set : IntSet) → (j == k) ≡ true → has j set ≡ has k set
    has_same j k set e = ap (λ i. has i set) (ground arith)

close_from-IsClosing :
    (rounds current : ℕ) (set : IntSet) (s : Server)
    → IsClosing current set s
    → Ensures (λ _ s'. IsClosing (current + rounds) set s') (close_from rounds current set s)
unfolding close_from
close_from-IsClosing zero current set s h = let e : current + 0 ≡ current = omega arith in rw e h
close_from-IsClosing (suc rounds) current set s h =
    let e : current + suc rounds ≡ suc current + rounds = omega arith in
    rw e (
      Ensures-bind (λ _ s'. IsClosing (suc current) set s')
        (λ _ s'. IsClosing (suc current + rounds) set s')
        (if has current set then close current else pure tt) _ s (close-IsClosing current set s h)
        λ _ s' h'. close_from-IsClosing rounds (suc current) set s' h')

cleanup-IsClosed : (s : Server) → IsTracked s → Ensures Closed (cleanup s.max_sd s.master s)
unfolding cleanup
cleanup-IsClosed s (within, agree, none_bad) =
    Ensures-map
      (λ _ t h. (
        (λ fd. h.0 fd ∙ elim (Bool-cases (has fd s.master)) [
          | inl e ↦ ground (arith, has-Within s.max_sd fd s.master within e)
          | inr e ↦ rw e refl
        ]),
        h.1,
      ))
      (close_from (suc s.max_sd) 0 s.master s)
      (close_from-IsClosing (suc s.max_sd) 0 s.master s ((λ fd. agree fd ∙ ground arith), none_bad))

-- The sockets of a result of `set_listening`.
abbrev only_set : ℤ → IntSet
only_set (pos k) = add k []
only_set (negsuc _) = []

-- A process without a socket.
abbrev without : Server → Server
without s = record s { open_sockets = []; bad_closes = [] }

perform_by :
    (sk so io bi li : ℤ) (port_number : ℕ) (s : Server)
    → let result =
        set_listening
          (record { socket = sk; setsockopt = so; ioctl = io; bind = bi; listen = li })
          port_number
          [] in
      perform result.1 (without s)
      ≡ ok (tt, record (without s) { open_sockets = only_set result.0 })
unfolding set_listening set_socket set_socket_opt make_nonblocking bind_address set_to_listen
    perform close find erase
perform_by (negsuc k) so io bi li port_number s = ground arith
perform_by (pos k) so io bi li port_number s = ground (arith, add_nil k)

serve-IsClosed :
    (fuel : ℕ) (g : Garbage) (sels : List Selected) (listening : ℤ) (s : Server)
    → All (λ sel. All IsSetUp sel.accepts) sels
    → Ensures Closed
        (serve fuel g sels listening (record (without s) { open_sockets = only_set listening }))
unfolding serve find
serve-IsClosed fuel g sels (negsuc n) s all = ((λ fd. refl), refl)
serve-IsClosed fuel g sels (pos sockfd) s all = elim (Bool-cases (ltb sockfd fd_setsize)) [
  | inr large ↦ rw (large, serve) tt
  | inl small ↦
      let set = initialize_fd_set sockfd in
      let started : Server = record (without s) {
        open_sockets = set;
        listening = sockfd;
        master = set;
        max_sd = sockfd;
      } in
      rw (small, serve)
        (Ensures-bind Tracked Closed (run fuel g sels) _ started
          (run-IsTracked fuel g sels started all
            (Within-add sockfd sockfd [] (omega arith) tt, (λ k. refl), refl))
          λ _ s' w. cleanup-IsClosed s' w)
]

-- When the program, started without a client, comes to its end, and every socket that it accepted could
-- be set up, none of the sockets that it opened is open any more, and it has called `close` for open
-- sockets only: each one was closed once.
pub main-IsClosed :
    (fuel : ℕ) (g : Garbage) (a : Answers) (sels : List Selected) (changes_left : ℤ) (files : Files)
    (recvs : List Received) (sends : List Sent) (s : Server)
    → All (λ sel. All IsSetUp sel.accepts) sels
    → main fuel g a sels (new_server changes_left files recvs sends) ≡ ok (tt, s)
    → IsClosed s
unfolding main new_server run_server
main-IsClosed fuel g a sels changes_left files recvs sends s all e =
    let start = new_server changes_left files recvs sends in
    let result = set_listening a default_port [] in
    subst (Ensures Closed) e (
      subst (Ensures Closed)
        (sym (
          bind_ok (perform result.1) (λ _. serve fuel g sels result.0) start tt _
            (perform_by a.socket a.setsockopt a.ioctl a.bind a.listen default_port start)))
        (serve-IsClosed fuel g sels result.0 start all))
