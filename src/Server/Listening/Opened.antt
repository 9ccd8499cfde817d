-- ===== src/Server/Listening/Opened.antt =====
-- What `set_listening` leaves open.
use tin_system_do_wspolpracy.Base.{
  List, [], arith, if◌then◌else◌, negsuc, pos, ℕ, ℤ, ◌==◌, ◌∷◌, ◌≡◌,
}
use tin_system_do_wspolpracy.Server.Listening.{
  Answers, Call, set_listening, set_socket, set_socket_opt, make_nonblocking, bind_address,
  set_to_listen,
}

-- The list without its first occurrence of the descriptor.
unfoldable pub closes : ℕ → List ℕ → List ℕ
closes k [] = []
closes k (j ∷ fds) = let rest = closes k fds in if j == k then fds else j ∷ rest

-- The descriptors that are open after the calls, when `fds` were before.
unfoldable pub still_open : List Call → List ℕ → List ℕ
unfolding closes
still_open [] fds = fds
still_open (Call.socket (pos k) ∷ calls) fds = still_open calls (k ∷ fds)
still_open (Call.socket (negsuc _) ∷ calls) fds = still_open calls fds
still_open (Call.close (pos k) ∷ calls) fds = still_open calls (closes k fds)
still_open (Call.close (negsuc _) ∷ calls) fds = still_open calls fds
still_open (Call.setsockopt _ _ ∷ calls) fds = still_open calls fds
still_open (Call.ioctl _ ∷ calls) fds = still_open calls fds
still_open (Call.bind _ _ ∷ calls) fds = still_open calls fds
still_open (Call.listen _ ∷ calls) fds = still_open calls fds

-- The descriptors of a result: none when it is negative.
abbrev pub only : ℤ → List ℕ
only (pos k) = k ∷ []
only (negsuc _) = []

still_open_by :
    (sk so io bi li : ℤ) (port_number : ℕ)
    → let result =
        set_listening
          (record { socket = sk; setsockopt = so; ioctl = io; bind = bi; listen = li })
          port_number
          [] in
      still_open result.1 [] ≡ only result.0
unfolding set_listening set_socket set_socket_opt make_nonblocking bind_address set_to_listen
    still_open closes
still_open_by (negsuc k) so io bi li port_number = ground arith
still_open_by (pos k) so io bi li port_number = ground arith

-- Whatever the operating system answers, the calls of `set_listening` leave open the descriptor that it
-- returns, and no other one; when it returns a negative number they leave none open.
pub set_listening-still_open :
    (a : Answers) (port_number : ℕ)
    → still_open (set_listening a port_number []).1 [] ≡ only (set_listening a port_number []).0
set_listening-still_open a = still_open_by a.socket a.setsockopt a.ioctl a.bind a.listen

-- The result of `set_listening` and the calls that it makes are the same whatever `bind` answers: a
-- port that is taken is never noticed.
pub set_listening_unbound :
    (a : Answers) (answer : ℤ) (port_number : ℕ)
    → set_listening (record a { bind = answer }) port_number [] ≡ set_listening a port_number []
unfolding set_listening set_socket set_socket_opt make_nonblocking bind_address set_to_listen
set_listening_unbound a answer port_number = ground arith
