-- ===== src/Server/Listening.antt =====
-- `set_listening` with the calls that it makes. What the operating system answers is a parameter. The
-- address family, the options' names and the length of the queue are the same in every call, and left
-- out.
pub mod Opened
use tin_system_do_wspolpracy.Base.{
  Bool, List, [], if◌then◌else◌, length, ltb_ℤ, minus_one, pos, true, ℕ, ℤ, ◌++◌, ◌==ℤ◌, ◌∷◌,
}
use tin_system_do_wspolpracy.IntMap.{IntSet, add, has}
use tin_system_do_wspolpracy.Files.{Files}
use tin_system_do_wspolpracy.LoginHandler
use tin_system_do_wspolpracy.NotepadHandler
use tin_system_do_wspolpracy.Server.Run.{Selected, run}
use tin_system_do_wspolpracy.Server.State.{Server, Garbage, Received, Sent}

-- A call of the operating system that is about a socket; `socket` with its answer.
pub data Call : Type 0 where
  socket : ℤ → Call
  setsockopt : ℤ → Bool → Call
  ioctl : ℤ → Call
  bind : ℤ → ℕ → Call
  listen : ℤ → Call
  close : ℤ → Call

-- What the calls of `set_listening` answer.
pub record Answers : Type 0 where
  pub socket : ℤ
  pub setsockopt : ℤ
  pub ioctl : ℤ
  pub bind : ℤ
  pub listen : ℤ

-- A function that makes calls, oldest first.
abbrev Calls : Type 0 → Type 0
Calls A = List Call → A × List Call

abbrev done : {A : Type 0} → A → Calls A
done a calls = (a, calls)

abbrev call : Call → ℤ → Calls ℤ
call c answer calls = (answer, calls ++ (c ∷ []))

infixl 5 ◌>>=◌ ◌>>◌
abbrev ◌>>=◌ : {A B : Type 0} → Calls A → (A → Calls B) → Calls B
◌>>=◌ m f calls = let (a, calls') = m calls in f a calls'

abbrev ◌>>◌ : {A B : Type 0} → Calls A → Calls B → Calls B
m >> k = m >>= λ _. k

unfoldable pub set_socket : Answers → Calls ℤ
set_socket a = call (Call.socket a.socket) a.socket

unfoldable pub set_socket_opt : Answers → ℤ → Bool → Calls ℤ
set_socket_opt a sockfd opt_on = call (Call.setsockopt sockfd opt_on) a.setsockopt

unfoldable pub make_nonblocking : Answers → ℤ → Calls ℤ
make_nonblocking a sockfd = call (Call.ioctl sockfd) a.ioctl

-- The result is that of the comparison with -1.
unfoldable pub bind_address : Answers → ℕ → ℤ → Calls ℤ
bind_address a port_number sockfd = do
  answer ← call (Call.bind sockfd port_number) a.bind
  done (if answer ==ℤ minus_one then pos 1 else pos 0)

unfoldable pub set_to_listen : Answers → ℤ → Calls ℤ
set_to_listen a sockfd = call (Call.listen sockfd) a.listen

-- The socket is of no use: it is closed, whatever `close` answers.
abbrev give_up : ℤ → Calls ℤ
give_up sockfd = do call (Call.close sockfd) (pos 0); done minus_one

unfoldable pub set_listening : Answers → ℕ → Calls ℤ
unfolding set_socket set_socket_opt make_nonblocking bind_address set_to_listen
set_listening a port_number = do
  sockfd ← set_socket a
  if ltb_ℤ sockfd (pos 0) then done minus_one else (do
    set ← set_socket_opt a sockfd true
    if ltb_ℤ set (pos 0) then give_up sockfd else (do
      nonblocking ← make_nonblocking a sockfd
      if ltb_ℤ nonblocking (pos 0) then give_up sockfd else (do
        bound ← bind_address a port_number sockfd
        if ltb_ℤ bound (pos 0) then give_up sockfd else (do
          listens ← set_to_listen a sockfd
          if ltb_ℤ listens (pos 0) then give_up sockfd else done sockfd))))
