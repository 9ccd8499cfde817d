-- ===== src/Server/State.antt =====
-- The state of `Server`, and the program as functions on it. What the kernel answers to `recv` and
-- `send` is an input: two lists of answers, taken in order, past whose end every call would block.
pub mod Ensures
pub mod Keeping
use tin_system_do_wspolpracy.Base.{
  Bool, Bytes, List, Outcome, [], fault, if◌then◌else◌, not, ok, take, ℕ, ℤ, ◌++◌, ◌∷◌,
}
use tin_system_do_wspolpracy.ClientsMonitor.{ClientsMonitor}
use tin_system_do_wspolpracy.Files.{Files}
use tin_system_do_wspolpracy.IntMap.{IntSet, add, erase, has}
use tin_system_do_wspolpracy.LoginHandler.{LoginHandler}
use tin_system_do_wspolpracy.Networking.{Networking}
use tin_system_do_wspolpracy.NotepadHandler.{NotepadHandler}
use tin_system_do_wspolpracy.RecvBuffers.{RecvBuffers}

-- No bytes received mean that the peer has closed the connection.
pub data Received : Type 0 where
  bytes : Bytes → Received
  blocked : Received
  failed : Received

pub data Sent : Type 0 where
  accepted : ℕ → Sent
  blocked : Sent
  failed : Sent

-- What the variables hold that the source does not initialise: `found` of `get_first_obs_len`, `res` of
-- `client_login`, and the creators of the characters that `Note::toString` reads.
pub record Garbage : Type 0 where
  pub found : Bool
  pub res : ℤ
  pub creators : ℕ → ℤ

-- `sent` is what went out on each descriptor, oldest first. `open_sockets` are the sockets that the kernel
-- keeps open for the process, and `bad_closes` the descriptors that `close` was called with although
-- they were not open.
pub record Server : Type 0 where
  pub max_sd : ℕ
  pub listening : ℕ
  pub master : IntSet
  pub recv_buffers : RecvBuffers
  pub clients : ClientsMonitor
  pub login_handler : LoginHandler
  pub networking : Networking
  pub notepad : NotepadHandler
  pub files : Files
  pub recvs : List Received
  pub sends : List Sent
  pub sent : List (ℕ × Bytes)
  pub open_sockets : IntSet
  pub bad_closes : List ℕ

-- A member function: it leaves a new state and a result, or ends the process.
abbrev pub M : Type 0 → Type 0
M A = Server → Outcome (A × Server)

abbrev pub pure : {A : Type 0} → A → M A
pure a s = ok (a, s)

infixl 5 ◌>>=◌ ◌>>◌
abbrev pub ◌>>=◌ : {A B : Type 0} → M A → (A → M B) → M B
◌>>=◌ m f s = elim (m s) [ ok (a, s') ↦ f a s' | fault e ↦ fault e ]

abbrev pub ◌>>◌ : {B : Type 0} → M (Unit {0}) → M B → M B
m >> k = m >>= λ _. k

abbrev pub asks : {A : Type 0} → (Server → A) → M A
asks f s = ok (f s, s)

abbrev pub modify : (Server → Server) → M (Unit {0})
modify f s = ok (tt, f s)

abbrev pub on_clients : (ClientsMonitor → ClientsMonitor) → M (Unit {0})
on_clients f = modify λ s. record s { clients = f s.clients }

abbrev pub on_networking : (Networking → Networking) → M (Unit {0})
on_networking f = modify λ s. record s { networking = f s.networking }

abbrev pub on_buffers : (RecvBuffers → RecvBuffers) → M (Unit {0})
on_buffers f = modify λ s. record s { recv_buffers = f s.recv_buffers }

-- The system calls that give a socket to the process, and take it back.
abbrev pub opened : ℕ → M (Unit {0})
opened sockfd = modify λ s. record s { open_sockets = add sockfd s.open_sockets }

unfoldable pub close : ℕ → M (Unit {0})
close sockfd = modify λ s.
    if has sockfd s.open_sockets
    then record s { open_sockets = erase sockfd s.open_sockets }
    else record s { bad_closes = s.bad_closes ++ (sockfd ∷ []) }

-- `FD_SET` writes past the end of the set for a descriptor of FD_SETSIZE or more.
abbrev pub fd_setsize : ℕ
fd_setsize = 1024
