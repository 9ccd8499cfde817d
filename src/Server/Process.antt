-- ===== src/Server/Process.antt =====
-- The server as a process: `initialize_fd_set`, `init_set_with_fds`, `select_fds`, `cleanup`, `run` from its
-- first line to its last, the new `Server`, and `main`.
pub mod Stopping
use tin_system_do_wspolpracy.Base.{
  List, Outcome, [], fault, if◌then◌else◌, ltb, negsuc, ok, pos, suc, undefined, zero, ℕ, ℤ, ◌+◌,
  ◌∷◌,
}
use tin_system_do_wspolpracy.IntMap.{IntSet, add, has}
use tin_system_do_wspolpracy.Files.{Files}
use tin_system_do_wspolpracy.LoginHandler
use tin_system_do_wspolpracy.NotepadHandler
use tin_system_do_wspolpracy.Server.Run.{Selected, run}
use tin_system_do_wspolpracy.Server.State.{
  Server, Garbage, Received, Sent, M, pure, asks, modify, opened, close, fd_setsize, ◌>>=◌, ◌>>◌,
}
use tin_system_do_wspolpracy.Server.Listening.{Answers, Call, set_listening}

abbrev pub initialize_fd_set : ℕ → IntSet
initialize_fd_set sockfd = add sockfd []

-- Each descriptor of the list is put into the set, the first one first.
unfoldable pub put_fds : IntSet → List ℕ → IntSet
put_fds sock_set [] = sock_set
put_fds sock_set (sockfd ∷ fds) = put_fds (add sockfd sock_set) fds

abbrev pub init_set_with_fds : List ℕ → IntSet
init_set_with_fds fds = put_fds [] fds

-- With a timeout, `select` gets the address of a local variable whose block has ended.
unfoldable pub select_fds : (ℕ → ℤ) → ℕ → ℤ → Outcome ℤ
select_fds select nfds (negsuc n) = ok (select (nfds + 1))
select_fds select nfds (pos timeout_sec) = fault undefined

-- The loop that closes the descriptors of the set, from `current` on, with a round for each.
unfoldable pub close_from : ℕ → ℕ → IntSet → M (Unit {0})
close_from zero current set = pure tt
close_from (suc rounds) current set =
    let rest : M (Unit {0}) = close_from rounds (suc current) set in
    (if has current set then close current else pure tt) >> rest

unfoldable pub cleanup : ℕ → IntSet → M (Unit {0})
cleanup max_desc set = close_from (suc max_desc) 0 set

-- What the calls do to the sockets of the process.
unfoldable pub perform : List Call → M (Unit {0})
perform [] = pure tt
perform (c ∷ calls) =
    let rest : M (Unit {0}) = perform calls in
    elim c [
      | Call.socket (pos sockfd) ↦ opened sockfd >> rest
      | Call.socket (negsuc n) ↦ rest
      | Call.close (pos sockfd) ↦ close sockfd >> rest
      | Call.close (negsuc n) ↦ rest
      | Call.setsockopt sockfd opt_on ↦ rest
      | Call.ioctl sockfd ↦ rest
      | Call.bind sockfd port_number ↦ rest
      | Call.listen sockfd ↦ rest
    ]

-- The loop of `run` with what stands before and behind it, once the socket listens.
unfoldable pub serve : ℕ → Garbage → List Selected → ℤ → M (Unit {0})
serve fuel g sels (negsuc n) = pure tt
serve fuel g sels (pos sockfd) =
    if ltb sockfd fd_setsize
    then (do
      modify
          λ s. record s { listening = sockfd; master = initialize_fd_set sockfd; max_sd = sockfd }
      run fuel g sels
      s ← asks λ s. s
      cleanup s.max_sd s.master)
    else λ s. fault undefined

-- The whole of `run`. Past the last answer of `select` the loop is over.
unfoldable pub run_server : ℕ → Garbage → Answers → ℕ → List Selected → M (Unit {0})
run_server fuel g a port_number sels =
    let (listening, calls) = set_listening a port_number [] in
    perform calls >> serve fuel g sels listening

-- A new `Server`, in a process to which the kernel will answer `recvs` and `sends`. `max_sd` and
-- `listening` are -1 in the source until `run` sets them, and nothing reads them before. What the memory
-- holds for `changes_left` is an argument.
unfoldable pub new_server : ℤ → Files → List Received → List Sent → Server
new_server changes_left files recvs sends = record {
  max_sd = 0;
  listening = 0;
  master = [];
  recv_buffers = record { buffers = [] };
  clients = record { clients_state = []; logged_clients = []; rejected_logins = [] };
  login_handler = LoginHandler.init;
  networking = record { netstate = []; send_queues = [] };
  notepad = NotepadHandler.init changes_left;
  files = files;
  recvs = recvs;
  sends = sends;
  sent = [];
  open_sockets = [];
  bad_closes = [];
}

abbrev default_port : ℕ
default_port = 54000

-- `main`.
unfoldable pub main : ℕ → Garbage → Answers → List Selected → M (Unit {0})
main fuel g a sels = run_server fuel g a default_port sels
