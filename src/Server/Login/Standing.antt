-- ===== src/Server/Login/Standing.antt =====
-- The blocks of `client_login` before the check leave the accounts alone, and who is logged in.
use tin_system_do_wspolpracy.Base.{Bool, ap, arith, true, ℕ, ℤ, ◌≡◌}
use mathlib.Core.Path.{fun_ext}
use tin_system_do_wspolpracy.ClientsMonitor.{ClientsMonitor, LoginState, update_logged}
use tin_system_do_wspolpracy.Files.{Files}
use tin_system_do_wspolpracy.IntMap.{has}
use tin_system_do_wspolpracy.IntMap.Laws.{find-update}
use tin_system_do_wspolpracy.LoginHandler.{LoginHandler}
use tin_system_do_wspolpracy.Server.State.{Server, M, on_clients}
use tin_system_do_wspolpracy.Server.State.Keeping.{IsKeeping, keeping, pure-IsKeeping}
use tin_system_do_wspolpracy.Server.Transfer.Keeping.{send_msg-IsKeeping, recv_msg-IsKeeping}
use tin_system_do_wspolpracy.Server.Login.{
  Flow, going, returned, send_header, send_body, recv_header, then_block,
}

-- The accounts, and who is logged in.
abbrev pub standing : Server → LoginHandler × Files × (ℕ → Bool)
standing s = (s.login_handler, s.files, λ j. has j s.clients.logged_clients)

has-update_logged :
    (j k : ℕ) (cm : ClientsMonitor)
    → has j (update_logged k cm).logged_clients ≡ has j cm.logged_clients
unfolding update_logged
has-update_logged j k cm =
    ground (arith, find-update j k true (λ (_ : Bool). true) cm.logged_clients)

pub send_header-standing :
    (sockfd : ℕ) (ls : LoginState) (res : ℤ) → IsKeeping standing (send_header sockfd ls res)
unfolding send_header
send_header-standing sockfd ls res = search (keeping, send_msg-IsKeeping standing) depth 14

update_logged-standing : (sockfd : ℕ) → IsKeeping standing (on_clients (update_logged sockfd))
update_logged-standing sockfd = record {
  keeps = λ s.
      ap (λ f. (s.login_handler, s.files, f)) (fun_ext λ j. has-update_logged j sockfd s.clients);
}

pub send_body-standing :
    (sockfd : ℕ) (ls : LoginState) (res : ℤ) (switch_client : Bool)
    → IsKeeping standing (send_body sockfd ls res switch_client)
unfolding send_body
send_body-standing sockfd ls res switch_client =
    search (keeping, send_msg-IsKeeping standing, update_logged-standing) depth 14

pub recv_header-standing :
    (sockfd : ℕ) (res : ℤ) (switch_client : Bool)
    → IsKeeping standing (recv_header sockfd res switch_client)
unfolding recv_header
recv_header-standing sockfd res switch_client =
    search (keeping, recv_msg-IsKeeping standing) depth 14

pub then_block-standing :
    (flow : Flow) (block : ℤ → Bool → M Flow)
    → ((res : ℤ) (switch_client : Bool) → IsKeeping standing (block res switch_client))
    → IsKeeping standing (then_block flow block)
then_block-standing (going res switch_client) block h = h res switch_client
then_block-standing (returned res) block h = pure-IsKeeping _
