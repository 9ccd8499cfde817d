-- ===== src/Host.antt =====
-- `print_host` of server/serv_func.cpp: the line that the server prints for a client that connects.
use tin_system_do_wspolpracy.Base.{Bytes, Option, none, pos, some, ℕ, ◌++◌}
use tin_system_do_wspolpracy.Text.{codes, to_string}

-- What `getnameinfo` gives: the names of the host and of the service, when it succeeds.
pub record Names : Type 0 where
  pub host : Bytes
  pub service : Bytes

-- The answer of `getnameinfo`, what `inet_ntop` writes into the buffer of zeros, and the port that
-- `ntohs` gives.
unfoldable pub print_host : Option Names → Bytes → ℕ → Bytes
print_host (some names) address port =
    names.host ++ (codes " connected on port " ++ (names.service ++ codes "\n"))
print_host none address port =
    address
    ++ (codes " connected on port "
        ++ (to_string (pos port) ++ codes " getnameinfo unsuccessful\n"))
