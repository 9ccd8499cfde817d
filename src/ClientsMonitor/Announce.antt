-- ===== src/ClientsMonitor/Announce.antt =====
-- The length that `get_login_state` announces in a header is that of the message sent behind it.
use tin_system_do_wspolpracy.Base.{arith, if◌then◌else◌, length, minus_one, pos, ℕ, ℤ, ◌==ℤ◌, ◌≡◌}
use tin_system_do_wspolpracy.ByteWidth.{get_byte_width_counts}
use tin_system_do_wspolpracy.Message.{statement, client_id, get_string_rep}
use tin_system_do_wspolpracy.MsgType
use tin_system_do_wspolpracy.ClientsMonitor.{ClientsMonitor, LoginState, get_login_state}

-- The length of the body that `client_login` builds for a login message, and -1 where there is none.
abbrev pub body_len : ℕ → LoginState → ℤ
body_len sockfd s =
    if s.msg_type ==ℤ MsgType.statement
    then pos (length (get_string_rep (statement s.info)))
    else if s.msg_type ==ℤ MsgType.client_id
    then pos (length (get_string_rep (client_id (pos sockfd))))
    else minus_one

-- Whatever the state of the descriptor, the length that `get_login_state` announces is that of the
-- message that `client_login` sends behind the header, and -1 where there is none.
pub get_login_state-body_len :
    (sockfd : ℕ) (cm : ClientsMonitor)
    → (get_login_state sockfd cm).msg_len ≡ body_len sockfd (get_login_state sockfd cm)
unfolding get_login_state get_string_rep
get_login_state-body_len sockfd cm =
    ground (arith, get_byte_width_counts 1, get_byte_width_counts 3, get_byte_width_counts sockfd)
