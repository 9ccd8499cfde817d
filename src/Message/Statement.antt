-- ===== src/Message/Statement.antt =====
-- server/Statement.h and server/Statement.cpp.
use tin_system_do_wspolpracy.Base.{Bytes, pos, ℤ}
use tin_system_do_wspolpracy.Text.{to_string}
use tin_system_do_wspolpracy.MsgType

-- `Statement::Info`, as far as the server sends it.
abbrev pub login_req : ℤ
login_req = pos 1

abbrev pub login_rej : ℤ
login_rej = pos 3

abbrev pub get_string_rep : ℤ → Bytes
get_string_rep statement_info = to_string statement_info

abbrev pub get_message_type : ℤ → ℤ
get_message_type statement_info = MsgType.statement
