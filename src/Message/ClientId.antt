-- ===== src/Message/ClientId.antt =====
-- server/ClientID.h and server/ClientID.cpp.
use tin_system_do_wspolpracy.Base.{Bytes, ℤ}
use tin_system_do_wspolpracy.Text.{to_string}
use tin_system_do_wspolpracy.MsgType

abbrev pub get_string_rep : ℤ → Bytes
get_string_rep id = to_string id

abbrev pub get_message_type : ℤ → ℤ
get_message_type id = MsgType.client_id
