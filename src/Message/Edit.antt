-- ===== src/Message/Edit.antt =====
-- server/Edit.h and server/Edit.cpp.
use tin_system_do_wspolpracy.Base.{Bytes, ℤ}
use tin_system_do_wspolpracy.MsgType

abbrev pub get_string_rep : Bytes → Bytes
get_string_rep text = text

abbrev pub get_message_type : Bytes → ℤ
get_message_type text = MsgType.edit
