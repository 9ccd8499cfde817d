-- ===== src/MsgType.antt =====
-- `Message::msg_types` of server/Message.h.
use tin_system_do_wspolpracy.Base.{minus_one, pos, ℤ}

abbrev pub header : ℤ
header = minus_one

abbrev pub login : ℤ
login = pos 0

abbrev pub statement : ℤ
statement = pos 1

abbrev pub edit : ℤ
edit = pos 2

abbrev pub public_key : ℤ
public_key = pos 3

abbrev pub client_id : ℤ
client_id = pos 4
