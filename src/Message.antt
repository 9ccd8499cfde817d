-- ===== src/Message.antt =====
-- server/Message.h and its four subclasses, Header, Statement, ClientID and Edit.
mod Statement
mod ClientId
mod Edit
use tin_system_do_wspolpracy.Base.{Bytes, ℤ}
use tin_system_do_wspolpracy.Header
use tin_system_do_wspolpracy.MsgType
use tin_system_do_wspolpracy.Header.{Header}
pub use Statement.{login_req, login_rej}

-- A constructor for each subclass, with its fields.
pub data Message : Type 0 where
  header : Header → Message
  statement : ℤ → Message
  client_id : ℤ → Message
  edit : Bytes → Message

-- The virtual functions, with each subclass's own.
unfoldable pub get_string_rep : Message → Bytes
get_string_rep (header h) = Header.get_string_rep h
get_string_rep (statement info) = Statement.get_string_rep info
get_string_rep (client_id id) = ClientId.get_string_rep id
get_string_rep (edit text) = Edit.get_string_rep text

unfoldable pub get_message_type : Message → ℤ
get_message_type (header h) = MsgType.header
get_message_type (statement info) = Statement.get_message_type info
get_message_type (client_id id) = ClientId.get_message_type id
get_message_type (edit text) = Edit.get_message_type text
