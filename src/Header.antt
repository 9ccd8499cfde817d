-- ===== src/Header.antt =====
-- server/Header.h and server/Header.cpp: the six digits in front of every message, two for its type
-- and four for its length.
pub mod Pads
pub mod Codec
use tin_system_do_wspolpracy.Base.{
  Bytes, Outcome, drop, guard, if◌then◌else◌, length, ltb, ltb_ℤ, ok, pos, replicate, take,
  wrong_header, ℕ, ℤ, ◌&&◌, ◌++◌, ◌-◌, ◌==◌, ◌>>=◌, ◌>>◌,
}
use tin_system_do_wspolpracy.Text.{to_string, stoi, substr, all_digits}

pub record Header : Type 0 where
  pub msg_type : ℤ
  pub msg_len : ℤ

abbrev pub header_size : ℕ
header_size = 6

abbrev pub msg_type_len : ℕ
msg_type_len = 2

-- The type, in at least two characters.
type_part : ℤ → Bytes
type_part t = if ltb_ℤ t (pos 10) then to_string (pos 0) ++ to_string t else to_string t

-- `insert` of zeros behind the type, as many as the header lacks.
pad : Bytes → Bytes
pad s =
    if ltb (length s) header_size
    then take msg_type_len s ++ (replicate (header_size - length s) b'0' ++ drop msg_type_len s)
    else s

unfoldable pub get_string_rep : Header → Bytes
unfolding type_part pad
get_string_rep h = pad (type_part h.msg_type ++ to_string h.msg_len)

unfoldable pub parse_from_string : Bytes → Outcome Header
parse_from_string s = do
  guard (length s == header_size && all_digits s) wrong_header
  type_text ← substr s 0 msg_type_len
  len_text ← substr s msg_type_len header_size
  t ← stoi type_text
  l ← stoi len_text
  ok (record { msg_type = t; msg_len = l })
