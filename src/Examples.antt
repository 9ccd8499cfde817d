-- ===== src/Examples.antt =====
-- The theorems of the codecs, the login and the queues on concrete inputs.
pub mod Transfers
pub mod Visits
pub mod Notepad
pub mod Document
pub mod Sockets
pub mod Logins
pub mod Connections
use tin_system_do_wspolpracy.Base.{
  Bytes, List, [], arith, false, fault, if◌then◌else◌, length, ok, pos, refl, wrong_header, ℕ, ◌++◌,
  ◌<◌, ◌==◌, ◌>>=◌, ◌∷◌, ◌≡◌, ◌⊎◌,
}
use tin_system_do_wspolpracy.ByteWidth.{get_byte_width, get_byte_width_counts}
use tin_system_do_wspolpracy.ClientsMonitor.{ClientsMonitor, get_login_state, new_state}
use tin_system_do_wspolpracy.ClientsMonitor.Announce.{body_len, get_login_state-body_len}
use tin_system_do_wspolpracy.Files.{Files, content}
use tin_system_do_wspolpracy.Header.{get_string_rep, parse_from_string, header_size}
use tin_system_do_wspolpracy.Header.Codec.{parse-rep, parse_decides, IsHeaderText}
use tin_system_do_wspolpracy.Header.Pads.{get_string_rep-long}
use tin_system_do_wspolpracy.IntMap.{IntSet, has, find}
use tin_system_do_wspolpracy.LoginHandler.{
  LoginInfo, init, users_file, correct, incorrect, check_login, cmp_login_info, as_int,
  parse_login_info_from_string, is_lexically_correct, lacks_blanks,
}
use tin_system_do_wspolpracy.LoginHandler.Accounts.{
  accounts, line, Leaves, check_login-wipes, check_login-registers, check_login-compares,
}
use tin_system_do_wspolpracy.LoginHandler.Relogin.{check_login-registered}
use tin_system_do_wspolpracy.Message
use tin_system_do_wspolpracy.Networking.{
  NetState, Networking, queue, get_first_obs_len, remove_sent, set_multicast,
}
use tin_system_do_wspolpracy.Networking.Multicast.{Notified, message, set_multicast-Notified}
use tin_system_do_wspolpracy.Networking.Queues.{
  front, with_queue, remove_sent_oldest, remove_sent_missing,
}
use tin_system_do_wspolpracy.Note.{Character, compare, compare_at, sort}
use tin_system_do_wspolpracy.Note.Order.{
  IsOrdered, compare_trans, compare_incomparable, sort-IsOrdered,
}
use tin_system_do_wspolpracy.Text.Decimal.{AllDigits}
use tin_system_do_wspolpracy.Header.{Header}
use tin_system_do_wspolpracy.Text.{
  codes, digits, find_text, same_text, starts_with, substr, to_string, all_digits,
}
use mathlib.Core.List.{Perm}

-- One account, and the files that hold it.
abbrev known : Bytes
known = codes "ann pw\n"

abbrev files : Files
files = (users_file, known) ∷ []

-- What a client sends: name, line end, password.
abbrev ann : Bytes
ann = codes "ann\npw"

abbrev bob : Bytes
bob = codes "bob\nx"

abbrev blank : Bytes
blank = codes "a b\nx"

check_login-wipes_example : Leaves [] incorrect (check_login blank init files)
unfolding is_lexically_correct lacks_blanks parse_login_info_from_string find_text starts_with
check_login-wipes_example = check_login-wipes blank files refl

check_login-registers_example :
    Leaves
      (accounts files ++ line (parse_login_info_from_string bob))
      correct
      (check_login bob init files)
unfolding is_lexically_correct lacks_blanks parse_login_info_from_string find_text starts_with
    content same_text
check_login-registers_example = check_login-registers bob files refl refl

abbrev ann_info : LoginInfo
ann_info = record { login = codes "ann"; passwd = codes "pw" }

check_login-registered_example :
    Leaves
      (accounts files)
      (as_int (same_text (parse_login_info_from_string ann).passwd ann_info.passwd))
      (check_login ann init files)
unfolding is_lexically_correct lacks_blanks parse_login_info_from_string find_text starts_with
    content same_text
check_login-registered_example =
    check_login-registered files [] ann ann_info tt refl refl refl refl refl

parse-rep_example :
    parse_from_string (get_string_rep (record { msg_type = pos 4; msg_len = pos 17 }))
    ≡ ok (record { msg_type = pos 4; msg_len = pos 17 })
parse-rep_example = parse-rep 4 17 (omega arith) (omega arith)

parse_decides_example :
    ((length (codes "040017") ≡ 6)
      × AllDigits (codes "040017")
      × (h : Header) × (parse_from_string (codes "040017") ≡ ok h)
      × IsHeaderText (codes "040017") h)
    ⊎ (¬ ((length (codes "040017") ≡ 6) × AllDigits (codes "040017"))
        × (parse_from_string (codes "040017") ≡ fault wrong_header))
parse_decides_example = parse_decides (codes "040017")

get_string_rep-long_example :
    header_size < length (get_string_rep (record { msg_type = pos 4; msg_len = pos 12345 }))
get_string_rep-long_example = get_string_rep-long 4 12345 (omega arith) (omega arith)

-- Descriptor 5 has logged in and is to be sent its id.
abbrev logged : ClientsMonitor
logged = record {
  clients_state = (5, record new_state { read_state = pos 3 }) ∷ [];
  logged_clients = (5, false) ∷ [];
  rejected_logins = [];
}

get_login_state-body_len_example :
    (get_login_state 5 logged).msg_len ≡ body_len 5 (get_login_state 5 logged)
get_login_state-body_len_example = get_login_state-body_len 5 logged

-- Two messages for descriptor 5: an id and an edit.
abbrev id_message : NetState
id_message = message (pos 5) (pos 1)

abbrev edit_message : NetState
edit_message = message (pos 3) (pos 40)

abbrev busy : Networking
busy = record { netstate = []; send_queues = (5, id_message ∷ edit_message ∷ []) ∷ [] }

remove_sent_oldest_example :
    ((get_first_obs_len false 5 (pos 3) busy).0 ≡ pos 40)
    × (m : Networking) × (remove_sent 5 (pos 3) busy ≡ ok m)
    × ((j : ℕ) → queue j m ≡ (if 5 == j then id_message ∷ [] else queue j busy))
unfolding find
remove_sent_oldest_example =
    remove_sent_oldest 5 busy (id_message ∷ []) edit_message [] refl (refl, tt)

remove_sent_missing_example :
    remove_sent 5 (pos 9) busy ≡ (front (queue 5 busy) >>= λ rest. ok (with_queue 5 rest busy))
unfolding find
remove_sent_missing_example = remove_sent_missing 5 (pos 9) busy (refl, (refl, tt))

abbrev receivers : IntSet
receivers = (5, tt) ∷ (7, tt) ∷ []

set_multicast-Notified_example :
    Notified
      (pos 3)
      (pos 40)
      (has 7 receivers)
      7
      (logged, busy)
      (set_multicast receivers (pos 3) (pos 40) (logged, busy))
set_multicast-Notified_example =
    set_multicast-Notified receivers (pos 3) (pos 40) 7 logged busy (omega arith, (omega arith, tt))
