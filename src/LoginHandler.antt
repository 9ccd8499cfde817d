-- ===== src/LoginHandler.antt =====
-- server/LoginHandler.h and server/LoginHandler.cpp: a user is a line of the users' file, the name and
-- the password with a space between; an unknown name is registered.
pub mod Accounts
pub mod Relogin
use tin_system_do_wspolpracy.Base.{
  Bool, Bytes, Outcome, [], drop, false, guard, if◌then◌else◌, length, ltb, minus_one, negsuc, none,
  not, ok, pos, runtime_error, some, take, true, ℕ, ℤ, ◌&&◌, ◌++◌, ◌+◌, ◌-◌, ◌==ℤ◌, ◌==◌, ◌>>=◌,
  ◌>>◌, ◌||◌, ◌∷◌,
}
use tin_system_do_wspolpracy.Files.{
  Files, create_file, file_exists, read_to_buffer, write_from_buffer, is_empty,
}
use tin_system_do_wspolpracy.Text.{codes, find_text, substr, same_text}
use tin_system_do_wspolpracy.TextFileHandler.{TextFileHandler, get_size, get_filename_at_pos}

pub record LoginInfo : Type 0 where
  pub login : Bytes
  pub passwd : Bytes

pub record LoginHandler : Type 0 where
  pub users_info_buff : Bytes
  pub users_info : TextFileHandler

-- `login_consts`.
abbrev pub non_existent : ℤ
non_existent = minus_one

abbrev pub incorrect : ℤ
incorrect = pos 0

abbrev pub correct : ℤ
correct = pos 1

abbrev pub users_file : Bytes
users_file = codes "./user_data/users.txt"

-- The constructor.
abbrev pub init : LoginHandler
init = record { users_info_buff = []; users_info = record { filenames = users_file ∷ [] } }

abbrev pub space : ℕ
space = 32

abbrev pub newline : ℕ
newline = 10

unfoldable pub parse_login_info_from_string : Bytes → LoginInfo
parse_login_info_from_string text = elim (find_text (newline ∷ []) text) [
  | none ↦ record { login = text; passwd = text }
  | some k ↦ record { login = take k text; passwd = drop (k + 1) text }
]

unfoldable pub lacks_blanks : Bytes → Bool
lacks_blanks [] = true
lacks_blanks (c ∷ s) = not (c == newline || c == 9 || c == space) && lacks_blanks s

unfoldable pub is_lexically_correct : LoginInfo → Bool
unfolding lacks_blanks
is_lexically_correct inf = lacks_blanks inf.login && lacks_blanks inf.passwd

unfoldable pub is_buff_empty : LoginHandler → Bool
is_buff_empty l = elim l.users_info_buff [ [] ↦ true | c ∷ s ↦ false ]

unfoldable pub get_users_info_filename : LoginHandler → Outcome Bytes
get_users_info_filename l = get_filename_at_pos 0 l.users_info

unfoldable pub find_user : Bytes → LoginHandler → Files → Outcome ℤ
find_user login l files = do
  fn ← get_users_info_filename l
  guard (not (is_buff_empty l && not (is_empty fn files))) runtime_error
  ok (elim (find_text (login ++ (space ∷ [])) l.users_info_buff) [
    | none ↦ minus_one
    | some k ↦ pos k
  ])

-- The buffer is filled from the file when it is empty.
unfoldable pub load_users : LoginHandler → Files → Outcome LoginHandler
load_users l files =
    if is_buff_empty l
    then (do
      fn ← get_users_info_filename l
      text ← read_to_buffer fn files
      ok (record l { users_info_buff = text }))
    else ok l

unfoldable pub user_exists : Bytes → LoginHandler → Files → Outcome (ℤ × LoginHandler)
user_exists login l files =
    if get_size l.users_info == 0
    then ok (pos 0, l)
    else (do l' ← load_users l files; at ← find_user login l' files; ok (at, l'))

-- The password on the line found; with no line end behind it, all that is left.
unfoldable pub cmp_login_info : LoginInfo → ℕ → LoginHandler → Outcome Bool
cmp_login_info inf login_pos l = do
  let buff = l.users_info_buff
  login_to_cmp ← substr buff login_pos (length inf.login)
  let passwd_pos = login_pos + length inf.login + 1
  let passwd_len : ℕ = elim (find_text (newline ∷ []) (drop login_pos buff)) [
    | none ↦ length buff
    | some k ↦ if ltb (login_pos + k) passwd_pos then length buff else login_pos + k - passwd_pos
  ]
  passwd_to_cmp ← substr buff passwd_pos passwd_len
  ok (same_text inf.login login_to_cmp && same_text inf.passwd passwd_to_cmp)

-- A `bool` that is returned as an `int`.
abbrev pub as_int : Bool → ℤ
as_int false = pos 0
as_int true = pos 1

compare_found : LoginInfo → ℤ × LoginHandler → Outcome (ℤ × LoginHandler)
compare_found inf (negsuc k, l) = ok (non_existent, l)
compare_found inf (pos k, l) = do same ← cmp_login_info inf k l; ok (as_int same, l)

unfoldable pub is_login_info_correct : LoginInfo → LoginHandler → Files → Outcome (ℤ × LoginHandler)
unfolding compare_found
is_login_info_correct inf l files =
    if is_lexically_correct inf
    then (user_exists inf.login l files >>= compare_found inf)
    else ok (as_int false, l)

unfoldable pub add_new_client : LoginInfo → LoginHandler → LoginHandler
add_new_client inf l = record l {
  users_info_buff = l.users_info_buff ++ (inf.login ++ (space ∷ (inf.passwd ++ (newline ∷ []))));
}

unfoldable pub close_buff : LoginHandler → LoginHandler
close_buff l = record l { users_info_buff = [] }

-- `if (res == NON_EXISTENT) { add_new_client(login_info); res = CORRECT; }`
register : LoginInfo → ℤ × LoginHandler → ℤ × LoginHandler
register inf (res, l) = if res ==ℤ non_existent then (correct, add_new_client inf l) else (res, l)

unfoldable pub check_login : Bytes → LoginHandler → Files → Outcome (ℤ × LoginHandler × Files)
unfolding register
check_login bytes l files = do
  fn ← get_users_info_filename l
  files' ← if file_exists fn files then ok files else create_file fn files
  let inf = parse_login_info_from_string bytes
  checked ← is_login_info_correct inf l files'
  let registered = register inf checked
  ok (
    registered.0,
    close_buff registered.1,
    write_from_buffer fn (registered.1).users_info_buff files',
  )
