-- ===== src/LoginHandler/Accounts.antt =====
-- What `check_login` answers and what it leaves in the users' file, on every branch.
use tin_system_do_wspolpracy.Base.{
  Bool, Bytes, Option-cases, Outcome, [], arith, false, if◌then◌else◌, inl, inr, minus_one, none,
  ok, pos, refl, some, true, ℕ, ℤ, ◌++◌, ◌==ℤ◌, ◌>>=◌, ◌∷◌, ◌≡◌,
}
use tin_system_do_wspolpracy.Files.{
  Files, content, create_file, file_exists, read_to_buffer, write_from_buffer, is_empty,
}
use tin_system_do_wspolpracy.Files.Laws.{content-write_from_buffer}
use tin_system_do_wspolpracy.IntMap.{get_or}
use tin_system_do_wspolpracy.Text.{find_text}
use tin_system_do_wspolpracy.TextFileHandler.{get_size, get_filename_at_pos}
use tin_system_do_wspolpracy.LoginHandler.{
  LoginInfo, LoginHandler, init, users_file, space, newline, parse_login_info_from_string,
  is_buff_empty, get_users_info_filename, find_user, load_users, user_exists, is_login_info_correct,
  close_buff, register, check_login, is_lexically_correct, add_new_client, as_int, compare_found,
  incorrect, cmp_login_info, correct,
}

-- The text of the users' file; a missing file is created empty.
abbrev pub accounts : Files → Bytes
accounts files = get_or [] (content users_file files)

-- The line of a user.
abbrev pub line : LoginInfo → Bytes
line inf = inf.login ++ (space ∷ (inf.passwd ++ (newline ∷ [])))

abbrev pub loaded : Files → LoginHandler
loaded files = record init { users_info_buff = accounts files }

-- The file is there from the first step on.
abbrev opened : Files → Outcome Files
opened files = if file_exists users_file files then ok files else create_file users_file files

opened_lem :
    (files : Files)
    → (files' : Files) × (opened files ≡ ok files')
      × (content users_file files' ≡ some (accounts files))
unfolding file_exists create_file
opened_lem files = elim (Option-cases (content users_file files)) [
  | inl e ↦ (
    write_from_buffer users_file [] files,
    ground arith,
    rw e (content-write_from_buffer users_file [] files),
  )
  | inr (text, e) ↦ (files, ground arith, rw e refl)
]

user_exists_lem :
    (login : Bytes) (files : Files) (text : Bytes)
    → content users_file files ≡ some text
    → user_exists login init files
      ≡ ok (
        elim (find_text (login ++ (space ∷ [])) text) [ none ↦ minus_one | some k ↦ pos k ],
        record init { users_info_buff = text },
      )
unfolding user_exists load_users find_user is_buff_empty get_users_info_filename get_size
    get_filename_at_pos is_empty read_to_buffer
user_exists_lem login files [] e = ground arith
user_exists_lem login files (c ∷ text) e = ground arith

-- What is left behind: the handler as it was constructed, and the users' file with this text.
pub record Leaves (text : Bytes) (res : ℤ) (o : Outcome (ℤ × LoginHandler × Files)) : Type 0 where
  pub files' : Files
  pub answers : o ≡ ok (res, init, files')
  pub keeps : content users_file files' ≡ some text

-- The check behind the opening of the file, up to the write.
finish : LoginInfo → Files → ℤ × LoginHandler → Outcome (ℤ × LoginHandler × Files)
finish inf files checked =
    let registered = register inf checked in
    ok (
      registered.0,
      close_buff registered.1,
      write_from_buffer users_file (registered.1).users_info_buff files,
    )

check_login_lem :
    (bytes : Bytes) (files : Files)
    → check_login bytes init files ≡ (
        opened files >>= λ files'.
        is_login_info_correct (parse_login_info_from_string bytes) init files'
        >>= finish (parse_login_info_from_string bytes) files')
unfolding check_login get_users_info_filename get_filename_at_pos finish
check_login_lem bytes files = refl

finish_kept :
    (inf : LoginInfo) (files : Files) (res : ℤ) (text : Bytes)
    → (res ==ℤ minus_one) ≡ false
    → Leaves text res (finish inf files (res, record init { users_info_buff = text }))
unfolding finish register close_buff
finish_kept inf files res text h = rw h (record {
  files' = write_from_buffer users_file text files;
  answers = refl;
  keeps = content-write_from_buffer users_file text files;
})

finish_new :
    (inf : LoginInfo) (files : Files) (text : Bytes)
    → Leaves
        (text ++ line inf)
        correct
        (finish inf files (minus_one, record init { users_info_buff = text }))
unfolding finish register close_buff add_new_client
finish_new inf files text = record {
  files' = write_from_buffer users_file (text ++ line inf) files;
  answers = refl;
  keeps = content-write_from_buffer users_file (text ++ line inf) files;
}

as_int_ne : (b : Bool) → (as_int b ==ℤ minus_one) ≡ false
as_int_ne true = refl
as_int_ne false = refl

-- A login with a blank in the name or the password is refused, and leaves the users' file empty,
-- whatever it held: the buffer that is written back was never filled.
pub check_login-wipes :
    (bytes : Bytes) (files : Files)
    → is_lexically_correct (parse_login_info_from_string bytes) ≡ false
    → Leaves [] incorrect (check_login bytes init files)
unfolding is_login_info_correct
check_login-wipes bytes files h =
    let inf = parse_login_info_from_string bytes in
    let (files', opens, holds) = opened_lem files in
    rw (check_login_lem bytes files) (rw opens (rw h (finish_kept inf files' (pos 0) [] refl)))

-- A login without blanks, whose name does not stand in the file in front of a space, is accepted and
-- registered: its line is appended, and the rest of the file stays.
pub check_login-registers :
    (bytes : Bytes) (files : Files)
    → is_lexically_correct (parse_login_info_from_string bytes) ≡ true
    → find_text ((parse_login_info_from_string bytes).login ++ (space ∷ [])) (accounts files) ≡ none
    → Leaves
        (accounts files ++ line (parse_login_info_from_string bytes))
        correct
        (check_login bytes init files)
unfolding is_login_info_correct compare_found
check_login-registers bytes files h missing =
    let inf = parse_login_info_from_string bytes in
    let (files', opens, holds) = opened_lem files in
    rw (check_login_lem bytes files) (
      rw opens (
        rw h (
          rw (user_exists_lem inf.login files' (accounts files) holds)
            (rw missing (finish_new inf files' (accounts files))))))

-- A login without blanks, whose name stands in the file in front of a space, gets the result of the
-- comparison with the place found, and the file stays as it is.
pub check_login-compares :
    (bytes : Bytes) (files : Files) (k : ℕ) (same : Bool)
    → is_lexically_correct (parse_login_info_from_string bytes) ≡ true
    → find_text ((parse_login_info_from_string bytes).login ++ (space ∷ [])) (accounts files)
      ≡ some k
    → cmp_login_info (parse_login_info_from_string bytes) k (loaded files) ≡ ok same
    → Leaves (accounts files) (as_int same) (check_login bytes init files)
unfolding is_login_info_correct compare_found
check_login-compares bytes files k same h found compared =
    let inf = parse_login_info_from_string bytes in
    let (files', opens, holds) = opened_lem files in
    rw (check_login_lem bytes files) (
      rw opens (
        rw h (
          rw (user_exists_lem inf.login files' (accounts files) holds) (
            rw found (
              rw compared
                (finish_kept inf files' (as_int same) (accounts files) (as_int_ne same)))))))
