-- ===== src/LoginHandler/Relogin.antt =====
-- A user who has registered can log in again, with that password only.
use tin_system_do_wspolpracy.Base.{
  All-append, Bytes, [], ap, append_assoc, arith, drop, drop-length, length, length-append, none,
  ok, refl, some, sym, true, ℕ, ◌&&◌, ◌++◌, ◌+◌, ◌-◌, ◌∙◌, ◌∷◌, ◌≡◌, ◌≤◌,
}
use tin_system_do_wspolpracy.Files.{Files}
use tin_system_do_wspolpracy.Text.{find_text, same_text, substr}
use tin_system_do_wspolpracy.Text.Equality.{same_text_self}
use tin_system_do_wspolpracy.Text.Search.{
  Lacks, EndsIn, find_behind, find_byte, find_front, starts_with-append, substr_middle,
}
use tin_system_do_wspolpracy.LoginHandler.{
  LoginInfo, LoginHandler, init, space, newline, parse_login_info_from_string, is_lexically_correct,
  lacks_blanks, cmp_login_info, as_int, check_login,
}
use tin_system_do_wspolpracy.LoginHandler.Accounts.{accounts, line, Leaves, check_login-compares}

lacks_blanks-Lacks : (s : Bytes) → lacks_blanks s ≡ true → Lacks newline s
unfolding lacks_blanks
lacks_blanks-Lacks [] h = tt
lacks_blanks-Lacks (c ∷ s) h = ground (arith, lacks_blanks-Lacks s)

-- The name is found at its own line, when no line before holds it.
find_own :
    (text : Bytes) (inf : LoginInfo)
    → EndsIn newline text
    → Lacks newline inf.login
    → find_text (inf.login ++ (space ∷ [])) text ≡ none
    → find_text (inf.login ++ (space ∷ [])) (text ++ line inf) ≡ some (length text)
find_own text inf ends lacks missing =
    let name = inf.login ++ (space ∷ []) in
    let rest = inf.passwd ++ (newline ∷ []) in
    let here : find_text name (name ++ rest) ≡ some 0 =
      find_front name (name ++ rest) (starts_with-append name rest) in
    let grouped : name ++ rest ≡ line inf = append_assoc inf.login (space ∷ []) rest in
    find_behind newline name text (line inf) (All-append _ inf.login _ lacks (omega arith)) ends
      missing
    ∙ rw (← grouped) (rw here (ap some (omega arith)))

-- The comparison, from the two slices that it takes.
cmp_slices :
    (inf : LoginInfo) (l : LoginHandler) (at k : ℕ) (a b : Bytes)
    → substr l.users_info_buff at (length inf.login) ≡ ok a
    → find_text (newline ∷ []) (drop at l.users_info_buff) ≡ some k
    → length inf.login + 1 ≤ k
    → substr l.users_info_buff (at + length inf.login + 1) (at + k - (at + length inf.login + 1))
      ≡ ok b
    → cmp_login_info inf at l ≡ ok (same_text inf.login a && same_text inf.passwd b)
unfolding cmp_login_info
cmp_slices inf l at k a b first nl fits second = ground arith

cmp_own :
    (text : Bytes) (inf : LoginInfo) (passwd : Bytes)
    → Lacks newline inf.login
    → Lacks newline inf.passwd
    → cmp_login_info
        (record inf { passwd = passwd })
        (length text)
        (record init { users_info_buff = text ++ line inf })
      ≡ ok (same_text passwd inf.passwd)
cmp_own text inf passwd hl hp =
    let name = inf.login ++ (space ∷ []) in
    let buff = text ++ line inf in
    let k = length (inf.login ++ (space ∷ inf.passwd)) in
    let size : k ≡ length inf.login + 1 + length inf.passwd =
      omega (arith, length-append inf.login (space ∷ inf.passwd)) in
    let words : line inf ≡ (inf.login ++ (space ∷ inf.passwd)) ++ (newline ∷ []) =
      sym (append_assoc inf.login (space ∷ inf.passwd) (newline ∷ [])) in
    let split : buff ≡ (text ++ name) ++ (inf.passwd ++ (newline ∷ [])) = sym (
      append_assoc text name (inf.passwd ++ (newline ∷ []))
      ∙ ap (◌++◌ text) (append_assoc inf.login (space ∷ []) (inf.passwd ++ (newline ∷ [])))) in
    let nl : find_text (newline ∷ []) (drop (length text) buff) ≡ some k =
      rw (drop-length text (line inf)) (
        rw words (
          find_byte newline (inf.login ++ (space ∷ inf.passwd)) []
            (All-append _ inf.login (space ∷ inf.passwd) hl (omega arith, hp)))) in
    cmp_slices (record inf { passwd = passwd }) (record init { users_info_buff = buff })
      (length text) k inf.login inf.passwd
      (substr_middle buff text inf.login _ (length text) (length inf.login) refl refl refl) nl
      (omega arith)
      (substr_middle buff (text ++ name) inf.passwd (newline ∷ []) _ _ split
        (omega (arith, length-append text name, length-append inf.login (space ∷ [])))
        (omega arith))
    ∙ ap ok (ap (λ x. x && same_text passwd inf.passwd) (same_text_self inf.login))

correct-lacks :
    (inf : LoginInfo)
    → is_lexically_correct inf ≡ true
    → (lacks_blanks inf.login ≡ true) × (lacks_blanks inf.passwd ≡ true)
unfolding is_lexically_correct
correct-lacks inf h = ground arith

-- When the file ends in the line of a user whose name stands nowhere before it, in front of a space, and
-- the lines before it end in a line end, a login without blanks under that name is accepted exactly
-- with that user's password, and leaves the file as it is.
pub check_login-registered :
    (files : Files) (text bytes : Bytes) (inf : LoginInfo)
    → EndsIn newline text
    → accounts files ≡ text ++ line inf
    → find_text (inf.login ++ (space ∷ [])) text ≡ none
    → is_lexically_correct inf ≡ true
    → is_lexically_correct (parse_login_info_from_string bytes) ≡ true
    → (parse_login_info_from_string bytes).login ≡ inf.login
    → Leaves
        (accounts files)
        (as_int (same_text (parse_login_info_from_string bytes).passwd inf.passwd))
        (check_login bytes init files)
check_login-registered files text bytes inf ends holds missing lex lex' same_name =
    let given = parse_login_info_from_string bytes in
    let (name_ok, passwd_ok) = correct-lacks inf lex in
    let hl = lacks_blanks-Lacks inf.login name_ok in
    let found : find_text (given.login ++ (space ∷ [])) (accounts files) ≡ some (length text) =
      ap (λ name. find_text (name ++ (space ∷ [])) (accounts files)) same_name
      ∙ ap (find_text (inf.login ++ (space ∷ []))) holds
      ∙ find_own text inf ends hl missing in
    let same_info : given ≡ record inf { passwd = given.passwd } =
      λ i. record { login = same_name i; passwd = given.passwd } in
    check_login-compares bytes files (length text) (same_text given.passwd inf.passwd) lex' found (
      ap (λ b. cmp_login_info given (length text) (record init { users_info_buff = b })) holds
      ∙ ap
          (λ x. cmp_login_info x (length text) (record init { users_info_buff = text ++ line inf }))
          same_info
      ∙ cmp_own text inf given.passwd hl (lacks_blanks-Lacks inf.passwd passwd_ok))
