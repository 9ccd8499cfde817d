-- ===== src/TextFileHandler.antt =====
-- server/TextFileHandler.h and server/TextFileHandler.cpp: the names of the files in use.
use tin_system_do_wspolpracy.Base.{
  Bytes, List, Outcome, [], fault, if◌then◌else◌, length, ok, suc, undefined, zero, ℕ, ◌++◌, ◌==◌,
  ◌∷◌,
}
use tin_system_do_wspolpracy.Text.{same_text}

pub record TextFileHandler : Type 0 where
  pub filenames : List Bytes

unfoldable pub add_filename : Bytes → TextFileHandler → TextFileHandler
add_filename fn t = record { filenames = t.filenames ++ (fn ∷ []) }

without : Bytes → List Bytes → List Bytes
without fn [] = []
without fn (name ∷ names) = if same_text name fn then without fn names else name ∷ without fn names

unfoldable pub delete_filename : Bytes → TextFileHandler → TextFileHandler
unfolding without
delete_filename fn t = record { filenames = without fn t.filenames }

-- What follows the last backslash, or the whole name: the loop of `rfind` with the slice behind it.
behind_last : Bytes → Bytes → Bytes
behind_last found [] = found
behind_last found (c ∷ s) = behind_last (if c == b'\\' then s else found) s

unfoldable pub parse_name : Bytes → Bytes
unfolding behind_last
parse_name fn = behind_last fn fn

name_list : ℕ → List Bytes → Bytes → Bytes
name_list delimiter [] res = res
name_list delimiter (fn ∷ names) res =
    name_list delimiter names (res ++ (parse_name fn ++ (delimiter ∷ [])))

unfoldable pub get_filenames_in_str : ℕ → TextFileHandler → Bytes
unfolding name_list
get_filenames_in_str delimiter t = name_list delimiter t.filenames []

unfoldable pub get_size : TextFileHandler → ℕ
get_size t = length t.filenames

at : ℕ → List Bytes → Outcome Bytes
at i [] = fault undefined
at zero (fn ∷ names) = ok fn
at (suc i) (fn ∷ names) = at i names

-- `filenames[index]`, undefined out of range.
unfoldable pub get_filename_at_pos : ℕ → TextFileHandler → Outcome Bytes
unfolding at
get_filename_at_pos index t = at index t.filenames

last : List Bytes → Outcome Bytes
last [] = fault undefined
last (fn ∷ []) = ok fn
last (fn ∷ name ∷ names) = last (name ∷ names)

unfoldable pub get_recent_fn : TextFileHandler → Outcome Bytes
unfolding last
get_recent_fn t = last t.filenames
