-- ===== src/Files.antt =====
-- server/FileIOHandler.h and server/FileIOHandler.cpp over a file system in which every open, read and
-- write of an existing file succeeds: the names of the files with what they hold.
pub mod Laws
use tin_system_do_wspolpracy.Base.{
  Bool, Bytes, List, Option, Outcome, [], false, fault, if◌then◌else◌, length_error, none, not, ok,
  runtime_error, some, suc, true, ℕ, ◌&&◌, ◌++◌, ◌||◌, ◌∷◌,
}
use tin_system_do_wspolpracy.Text.{same_text, starts_with}

abbrev pub Files : Type 0
Files = List (Bytes × Bytes)

unfoldable pub content : Bytes → Files → Option Bytes
content fn [] = none
content fn ((name, text) ∷ files) = if same_text name fn then some text else content fn files

put : Bytes → Bytes → Files → Files
put fn text [] = (fn, text) ∷ []
put fn text ((name, old) ∷ files) =
    if same_text name fn then (name, text) ∷ files else (name, old) ∷ put fn text files

-- An `ofstream` truncates the file, or makes it.
unfoldable pub write_from_buffer : Bytes → Bytes → Files → Files
unfolding put
write_from_buffer fn buff files = put fn buff files

unfoldable pub create_file : Bytes → Files → Outcome Files
create_file [] files = fault runtime_error
create_file (c ∷ fn) files = ok (write_from_buffer (c ∷ fn) [] files)

unfoldable pub file_exists : Bytes → Files → Bool
file_exists fn files = elim (content fn files) [ none ↦ false | some text ↦ true ]

-- On a missing file `tellg` is -1, and `resize` throws.
unfoldable pub read_to_buffer : Bytes → Files → Outcome Bytes
read_to_buffer fn files = elim (content fn files) [
  | none ↦ fault length_error
  | some text ↦ ok text
]

-- A missing file reads as its end.
unfoldable pub is_empty : Bytes → Files → Bool
is_empty fn files = elim (content fn files) [
  | none ↦ true
  | some text ↦ elim text [ [] ↦ true | c ∷ s ↦ false ]
]

-- What lies in the directory. A name that ends in the separator stands for the directory itself.
files_in : Bytes → Files → ℕ
files_in path [] = 0
files_in path ((name, text) ∷ files) =
    let rest = files_in path files in
    let itself = path ++ (b'/' ∷ []) in
    if starts_with itself name && not (same_text name itself) then suc rest else rest

is_directory : Bytes → Files → Bool
is_directory path [] = false
is_directory path ((name, text) ∷ files) =
    let rest = is_directory path files in starts_with (path ++ (b'/' ∷ [])) name || rest

-- `directory_iterator` throws when the directory is missing.
unfoldable pub get_files_number : Bytes → Files → Outcome ℕ
unfolding files_in is_directory
get_files_number path files =
    if is_directory path files then ok (files_in path files) else fault runtime_error
