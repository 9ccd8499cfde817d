-- ===== src/Examples/Notepad.antt =====
-- The theorems of the document, its editors and the clients' monitor on concrete inputs.
use tin_system_do_wspolpracy.Base.{Bytes, List, [], arith, ok, pos, refl, true, ◌∷◌, ◌≡◌}
use tin_system_do_wspolpracy.ClientsMonitor.{ClientsMonitor, new_state}
use tin_system_do_wspolpracy.IntMap.{find}
use tin_system_do_wspolpracy.Note.{
  Note, apply_changes, get_file_changes, set_buffers, split, char_splitter, buffer_splitter,
}
use tin_system_do_wspolpracy.Note
use tin_system_do_wspolpracy.Note.Fetch.{kept, received, apply_changes-get_file_changes}
use tin_system_do_wspolpracy.NotepadHandler.{NotepadHandler, store_changes, get_changes, is_active}
use tin_system_do_wspolpracy.NotepadHandler
use tin_system_do_wspolpracy.NotepadHandler.Tracking.{pending, begun, get_changes-store_changes}
use tin_system_do_wspolpracy.Text.{codes}

-- Descriptors 5 and 7 edit, and nothing is owed.
abbrev shared : NotepadHandler
shared = record (NotepadHandler.init (pos 0)) {
  opened = true;
  contributors = (5, tt) ∷ (7, tt) ∷ [];
  changes_tracker = (5, []) ∷ (7, []) ∷ [];
}

abbrev an_edit : Bytes
an_edit = codes "change"

get_changes-store_changes_example :
    (after : NotepadHandler) × (store_changes 5 an_edit shared ≡ ok after)
    × (get_changes 7 after ≡ ok (an_edit, begun (pending 5 an_edit) after))
unfolding is_active find
get_changes-store_changes_example =
    get_changes-store_changes 5 7 an_edit shared refl refl refl refl refl refl

abbrev tokens : List Bytes
tokens = codes "a0,_1" ∷ codes "b1,_1" ∷ []

-- A document of two characters, the first of them deleted.
abbrev document : Note
document = record (Note.init (pos 1)) { added_chars = tokens; deleted_chars = codes "a0,_1" ∷ [] }

apply_changes-get_file_changes_example :
    apply_changes (get_file_changes document) (Note.init (pos 2))
    ≡ received (kept document.deleted_chars document.added_chars) (Note.init (pos 2))
apply_changes-get_file_changes_example =
    apply_changes-get_file_changes document (Note.init (pos 2)) (omega arith, (omega arith, tt))
      (omega arith, (omega arith, tt))

-- Descriptor 5 has sent its login.
abbrev asked : ClientsMonitor
asked = record {
  clients_state = (5, record new_state { read_state = pos 2 }) ∷ [];
  logged_clients = [];
  rejected_logins = [];
}
