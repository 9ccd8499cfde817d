-- ===== src/Examples/Document.antt =====
-- The theorems of the text that a document shows, and of the editors under any sequence of operations,
-- on concrete inputs.
use tin_system_do_wspolpracy.Base.{
  Bytes, List, [], ok, pos, refl, some, take, true, ◌++◌, ◌>>=◌, ◌∷◌, ◌≡◌,
}
use tin_system_do_wspolpracy.Files.{Files, write_from_buffer, create_file, get_files_number}
use tin_system_do_wspolpracy.IntMap.{find, update}
use tin_system_do_wspolpracy.Note.{
  Note, Character, split_from, char_splitter, set_buffers, to_text, to_characters, contains,
  to_character, compare, compare_at,
}
use tin_system_do_wspolpracy.Note
use tin_system_do_wspolpracy.Note.Arrival.{to_text_arrival}
use tin_system_do_wspolpracy.Note.Reading.{to_text-set_buffers}
use tin_system_do_wspolpracy.Note.Sorting.{AllApart}
use tin_system_do_wspolpracy.NotepadHandler.{
  NotepadHandler, get_changes, remove_sent_changes, get_active_users_number, open_file, init,
  add_client, add_contributor, store_changes, remove_contributor, is_active, keep_track_of_changes,
}
use tin_system_do_wspolpracy.NotepadHandler.Reach.{
  here, next, joins, stores, leaves, IsFair, Reach-IsFair,
}
use tin_system_do_wspolpracy.NotepadHandler.Tracking.{pending}
use tin_system_do_wspolpracy.NotepadHandler.Rounds.{get_changes_stale, get_changes_blocked}
use tin_system_do_wspolpracy.Text.{
  starts_with, same_text, codes, to_string, digits, substr, find_text, atoi, read_digits,
}
use tin_system_do_wspolpracy.TextFileHandler.{add_filename}
use mathlib.Core.List.{Perm}
use mathlib.Core.List.{Permᴰ}

to_text-set_buffers_example :
    (set_buffers (codes "hi") (Note.init (pos 1)) >>= λ set. to_text (λ i. pos i) set.0)
    ≡ ok (codes "hi")
to_text-set_buffers_example = to_text-set_buffers (λ i. pos i) (pos 1) (codes "hi")

abbrev first_char : Bytes
first_char = codes "a0,_1"

abbrev second_char : Bytes
second_char = codes "b1,_1"

-- Two characters, in the order of their places and in the other one.
abbrev in_order : Note
in_order = record (Note.init (pos 1)) { added_chars = first_char ∷ second_char ∷ [] }

abbrev reversed : Note
reversed = record (Note.init (pos 1)) { added_chars = second_char ∷ first_char ∷ [] }

abbrev in_order_chars : List Character
in_order_chars =
    record { c = b'a'; position = pos 0 ∷ []; creator = pos 7 }
    ∷ record { c = b'b'; position = pos 1 ∷ []; creator = pos 7 }
    ∷ []

in_order-read : to_characters (λ _. pos 7) 0 [] in_order.added_chars ≡ ok in_order_chars
unfolding to_characters contains to_character substr Note.nth Note.split find_text atoi read_digits
in_order-read = refl

in_order-apart : AllApart in_order_chars
unfolding compare compare_at
in_order-apart = ((refl, tt), (tt, tt))

arrived : Perm in_order.added_chars reversed.added_chars
arrived = ∣ Permᴰ.swap refl refl ∣₁

to_text_arrival_example : to_text (λ _. pos 7) reversed ≡ to_text (λ _. pos 7) in_order
to_text_arrival_example =
    to_text_arrival (pos 7) in_order reversed in_order_chars arrived (λ _. refl) in_order-read
      in_order-apart

-- A notepad that descriptor 5 has joined, and stored a change in.
abbrev file_name : Bytes
file_name = codes "./texts/id_5_1"

abbrev joined : NotepadHandler
joined = record (init (pos 0)) {
  opened = true;
  text_files = record { filenames = file_name ∷ [] };
  contributors = (5, tt) ∷ [];
  changes_tracker = (5, []) ∷ [];
}

-- An empty directory.
abbrev texts : Files
texts = (codes "./texts/", []) ∷ []

joined-added : add_client 5 (init (pos 0)) texts ≡ ok (joined, texts ++ ((file_name, []) ∷ []))
unfolding add_client add_contributor get_active_users_number update open_file create_file
    add_filename write_from_buffer to_string digits get_files_number starts_with same_text
joined-added = refl

abbrev stored : NotepadHandler
stored = record joined { changes_buffs = (5, codes "x") ∷ [] }

stored-stored : store_changes 5 (codes "x") joined ≡ ok stored
unfolding store_changes is_active find keep_track_of_changes update
stored-stored = refl

Reach-IsFair_example : IsFair (remove_contributor 5 stored)
Reach-IsFair_example = Reach-IsFair (pos 0) (remove_contributor 5 stored) (
    next
      (next (next here (joins 5 texts (texts ++ ((file_name, []) ∷ [])) joined-added))
        (stores 5 (codes "x") stored-stored))
      (leaves 5 refl))

-- Descriptor 5 has stored two changes, and 7 is owed both.
abbrev owing : NotepadHandler
owing = record (init (pos 0)) {
  opened = true;
  contributors = (5, tt) ∷ (7, tt) ∷ [];
  changes_buffs = (5, codes "xy") ∷ [];
  changes_tracker = (5, []) ∷ (7, pending 5 (codes "x") ∷ pending 5 (codes "y") ∷ []) ∷ [];
}

get_changes_stale_example :
    (p₁ p₂ p₃ : NotepadHandler) × (get_changes 7 owing ≡ ok (codes "x", p₁))
    × (remove_sent_changes 7 p₁ ≡ ok p₂)
    × (get_changes 7 p₂ ≡ ok (take 1 (codes "xy"), p₃))
unfolding find
get_changes_stale_example = get_changes_stale 7 5 (codes "x") (codes "y") owing refl refl refl

-- The round of the first change is over once 7 was sent it; the second is longer.
abbrev ending : NotepadHandler
ending = record owing {
  changes_buffs = (5, codes "xyz") ∷ [];
  changes_tracker = (5, []) ∷ (7, pending 5 (codes "x") ∷ pending 5 (codes "yz") ∷ []) ∷ [];
  changes_left = pos 1;
  last_change = some (pending 5 (codes "x"));
}

get_changes_blocked_example :
    (p₂ : NotepadHandler) × (remove_sent_changes 7 ending ≡ ok p₂)
    × (get_changes 7 p₂ ≡ ok ([], p₂))
unfolding find get_active_users_number
get_changes_blocked_example =
    get_changes_blocked 7 5 0 (codes "x") (codes "yz") ending refl refl refl refl refl
