-- ===== src/NotepadHandler.antt =====
-- server/NotepadHandler.h and server/NotepadHandler.cpp: who edits the document, what each editor
-- sent, and which of it each other editor has still to be sent.
pub mod Tracking
pub mod Owing
pub mod Reach
pub mod Rounds
use tin_system_do_wspolpracy.Base.{
  Bool, Bytes, List, Option, Outcome, [], drop, false, fault, guard, if◌then◌else◌, length, ltb_ℤ,
  minus_one, none, not, ok, out_of_range, pos, runtime_error, some, take, true, undefined, ℕ, ℤ,
  ◌&&◌, ◌++◌, ◌+◌, ◌-ℤ◌, ◌==ℤ◌, ◌==◌, ◌>>=◌, ◌>>◌, ◌∷◌,
}
use tin_system_do_wspolpracy.Files.{
  Files, create_file, get_files_number, read_to_buffer, write_from_buffer,
}
use tin_system_do_wspolpracy.IntMap.{
  IntMap, IntSet, find, has, update, insert, assign, erase, add, get_or,
}
use tin_system_do_wspolpracy.Note
use tin_system_do_wspolpracy.Note.{Note}
use tin_system_do_wspolpracy.Text.{codes, to_string}
use tin_system_do_wspolpracy.TextFileHandler
use tin_system_do_wspolpracy.TextFileHandler.{TextFileHandler}

pub record PendingChanges : Type 0 where
  pub from : ℕ
  pub change_nbytes : ℕ

-- `last_change` is `none` for the default -1, -1, which equals no change that is tracked.
-- `changes_left` is not initialised.
pub record NotepadHandler : Type 0 where
  pub opened : Bool
  pub text_files : TextFileHandler
  pub contributors : IntSet
  pub notepad : Note
  pub to_fetch_changes : IntSet
  pub changes_buffs : IntMap Bytes
  pub changes_tracker : IntMap (List PendingChanges)
  pub changes_left : ℤ
  pub last_change : Option PendingChanges

abbrev pub init : ℤ → NotepadHandler
init changes_left = record {
  opened = false;
  text_files = record { filenames = [] };
  contributors = [];
  notepad = Note.init minus_one;
  to_fetch_changes = [];
  changes_buffs = [];
  changes_tracker = [];
  changes_left = changes_left;
  last_change = none;
}

-- `PendingChanges::equals`, against `last_change`.
abbrev equals : PendingChanges → Option PendingChanges → Bool
equals a none = false
equals a (some b) = a.from == b.from && a.change_nbytes == b.change_nbytes

unfoldable pub open_file : NotepadHandler → NotepadHandler
open_file p = record p { opened = true }

unfoldable pub add_contributor : ℕ → NotepadHandler → NotepadHandler
add_contributor sockfd p =
    let q = if p.opened then p else open_file p in
    record q {
      contributors = add sockfd q.contributors;
      changes_tracker = insert sockfd [] q.changes_tracker;
    }

unfoldable pub is_active : ℕ → NotepadHandler → Bool
is_active sockfd p = has sockfd p.contributors

unfoldable pub get_active_users_number : NotepadHandler → ℕ
get_active_users_number p = length p.contributors

texts : Bytes
texts = codes "./texts"

-- "./texts/id_" + the descriptor + "_" + one more than the files there are.
text_name : ℕ → ℕ → Bytes
text_name sockfd files_count =
    codes "./texts/id_" ++ (to_string (pos sockfd) ++ (b'_' ∷ to_string (pos (files_count + 1))))

unfoldable pub add_client : ℕ → NotepadHandler → Files → Outcome (NotepadHandler × Files)
unfolding text_name texts
add_client sockfd p files =
    let q = add_contributor sockfd p in
    let first : Outcome (NotepadHandler × Files) = do
      files_count ← get_files_number texts files
      let fn = text_name sockfd files_count
      files' ← create_file fn files
      ok (record q { text_files = TextFileHandler.add_filename fn q.text_files }, files')
    in if get_active_users_number q == 1
      then first
      else ok (record q { to_fetch_changes = add sockfd q.to_fetch_changes }, files)

unfoldable pub edit_contents : Bytes → NotepadHandler → Outcome NotepadHandler
edit_contents changes p = do
  note ← Note.apply_changes changes p.notepad
  ok (record p { notepad = note })

-- The private `init`, which nothing calls.
unfoldable pub load_file : Bytes → NotepadHandler → Files → Outcome NotepadHandler
load_file fn p files = do
  file_text ← read_to_buffer fn files
  set ← Note.set_buffers file_text p.notepad
  ok (record p { notepad = set.0 })

-- The loop over `changes_tracker`: the change is still to be sent to all but its sender.
pub track : ℕ → ℕ → IntMap (List PendingChanges) → IntMap (List PendingChanges)
track sockfd nbytes [] = []
track sockfd nbytes ((j, pending) ∷ m) =
    (
      j,
      if j == sockfd
          then pending
          else pending ++ (record { from = sockfd; change_nbytes = nbytes } ∷ []),
    )
    ∷ track sockfd nbytes m

unfoldable pub keep_track_of_changes : ℕ → ℕ → NotepadHandler → NotepadHandler
unfolding track
keep_track_of_changes sockfd nbytes p = record p {
  changes_tracker = track sockfd nbytes p.changes_tracker;
}

unfoldable pub store_changes : ℕ → Bytes → NotepadHandler → Outcome NotepadHandler
store_changes sockfd edit p = do
  guard (is_active sockfd p) runtime_error
  ok (
      keep_track_of_changes sockfd (length edit)
        (record p { changes_buffs = update sockfd [] (λ b. b ++ edit) p.changes_buffs }))

unfoldable pub is_to_fetch_changes : ℕ → NotepadHandler → Bool
is_to_fetch_changes sockfd p = has sockfd p.to_fetch_changes

unfoldable pub get_notepad_current_size : NotepadHandler → ℕ
get_notepad_current_size p = length (Note.get_file_changes p.notepad)

unfoldable pub get_contributors : NotepadHandler → IntSet
get_contributors p = p.contributors

unfoldable pub get_file_as_str : NotepadHandler → Bytes
get_file_as_str p = Note.get_file_changes p.notepad

unfoldable pub get_stored_changes : ℕ → NotepadHandler → Outcome Bytes
get_stored_changes sockfd p = elim (find sockfd p.changes_buffs) [
  | none ↦ fault out_of_range
  | some changes ↦ ok changes
]

-- The list that `changes_tracker[sockfd]` reads, and its front.
abbrev pub tracked : ℕ → NotepadHandler → List PendingChanges
tracked sockfd p = get_or [] (find sockfd p.changes_tracker)

pub front : List PendingChanges → Outcome PendingChanges
front [] = fault undefined
front (c ∷ cs) = ok c

pub pop_front : List PendingChanges → List PendingChanges
pop_front [] = []
pop_front (c ∷ cs) = cs

unfoldable pub get_changes : ℕ → NotepadHandler → Outcome (Bytes × NotepadHandler)
unfolding front
get_changes sockfd p = front (tracked sockfd p) >>= λ recent.
    let q = if p.changes_left ==ℤ pos 0 then record p { last_change = some recent } else p in
    let buff = get_or [] (find recent.from q.changes_buffs) in
    let read : NotepadHandler = record q {
      changes_buffs = insert recent.from [] q.changes_buffs;
    } in
    if ltb_ℤ (pos 0) p.changes_left && not (equals recent p.last_change)
    then ok ([], p)
    else ok (take recent.change_nbytes buff, read)

-- The end of a round: the sent edit leaves the buffer, and the buffer goes if its editor is gone.
pub end_round : PendingChanges → NotepadHandler → NotepadHandler
end_round change p =
    let cut = update change.from [] (drop change.change_nbytes) p.changes_buffs in
    record p {
      changes_buffs = if is_active change.from p then cut else erase change.from cut;
      changes_left = pos (get_active_users_number p) -ℤ pos 1;
    }

unfoldable pub remove_sent_changes : ℕ → NotepadHandler → Outcome NotepadHandler
unfolding front pop_front end_round
remove_sent_changes sockfd p = do
  change ← front (tracked sockfd p)
  let q : NotepadHandler = record p {
    changes_tracker = assign sockfd (pop_front (tracked sockfd p)) p.changes_tracker;
    changes_left = p.changes_left -ℤ pos 1;
  }
  if q.changes_left ==ℤ pos 0 then ok (end_round change q) else ok q

-- One client fewer has to be sent the change of the current round.
leave_round : List PendingChanges → NotepadHandler → ℤ
leave_round [] p = p.changes_left
leave_round (c ∷ cs) p =
    if equals c p.last_change && ltb_ℤ (pos 0) p.changes_left
    then p.changes_left -ℤ pos 1
    else p.changes_left

unfoldable pub remove_contributor : ℕ → NotepadHandler → NotepadHandler
unfolding leave_round
remove_contributor sockfd p = record p {
  contributors = erase sockfd p.contributors;
  changes_buffs = elim (get_or [] (find sockfd p.changes_buffs)) [
    | [] ↦ erase sockfd p.changes_buffs
    | c ∷ s ↦ p.changes_buffs
  ];
  changes_left = leave_round (tracked sockfd p) p;
  changes_tracker = erase sockfd p.changes_tracker;
}

-- `creators` is what `Note::toString` reads for the creators, which nothing sets.
unfoldable pub save_to_file : (ℕ → ℤ) → NotepadHandler → Files → Outcome Files
save_to_file creators p files = do
  edited_contents ← Note.to_text creators p.notepad
  fn ← TextFileHandler.get_recent_fn p.text_files
  ok (write_from_buffer fn edited_contents files)

unfoldable pub get_str : (ℕ → ℤ) → NotepadHandler → Outcome Bytes
get_str creators p = Note.to_text creators p.notepad
