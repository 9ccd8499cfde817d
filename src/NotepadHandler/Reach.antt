-- ===== src/NotepadHandler/Reach.antt =====
-- The notepad under any sequence of its operations.
use tin_system_do_wspolpracy.Base.{Bytes, Outcome-cases, [], arith, inl, inr, length, ok, ℕ, ℤ, ◌≡◌}
use tin_system_do_wspolpracy.Files.{Files}
use tin_system_do_wspolpracy.IntMap.{find, add, insert, assign}
use tin_system_do_wspolpracy.NotepadHandler.{
  NotepadHandler, PendingChanges, init, add_client, add_contributor, open_file, edit_contents,
  store_changes, keep_track_of_changes, get_changes, remove_sent_changes, remove_contributor, front,
  pop_front, end_round, track,
}
use tin_system_do_wspolpracy.NotepadHandler.Owing.{
  IsConsistent, owed, join-IsConsistent, leave-IsConsistent, store-IsConsistent, sent-IsConsistent,
}

-- One operation, when it does not end the process.
pub data Step (p q : NotepadHandler) : Type 0 where
  joins : (k : ℕ) (files files' : Files) → add_client k p files ≡ ok (q, files') → Step p q
  edits : (changes : Bytes) → edit_contents changes p ≡ ok q → Step p q
  stores : (k : ℕ) (edit : Bytes) → store_changes k edit p ≡ ok q → Step p q
  takes : (k : ℕ) (text : Bytes) → get_changes k p ≡ ok (text, q) → Step p q
  sends : (k : ℕ) → remove_sent_changes k p ≡ ok q → Step p q
  leaves : (k : ℕ) → q ≡ remove_contributor k p → Step p q

-- What can become of a new notepad.
pub data Reach (changes_left : ℤ) : NotepadHandler → Type 0 where
  here : Reach changes_left (init changes_left)
  next : {p q : NotepadHandler} → Reach changes_left p → Step p q → Reach changes_left q

abbrev pub IsFair : NotepadHandler → Type 0
IsFair p = IsConsistent p.contributors p.changes_tracker

add_client_fields :
    (k : ℕ) (p q : NotepadHandler) (files files' : Files)
    → add_client k p files ≡ ok (q, files')
    → (q.contributors ≡ add k p.contributors) × (q.changes_tracker ≡ insert k [] p.changes_tracker)
unfolding add_client add_contributor open_file
add_client_fields k p q files files' e = ground arith

edit_contents_fields :
    (changes : Bytes) (p q : NotepadHandler)
    → edit_contents changes p ≡ ok q
    → (q.contributors ≡ p.contributors) × (q.changes_tracker ≡ p.changes_tracker)
unfolding edit_contents
edit_contents_fields changes p q e = ground arith

store_changes_fields :
    (k : ℕ) (edit : Bytes) (p q : NotepadHandler)
    → store_changes k edit p ≡ ok q
    → (q.contributors ≡ p.contributors)
      × (q.changes_tracker ≡ track k (length edit) p.changes_tracker)
unfolding store_changes keep_track_of_changes
store_changes_fields k edit p q e = ground arith

get_changes_fields :
    (k : ℕ) (text : Bytes) (p q : NotepadHandler)
    → get_changes k p ≡ ok (text, q)
    → (q.contributors ≡ p.contributors) × (q.changes_tracker ≡ p.changes_tracker)
unfolding get_changes
get_changes_fields k text p q e = ground arith

remove_sent_changes_fields :
    (k : ℕ) (p q : NotepadHandler)
    → remove_sent_changes k p ≡ ok q
    → (c : PendingChanges) × (front (owed k p.changes_tracker) ≡ ok c)
      × (q.contributors ≡ p.contributors)
      × (q.changes_tracker ≡ assign k (pop_front (owed k p.changes_tracker)) p.changes_tracker)
unfolding remove_sent_changes end_round
remove_sent_changes_fields k p q e = elim (Outcome-cases (front (owed k p.changes_tracker))) [
  | inl (c, found) ↦ (c, found, ground arith, ground arith)
  | inr (f, bad) ↦ ground arith
]

Step-IsFair : {p q : NotepadHandler} → Step p q → IsFair p → IsFair q
unfolding remove_contributor
Step-IsFair {p} {q} (joins k files files' e) h =
    let (c, t) = add_client_fields k p q files files' e in rw (c, t) (join-IsConsistent h k)
Step-IsFair {p} {q} (edits changes e) h =
    let (c, t) = edit_contents_fields changes p q e in rw (c, t) h
Step-IsFair {p} {q} (stores k edit e) h =
    let (c, t) = store_changes_fields k edit p q e in
    rw (c, t) (store-IsConsistent h k (length edit))
Step-IsFair {p} {q} (takes k text e) h = let (c, t) = get_changes_fields k text p q e in rw (c, t) h
Step-IsFair {p} {q} (sends k e) h =
    let (change, at_front, c, t) = remove_sent_changes_fields k p q e in
    rw (c, t) (sent-IsConsistent h k change at_front)
Step-IsFair {p} {q} (leaves k e) h = rw e (leave-IsConsistent h k)

-- After any sequence of operations on a new notepad the editors are in order, exactly the editors are
-- tracked, and no editor is owed a change of its own.
pub Reach-IsFair : (changes_left : ℤ) (p : NotepadHandler) → Reach changes_left p → IsFair p
unfolding find
Reach-IsFair changes_left _ here = record {
  sorted = tt;
  tracks = λ j. ground arith;
  foreign = λ j. tt;
}
Reach-IsFair changes_left _ (next r step) = Step-IsFair step (Reach-IsFair changes_left _ r)
