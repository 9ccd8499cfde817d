-- ===== src/NotepadHandler/Tracking.antt =====
-- Where an edit goes that `store_changes` takes, and how another editor gets it.
use tin_system_do_wspolpracy.Base.{
  ==_self, Bytes, List, Outcome, [], arith, false, if◌then◌else◌, length, none, not, ok, pos, refl,
  some, take_self, true, ℕ, ◌&&◌, ◌++◌, ◌==◌, ◌∙◌, ◌∷◌, ◌≡◌,
}
use tin_system_do_wspolpracy.IntMap.{IntMap, find, get_or, has, update, insert}
use tin_system_do_wspolpracy.IntMap.Laws.{find-update}
use tin_system_do_wspolpracy.NotepadHandler.{
  NotepadHandler, PendingChanges, track, keep_track_of_changes, store_changes, get_changes, tracked,
  is_active, front,
}

-- The edit of a descriptor as it is queued.
abbrev pub pending : ℕ → Bytes → PendingChanges
pending sockfd edit = record { from = sockfd; change_nbytes = length edit }

pub find-track :
    (j sockfd nbytes : ℕ) (m : IntMap (List PendingChanges))
    → find j (track sockfd nbytes m) ≡ (elim (find j m) [
      | none ↦ none
      | some q ↦
          some (
            if j == sockfd then q else q ++ (record { from = sockfd; change_nbytes = nbytes } ∷ []))
    ])
unfolding find track
find-track j sockfd nbytes [] = refl
find-track j sockfd nbytes ((i, q) ∷ m) = ground (arith, find-track j sockfd nbytes m)

-- The bytes that an editor has stored.
abbrev pub stored : ℕ → NotepadHandler → Bytes
stored sockfd p = get_or [] (find sockfd p.changes_buffs)

-- What an edit of `sockfd` leaves for each descriptor.
pub record Stored (sockfd : ℕ) (edit : Bytes) (p : NotepadHandler) (o : Outcome NotepadHandler)
    : Type 0 where
  pub after : NotepadHandler
  pub succeeds : o ≡ ok after
  pub buffers : (j : ℕ) → stored j after ≡ (if sockfd == j then stored j p ++ edit else stored j p)
  pub tracks :
      (j : ℕ)
      → tracked j after ≡ (
          if has j p.changes_tracker && not (j == sockfd)
          then tracked j p ++ (pending sockfd edit ∷ [])
          else tracked j p)
  pub keeps : after.changes_left ≡ p.changes_left

-- An edit of an editor goes behind the bytes that the editor has stored, and is queued behind the
-- changes of every other descriptor that is tracked; nothing else is stored or queued, and the count
-- of the round stays.
pub store_changes-Stored :
    (sockfd : ℕ) (edit : Bytes) (p : NotepadHandler)
    → is_active sockfd p ≡ true
    → Stored sockfd edit p (store_changes sockfd edit p)
unfolding store_changes keep_track_of_changes
store_changes-Stored sockfd edit p h = record {
  after =
      keep_track_of_changes sockfd (length edit)
        (record p { changes_buffs = update sockfd [] (λ b. b ++ edit) p.changes_buffs });
  succeeds = rw h refl;
  buffers = λ j. ground (arith, find-update j sockfd [] (λ (b : Bytes). b ++ edit) p.changes_buffs);
  tracks = λ j. ground (arith, find-track j sockfd (length edit) p.changes_tracker);
  keeps = refl;
}

-- What `get_changes` notes when a round begins with this change.
abbrev pub begun : PendingChanges → NotepadHandler → NotepadHandler
begun change p = record p {
  last_change = some change;
  changes_buffs = insert change.from [] p.changes_buffs;
}

-- What is sent when a round begins.
pub get_changes_lem :
    (j : ℕ) (p : NotepadHandler) (sockfd : ℕ) (edit : Bytes) (waiting : List PendingChanges)
    → tracked j p ≡ pending sockfd edit ∷ waiting
    → stored sockfd p ≡ edit
    → p.changes_left ≡ pos 0
    → get_changes j p ≡ ok (edit, begun (pending sockfd edit) p)
unfolding get_changes front
get_changes_lem j p sockfd edit waiting t b l = rw t (rw l (rw b (rw (take_self edit) refl)))

-- Between rounds, when an editor has nothing stored and another one is owed nothing, an edit of the
-- first is what the other one is sent next.
pub get_changes-store_changes :
    (sockfd j : ℕ) (edit : Bytes) (p : NotepadHandler)
    → is_active sockfd p ≡ true
    → has j p.changes_tracker ≡ true
    → (j == sockfd) ≡ false
    → tracked j p ≡ []
    → stored sockfd p ≡ []
    → p.changes_left ≡ pos 0
    → (after : NotepadHandler) × (store_changes sockfd edit p ≡ ok after)
      × (get_changes j after ≡ ok (edit, begun (pending sockfd edit) after))
get_changes-store_changes sockfd j edit p active known other none_owed empty round_over =
    let s = store_changes-Stored sockfd edit p active in
    let owed : tracked j s.after ≡ pending sockfd edit ∷ [] =
      s.tracks j ∙ rw known (rw other (rw none_owed refl)) in
    let kept : stored sockfd s.after ≡ edit =
      s.buffers sockfd ∙ rw (==_self sockfd) (rw empty refl) in
    (s.after, s.succeeds, get_changes_lem j s.after sockfd edit [] owed kept (s.keeps ∙ round_over))
