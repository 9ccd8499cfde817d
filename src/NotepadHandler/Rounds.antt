-- ===== src/NotepadHandler/Rounds.antt =====
-- The rounds of changes when `changes_left`, which nothing initialises, starts at 0.
use tin_system_do_wspolpracy.Base.{
  ==_self, Bytes, List, [], ap, arith, false, length, ltb_ℤ, minus_one, ok, pos, refl, some, suc,
  take, take-length, true, ℕ, ◌&&◌, ◌++◌, ◌-ℤ◌, ◌==◌, ◌∙◌, ◌∷◌, ◌≡◌,
}
use tin_system_do_wspolpracy.IntMap.{get_or, assign, insert}
use tin_system_do_wspolpracy.IntMap.Laws.{find-update}
use tin_system_do_wspolpracy.NotepadHandler.{
  NotepadHandler, PendingChanges, get_changes, remove_sent_changes, tracked, front, pop_front,
  get_active_users_number, end_round,
}
use tin_system_do_wspolpracy.NotepadHandler.Tracking.{pending, stored, begun}

-- The notepad when the first change that a descriptor is owed was sent, and the round goes on.
abbrev pub sent_on : ℕ → List PendingChanges → NotepadHandler → NotepadHandler
sent_on j waiting p = record p {
  changes_tracker = assign j waiting p.changes_tracker;
  changes_left = p.changes_left -ℤ pos 1;
}

pub remove_sent_changes_lem :
    (j : ℕ) (p : NotepadHandler) (c : PendingChanges) (waiting : List PendingChanges)
    → tracked j p ≡ c ∷ waiting
    → p.changes_left ≡ pos 0
    → remove_sent_changes j p ≡ ok (sent_on j waiting p)
unfolding remove_sent_changes front pop_front
remove_sent_changes_lem j p c waiting t l = rw (t, remove_sent_changes) (rw l refl)

pub tracked-sent_on :
    (j : ℕ) (waiting : List PendingChanges) (p : NotepadHandler)
    → tracked j (sent_on j waiting p) ≡ waiting
tracked-sent_on j waiting p =
    ap (get_or [])
      (find-update j j waiting (λ (_ : List PendingChanges). waiting) p.changes_tracker)
    ∙ rw (==_self j) refl

stored-begun :
    (k : ℕ) (a : Bytes) (p : NotepadHandler) → stored k (begun (pending k a) p) ≡ stored k p
stored-begun k a p =
    rw (find-update k k [] (λ (b : Bytes). b) p.changes_buffs) (rw (==_self k) refl)

pub get_changes_begins :
    (j k : ℕ) (a : Bytes) (waiting : List PendingChanges) (p : NotepadHandler)
    → tracked j p ≡ pending k a ∷ waiting
    → p.changes_left ≡ pos 0
    → get_changes j p ≡ ok (take (length a) (stored k p), begun (pending k a) p)
unfolding get_changes front
get_changes_begins j k a waiting p t l = rw t (rw l refl)

get_changes_below :
    (j k : ℕ) (b : Bytes) (waiting : List PendingChanges) (p : NotepadHandler)
    → tracked j p ≡ pending k b ∷ waiting
    → p.changes_left ≡ minus_one
    → get_changes j p
      ≡ ok (take (length b) (stored k p), record p { changes_buffs = insert k [] p.changes_buffs })
unfolding get_changes front
get_changes_below j k b waiting p t l = rw t (rw l refl)

-- When `changes_left` is 0 and an editor is owed two changes of another one, and no more, which are all
-- that the other one has stored, it is sent the first, and what it is sent in place of the second is as
-- many bytes from the front of the buffer, where the first still stands.
pub get_changes_stale :
    (j k : ℕ) (a b : Bytes) (p : NotepadHandler)
    → tracked j p ≡ pending k a ∷ pending k b ∷ []
    → stored k p ≡ a ++ b
    → p.changes_left ≡ pos 0
    → (p₁ p₂ p₃ : NotepadHandler) × (get_changes j p ≡ ok (a, p₁))
      × (remove_sent_changes j p₁ ≡ ok p₂)
      × (get_changes j p₂ ≡ ok (take (length b) (a ++ b), p₃))
get_changes_stale j k a b p t s l =
    let waiting = pending k b ∷ [] in
    let p₁ = begun (pending k a) p in
    let p₂ = sent_on j waiting p₁ in
    let first = get_changes_begins j k a waiting p t l in
    let second =
      get_changes_below j k b [] p₂ (tracked-sent_on j waiting p₁) (ap (λ n. n -ℤ pos 1) l) in
    (
      p₁,
      p₂,
      record p₂ { changes_buffs = insert k [] p₂.changes_buffs },
      first ∙ rw s (rw (take-length a b) refl),
      remove_sent_changes_lem j p₁ (pending k a) waiting t l,
      second
          ∙ ap
              (λ x.
                ok (take (length b) x, record p₂ { changes_buffs = insert k [] p₂.changes_buffs }))
              (stored-begun k a p ∙ s),
    )

get_changes_waits :
    (j : ℕ) (r c : PendingChanges) (waiting : List PendingChanges) (p : NotepadHandler)
    → tracked j p ≡ r ∷ waiting
    → p.last_change ≡ some c
    → (r.from == c.from && r.change_nbytes == c.change_nbytes) ≡ false
    → ltb_ℤ (pos 0) p.changes_left ≡ true
    → get_changes j p ≡ ok ([], p)
unfolding get_changes front
get_changes_waits j r c waiting p t last differ above =
    rw (t, get_changes) (rw above (rw last (rw differ refl)))

ended_round_left :
    (c : PendingChanges) (n : ℕ) (p : NotepadHandler)
    → get_active_users_number p ≡ suc (suc n)
    → ltb_ℤ (pos 0) (end_round c p).changes_left ≡ true
unfolding end_round
ended_round_left c n p users = ap (λ m. ltb_ℤ (pos 0) (pos m -ℤ pos 1)) users ∙ ground arith

-- When an editor is the last one to be sent the change of a round, at least two clients edit, and the
-- change that it is owed next, by the same sender, has another length: after `remove_sent_changes` the
-- answer of `get_changes` is empty in place of that change, and the notepad stays as it is.
pub get_changes_blocked :
    (j k n : ℕ) (a b : Bytes) (p : NotepadHandler)
    → tracked j p ≡ pending k a ∷ pending k b ∷ []
    → (length b == length a) ≡ false
    → p.last_change ≡ some (pending k a)
    → p.changes_left ≡ pos 1
    → get_active_users_number p ≡ suc (suc n)
    → (p₂ : NotepadHandler) × (remove_sent_changes j p ≡ ok p₂) × (get_changes j p₂ ≡ ok ([], p₂))
unfolding remove_sent_changes front pop_front end_round get_active_users_number
get_changes_blocked j k n a b p t differ last one users =
    let waiting = pending k b ∷ [] in
    let p₁ = sent_on j waiting p in
    (
      end_round (pending k a) p₁,
      rw (t, remove_sent_changes) (rw one refl),
      get_changes_waits j (pending k b) (pending k a) [] (end_round (pending k a) p₁)
          (tracked-sent_on j waiting p) last (rw (==_self k) (rw differ refl))
          (ended_round_left (pending k a) n p₁ users),
    )
