-- ===== src/NotepadHandler/Owing.antt =====
-- Who owes whom a change: what every operation on the two maps of the editors keeps.
use tin_system_do_wspolpracy.Base.{
  ==_iff, All, All-append, Bool, List, [], arith, false, if◌then◌else◌, not, ok, refl, true, ℕ,
  ◌&&◌, ◌++◌, ◌==◌, ◌∷◌, ◌≡◌, ◌≢◌,
}
use tin_system_do_wspolpracy.IntMap.{IntMap, IntSet, find, get_or, has, insert, add, assign, erase}
use tin_system_do_wspolpracy.IntMap.Laws.{find-update, find-erase}
use tin_system_do_wspolpracy.IntMap.Order.{IsSorted, update-IsSorted, erase-IsSorted}
use tin_system_do_wspolpracy.NotepadHandler.{PendingChanges, track, pop_front, front}
use tin_system_do_wspolpracy.NotepadHandler.Tracking.{find-track}

-- The changes that a descriptor is owed.
abbrev pub owed : ℕ → IntMap (List PendingChanges) → List PendingChanges
owed j tracker = get_or [] (find j tracker)

-- No change in the list is of descriptor `j`.
abbrev pub IsForeign : ℕ → List PendingChanges → Type 0
IsForeign j = All (λ c. c.from ≢ j)

-- The editors are in order, exactly they are tracked, and nobody is owed a change of its own.
pub record IsConsistent (contributors : IntSet) (tracker : IntMap (List PendingChanges))
    : Type 0 where
  pub sorted : IsSorted contributors
  pub tracks : (j : ℕ) → has j tracker ≡ has j contributors
  pub foreign : (j : ℕ) → IsForeign j (owed j tracker)

module _ (j k : ℕ) (ts : IntMap (List PendingChanges)) where
  owed-insert : owed j (insert k [] ts) ≡ owed j ts
  owed-insert = ground (arith, find-update j k [] (λ (q : List PendingChanges). q) ts)

  owed-assign :
      (q : List PendingChanges) → owed j (assign k q ts) ≡ (if k == j then q else owed j ts)
  owed-assign q = ground (arith, find-update j k q (λ (_ : List PendingChanges). q) ts)

  owed-erase : owed j (erase k ts) ≡ (if k == j then [] else owed j ts)
  owed-erase = ground (arith, find-erase j k ts)

  owed-track :
      (nbytes : ℕ)
      → owed j (track k nbytes ts) ≡ (
          if has j ts && not (j == k)
          then owed j ts ++ (record { from = k; change_nbytes = nbytes } ∷ [])
          else owed j ts)
  owed-track nbytes = ground (arith, find-track j k nbytes ts)

IsForeign-if :
    (j : ℕ) (b : Bool) (p q : List PendingChanges)
    → (b ≡ true → IsForeign j p)
    → IsForeign j q
    → IsForeign j (if b then p else q)
IsForeign-if j true p q hp hq = hp refl
IsForeign-if j false p q hp hq = hq

IsForeign-pop_front : (j : ℕ) (q : List PendingChanges) → IsForeign j q → IsForeign j (pop_front q)
unfolding pop_front
IsForeign-pop_front j [] h = tt
IsForeign-pop_front j (c ∷ q) h = h.1

-- A list with a front is tracked.
has-front :
    (k : ℕ) (ts : IntMap (List PendingChanges)) (c : PendingChanges)
    → front (owed k ts) ≡ ok c
    → has k ts ≡ true
unfolding front
has-front k ts c e = ground arith

module _ {cs : IntSet} {ts : IntMap (List PendingChanges)} (h : IsConsistent cs ts) (k : ℕ) where
  pub join-IsConsistent : IsConsistent (add k cs) (insert k [] ts)
  join-IsConsistent = record {
    sorted = update-IsSorted k tt _ cs h.sorted;
    tracks = λ j. ground (
      arith,
      find-update j k tt (λ (u : Unit {0}). u) cs,
      find-update j k [] (λ (q : List PendingChanges). q) ts,
      h.tracks j,
    );
    foreign = λ j. rw (owed-insert j k ts) (h.foreign j);
  }

  pub leave-IsConsistent : IsConsistent (erase k cs) (erase k ts)
  leave-IsConsistent = record {
    sorted = erase-IsSorted k cs h.sorted;
    tracks = λ j. ground (arith, find-erase j k cs, find-erase j k ts, h.tracks j);
    foreign = λ j.
        rw (owed-erase j k ts) (IsForeign-if j (k == j) [] (owed j ts) (λ _. tt) (h.foreign j));
  }

  pub store-IsConsistent : (nbytes : ℕ) → IsConsistent cs (track k nbytes ts)
  store-IsConsistent nbytes = record {
    sorted = h.sorted;
    tracks = λ j. ground (arith, find-track j k nbytes ts, h.tracks j);
    foreign = λ j.
        let added : PendingChanges = record { from = k; change_nbytes = nbytes } in
        rw (owed-track j k ts nbytes) (
          IsForeign-if j (has j ts && not (j == k)) (owed j ts ++ (added ∷ [])) (owed j ts)
            (λ e. All-append _ (owed j ts) (added ∷ []) (h.foreign j) (ground arith, tt))
            (h.foreign j));
  }

  pub sent-IsConsistent :
      (c : PendingChanges)
      → front (owed k ts) ≡ ok c
      → IsConsistent cs (assign k (pop_front (owed k ts)) ts)
  unfolding front pop_front
  sent-IsConsistent c e = record {
    sorted = h.sorted;
    tracks = λ j. ground (
      arith,
      find-update j k (pop_front (owed k ts)) (λ (_ : List PendingChanges). pop_front (owed k ts))
          ts,
      has-front k ts c e,
      h.tracks j,
    );
    foreign = λ j. rw (owed-assign j k ts (pop_front (owed k ts))) (
        IsForeign-if j (k == j) (pop_front (owed k ts)) (owed j ts)
          (λ e.
            let same : k ≡ j = (==_iff k j).0 e in
            IsForeign-pop_front j (owed k ts) (rw same (h.foreign j)))
          (h.foreign j));
  }
