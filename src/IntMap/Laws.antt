-- ===== src/IntMap/Laws.antt =====
-- Reading a map after each way to write it.
use tin_system_do_wspolpracy.Base.{
  Option-cases, [], arith, if◌then◌else◌, inl, inr, none, some, ℕ, ◌==◌, ◌∷◌, ◌≡◌,
}
use tin_system_do_wspolpracy.IntMap.{IntMap, find, change, place, update, erase, get_or}

module _ {ℓ} {V : Type ℓ} where
  find-change :
      (j k : ℕ) (f : V → V) (m : IntMap V) (v : V)
      → find k m ≡ some v
      → find j (change k f m) ≡ (if k == j then some (f v) else find j m)
  unfolding find change
  find-change j k f [] v h = cc
  find-change j k f ((i, w) ∷ m) v h = ground (arith, find-change j k f m v)

  find-place :
      (j k : ℕ) (v : V) (m : IntMap V)
      → find k m ≡ none
      → find j (place k v m) ≡ (if k == j then some v else find j m)
  unfolding find place
  find-place j k v [] h = ground arith
  find-place j k v ((i, w) ∷ m) h = ground (arith, find-place j k v m)

  pub update_absent :
      (k : ℕ) (d : V) (f : V → V) (m : IntMap V)
      → find k m ≡ none
      → update k d f m ≡ place k (f d) m
  unfolding update
  update_absent k d f m e = ground arith

  pub update_present :
      (k : ℕ) (d : V) (f : V → V) (m : IntMap V) (v : V)
      → find k m ≡ some v
      → update k d f m ≡ change k f m
  unfolding update
  update_present k d f m v e = ground arith

  pub find-update :
      (j k : ℕ) (d : V) (f : V → V) (m : IntMap V)
      → find j (update k d f m) ≡ (if k == j then some (f (get_or d (find k m))) else find j m)
  find-update j k d f m = elim (Option-cases (find k m)) [
    | inl e ↦ rw (update_absent k d f m e, e) (find-place j k (f d) m e)
    | inr (v, e) ↦ rw (update_present k d f m v e, e) (find-change j k f m v e)
  ]

  pub find-erase :
      (j k : ℕ) (m : IntMap V) → find j (erase k m) ≡ (if k == j then none else find j m)
  unfolding find erase
  find-erase j k [] = ground arith
  find-erase j k ((i, w) ∷ m) = ground (arith, find-erase j k m)
