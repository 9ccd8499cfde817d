-- ===== src/IntMap/Order.antt =====
-- The keys of a map rise, so no key stands twice; every operation keeps this.
use tin_system_do_wspolpracy.Base.{
  Option-cases, [], arith, inl, inr, none, refl, suc, ℕ, ◌<◌, ◌∷◌, ◌≡◌, ◌≤◌,
}
use tin_system_do_wspolpracy.IntMap.Laws.{update_absent, update_present}
use tin_system_do_wspolpracy.IntMap.{IntMap, find, change, place, update, erase}

module _ {ℓ} {V : Type ℓ} where
  -- Every key is above `n`, and they rise.
  abbrev pub RisesFrom : ℕ → IntMap V → Type 0
  RisesFrom n [] = Unit {0}
  RisesFrom n ((k, v) ∷ m) = (n ≤ k) × RisesFrom (suc k) m

  abbrev pub IsSorted : IntMap V → Type 0
  IsSorted = RisesFrom 0

  RisesFrom-mono : (a b : ℕ) (m : IntMap V) → a ≤ b → RisesFrom b m → RisesFrom a m
  RisesFrom-mono a b [] h r = tt
  RisesFrom-mono a b ((k, v) ∷ m) h r = (omega arith, r.1)

  RisesFrom-change :
      (n k : ℕ) (f : V → V) (m : IntMap V) → RisesFrom n m → RisesFrom n (change k f m)
  unfolding change
  RisesFrom-change n k f [] r = tt
  RisesFrom-change n k f ((j, v) ∷ m) r = ground (arith, RisesFrom-change (suc j) k f m r.1)

  RisesFrom-place :
      (n k : ℕ) (v : V) (m : IntMap V)
      → n ≤ k
      → find k m ≡ none
      → RisesFrom n m
      → RisesFrom n (place k v m)
  unfolding place find
  RisesFrom-place n k v [] h e r = (h, tt)
  RisesFrom-place n k v ((j, w) ∷ m) h e r =
      ground (arith, RisesFrom-place (suc j) k v m, RisesFrom-mono (suc k) (suc j) m)

  pub update-IsSorted :
      (k : ℕ) (d : V) (f : V → V) (m : IntMap V) → IsSorted m → IsSorted (update k d f m)
  update-IsSorted k d f m r = elim (Option-cases (find k m)) [
    | inl e ↦ rw (update_absent k d f m e) (RisesFrom-place 0 k (f d) m (omega arith) e r)
    | inr (v, e) ↦ rw (update_present k d f m v e) (RisesFrom-change 0 k f m r)
  ]

  RisesFrom-erase : (n k : ℕ) (m : IntMap V) → RisesFrom n m → RisesFrom n (erase k m)
  unfolding erase
  RisesFrom-erase n k [] r = tt
  RisesFrom-erase n k ((j, v) ∷ m) r = ground (
    arith,
    RisesFrom-erase n k m (RisesFrom-mono n (suc j) m (omega arith) r.1),
    RisesFrom-erase (suc j) k m r.1,
  )

  pub erase-IsSorted : (k : ℕ) (m : IntMap V) → IsSorted m → IsSorted (erase k m)
  erase-IsSorted k m r = RisesFrom-erase 0 k m r

  -- A sorted map does not hold a key below its first.
  pub find_below : (n j : ℕ) (m : IntMap V) → j < n → RisesFrom n m → find j m ≡ none
  unfolding find
  find_below n j [] h r = refl
  find_below n j ((k, v) ∷ m) h r = ground (arith, find_below (suc k) j m (omega arith) r.1)
