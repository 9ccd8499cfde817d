-- ===== src/IntMap/Bounds.antt =====
-- A bound on the keys of a set.
use tin_system_do_wspolpracy.Base.{
  All, Bool-cases, [], arith, inl, inr, leb, not, refl, true, ℕ, ◌&&◌, ◌==◌, ◌||◌, ◌∷◌, ◌≡◌, ◌≤◌,
}
use tin_system_do_wspolpracy.IntMap.Laws.{find-update, find-erase}
use tin_system_do_wspolpracy.IntMap.{IntSet, change, place, update, has, add, erase, find}

-- Every element is at most `n`.
abbrev pub Within : ℕ → IntSet → Type 0
Within n = All (λ e. e.0 ≤ n)

pub Within-mono : (a b : ℕ) (m : IntSet) → a ≤ b → Within a m → Within b m
Within-mono a b [] h w = tt
Within-mono a b (e ∷ m) h w = (omega (arith, w.0), Within-mono a b m h w.1)

Within-change :
    (n k : ℕ) (f : Unit {0} → Unit {0}) (m : IntSet) → Within n m → Within n (change k f m)
unfolding change
Within-change n k f [] w = tt
Within-change n k f ((j, v) ∷ m) w = ground (arith, Within-change n k f m w.1)

Within-place : (n k : ℕ) (v : Unit {0}) (m : IntSet) → k ≤ n → Within n m → Within n (place k v m)
unfolding place
Within-place n k v [] h w = (h, tt)
Within-place n k v ((j, u) ∷ m) h w = ground (arith, Within-place n k v m h w.1)

pub Within-add : (n k : ℕ) (m : IntSet) → k ≤ n → Within n m → Within n (add k m)
unfolding update
Within-add n k m h w = elim (Bool-cases (has k m)) [
  | inl e ↦ rw e (Within-change n k _ m w)
  | inr e ↦ rw e (Within-place n k _ m h w)
]

pub Within-erase : (n k : ℕ) (m : IntSet) → Within n m → Within n (erase k m)
unfolding erase
Within-erase n k [] w = tt
Within-erase n k ((j, v) ∷ m) w = ground (arith, Within-erase n k m w.1)

-- An element is below the bound.
pub has-Within : (n k : ℕ) (m : IntSet) → Within n m → has k m ≡ true → leb k n ≡ true
unfolding find
has-Within n k [] w e = cc
has-Within n k ((j, v) ∷ m) w e = ground (arith, w.0, has-Within n k m w.1)

pub has-add : (j k : ℕ) (m : IntSet) → has j (add k m) ≡ ((k == j) || has j m)
has-add j k m = ground (arith, find-update j k tt (λ (w : Unit {0}). w) m)

pub has-erase : (j k : ℕ) (m : IntSet) → has j (erase k m) ≡ (not (k == j) && has j m)
has-erase j k m = ground (arith, find-erase j k m)

pub add_nil : (k : ℕ) → add k [] ≡ (k, tt) ∷ []
unfolding update place find
add_nil k = refl
