-- ===== src/IntMap.antt =====
-- `std::map<int, V>` and `std::set<int>` keyed by descriptors: an association list in the order in
-- which iteration visits it. A read of a missing key is `none`; `operator[]` is `update`.
pub mod Laws
pub mod Order
pub mod Bounds
use mathlib.Core.Option
use tin_system_do_wspolpracy.Base.{
  Bool, List, Option, [], false, if◌then◌else◌, ltb, none, some, true, ℕ, ◌==◌, ◌∷◌,
}

abbrev pub IntMap {ℓ} : Type ℓ → Type ℓ
IntMap V = List (ℕ × V)

abbrev pub IntSet : Type 0
IntSet = IntMap (Unit {0})

module _ {ℓ} {V : Type ℓ} where
  unfoldable pub find : ℕ → IntMap V → Option V
  find k [] = none
  find k ((j, v) ∷ m) = if k == j then some v else find k m

  abbrev pub has : ℕ → IntMap V → Bool
  has k m = elim (find k m) [ none ↦ false | some v ↦ true ]

  -- Changes the value of a key that is there.
  pub change : ℕ → (V → V) → IntMap V → IntMap V
  change k f [] = []
  change k f ((j, v) ∷ m) = if k == j then (j, f v) ∷ m else (j, v) ∷ change k f m

  -- Puts a new key in its place.
  pub place : ℕ → V → IntMap V → IntMap V
  place k v [] = (k, v) ∷ []
  place k v ((j, w) ∷ m) = if ltb k j then (k, v) ∷ (j, w) ∷ m else (j, w) ∷ place k v m

  -- `f(m[k])`, where `m[k]` first puts the default at a missing key.
  unfoldable pub update : ℕ → V → (V → V) → IntMap V → IntMap V
  unfolding find change place
  update k default f m = if has k m then change k f m else place k (f default) m

  -- `m.insert(make_pair(k, v))`, which keeps a value that is there.
  abbrev pub insert : ℕ → V → IntMap V → IntMap V
  insert k v = update k v (λ w. w)

  -- `m[k] = v`.
  abbrev pub assign : ℕ → V → IntMap V → IntMap V
  assign k v = update k v (λ _. v)

  unfoldable pub erase : ℕ → IntMap V → IntMap V
  erase k [] = []
  erase k ((j, v) ∷ m) = if k == j then erase k m else (j, v) ∷ erase k m

  unfoldable pub keys : IntMap V → List ℕ
  keys [] = []
  keys ((k, v) ∷ m) = k ∷ keys m

  abbrev pub get_or : V → Option V → V
  get_or d none = d
  get_or d (some v) = v

abbrev pub add : ℕ → IntSet → IntSet
add k = insert k tt
