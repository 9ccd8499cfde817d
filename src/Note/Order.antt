-- ===== src/Note/Order.antt =====
-- `compare` is a strict weak order, as `std::sort` demands, and `sort` puts characters in that order.
use mathlib.Core.List.{Perm}
use mathlib.Core.List.Perm
use tin_system_do_wspolpracy.Base.{
  All, Bool-cases, List, [], arith, false, inl, inr, refl, true, ℤ, ◌∷◌, ◌≡◌,
}
use tin_system_do_wspolpracy.Note.{compare_at, sort, Character, compare, insert_char}

compare_at_irreflexive : (ps : List ℤ) (a : ℤ) → compare_at ps ps a a ≡ false
unfolding compare_at
compare_at_irreflexive [] a = ground arith
compare_at_irreflexive (p ∷ ps) a = ground (arith, compare_at_irreflexive ps a)

compare_at_trans :
    (ps qs rs : List ℤ) (a b c : ℤ)
    → compare_at ps qs a b ≡ true
    → compare_at qs rs b c ≡ true
    → compare_at ps rs a c ≡ true
unfolding compare_at
compare_at_trans [] [] [] a b c h k = ground arith
compare_at_trans [] [] (r ∷ rs) a b c h k = refl
compare_at_trans [] (q ∷ qs) [] a b c h k = cc
compare_at_trans [] (q ∷ qs) (r ∷ rs) a b c h k = refl
compare_at_trans (p ∷ ps) [] rs a b c h k = cc
compare_at_trans (p ∷ ps) (q ∷ qs) [] a b c h k = cc
compare_at_trans (p ∷ ps) (q ∷ qs) (r ∷ rs) a b c h k =
    ground (arith, compare_at_trans ps qs rs a b c)

-- Neither goes before the other.
compare_at_incomparable :
    (ps qs rs : List ℤ) (a b c : ℤ)
    → compare_at ps qs a b ≡ false
    → compare_at qs rs b c ≡ false
    → compare_at ps rs a c ≡ false
unfolding compare_at
compare_at_incomparable [] [] [] a b c h k = ground arith
compare_at_incomparable [] [] (r ∷ rs) a b c h k = cc
compare_at_incomparable [] (q ∷ qs) rs a b c h k = cc
compare_at_incomparable (p ∷ ps) [] [] a b c h k = refl
compare_at_incomparable (p ∷ ps) [] (r ∷ rs) a b c h k = cc
compare_at_incomparable (p ∷ ps) (q ∷ qs) [] a b c h k = refl
compare_at_incomparable (p ∷ ps) (q ∷ qs) (r ∷ rs) a b c h k =
    ground (arith, compare_at_incomparable ps qs rs a b c)

compare-IsStrictWeak :
    (a b c : Character)
    → (compare a a ≡ false)
      × (compare a b ≡ true → compare b c ≡ true → compare a c ≡ true)
      × (compare a b ≡ false → compare b c ≡ false → compare a c ≡ false)
unfolding compare
compare-IsStrictWeak a b c = (
  compare_at_irreflexive a.position a.creator,
  compare_at_trans a.position b.position c.position a.creator b.creator c.creator,
  compare_at_incomparable a.position b.position c.position a.creator b.creator c.creator,
)

pub compare_asym : (a b : Character) → compare a b ≡ true → compare b a ≡ false
compare_asym a b h = elim (Bool-cases (compare b a)) [
  | inl back ↦
      let same = (compare-IsStrictWeak a b a).1 h back in
      let never = (compare-IsStrictWeak a a a).0 in cc
  | inr e ↦ e
]

-- If `compare` puts one character before a second and that before a third, it puts the first before
-- the third and not the third before the first.
pub compare_trans :
    (a b c : Character)
    → compare a b ≡ true
    → compare b c ≡ true
    → (compare a c ≡ true) × (compare c a ≡ false)
compare_trans a b c h k =
    let first = (compare-IsStrictWeak a b c).1 h k in (first, compare_asym a c first)

-- If of two characters neither goes before the other, and of the second and a third neither does,
-- then of the first and the third neither does.
pub compare_incomparable :
    (a b c : Character)
    → (compare a b ≡ false) × (compare b a ≡ false)
    → (compare b c ≡ false) × (compare c b ≡ false)
    → (compare a c ≡ false) × (compare c a ≡ false)
compare_incomparable a b c h k =
    ((compare-IsStrictWeak a b c).2 h.0 k.0, (compare-IsStrictWeak c b a).2 k.1 h.1)

-- Nothing that stands later goes before what stands earlier.
abbrev pub IsOrdered : List Character → Type 0
IsOrdered [] = Unit {0}
IsOrdered (a ∷ chs) = All (λ b. compare b a ≡ false) chs × IsOrdered chs

All-insert_char :
    (b a : Character) (chs : List Character)
    → compare a b ≡ false
    → All (λ x. compare x b ≡ false) chs
    → All (λ x. compare x b ≡ false) (insert_char a chs)
unfolding insert_char
All-insert_char b a [] h all = (h, tt)
All-insert_char b a (c ∷ chs) h all = elim (Bool-cases (compare c a)) [
  | inl e ↦ rw e (all.0, All-insert_char b a chs h all.1)
  | inr e ↦ rw e (h, (all.0, all.1))
]

All-behind :
    (b a : Character) (chs : List Character)
    → compare b a ≡ false
    → All (λ x. compare x b ≡ false) chs
    → All (λ x. compare x a ≡ false) chs
All-behind b a [] h all = tt
All-behind b a (x ∷ chs) h all =
    ((compare-IsStrictWeak x b a).2 all.0 h, All-behind b a chs h all.1)

insert_char-IsOrdered :
    (a : Character) (chs : List Character) → IsOrdered chs → IsOrdered (insert_char a chs)
unfolding insert_char
insert_char-IsOrdered a [] o = (tt, tt)
insert_char-IsOrdered a (b ∷ chs) o = elim (Bool-cases (compare b a)) [
  | inl e ↦ rw e (All-insert_char b a chs (compare_asym b a e) o.0, insert_char-IsOrdered a chs o.1)
  | inr e ↦ rw e ((e, All-behind b a chs e o.0), o)
]

insert_char-perm : (a : Character) (chs : List Character) → Perm (insert_char a chs) (a ∷ chs)
unfolding insert_char
insert_char-perm a [] = Perm.refl _
insert_char-perm a (b ∷ chs) = elim (Bool-cases (compare b a)) [
  | inl e ↦ rw e (Perm.trans (Perm.cons b (insert_char-perm a chs)) (Perm.swap a b chs))
  | inr e ↦ rw e (Perm.refl _)
]

-- In the result of `sort` no later character goes before an earlier one, and it holds exactly the
-- characters given.
pub sort-IsOrdered : (chs : List Character) → IsOrdered (sort chs) × Perm (sort chs) chs
unfolding sort
sort-IsOrdered [] = (tt, Perm.refl _)
sort-IsOrdered (a ∷ chs) =
    let (o, p) = sort-IsOrdered chs in
    (
      insert_char-IsOrdered a (sort chs) o,
      Perm.trans (insert_char-perm a (sort chs)) (Perm.cons a p),
    )
