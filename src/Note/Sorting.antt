-- ===== src/Note/Sorting.antt =====
-- Characters that are told apart have one order, however they come in.
use mathlib.Core.List.{Permᴰ}
use tin_system_do_wspolpracy.Base.{
  All, Bool-cases, List, [], arith, inl, inr, refl, subst, sym, true, ◌||◌, ◌∙◌, ◌∷◌, ◌≡◌,
}
use tin_system_do_wspolpracy.Note.{Character, compare, sort, insert_char}
use tin_system_do_wspolpracy.Note.Order.{compare_trans, compare_asym}

-- One of the two goes before the other.
abbrev pub Apart : Character → Character → Type 0
Apart a b = (compare a b || compare b a) ≡ true

abbrev pub AllApart : List Character → Type 0
AllApart [] = Unit {0}
AllApart (a ∷ chs) = All (Apart a) chs × AllApart chs

Apart-sym : (a b : Character) → Apart a b → Apart b a
Apart-sym a b h = ground arith

All-Permᴰ : (P : Character → Type 0) {xs ys : List Character} → Permᴰ xs ys → All P xs → All P ys
All-Permᴰ P Permᴰ.nil h = tt
All-Permᴰ P (Permᴰ.cons e d) h = (subst P e h.0, All-Permᴰ P d h.1)
All-Permᴰ P (Permᴰ.swap e f) h = (subst P f h.1.0, (subst P e h.0, h.1.1))
All-Permᴰ P (Permᴰ.trans d e) h = All-Permᴰ P e (All-Permᴰ P d h)

pub AllApart-Permᴰ : {xs ys : List Character} → Permᴰ xs ys → AllApart xs → AllApart ys
AllApart-Permᴰ Permᴰ.nil h = tt
AllApart-Permᴰ (Permᴰ.cons {a = a} {b = b} {l₂ = ys} e d) h =
    (subst (λ c. All (Apart c) ys) e (All-Permᴰ (Apart a) d h.0), AllApart-Permᴰ d h.1)
AllApart-Permᴰ (Permᴰ.swap {a = a} {b = b} {b' = b'} {l = l} e f) h =
    subst (λ x. (Apart x b' × All (Apart x) l) × (All (Apart b') l × AllApart l)) f
      (subst (λ y. (Apart b y × All (Apart b) l) × (All (Apart y) l × AllApart l)) e
        ((Apart-sym a b h.0.0, h.1.0), (h.0.1, h.1.1)))
AllApart-Permᴰ (Permᴰ.trans d e) h = AllApart-Permᴰ e (AllApart-Permᴰ d h)

-- Inserting the smaller of two characters last or first gives the same list.
insert_char-lt :
    (a b : Character) (chs : List Character)
    → compare a b ≡ true
    → insert_char a (insert_char b chs) ≡ insert_char b (insert_char a chs)
unfolding insert_char
insert_char-lt a b [] h = let never = compare_asym a b h in ground arith
insert_char-lt a b (c ∷ chs) h =
    let never = compare_asym a b h in ground (arith, compare_trans c a b, insert_char-lt a b chs h)

pub insert_char_comm :
    (a b : Character) (chs : List Character)
    → Apart a b
    → insert_char a (insert_char b chs) ≡ insert_char b (insert_char a chs)
insert_char_comm a b chs h = elim (Bool-cases (compare a b)) [
  | inl e ↦ insert_char-lt a b chs e
  | inr e ↦ sym (insert_char-lt b a chs (ground arith))
]

-- Lists of characters that are told apart, in any order, are sorted to the same list.
pub sort-Permᴰ : {xs ys : List Character} → Permᴰ xs ys → AllApart xs → sort xs ≡ sort ys
unfolding sort
sort-Permᴰ Permᴰ.nil h = refl
sort-Permᴰ (Permᴰ.cons {l₁ = xs} e d) h = λ i. insert_char (e i) (sort-Permᴰ d h.1 i)
sort-Permᴰ (Permᴰ.swap {a = a} {b = b} {l = l} e f) h =
    insert_char_comm a b (sort l) h.0.0 ∙ λ i. insert_char (f i) (insert_char (e i) (sort l))
sort-Permᴰ (Permᴰ.trans d e) h = sort-Permᴰ d h ∙ sort-Permᴰ e (AllApart-Permᴰ d h)
