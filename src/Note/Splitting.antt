-- ===== src/Note/Splitting.antt =====
-- The fuel of `split` is enough.
use tin_system_do_wspolpracy.Base.{
  Bool, Bytes, List, Option-cases, [], ap, arith, drop, inl, inr, length, length-drop, refl, suc,
  take, zero, ℕ, ◌+◌, ◌<◌, ◌∷◌, ◌≡◌, ◌⊎◌,
}
use tin_system_do_wspolpracy.Text.{find_text}
use tin_system_do_wspolpracy.Note.{split_from, keep_token}

pub List-cases {ℓ} :
    {A : Type ℓ} (xs : List A) → (xs ≡ []) ⊎ ((x : A) × (ys : List A) × (xs ≡ x ∷ ys))
List-cases [] = inl refl
List-cases (x ∷ xs) = inr (x, xs, refl)

drop_shorter :
    (m : ℕ) (xs : Bytes) (c : ℕ) (next : Bytes)
    → 0 < m
    → drop m xs ≡ c ∷ next
    → length (c ∷ next) < length xs
drop_shorter m xs c next h e = omega (arith, ap length e, length-drop m xs)

-- The loop of `split`, with more rounds than the text has bytes, gives the same tokens whatever the
-- number of rounds: it ends by its own test, when the delimiter is not empty.
pub split_from-enough :
    (f g : ℕ) (delim : Bytes) (empty : Bool) (rest : Bytes) (tokens : List Bytes)
    → 0 < length delim
    → length rest < f
    → length rest < g
    → split_from f delim empty rest tokens ≡ split_from g delim empty rest tokens
unfolding split_from
split_from-enough zero g delim empty rest tokens d h k = absurd (omega arith)
split_from-enough (suc f) zero delim empty rest tokens d h k = absurd (omega arith)
split_from-enough (suc f) (suc g) delim empty rest tokens d h k =
    elim (Option-cases (find_text delim rest)) [
      | inl none_left ↦ rw (none_left, split_from) refl
      | inr (at, found) ↦ elim (List-cases (drop (at + length delim) rest)) [
        | inl ended ↦ rw (found, split_from) (rw ended refl)
        | inr (c, next, more) ↦
            let shorter = drop_shorter (at + length delim) rest c next (omega arith) more in
            rw (found, split_from)
              (rw more (
                split_from-enough f g delim empty (c ∷ next)
                  (keep_token empty (take at rest) tokens) d (omega arith) (omega arith)))
      ]
    ]
