-- ===== src/Text/Search.antt =====
-- Where `find` finds a text, in a file of lines and in a line.
use tin_system_do_wspolpracy.Base.{
  All, Bytes, Option, [], ap, arith, drop-length, length, length-append, none, ok, refl, some,
  take-length, true, ℕ, ◌&&◌, ◌++◌, ◌+◌, ◌==◌, ◌∷◌, ◌≡◌, ◌≢◌,
}
use tin_system_do_wspolpracy.Text.{starts_with, find_text, substr}

abbrev pub Lacks : ℕ → Bytes → Type 0
Lacks b = All (λ c. c ≢ b)

pub starts_with-append : (p u : Bytes) → starts_with p (p ++ u) ≡ true
unfolding starts_with
starts_with-append [] u = refl
starts_with-append (c ∷ p) u = ground (arith, starts_with-append p u)

pub find_front : (p s : Bytes) → starts_with p s ≡ true → find_text p s ≡ some 0
unfolding find_text
find_front p [] h = rw h refl
find_front p (c ∷ s) h = rw h refl

-- The first byte `b` stands behind the part that lacks it.
pub find_byte :
    (b : ℕ) (s u : Bytes) → Lacks b s → find_text (b ∷ []) (s ++ b ∷ u) ≡ some (length s)
unfolding find_text starts_with
find_byte b [] u h = ground arith
find_byte b (c ∷ s) u h = ground (arith, h.0, find_byte b s u h.1)

-- A text is empty or its last byte is `b`.
abbrev pub EndsIn : ℕ → Bytes → Type 0
EndsIn b [] = Unit {0}
EndsIn b (c ∷ []) = c ≡ b
EndsIn b (c ∷ d ∷ t) = EndsIn b (d ∷ t)

-- What lacks the last byte of a text does not reach over its end.
starts_with_within :
    (b : ℕ) (p : Bytes) (c : ℕ) (t u : Bytes)
    → Lacks b p
    → EndsIn b (c ∷ t)
    → starts_with p (c ∷ (t ++ u)) ≡ starts_with p (c ∷ t)
unfolding starts_with
starts_with_within b [] c t u h e = refl
starts_with_within b (d ∷ p) c [] u h e = ground (arith, h.0)
starts_with_within b (d ∷ p) c (c' ∷ t) u h e =
    ap (λ x. d == c && x) (starts_with_within b p c' t u h.1 e)

abbrev pub shift : ℕ → Option ℕ → Option ℕ
shift n none = none
shift n (some k) = some (n + k)

EndsIn-tail : (b c : ℕ) (t : Bytes) → EndsIn b (c ∷ t) → EndsIn b t
EndsIn-tail b c [] e = tt
EndsIn-tail b c (d ∷ t) e = e

pub find_behind :
    (b : ℕ) (p t u : Bytes)
    → Lacks b p
    → EndsIn b t
    → find_text p t ≡ none
    → find_text p (t ++ u) ≡ shift (length t) (find_text p u)
unfolding find_text
find_behind b p [] u h e missing = ground arith
find_behind b p (c ∷ t) u h e missing =
    ground (arith, starts_with_within b p c t u h e, find_behind b p t u h (EndsIn-tail b c t e))

-- The slice of a text that stands behind `a`.
pub substr_middle :
    (s a b c : Bytes) (position count : ℕ)
    → s ≡ a ++ (b ++ c)
    → position ≡ length a
    → count ≡ length b
    → substr s position count ≡ ok b
unfolding substr
substr_middle s a b c position count e p n =
    rw (e, p, n) (ground (arith, length-append a (b ++ c), drop-length a (b ++ c), take-length b c))
