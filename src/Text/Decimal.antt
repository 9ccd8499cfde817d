-- ===== src/Text/Decimal.antt =====
-- Decimal text: the digits of a number spell it, and their count follows from its size.
use tin_system_do_wspolpracy.Base.{
  All, All-append, Bool-cases, Bytes, [], ap, arith, inl, inr, length, length-append, ltb, ok, pos,
  refl, suc, true, zero, ℕ, ◌%◌, ◌*◌, ◌++◌, ◌+◌, ◌-◌, ◌/◌, ◌<◌, ◌^◌, ◌∙◌, ◌∷◌, ◌≡◌, ◌≤◌,
}
use tin_system_do_wspolpracy.Text.{
  atoi, skip_spaces, digits_from, digits, read_digits, stoi, all_digits,
}

-- More fuel than the number changes nothing.
digits_from_enough : (f g n : ℕ) → n < f → n < g → digits_from f n ≡ digits_from g n
unfolding digits_from
digits_from_enough zero g n h k = absurd (omega arith)
digits_from_enough (suc f) zero n h k = absurd (omega arith)
digits_from_enough (suc f) (suc g) n h k = elim (Bool-cases (ltb n 10)) [
  | inl small ↦ rw (small, digits_from)
  | inr big ↦
      rw (big, digits_from)
        (ap (λ s. s ++ ((b'0' + n % 10) ∷ []))
          (digits_from_enough f g (n / 10) (ground arith) (ground arith)))
]

pub digits-small : (n : ℕ) → n < 10 → digits n ≡ (b'0' + n) ∷ []
unfolding digits
digits-small n h = ground arith

pub digits-large : (n : ℕ) → 10 ≤ n → digits n ≡ digits (n / 10) ++ ((b'0' + n % 10) ∷ [])
unfolding digits
digits-large n h = ground (arith, digits_from_enough n (suc (n / 10)) (n / 10))

pub length-digits : (n : ℕ) → 10 ≤ n → length (digits n) ≡ length (digits (n / 10)) + 1
length-digits n h =
    omega
      (arith, ap length (digits-large n h), length-append (digits (n / 10)) ((b'0' + n % 10) ∷ []))

pub length-digits-pos : (n : ℕ) → 0 < length (digits n)
length-digits-pos n = ground (arith, digits-small n, length-digits n)

-- How far a text is made of digits.
abbrev pub AllDigits : Bytes → Type 0
AllDigits = All (λ c. (b'0' ≤ c) × (c ≤ b'9'))

digits_from-AllDigits : (f n : ℕ) → AllDigits (digits_from f n)
unfolding digits_from
digits_from-AllDigits zero n = tt
digits_from-AllDigits (suc f) n = elim (Bool-cases (ltb n 10)) [
  | inl small ↦ rw (small, digits_from) (ground arith)
  | inr big ↦
      rw (big, digits_from)
        (All-append _ (digits_from f (n / 10)) _ (digits_from-AllDigits f (n / 10)) (omega arith))
]

pub digits-AllDigits : (n : ℕ) → AllDigits (digits n)
unfolding digits
digits-AllDigits n = digits_from-AllDigits (suc n) n

pub read_digits-append :
    (acc : ℕ) (s t : Bytes)
    → AllDigits s
    → read_digits acc (s ++ t) ≡ read_digits (read_digits acc s) t
unfolding read_digits
read_digits-append acc [] t h = refl
read_digits-append acc (c ∷ s) t h =
    ground (arith, read_digits-append (acc * 10 + (c - b'0')) s t h.1)

read_digits-digits_from : (f n : ℕ) → n < f → read_digits 0 (digits_from f n) ≡ n
unfolding digits_from
read_digits-digits_from zero n h = absurd (omega arith)
read_digits-digits_from (suc f) n h = elim (Bool-cases (ltb n 10)) [
  | inl small ↦ rw (small, digits_from) (unfold read_digits in ground arith)
  | inr big ↦
      rw (big, digits_from)
        (rw (read_digits-append 0 (digits_from f (n / 10)) _ (digits_from-AllDigits f (n / 10))) (
          rw (read_digits-digits_from f (n / 10) (ground arith))
            (unfold read_digits in ground arith)))
]

-- Reading the digits of a number gives the number back.
pub read_digits-digits : (n : ℕ) → read_digits 0 (digits n) ≡ n
unfolding digits
read_digits-digits n = read_digits-digits_from (suc n) n (omega arith)

-- A text of digits whose value fits an `int` is read as that value.
pub stoi-digits :
    (c : ℕ) (s : Bytes)
    → AllDigits (c ∷ s)
    → read_digits 0 (c ∷ s) < 2 ^ 31
    → stoi (c ∷ s) ≡ ok (pos (read_digits 0 (c ∷ s)))
unfolding stoi
stoi-digits c s h k = ground (arith)

pub all_digits-AllDigits : (s : Bytes) → all_digits s ≡ true → AllDigits s
unfolding all_digits
all_digits-AllDigits [] h = tt
all_digits-AllDigits (c ∷ s) h = ground (arith, all_digits-AllDigits s)

pub AllDigits-all_digits : (s : Bytes) → AllDigits s → all_digits s ≡ true
unfolding all_digits
AllDigits-all_digits [] h = refl
AllDigits-all_digits (c ∷ s) h = ground (arith, AllDigits-all_digits s h.1)

atoi_lem : (s : Bytes) → AllDigits s → 0 < length s → atoi s ≡ pos (read_digits 0 s)
unfolding atoi skip_spaces
atoi_lem [] d h = absurd (omega arith)
atoi_lem (c ∷ s) d h = ground arith

-- `atoi` reads a number that `to_string` wrote.
pub atoi-digits : (n : ℕ) → atoi (digits n) ≡ pos n
atoi-digits n =
    atoi_lem (digits n) (digits-AllDigits n) (length-digits-pos n) ∙ ap pos (read_digits-digits n)
