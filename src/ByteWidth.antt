-- ===== src/ByteWidth.antt =====
-- `get_byte_width` of server/serv_func.cpp: the length that a header announces for a number in text.
use mathlib.Core.WellFounded.{Acc}
use tin_system_do_wspolpracy.Base.{
  ap, arith, dec_lt, dite, length, lt_wf, minus_one, negsuc, pos, refl, ℕ, ℤ, ◌+◌, ◌/◌, ◌<◌, ◌∙◌,
  ◌≡◌,
}
use tin_system_do_wspolpracy.Text.{digits, to_string}
use tin_system_do_wspolpracy.Text.Decimal.{digits-small, length-digits}

pub tenth_lt : (num : ℕ) → 0 < num / 10 → num / 10 < num
tenth_lt num h = omega arith

-- `do { num /= 10; res += 1; } while (num > 0);`, which ends since `num` falls.
count_rounds : (num : ℕ) → Acc ◌<◌ num → ℕ → ℕ
count_rounds num (Acc.intro _ smaller) res =
    dite (dec_lt 0 (num / 10))
      (λ h. count_rounds (num / 10) (smaller (num / 10) (tenth_lt num h)) (res + 1)) (λ _. res + 1)

unfoldable pub get_byte_width : ℤ → ℤ
unfolding count_rounds lt_wf dec_lt
get_byte_width (negsuc n) = minus_one
get_byte_width (pos n) = pos (count_rounds n (lt_wf.apply n) 0)

count_rounds-digits :
    (num : ℕ) (w : Acc ◌<◌ num) (res : ℕ) → count_rounds num w res ≡ res + length (digits num)
unfolding count_rounds
count_rounds-digits num (Acc.intro _ smaller) res = grind (
  arith,
  λ (p : num / 10 < num). count_rounds-digits (num / 10) (smaller (num / 10) p) (res + 1),
  digits-small num,
  length-digits num,
)

-- The width is the number of characters that `to_string` writes; a negative number has width -1.
pub get_byte_width_counts :
    (n : ℕ)
    → (get_byte_width (pos n) ≡ pos (length (to_string (pos n))))
      × (get_byte_width (negsuc n) ≡ minus_one)
unfolding get_byte_width to_string
get_byte_width_counts n = (ap pos (count_rounds-digits n (lt_wf.apply n) 0 ∙ omega arith), refl)
