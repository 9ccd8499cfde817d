-- ===== src/Header/Pads.antt =====
-- The header's two fields written out digit by digit.
use tin_system_do_wspolpracy.Base.{
  Bytes, [], arith, length, pos, ℕ, ◌%◌, ◌++◌, ◌+◌, ◌/◌, ◌<◌, ◌∷◌, ◌≡◌, ◌≤◌,
}
use tin_system_do_wspolpracy.Text.{digits, to_string}
use tin_system_do_wspolpracy.Text.Decimal.{
  digits-small, digits-large, length-digits, length-digits-pos,
}
use tin_system_do_wspolpracy.Header.{header_size, get_string_rep, type_part}

-- The two digits of a type, the four of a length.
abbrev pub pair : ℕ → Bytes
pair t = (b'0' + t / 10) ∷ (b'0' + t % 10) ∷ []

abbrev pub quad : ℕ → Bytes
quad l = (b'0' + l / 1000) ∷ (b'0' + l / 100 % 10) ∷ (b'0' + l / 10 % 10) ∷ (b'0' + l % 10) ∷ []

digits-tens : (n : ℕ) → 10 ≤ n → n < 100 → digits n ≡ pair n
digits-tens n h k = rw (digits-large n h, digits-small (n / 10) (omega arith))

digits-hundreds :
    (n : ℕ)
    → 100 ≤ n
    → n < 1000
    → digits n ≡ (b'0' + n / 100) ∷ (b'0' + n / 10 % 10) ∷ (b'0' + n % 10) ∷ []
digits-hundreds n h k =
    rw (digits-large n (omega arith), digits-tens (n / 10) (omega arith) (omega arith))
      (ground arith)

digits-thousands : (n : ℕ) → 1000 ≤ n → n < 10000 → digits n ≡ quad n
digits-thousands n h k =
    rw (digits-large n (omega arith), digits-hundreds (n / 10) (omega arith) (omega arith))
      (ground arith)

type_part-pair : (t : ℕ) → t < 100 → type_part (pos t) ≡ pair t
unfolding type_part to_string
type_part-pair t h = ground (arith, digits-small t, digits-small 0, digits-tens t)

-- A header whose fields fit is its two digits and its four.
pub get_string_rep-digits :
    (t l : ℕ)
    → t < 100
    → l < 10000
    → get_string_rep (record { msg_type = pos t; msg_len = pos l }) ≡ pair t ++ quad l
unfolding get_string_rep to_string
get_string_rep-digits t l h k =
    rw (type_part-pair t h)
      (ground (arith, digits-small l, digits-tens l, digits-hundreds l, digits-thousands l))

-- With a type below 100, a length of 10000 or more does not fit the header: the text is longer than six
-- bytes.
pub get_string_rep-long :
    (t l : ℕ)
    → t < 100
    → 10000 ≤ l
    → header_size < length (get_string_rep (record { msg_type = pos t; msg_len = pos l }))
unfolding get_string_rep to_string
get_string_rep-long t l h k = rw (type_part-pair t h) (
    ground (
      arith,
      length-digits l,
      length-digits (l / 10),
      length-digits (l / 10 / 10),
      length-digits (l / 10 / 10 / 10),
      length-digits-pos (l / 10 / 10 / 10 / 10),
    ))
