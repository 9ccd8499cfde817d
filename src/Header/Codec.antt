-- ===== src/Header/Codec.antt =====
-- What `parse_from_string` accepts, and that it undoes `get_string_rep`.
use tin_system_do_wspolpracy.Base.{
  Bool-cases, Bytes, [], arith, fault, inl, inr, length, ok, pos, refl, wrong_header, ℕ, ◌%◌, ◌&&◌,
  ◌*◌, ◌+◌, ◌-◌, ◌/◌, ◌<◌, ◌==◌, ◌∙◌, ◌∷◌, ◌≡◌, ◌⊎◌,
}
use tin_system_do_wspolpracy.Text.{read_digits, substr, all_digits}
use tin_system_do_wspolpracy.Text.Decimal.{
  AllDigits, stoi-digits, all_digits-AllDigits, AllDigits-all_digits,
}
use tin_system_do_wspolpracy.Header.{Header, get_string_rep, parse_from_string, stoi}
use tin_system_do_wspolpracy.Header.Pads.{get_string_rep-digits, quad}

-- The number that two digits spell, and four.
abbrev tens : ℕ → ℕ → ℕ
tens a b = (a - b'0') * 10 + (b - b'0')

abbrev thousands : ℕ → ℕ → ℕ → ℕ → ℕ
thousands a b c d = tens a b * 100 + tens c d

parse_six :
    (a b c d e f : ℕ)
    → AllDigits (a ∷ b ∷ c ∷ d ∷ e ∷ f ∷ [])
    → parse_from_string (a ∷ b ∷ c ∷ d ∷ e ∷ f ∷ [])
      ≡ ok (record { msg_type = pos (tens a b); msg_len = pos (thousands c d e f) })
unfolding parse_from_string substr all_digits read_digits
parse_six a b c d e f h =
    ground
      (arith, stoi-digits a (b ∷ []) (omega arith), stoi-digits c (d ∷ e ∷ f ∷ []) (omega arith))

-- Printing a header and parsing it gives the header back, when its type is below 100 and its length
-- below 10000.
pub parse-rep :
    (t l : ℕ)
    → t < 100
    → l < 10000
    → parse_from_string (get_string_rep (record { msg_type = pos t; msg_len = pos l }))
      ≡ ok (record { msg_type = pos t; msg_len = pos l })
parse-rep t l h k = rw (get_string_rep-digits t l h k) (
    rw
      (parse_six (b'0' + t / 10) (b'0' + t % 10) (b'0' + l / 1000) (b'0' + l / 100 % 10)
        (b'0' + l / 10 % 10) (b'0' + l % 10) (omega arith))
      (ground arith))

-- A text is the print of a header whose fields fit.
abbrev pub IsHeaderText : Bytes → Header → Type 0
IsHeaderText s h =
    (t : ℕ) × (l : ℕ) × (t < 100)
    × (l < 10000)
    × (h ≡ record { msg_type = pos t; msg_len = pos l })
    × (get_string_rep h ≡ s)

six_digits :
    (s : Bytes)
    → length s ≡ 6
    → AllDigits s
    → (h : Header) × (parse_from_string s ≡ ok h) × IsHeaderText s h
six_digits (a ∷ b ∷ c ∷ d ∷ e ∷ f ∷ []) n h =
    let t = tens a b in
    let l = thousands c d e f in
    (
      record { msg_type = pos t; msg_len = pos l },
      parse_six a b c d e f h,
      (
        t,
        l,
        omega arith,
        omega arith,
        refl,
        get_string_rep-digits t l (omega arith) (omega arith) ∙ ground arith,
      ),
    )
six_digits _ n h = absurd (omega arith)

-- Exactly the texts of six digits parse, each to a header whose fields fit and which prints as that text;
-- any other text is the fault `wrong_header`.
pub parse_decides :
    (s : Bytes)
    → ((length s ≡ 6)
        × AllDigits s
        × (h : Header) × (parse_from_string s ≡ ok h)
        × IsHeaderText s h)
      ⊎ (¬ ((length s ≡ 6) × AllDigits s) × (parse_from_string s ≡ fault wrong_header))
parse_decides s = elim (Bool-cases (length s == 6 && all_digits s)) [
  | inl good ↦
      let size : length s ≡ 6 = ground arith in
      let all : AllDigits s = all_digits-AllDigits s (ground arith) in
      let (h, parsed, text) = six_digits s size all in inl (size, all, h, parsed, text)
  | inr bad ↦ inr (
    λ h. ground (arith, h.0, AllDigits-all_digits s h.1),
    unfold parse_from_string in rw (bad, parse_from_string),
  )
]

-- The four digits behind the type, and the length that they are read as.
pub substr-len_text :
    (t l : ℕ)
    → t < 100
    → l < 10000
    → substr (get_string_rep (record { msg_type = pos t; msg_len = pos l })) 2 4 ≡ ok (quad l)
unfolding substr
substr-len_text t l h k = rw (get_string_rep-digits t l h k) refl

pub stoi-quad : (l : ℕ) → l < 10000 → stoi (quad l) ≡ ok (pos l)
unfolding read_digits
stoi-quad l k = ground (
  arith,
  stoi-digits (b'0' + l / 1000)
      ((b'0' + l / 100 % 10) ∷ (b'0' + l / 10 % 10) ∷ (b'0' + l % 10) ∷ []) (omega arith),
)

pub length-get_string_rep :
    (t l : ℕ)
    → t < 100
    → l < 10000
    → length (get_string_rep (record { msg_type = pos t; msg_len = pos l })) ≡ 6
length-get_string_rep t l h k = rw (get_string_rep-digits t l h k) refl
