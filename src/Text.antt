-- ===== src/Text.antt =====
-- What the server uses of `std::string` and its conversions: `to_string`, `stoi`, `substr`.
-- Decimal text is bounded by the value written, so the fuel of `digits_from` is the number itself.
pub mod Decimal
pub mod Equality
pub mod Search
use Prim.Native.Char.{code}
use Prim.Native.String.{String}
use tin_system_do_wspolpracy.Base.{
  Bool, Bytes, Option, Outcome, [], drop, false, fault, if◌then◌else◌, invalid_argument, leb,
  length, ltb, negsuc, none, ok, out_of_range, pos, some, sub_ℕ, suc, take, true, zero, ℕ, ℤ, ◌%◌,
  ◌&&◌, ◌*◌, ◌++◌, ◌+◌, ◌-◌, ◌/◌, ◌==◌, ◌^◌, ◌||◌, ◌∷◌,
}

-- The code points of a literal, which are its bytes where the text is ASCII.
abbrev pub codes : String → Bytes
codes String.[] = []
codes (String.◌∷◌ c s) = code c ∷ codes s

-- The decimal digits of `n`, with one round of fuel for each.
digits_from : ℕ → ℕ → Bytes
digits_from zero n = []
digits_from (suc fuel) n = elim (ltb n 10) [
  | true ↦ (b'0' + n) ∷ []
  | false ↦ digits_from fuel (n / 10) ++ ((b'0' + n % 10) ∷ [])
]

unfoldable pub digits : ℕ → Bytes
unfolding digits_from
digits n = digits_from (suc n) n

-- `std::to_string(int)`.
unfoldable pub to_string : ℤ → Bytes
to_string (pos n) = digits n
to_string (negsuc n) = b'-' ∷ digits (suc n)

-- `::isdigit` and `::isspace` in the C locale.
abbrev pub is_digit : ℕ → Bool
is_digit c = leb b'0' c && leb c b'9'

abbrev is_space : ℕ → Bool
is_space c = c == 32 || leb 9 c && leb c 13

unfoldable pub read_digits : ℕ → Bytes → ℕ
read_digits acc [] = acc
read_digits acc (c ∷ s) = elim (is_digit c) [
  | true ↦ read_digits (acc * 10 + (c - b'0')) s
  | false ↦ acc
]

starts_digit : Bytes → Bool
starts_digit [] = false
starts_digit (c ∷ s) = is_digit c

-- The magnitude of an `int` is at most 2^31 - 1, or 2^31 behind a minus sign.
magnitude : Bool → Bytes → Outcome ℤ
unfolding starts_digit
magnitude negative s =
    if starts_digit s then in_range negative (read_digits 0 s) else fault invalid_argument
  where
    in_range : Bool → ℕ → Outcome ℤ
    in_range false n = if ltb n (2 ^ 31) then ok (pos n) else fault out_of_range
    in_range true zero = ok (pos 0)
    in_range true (suc n) = if ltb n (2 ^ 31) then ok (negsuc n) else fault out_of_range

signed : Bytes → Outcome ℤ
unfolding magnitude
signed [] = fault invalid_argument
signed (c ∷ s) =
    if c == b'-'
    then magnitude true s
    else if c == b'+'
    then magnitude false s
    else magnitude false (c ∷ s)

skip_spaces : Bytes → Bytes
skip_spaces [] = []
skip_spaces (c ∷ s) = if is_space c then skip_spaces s else c ∷ s

-- `std::stoi` in base ten.
unfoldable pub stoi : Bytes → Outcome ℤ
unfolding signed skip_spaces
stoi s = signed (skip_spaces s)

-- `s.substr(position, count)`.
unfoldable pub substr : Bytes → ℕ → ℕ → Outcome Bytes
substr s position count =
    if ltb (length s) position then fault out_of_range else ok (take count (drop position s))

-- `atoi`, which reads 0 where no digit stands.
unfoldable pub atoi : Bytes → ℤ
unfolding skip_spaces
atoi s = elim (skip_spaces s) [
  | [] ↦ pos 0
  | c ∷ rest ↦
      if c == b'-'
      then sub_ℕ 0 (read_digits 0 rest)
      else if c == b'+'
      then pos (read_digits 0 rest)
      else pos (read_digits 0 (c ∷ rest))
]

-- `s1 == s2`.
unfoldable pub same_text : Bytes → Bytes → Bool
same_text [] [] = true
same_text [] (d ∷ t) = false
same_text (c ∷ s) [] = false
same_text (c ∷ s) (d ∷ t) = c == d && same_text s t

unfoldable pub starts_with : Bytes → Bytes → Bool
starts_with [] s = true
starts_with (d ∷ delim) [] = false
starts_with (d ∷ delim) (c ∷ s) = d == c && starts_with delim s

-- `s.find(part)`: where the first occurrence begins.
unfoldable pub find_text : Bytes → Bytes → Option ℕ
unfolding starts_with
find_text part [] = if starts_with part [] then some 0 else none
find_text part (c ∷ s) =
    let later : Option ℕ = elim (find_text part s) [ none ↦ none | some k ↦ some (suc k) ] in
    if starts_with part (c ∷ s) then some 0 else later

unfoldable pub all_digits : Bytes → Bool
all_digits [] = true
all_digits (c ∷ s) = is_digit c && all_digits s
