-- ===== src/Note/Reading.antt =====
-- A text that starts a document is the text that the document shows.
use tin_system_do_wspolpracy.Base.{
  All-append, Bool, Bytes, List, Option-cases, [], ap, append_assoc, arith, drop, false, inl, inr,
  length, length-append, map, ok, pos, refl, suc, take, take-length, take_all, true, zero, ℕ, ℤ,
  ◌++◌, ◌+◌, ◌<◌, ◌>>=◌, ◌∷◌, ◌≡◌,
}
use tin_system_do_wspolpracy.Text.{find_text, digits, to_string, substr}
use tin_system_do_wspolpracy.Text.Decimal.{
  AllDigits, digits-AllDigits, length-digits-pos, atoi-digits,
}
use tin_system_do_wspolpracy.Text.Search.{Lacks, find_byte}
use tin_system_do_wspolpracy.Note.{
  split_from, keep_token, nth, to_character, split, Character, coded, first_byte, to_text,
  to_characters, sort, contains, insert_char, set_buffers, init, compare, compare_at,
}
use tin_system_do_wspolpracy.Note.Fetch.{
  IsToken-Lacks, drop_past, keep_token_lem, split_step, ended, IsToken, split-ended,
}
use tin_system_do_wspolpracy.Note.Start.{coded_from, set_buffers_new}
use tin_system_do_wspolpracy.Note.Splitting.{List-cases}

-- What a text of digits lacks.
AllDigits-Lacks : (b : ℕ) (s : Bytes) → b'9' < b → AllDigits s → Lacks b s
AllDigits-Lacks b [] h d = tt
AllDigits-Lacks b (c ∷ s) h d = (omega arith, AllDigits-Lacks b s h d.1)

AllDigits-Lacks_low : (b : ℕ) (s : Bytes) → b < b'0' → AllDigits s → Lacks b s
AllDigits-Lacks_low b [] h d = tt
AllDigits-Lacks_low b (c ∷ s) h d = (omega arith, AllDigits-Lacks_low b s h d.1)

-- Later tokens go behind the first.
keep_token-cons :
    (empty : Bool) (token t : Bytes) (tokens : List Bytes)
    → (kept : List Bytes) × (keep_token empty token (t ∷ tokens) ≡ t ∷ kept)
unfolding keep_token
keep_token-cons true token t tokens = (_, refl)
keep_token-cons false [] t tokens = (_, refl)
keep_token-cons false (c ∷ token) t tokens = (_, refl)

nth-split_from :
    (fuel : ℕ) (delim : Bytes) (empty : Bool) (rest t : Bytes) (tokens : List Bytes)
    → nth 0 (split_from fuel delim empty rest (t ∷ tokens)) ≡ ok t
unfolding split_from nth
nth-split_from zero delim empty rest t tokens = refl
nth-split_from (suc fuel) delim empty rest t tokens = elim (Option-cases (find_text delim rest)) [
  | inl none_left ↦ rw (none_left, split_from) (rw (keep_token-cons empty rest t tokens).1 refl)
  | inr (at, found) ↦
      let (kept, e) = keep_token-cons empty (take at rest) t tokens in
      elim (List-cases (drop (at + length delim) rest)) [
        | inl ended ↦ rw (found, split_from) (rw ended (rw e refl))
        | inr (c, next, more) ↦
            rw (found, split_from)
              (rw more (rw e (nth-split_from fuel delim empty (c ∷ next) t kept)))
      ]
]

-- The first of the tokens.
first_token :
    (d : ℕ) (t rest : Bytes) → IsToken d t → nth 0 (split (t ++ (d ∷ rest)) (d ∷ []) false) ≡ ok t
unfolding split nth
first_token d t [] h =
    rw (find_byte d t [] (IsToken-Lacks d t h), split_from)
      (rw (drop_past t d []) (rw (take-length t (d ∷ [])) (rw (keep_token_lem d t [] h) refl)))
first_token d t (c ∷ rest) h =
    rw (split_step d (length (t ++ (d ∷ c ∷ rest))) t c rest [] h)
      (nth-split_from (length (t ++ (d ∷ c ∷ rest))) (d ∷ []) false (c ∷ rest) t [])

filled-IsToken : (d : ℕ) (t : Bytes) → 0 < length t → Lacks d t → IsToken d t
filled-IsToken d [] h k = omega arith
filled-IsToken d (c ∷ t) h k = k

substr_tail : (c : ℕ) (s : Bytes) → substr (c ∷ s) 1 (length (c ∷ s)) ≡ ok s
unfolding substr
substr_tail c s = ground (arith, take_all (length (c ∷ s)) s)

-- The character that stands at place `i`.
abbrev pub placed : ℤ → ℕ → ℕ → Character
placed creator i c = record { c = c; position = pos i ∷ []; creator = creator }

to_character-coded :
    (creator id : ℤ) (i c : ℕ) → to_character creator (coded id i c) ≡ ok (placed creator i c)
unfolding to_character coded to_string first_byte
to_character-coded creator id i c =
    let place = digits i ++ (b',' ∷ []) in
    let code = digits i ++ (b',' ∷ b'_' ∷ to_string id) in
    let whole = substr_tail c code in
    let parts : place ++ (b'_' ∷ to_string id) ≡ code =
      append_assoc (digits i) (b',' ∷ []) (b'_' ∷ to_string id) in
    let d = digits-AllDigits i in
    let lacks =
      All-append _ (digits i) (b',' ∷ []) (AllDigits-Lacks b'_' (digits i) (omega arith) d)
        (omega arith, tt) in
    let filled = length-digits-pos i in
    let first = first_token b'_' place (to_string id) (
      filled-IsToken b'_' place (omega (arith, filled, length-append (digits i) (b',' ∷ [])))
        lacks) in
    let numbers = split-ended b',' (digits i ∷ []) (
      filled-IsToken b',' (digits i) filled (AllDigits-Lacks_low b',' (digits i) (omega arith) d),
      tt,
    ) in
    rw (whole, to_character) (rw (← parts) (rw first (rw numbers (rw (atoi-digits i) refl))))

-- The characters of a text, read from the `k`-th on and placed from `i` on.
abbrev pub placed_from : (ℕ → ℤ) → ℕ → ℕ → Bytes → List Character
placed_from creators k i [] = []
placed_from creators k i (c ∷ text) =
    placed (creators k) i c ∷ placed_from creators (suc k) (suc i) text

to_characters-coded_from :
    (creators : ℕ → ℤ) (id : ℤ) (k i : ℕ) (text : Bytes)
    → to_characters creators k [] (coded_from id i text) ≡ ok (placed_from creators k i text)
unfolding to_characters contains
to_characters-coded_from creators id k i [] = refl
to_characters-coded_from creators id k i (c ∷ text) =
    rw (to_character-coded (creators k) id i c)
      (rw (to_characters-coded_from creators id (suc k) (suc i) text) refl)

-- They stand in order.
sort-placed_from :
    (creators : ℕ → ℤ) (k i : ℕ) (text : Bytes)
    → sort (placed_from creators k i text) ≡ placed_from creators k i text
unfolding sort insert_char compare compare_at
sort-placed_from creators k i [] = refl
sort-placed_from creators k i (c ∷ []) = refl
sort-placed_from creators k i (c ∷ d ∷ text) =
    rw (sort-placed_from creators (suc k) (suc i) (d ∷ text)) (ground arith)

map-placed_from :
    (creators : ℕ → ℤ) (k i : ℕ) (text : Bytes)
    → map (λ ch. ch.c) (placed_from creators k i text) ≡ text
map-placed_from creators k i [] = refl
map-placed_from creators k i (c ∷ text) = ap (◌∷◌ c) (map-placed_from creators (suc k) (suc i) text)

-- `setBuffers` on a new note succeeds, and `toString` of the note that it leaves gives the text back,
-- whatever the memory holds in place of the creators.
pub to_text-set_buffers :
    (creators : ℕ → ℤ) (server_id : ℤ) (text : Bytes)
    → (set_buffers text (init server_id) >>= λ set. to_text creators set.0) ≡ ok text
unfolding to_text
to_text-set_buffers creators server_id text = rw (set_buffers_new server_id text) (
    rw (to_characters-coded_from creators server_id 0 0 text)
      (rw (sort-placed_from creators 0 0 text) (ap ok (map-placed_from creators 0 0 text))))
