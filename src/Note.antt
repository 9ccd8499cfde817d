-- ===== src/Note.antt =====
-- server/Note.cpp: the text as a set of coded characters. A coded character is its byte, its position
-- as numbers that each end in a comma, an underscore and the id of its creator. The members
-- `editors` and `fileName`, which nothing reads, are left out.
pub mod Order
pub mod Fetch
pub mod Start
pub mod Sorting
pub mod Arrival
pub mod Splitting
pub mod Reading
use tin_system_do_wspolpracy.Base.{
  Bool, Bytes, List, Outcome, [], drop, false, fault, if◌then◌else◌, length, ltb_ℤ, map, none, ok,
  pos, some, suc, take, true, undefined, zero, ℕ, ℤ, ◌++◌, ◌+◌, ◌>>=◌, ◌>>◌, ◌||◌, ◌∷◌,
}
use tin_system_do_wspolpracy.Text.{to_string, atoi, same_text, find_text, substr}

abbrev pub buffer_splitter : ℕ
buffer_splitter = 28

abbrev pub char_splitter : ℕ
char_splitter = 29

pub record Character : Type 0 where
  pub c : ℕ
  pub position : List ℤ
  pub creator : ℤ

pub record Note : Type 0 where
  pub added_chars : List Bytes
  pub deleted_chars : List Bytes
  pub server_id : ℤ

abbrev pub init : ℤ → Note
init server_id = record { added_chars = []; deleted_chars = []; server_id = server_id }

-- `if (empty || !token.empty()) tokens.push_back(token);`
pub keep_token : Bool → Bytes → List Bytes → List Bytes
keep_token true token tokens = tokens ++ (token ∷ [])
keep_token false [] tokens = tokens
keep_token false (c ∷ token) tokens = tokens ++ ((c ∷ token) ∷ [])

-- The loop of `split`, where `rest` is the text from `prev` on. Each round takes the delimiter off, so
-- the length of the text is fuel enough.
pub split_from : ℕ → Bytes → Bool → Bytes → List Bytes → List Bytes
unfolding keep_token
split_from zero delim empty rest tokens = tokens
split_from (suc fuel) delim empty rest tokens = elim (find_text delim rest) [
  | none ↦ keep_token empty rest tokens
  | some k ↦ elim (drop (k + length delim) rest) [
    | [] ↦ keep_token empty (take k rest) tokens
    | c ∷ next ↦ split_from fuel delim empty (c ∷ next) (keep_token empty (take k rest) tokens)
  ]
]

unfoldable pub split : Bytes → Bytes → Bool → List Bytes
unfolding split_from
split str delim empty = split_from (suc (length str)) delim empty str []

-- `tokens[i]`, undefined out of range.
unfoldable pub nth : ℕ → List Bytes → Outcome Bytes
nth i [] = fault undefined
nth zero (t ∷ tokens) = ok t
nth (suc i) (t ∷ tokens) = nth i tokens

-- `str[0]`, which is the closing null of an empty string.
first_byte : Bytes → ℕ
first_byte [] = 0
first_byte (c ∷ s) = c

-- The creator is never set: what the memory holds is the first argument.
unfoldable pub to_character : ℤ → Bytes → Outcome Character
unfolding first_byte
to_character creator str = do
  rest ← substr str 1 (length str)
  split_pos ← nth 0 (split rest (b'_' ∷ []) false)
  let numbers = split split_pos (b',' ∷ []) false
  ok (record { c = first_byte str; position = map atoi numbers; creator = creator })

-- The loop of `compare` over the two positions, from an index on.
unfoldable pub compare_at : List ℤ → List ℤ → ℤ → ℤ → Bool
compare_at [] [] first_creator second_creator =
    if ltb_ℤ first_creator second_creator then false else ltb_ℤ second_creator first_creator
compare_at [] (q ∷ qs) first_creator second_creator = true
compare_at (p ∷ ps) [] first_creator second_creator = false
compare_at (p ∷ ps) (q ∷ qs) first_creator second_creator =
    if ltb_ℤ q p
    then false
    else if ltb_ℤ p q
    then true
    else compare_at ps qs first_creator second_creator

unfoldable pub compare : Character → Character → Bool
unfolding compare_at
compare first second = compare_at first.position second.position first.creator second.creator

unfoldable pub apply_changes : Bytes → Note → Outcome Note
apply_changes changes n = do
  let buffers = split changes (buffer_splitter ∷ []) true
  added ← nth 1 buffers
  deleted ← nth 0 buffers
  ok (record n {
    added_chars = n.added_chars ++ split added (char_splitter ∷ []) false;
    deleted_chars = n.deleted_chars ++ split deleted (char_splitter ∷ []) false;
  })

unfoldable pub contains : Bytes → List Bytes → Bool
contains s [] = false
contains s (t ∷ ts) = same_text t s || contains s ts

-- `creators i` is what the creator of the i-th character read happens to be.
unfoldable pub to_characters : (ℕ → ℤ) → ℕ → List Bytes → List Bytes → Outcome (List Character)
unfolding contains
to_characters creators i deleted [] = ok []
to_characters creators i deleted (s ∷ added) =
    let rest = to_characters creators (suc i) deleted added in
    if contains s deleted
    then rest
    else (to_character (creators i) s >>= λ ch. rest >>= λ chs. ok (ch ∷ chs))

-- `std::sort`, which puts equal characters in some order; here they keep theirs.
pub insert_char : Character → List Character → List Character
insert_char a [] = a ∷ []
insert_char a (b ∷ chs) = if compare b a then b ∷ insert_char a chs else a ∷ b ∷ chs

unfoldable pub sort : List Character → List Character
unfolding insert_char
sort [] = []
sort (a ∷ chs) = insert_char a (sort chs)

-- `Note::toString`.
unfoldable pub to_text : (ℕ → ℤ) → Note → Outcome Bytes
unfolding to_characters
to_text creators n = do
  chars ← to_characters creators 0 n.deleted_chars n.added_chars
  ok (map (λ ch. ch.c) (sort chars))

-- The i-th character of a text, coded for the document that it starts.
unfoldable pub coded : ℤ → ℕ → ℕ → Bytes
coded server_id i c = c ∷ (to_string (pos i) ++ (b',' ∷ b'_' ∷ to_string server_id))

set_loop : ℕ → Bytes → Note → Bytes → Outcome (Note × Bytes)
set_loop i [] n changes = ok (n, changes)
set_loop i (c ∷ text) n changes =
    let added = n.added_chars ++ (coded n.server_id i c ∷ []) in
    nth i added >>= λ s.
    set_loop (suc i) text (record n { added_chars = added }) (changes ++ s ++ (char_splitter ∷ []))

unfoldable pub set_buffers : Bytes → Note → Outcome (Note × Bytes)
unfolding set_loop
set_buffers text n = set_loop 0 text n (buffer_splitter ∷ [])

pub join_kept : List Bytes → List Bytes → Bytes → Bytes
unfolding contains
join_kept deleted [] changes = changes
join_kept deleted (s ∷ added) changes =
    join_kept deleted added
      (if contains s deleted then changes else changes ++ s ++ (char_splitter ∷ []))

unfoldable pub get_file_changes : Note → Bytes
unfolding join_kept
get_file_changes n = join_kept n.deleted_chars n.added_chars (buffer_splitter ∷ [])
