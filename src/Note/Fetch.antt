-- ===== src/Note/Fetch.antt =====
-- The document as one message: what `getFileChanges` writes, `applyChanges` reads back.
use tin_system_do_wspolpracy.Base.{
  All, All-append, Bool-cases, Bytes, List, Outcome, [], append-nil, append_assoc, arith, drop,
  false, fault, if◌then◌else◌, inl, inr, length, length-append, none, ok, refl, suc, sym,
  take-length, true, undefined, zero, ℕ, ◌++◌, ◌+◌, ◌∙◌, ◌∷◌, ◌≡◌, ◌≢◌, ◌≤◌,
}
use tin_system_do_wspolpracy.Text.{find_text, starts_with}
use tin_system_do_wspolpracy.Text.Search.{Lacks, find_byte}
use tin_system_do_wspolpracy.Note.{
  Note, buffer_splitter, char_splitter, contains, get_file_changes, join_kept, split, split_from,
  keep_token, apply_changes, nth,
}

-- Tokens, each with the delimiter behind it.
abbrev pub ended : ℕ → List Bytes → Bytes
ended d [] = []
ended d (t ∷ ts) = t ++ (d ∷ ended d ts)

-- A token is not empty and lacks the delimiter.
abbrev pub IsToken : ℕ → Bytes → Type 0
IsToken d [] = ⊥
IsToken d (c ∷ t) = Lacks d (c ∷ t)

pub IsToken-Lacks : (d : ℕ) (t : Bytes) → IsToken d t → Lacks d t
IsToken-Lacks d [] h = absurd h
IsToken-Lacks d (c ∷ t) h = h

pub drop_past : (t : Bytes) (d : ℕ) (rest : Bytes) → drop (length t + 1) (t ++ (d ∷ rest)) ≡ rest
drop_past [] d rest = refl
drop_past (c ∷ t) d rest =
    let e : suc (length t) + 1 ≡ suc (length t + 1) = omega arith in rw e (drop_past t d rest)

pub keep_token_lem :
    (d : ℕ) (t : Bytes) (tokens : List Bytes)
    → IsToken d t
    → keep_token false t tokens ≡ tokens ++ (t ∷ [])
unfolding keep_token
keep_token_lem d [] tokens h = absurd h
keep_token_lem d (c ∷ t) tokens h = refl

length-ended : (d : ℕ) (ts : List Bytes) → length ts ≤ length (ended d ts)
length-ended d [] = omega arith
length-ended d (t ∷ ts) = omega (arith, length-ended d ts, length-append t (d ∷ ended d ts))

-- One round of the loop of `split`, with more text behind the delimiter.
pub split_step :
    (d fuel : ℕ) (t : Bytes) (c : ℕ) (rest : Bytes) (tokens : List Bytes)
    → IsToken d t
    → split_from (suc fuel) (d ∷ []) false (t ++ (d ∷ c ∷ rest)) tokens
      ≡ split_from fuel (d ∷ []) false (c ∷ rest) (tokens ++ (t ∷ []))
unfolding split_from
split_step d fuel t c rest tokens h =
    rw (find_byte d t (c ∷ rest) (IsToken-Lacks d t h), split_from)
      (rw (drop_past t d (c ∷ rest))
        (rw (take-length t (d ∷ c ∷ rest)) (rw (keep_token_lem d t tokens h) refl)))

-- The loop of `split` takes the tokens off one by one, given a round for each.
split_from-ended :
    (d fuel : ℕ) (t : Bytes) (ts tokens : List Bytes)
    → length ts ≤ fuel
    → All (IsToken d) (t ∷ ts)
    → split_from (suc fuel) (d ∷ []) false (ended d (t ∷ ts)) tokens ≡ tokens ++ (t ∷ ts)
unfolding split_from
split_from-ended d fuel t [] tokens h all =
    rw (find_byte d t [] (IsToken-Lacks d t all.0), split_from)
      (rw (drop_past t d []) (rw (take-length t (d ∷ [])) (keep_token_lem d t tokens all.0)))
split_from-ended d fuel t ([] ∷ ts) tokens h all = absurd all.1.0
split_from-ended d zero t ((c ∷ u) ∷ ts) tokens h all = absurd (omega arith)
split_from-ended d (suc fuel) t ((c ∷ u) ∷ ts) tokens h all =
    split_step d (suc fuel) t c (u ++ (d ∷ ended d ts)) tokens all.0
    ∙ split_from-ended d fuel (c ∷ u) ts (tokens ++ (t ∷ [])) (omega arith) all.1
    ∙ append_assoc tokens (t ∷ []) ((c ∷ u) ∷ ts)

-- `split` gives back, in order, tokens that are not empty, lack the delimiter and stand in the text
-- with the delimiter behind each of them.
pub split-ended :
    (d : ℕ) (ts : List Bytes) → All (IsToken d) ts → split (ended d ts) (d ∷ []) false ≡ ts
unfolding split split_from keep_token find_text starts_with
split-ended d [] all = refl
split-ended d (t ∷ ts) all =
    split_from-ended d (length (ended d (t ∷ ts))) t ts [] (omega (arith, length-ended d (t ∷ ts)))
      all

-- The added characters that were not deleted.
abbrev pub kept : List Bytes → List Bytes → List Bytes
kept deleted [] = []
kept deleted (s ∷ added) = if contains s deleted then kept deleted added else s ∷ kept deleted added

pub join_kept_lem :
    (deleted added : List Bytes) (changes : Bytes)
    → join_kept deleted added changes ≡ changes ++ ended char_splitter (kept deleted added)
unfolding join_kept
join_kept_lem deleted [] changes = sym (append-nil changes)
join_kept_lem deleted (s ∷ added) changes = elim (Bool-cases (contains s deleted)) [
  | inl e ↦ rw e (join_kept_lem deleted added changes)
  | inr e ↦
      let rest = ended char_splitter (kept deleted added) in
      rw e (
        join_kept_lem deleted added (changes ++ s ++ (char_splitter ∷ []))
        ∙ append_assoc (changes ++ s) (char_splitter ∷ []) rest
        ∙ append_assoc changes s (char_splitter ∷ rest))
]

find_missing : (d : ℕ) (s : Bytes) → Lacks d s → find_text (d ∷ []) s ≡ none
unfolding find_text starts_with
find_missing d [] h = refl
find_missing d (c ∷ s) h = ground (arith, h.0, find_missing d s h.1)

All-kept :
    (P : Bytes → Type 0) (deleted added : List Bytes) → All P added → All P (kept deleted added)
All-kept P deleted [] h = tt
All-kept P deleted (s ∷ added) h = elim (Bool-cases (contains s deleted)) [
  | inl e ↦ rw e (All-kept P deleted added h.1)
  | inr e ↦ rw e (h.0, All-kept P deleted added h.1)
]

Lacks-ended : (b d : ℕ) (ts : List Bytes) → b ≢ d → All (Lacks b) ts → Lacks b (ended d ts)
Lacks-ended b d [] ne all = tt
Lacks-ended b d (t ∷ ts) ne all =
    All-append _ t (d ∷ ended d ts) all.0 (ground arith, Lacks-ended b d ts ne all.1)

-- What a note is after it received these characters; without any, the message has no second part,
-- and reading that is undefined.
abbrev pub received : List Bytes → Note → Outcome Note
received [] n = fault undefined
received (t ∷ ts) n = ok (record n { added_chars = n.added_chars ++ (t ∷ ts) })

split_buffers :
    (c : ℕ) (text : Bytes)
    → Lacks buffer_splitter (c ∷ text)
    → split (buffer_splitter ∷ c ∷ text) (buffer_splitter ∷ []) true ≡ [] ∷ (c ∷ text) ∷ []
unfolding split split_from keep_token starts_with find_text
split_buffers c text lacks = rw (find_missing buffer_splitter (c ∷ text) lacks, split_from) refl

apply_changes_lem :
    (ts : List Bytes) (n : Note)
    → All (IsToken char_splitter) ts
    → All (Lacks buffer_splitter) ts
    → apply_changes (buffer_splitter ∷ ended char_splitter ts) n ≡ received ts n
unfolding apply_changes split split_from keep_token starts_with find_text nth
apply_changes_lem [] n tokens lacks = refl
apply_changes_lem ([] ∷ ts) n tokens lacks = absurd tokens.0
apply_changes_lem ((c ∷ t) ∷ ts) n tokens lacks =
    let parts =
      split_buffers c (t ++ (char_splitter ∷ ended char_splitter ts))
        (Lacks-ended buffer_splitter char_splitter ((c ∷ t) ∷ ts) (omega arith) lacks) in
    rw (parts, apply_changes)
      (rw (split-ended char_splitter ((c ∷ t) ∷ ts) tokens) (rw (append-nil n.deleted_chars) refl))

-- When no added character is empty or holds a splitter, a note that applies the message of the
-- whole document gets exactly the characters that were added and not deleted, in their order,
-- behind its own, and no deletions; when none is left, applying the message is undefined.
pub apply_changes-get_file_changes :
    (n m : Note)
    → All (IsToken char_splitter) n.added_chars
    → All (Lacks buffer_splitter) n.added_chars
    → apply_changes (get_file_changes n) m ≡ received (kept n.deleted_chars n.added_chars) m
unfolding get_file_changes
apply_changes-get_file_changes n m tokens lacks =
    rw (join_kept_lem n.deleted_chars n.added_chars (buffer_splitter ∷ [])) (
      apply_changes_lem (kept n.deleted_chars n.added_chars) m
        (All-kept _ n.deleted_chars n.added_chars tokens)
        (All-kept _ n.deleted_chars n.added_chars lacks))
