-- ===== src/Note/Arrival.antt =====
-- The text does not depend on the order in which changes arrive.
use mathlib.Core.Logic.{∥∥₁_elim}
use mathlib.Core.List.{Perm, Permᴰ}
use mathlib.Core.List.Permᴰ
use tin_system_do_wspolpracy.Base.{
  Bool-cases, Bytes, List, Outcome, Outcome-cases, [], ap, append_assoc, fault, if◌then◌else◌, inl,
  inr, map, ok, refl, subst, suc, sym, ℕ, ℤ, ◌++◌, ◌>>=◌, ◌∙◌, ◌∷◌, ◌≡◌,
}
use tin_system_do_wspolpracy.Note.{
  Character, Note, contains, sort, to_character, to_characters, to_text,
}
use tin_system_do_wspolpracy.Note.Sorting.{AllApart, sort-Permᴰ}

Outcome-set : IsSet (Outcome Bytes)
Outcome-set = hlevel

-- The character that a coded one stands for, unless it was deleted. `g` is what the memory holds where
-- its creator should be.
abbrev pub shown : ℤ → List Bytes → Bytes → Outcome (List Character)
shown g deleted s = if contains s deleted then ok [] else (to_character g s >>= λ ch. ok (ch ∷ []))

abbrev pub all_shown : ℤ → List Bytes → List Bytes → Outcome (List Character)
all_shown g deleted [] = ok []
all_shown g deleted (s ∷ added) =
    shown g deleted s >>= λ pre. all_shown g deleted added >>= λ chs. ok (pre ++ chs)

to_characters_lem :
    (g : ℤ) (i : ℕ) (deleted added : List Bytes)
    → to_characters (λ _. g) i deleted added ≡ all_shown g deleted added
unfolding to_characters
to_characters_lem g i deleted [] = refl
to_characters_lem g i deleted (s ∷ added) =
    rw (to_characters_lem g (suc i) deleted added) (elim (Bool-cases (contains s deleted)) [
      | inl e ↦ elim (Outcome-cases (all_shown g deleted added)) [
        | inl (chs, rest) ↦ rw e (rw rest refl)
        | inr (f, rest) ↦ rw e (rw rest refl)
      ]
      | inr e ↦ elim (Outcome-cases (to_character g s)) [
        | inl (ch, c) ↦ rw e (rw c refl)
        | inr (f, c) ↦ rw e (rw c refl)
      ]
    ])

-- A chain that succeeds has a first part that does.
ok_first :
    {X : Type 0} (k : X → Outcome (List Character)) (chars : List Character) (first : Outcome X)
    → (first >>= k) ≡ ok chars
    → (x : X) × (first ≡ ok x) × (k x ≡ ok chars)
ok_first k chars (ok x) whole = (x, refl, whole)
ok_first k chars (fault e) whole = cc

ok-inj {ℓ} : {A : Type ℓ} {a b : A} → ok a ≡ ok b → a ≡ b
ok-inj e = cc

-- The parts of what is shown.
all_shown-inv :
    (g : ℤ) (deleted : List Bytes) (s : Bytes) (added : List Bytes) (chars : List Character)
    → all_shown g deleted (s ∷ added) ≡ ok chars
    → (pre chs : List Character) × (shown g deleted s ≡ ok pre)
      × (all_shown g deleted added ≡ ok chs)
      × (pre ++ chs ≡ chars)
all_shown-inv g deleted s added chars e =
    let (pre, first, more) = ok_first _ _ (shown g deleted s) e in
    let (chs, rest, whole) = ok_first _ _ (all_shown g deleted added) more in
    (pre, chs, first, rest, ok-inj whole)

all_shown-cons :
    (g : ℤ) (deleted : List Bytes) (s : Bytes) (added : List Bytes) (pre chs : List Character)
    → shown g deleted s ≡ ok pre
    → all_shown g deleted added ≡ ok chs
    → all_shown g deleted (s ∷ added) ≡ ok (pre ++ chs)
all_shown-cons g deleted s added pre chs e f = rw e (rw f refl)

-- In another order of arrival the same characters are shown, in another order.
all_shown-Permᴰ :
    (g : ℤ) (deleted : List Bytes) {xs ys : List Bytes} (chars : List Character)
    → Permᴰ xs ys
    → all_shown g deleted xs ≡ ok chars
    → (chars' : List Character) × (all_shown g deleted ys ≡ ok chars') × Permᴰ chars chars'
all_shown-Permᴰ g deleted chars Permᴰ.nil e = (chars, e, Permᴰ.refl chars)
all_shown-Permᴰ g deleted chars (Permᴰ.cons {a = a} {b = b} {l₁ = xs} {l₂ = ys} same d) e =
    let (pre, chs, first, rest, whole) = all_shown-inv g deleted a xs chars e in
    let (chs', rest', p) = all_shown-Permᴰ g deleted chs d rest in
    (
      pre ++ chs',
      all_shown-cons g deleted b ys pre chs' (subst (λ x. shown g deleted x ≡ ok pre) same first)
          rest',
      subst (λ x. Permᴰ x (pre ++ chs')) whole (Permᴰ.append_left pre p),
    )
all_shown-Permᴰ g deleted chars (Permᴰ.swap {a = a} {b = b} {a' = a'} {b' = b'} {l = l} e₁ e₂) e =
    let (pre, chs, first, rest, whole) = all_shown-inv g deleted a (b ∷ l) chars e in
    let (pre', chs', second, rest', whole') = all_shown-inv g deleted b l chs rest in
    let swapped = Permᴰ.append_right chs' (Permᴰ.append_comm pre pre') in
    (
      pre' ++ (pre ++ chs'),
      all_shown-cons g deleted a' (b' ∷ l) pre' (pre ++ chs')
          (subst (λ x. shown g deleted x ≡ ok pre') e₂ second)
          (all_shown-cons g deleted b' l pre chs' (subst (λ x. shown g deleted x ≡ ok pre) e₁ first)
            rest'),
      subst (λ x. Permᴰ x (pre' ++ (pre ++ chs')))
          (append_assoc pre pre' chs' ∙ ap (◌++◌ pre) whole' ∙ whole)
          (subst (Permᴰ ((pre ++ pre') ++ chs')) (append_assoc pre' pre chs') swapped),
    )
all_shown-Permᴰ g deleted chars (Permᴰ.trans d d') e =
    let (mid, shown_mid, p) = all_shown-Permᴰ g deleted chars d e in
    let (last, shown_last, q) = all_shown-Permᴰ g deleted mid d' shown_mid in
    (last, shown_last, Permᴰ.trans p q)

all_shown-deleted :
    (g : ℤ) (deleted deleted' added : List Bytes)
    → ((s : Bytes) → contains s deleted ≡ contains s deleted')
    → all_shown g deleted' added ≡ all_shown g deleted added
all_shown-deleted g deleted deleted' [] same = refl
all_shown-deleted g deleted deleted' (s ∷ added) same =
    rw (same s) (rw (all_shown-deleted g deleted deleted' added same) refl)

to_text_lem :
    (g : ℤ) (n : Note)
    → to_text (λ _. g) n
      ≡ (all_shown g n.deleted_chars n.added_chars >>= λ chars. ok (map (λ ch. ch.c) (sort chars)))
unfolding to_text
to_text_lem g n = rw (to_characters_lem g 0 n.deleted_chars n.added_chars) refl

-- Two notes that were given the same characters, and the same deletions, in any order show the same
-- text, when each character shown can be read, any two of them stand at different places, and the
-- memory holds the same in place of the creators.
pub to_text_arrival :
    (g : ℤ) (n m : Note) (chars : List Character)
    → Perm n.added_chars m.added_chars
    → ((s : Bytes) → contains s n.deleted_chars ≡ contains s m.deleted_chars)
    → to_characters (λ _. g) 0 n.deleted_chars n.added_chars ≡ ok chars
    → AllApart chars
    → to_text (λ _. g) m ≡ to_text (λ _. g) n
to_text_arrival g n m chars arrived deleted read apart =
    let shown_n = sym (to_characters_lem g 0 n.deleted_chars n.added_chars) ∙ read in
    ∥∥₁_elim arrived (Outcome-set _ _) λ d.
      let (chars', shown_m, p) = all_shown-Permᴰ g n.deleted_chars chars d shown_n in
      to_text_lem g m
      ∙ rw (all_shown-deleted g n.deleted_chars m.deleted_chars m.added_chars deleted) (
          rw shown_m (
            rw (to_text_lem g n)
              (rw shown_n (ap (λ x. ok (map (λ ch. ch.c) x)) (sym (sort-Permᴰ p apart))))))
