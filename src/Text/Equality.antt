-- ===== src/Text/Equality.antt =====
-- `same_text` decides equality.
use tin_system_do_wspolpracy.Base.{
  Bool-cases, Bytes, [], arith, false, inl, inr, refl, true, ◌∷◌, ◌≡◌, ◌≢◌,
}
use tin_system_do_wspolpracy.Text.{same_text}

pub same_text_self : (s : Bytes) → same_text s s ≡ true
unfolding same_text
same_text_self [] = refl
same_text_self (c ∷ s) = ground (arith, same_text_self s)

pub same_text-eq : (s t : Bytes) → same_text s t ≡ true → s ≡ t
unfolding same_text
same_text-eq [] [] h = refl
same_text-eq [] (d ∷ t) h = cc
same_text-eq (c ∷ s) [] h = cc
same_text-eq (c ∷ s) (d ∷ t) h = ground (arith, same_text-eq s t)

pub same_text-ne : (s t : Bytes) → s ≢ t → same_text s t ≡ false
same_text-ne s t h = elim (Bool-cases (same_text s t)) [
  | inl e ↦ absurd (h (same_text-eq s t e))
  | inr e ↦ e
]
