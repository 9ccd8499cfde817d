-- ===== src/Files/Laws.antt =====
-- What a file holds after a write, and that a write touches no other file.
use tin_system_do_wspolpracy.Base.{
  Bool-cases, Bytes, [], arith, inl, inr, refl, some, ◌∷◌, ◌≡◌, ◌≢◌,
}
use tin_system_do_wspolpracy.Text.{same_text}
use tin_system_do_wspolpracy.Text.Equality.{same_text_self, same_text-eq}
use tin_system_do_wspolpracy.Files.{Files, content, write_from_buffer}

pub content-write_from_buffer :
    (fn buff : Bytes) (files : Files) → content fn (write_from_buffer fn buff files) ≡ some buff
unfolding content write_from_buffer
content-write_from_buffer fn buff [] = ground (arith, same_text_self fn)
content-write_from_buffer fn buff ((name, old) ∷ files) = elim (Bool-cases (same_text name fn)) [
  | inl e ↦ rw (e, write_from_buffer) (rw e refl)
  | inr e ↦ rw (e, write_from_buffer) (rw e (content-write_from_buffer fn buff files))
]

pub content-write_from_buffer_other :
    (fn other buff : Bytes) (files : Files)
    → other ≢ fn
    → content other (write_from_buffer fn buff files) ≡ content other files
unfolding content write_from_buffer
content-write_from_buffer_other fn other buff [] h = ground (arith, same_text-eq fn other)
content-write_from_buffer_other fn other buff ((name, old) ∷ files) h =
    elim (Bool-cases (same_text name fn)) [
      | inl e ↦
          rw (e, write_from_buffer)
            (ground (arith, same_text-eq name fn e, same_text-eq name other))
      | inr e ↦
          rw (e, write_from_buffer)
            (ground (arith, content-write_from_buffer_other fn other buff files h))
    ]
