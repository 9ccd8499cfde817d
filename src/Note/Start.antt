-- ===== src/Note/Start.antt =====
-- A text as the start of a document: what `setBuffers` keeps and what it sends.
use tin_system_do_wspolpracy.Base.{
  Bytes, List, [], ap, append-nil, append_assoc, arith, length, length-append, ok, refl, suc, sym,
  ℕ, ℤ, ◌++◌, ◌>>=◌, ◌∙◌, ◌∷◌, ◌≡◌,
}
use tin_system_do_wspolpracy.Note.{
  Note, init, buffer_splitter, char_splitter, coded, nth, contains, set_loop, set_buffers,
  get_file_changes,
}
use tin_system_do_wspolpracy.Note.Fetch.{ended, kept, join_kept_lem}

-- The characters of a text, coded from a position on.
abbrev pub coded_from : ℤ → ℕ → Bytes → List Bytes
coded_from server_id i [] = []
coded_from server_id i (c ∷ text) = coded server_id i c ∷ coded_from server_id (suc i) text

nth_last : (xs : List Bytes) (s : Bytes) → nth (length xs) (xs ++ (s ∷ [])) ≡ ok s
unfolding nth
nth_last [] s = refl
nth_last (x ∷ xs) s = nth_last xs s

ended-append :
    (d : ℕ) (xs : List Bytes) (s : Bytes) → ended d (xs ++ (s ∷ [])) ≡ ended d xs ++ (s ++ (d ∷ []))
ended-append d [] s = refl
ended-append d (x ∷ xs) s =
    rw (ended-append d xs s) (sym (append_assoc x (d ∷ ended d xs) (s ++ (d ∷ []))))

-- A new note with these characters added.
abbrev pub starting : ℤ → List Bytes → Note
starting server_id xs = record (init server_id) { added_chars = xs }

-- The loop, when `changes` holds what was coded so far.
set_loop_lem :
    (id : ℤ) (text : Bytes) (xs : List Bytes)
    → let all = xs ++ coded_from id (length xs) text in
      set_loop (length xs) text (starting id xs) (buffer_splitter ∷ ended char_splitter xs)
      ≡ ok (starting id all, buffer_splitter ∷ ended char_splitter all)
unfolding set_loop
set_loop_lem id [] xs = rw (append-nil xs) refl
set_loop_lem id (c ∷ text) xs =
    let s = coded id (length xs) c in
    let longer = xs ++ (s ∷ []) in
    let size : suc (length xs) ≡ length longer = omega (arith, length-append xs (s ∷ [])) in
    let so_far : ended char_splitter xs ++ s ++ (char_splitter ∷ []) ≡ ended char_splitter longer =
      append_assoc (ended char_splitter xs) s (char_splitter ∷ [])
      ∙ sym (ended-append char_splitter xs s) in
    let all : longer ++ coded_from id (length longer) text
        ≡ xs ++ (s ∷ coded_from id (suc (length xs)) text) =
      rw (← size) (append_assoc xs (s ∷ []) (coded_from id (suc (length xs)) text)) in
    rw (nth_last xs s, ◌>>=◌)
      ((λ i. set_loop (size i) text (starting id longer) (buffer_splitter ∷ so_far i))
        ∙ set_loop_lem id text longer
        ∙ (λ i. ok (starting id (all i), buffer_splitter ∷ ended char_splitter (all i))))

kept_all : (added : List Bytes) → kept [] added ≡ added
unfolding contains
kept_all [] = refl
kept_all (s ∷ added) = ap (◌∷◌ s) (kept_all added)

-- On a new note `setBuffers` keeps the characters coded by their place, and the message that it returns
-- is the one that sends the whole document.
pub set_buffers_new :
    (server_id : ℤ) (text : Bytes)
    → set_buffers text (init server_id)
      ≡ ok (
        starting server_id (coded_from server_id 0 text),
        get_file_changes (starting server_id (coded_from server_id 0 text)),
      )
unfolding set_buffers get_file_changes
set_buffers_new server_id text =
    set_loop_lem server_id text []
    ∙ rw (join_kept_lem [] (coded_from server_id 0 text) (buffer_splitter ∷ []))
        (rw (kept_all (coded_from server_id 0 text)) refl)
