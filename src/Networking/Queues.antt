-- ===== src/Networking/Queues.antt =====
-- What the queues of unsent messages hold after each operation.
use native.Mathlib.Nat.{zero-add}
use tin_system_do_wspolpracy.Base.{
  ==ℤ_iff, All, List, Outcome, [], ap, arith, false, fault, if◌then◌else◌, length, minus_one, ok,
  refl, suc, true, undefined, ℕ, ℤ, ◌++◌, ◌+◌, ◌==ℤ◌, ◌==◌, ◌>>=◌, ◌∷◌, ◌≡◌,
}
use tin_system_do_wspolpracy.IntMap.{assign}
use tin_system_do_wspolpracy.IntMap.Laws.{find-update}
use tin_system_do_wspolpracy.Networking.{
  NetState, Networking, queue, get_first_obs_len, first_obs, remove_sent, erase_sent, seek,
  erase_at,
}

-- No entry of the queue is of this type.
abbrev pub LacksType : ℤ → List NetState → Type 0
LacksType t = All (λ s. (s.msg_type ==ℤ t) ≡ false)

first_obs_at :
    (t res : ℤ) (pre : List NetState) (s : NetState) (post : List NetState)
    → LacksType t pre
    → (s.msg_type ==ℤ t) ≡ true
    → first_obs false res t (pre ++ s ∷ post) ≡ s.msg_len
unfolding first_obs
first_obs_at t res [] s post h e = rw e refl
first_obs_at t res (p ∷ pre) s post h e = rw (h.0) (first_obs_at t res pre s post h.1 e)

seek_at :
    (t : ℤ) (it i : ℕ) (pre : List NetState) (s : NetState) (post : List NetState)
    → LacksType t pre
    → (s.msg_type ==ℤ t) ≡ true
    → seek t it i (pre ++ s ∷ post) ≡ i + length pre
unfolding seek
seek_at t it i [] s post h e = rw e (omega arith)
seek_at t it i (p ∷ pre) s post h e =
    rw (h.0) (omega (arith, seek_at t it (suc i) pre s post h.1 e))

erase_at-append :
    (pre : List NetState) (s : NetState) (post : List NetState)
    → erase_at (length pre) (pre ++ s ∷ post) ≡ pre ++ post
unfolding erase_at
erase_at-append [] s post = refl
erase_at-append (p ∷ pre) s post = ap (◌∷◌ p) (erase_at-append pre s post)

same : (s : NetState) → (s.msg_type ==ℤ s.msg_type) ≡ true
same s = (==ℤ_iff s.msg_type s.msg_type).1 refl

-- The queue without its front.
abbrev pub front : List NetState → Outcome (List NetState)
front [] = fault undefined
front (s ∷ q) = ok q

abbrev pub with_queue : ℕ → List NetState → Networking → Networking
with_queue sockfd q n = record n { send_queues = assign sockfd q n.send_queues }

queue-with_queue :
    (j sockfd : ℕ) (q : List NetState) (n : Networking)
    → queue j (with_queue sockfd q n) ≡ (if sockfd == j then q else queue j n)
queue-with_queue j sockfd q n =
    ground (arith, find-update j sockfd q (λ (_ : List NetState). q) n.send_queues)

erase_sent_oldest :
    (pre : List NetState) (s : NetState) (post : List NetState)
    → LacksType s.msg_type pre
    → erase_sent s.msg_type (pre ++ s ∷ post) ≡ ok (pre ++ post)
unfolding erase_sent
erase_sent_oldest [] s post h = rw (same s) refl
erase_sent_oldest (p ∷ pre) s post h =
    rw (seek_at s.msg_type 0 0 (p ∷ pre) s post h (same s))
      (rw zero-add (ap ok (erase_at-append (p ∷ pre) s post)))

seek_missing : (t : ℤ) (it i : ℕ) (q : List NetState) → LacksType t q → seek t it i q ≡ it
unfolding seek
seek_missing t it i [] h = refl
seek_missing t it i (s ∷ q) h = rw (h.0) (seek_missing t it (suc i) q h.1)

-- Where no entry is of the type, the front goes.
erase_sent_missing : (t : ℤ) (q : List NetState) → LacksType t q → erase_sent t q ≡ front q
unfolding erase_sent
erase_sent_missing t [] h = refl
erase_sent_missing t (s ∷ q) h = rw (seek_missing t 0 0 (s ∷ q) h) refl

-- `get_first_obs_len` reads the oldest message of the type and `remove_sent` takes that one out of
-- the queue, if the flag `found` starts as false; the other entries keep their order, and the other
-- queues stay.
pub remove_sent_oldest :
    (sockfd : ℕ) (n : Networking) (pre : List NetState) (s : NetState) (post : List NetState)
    → queue sockfd n ≡ pre ++ s ∷ post
    → LacksType s.msg_type pre
    → ((get_first_obs_len false sockfd s.msg_type n).0 ≡ s.msg_len)
      × (m : Networking) × (remove_sent sockfd s.msg_type n ≡ ok m)
      × ((j : ℕ) → queue j m ≡ (if sockfd == j then pre ++ post else queue j n))
unfolding get_first_obs_len remove_sent
remove_sent_oldest sockfd n pre s post h lacks = (
  rw h (first_obs_at s.msg_type minus_one pre s post lacks (same s)),
  with_queue sockfd (pre ++ post) n,
  rw (h, erase_sent_oldest pre s post lacks) refl,
  λ j. queue-with_queue j sockfd (pre ++ post) n,
)

-- With no message of the type, `remove_sent` takes the front of the queue all the same, whatever its
-- type, and on an empty queue its behaviour is undefined.
pub remove_sent_missing :
    (sockfd : ℕ) (t : ℤ) (n : Networking)
    → LacksType t (queue sockfd n)
    → remove_sent sockfd t n ≡ (front (queue sockfd n) >>= λ rest. ok (with_queue sockfd rest n))
unfolding remove_sent
remove_sent_missing sockfd t n lacks = rw (erase_sent_missing t (queue sockfd n) lacks) refl
