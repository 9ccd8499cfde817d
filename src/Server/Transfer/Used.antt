-- ===== src/Server/Transfer/Used.antt =====
-- What one call of `send_msg` uses up of the kernel's answers, also when it fails.
use tin_system_do_wspolpracy.Base.{
  Bytes, List, Outcome-cases, [], ap, arith, inl, inr, length, ltb_ℤ, minus_one, minus_two, pos,
  refl, subst, sym, true, ℕ, ℤ, ◌&&◌, ◌-ℤ◌, ◌-◌, ◌<◌, ◌==ℤ◌, ◌∷◌, ◌≡◌, ◌⊎◌,
}
use tin_system_do_wspolpracy.ClientsMonitor.{
  ClientsMonitor, get_socket_write_state, get_socket_write_bytes_number,
  set_socket_write_bytes_number, header_to_send, header_sent,
}
use tin_system_do_wspolpracy.ClientsMonitor.Phases.{
  write_state_of_write_bytes, write_state_of_header_out,
}
use tin_system_do_wspolpracy.Header.{Header, msg_type_len, header_size}
use tin_system_do_wspolpracy.Message.{Message, get_string_rep, get_message_type}
use tin_system_do_wspolpracy.Server.State.{Server, Sent, accepted, pure}
use tin_system_do_wspolpracy.Server.State.Ensures.{Ensures, Ensures-bind, Ensures-if}
use tin_system_do_wspolpracy.Server.Transfer.{
  send_buff, send_msg, send_nbytes, nonblock_send, take_send, answer_send, after_sent, lift,
}
use tin_system_do_wspolpracy.Server.Transfer.Spent.{left, Ensures-lift}
use tin_system_do_wspolpracy.Text.{substr, stoi}

-- The call would block, or it used up an answer; the monitor is untouched.
abbrev IsUsed : Server → ℤ → Server → Type 0
IsUsed s r t = (t.clients ≡ s.clients) × (((r ==ℤ minus_one) ≡ true) ⊎ (left t < left s))

answer_send-IsUsed :
    (sockfd : ℕ) (buff : Bytes) (sends : List Sent) (s : Server)
    → s.sends ≡ sends
    → Ensures
        (IsUsed s)
        (answer_send sockfd buff (take_send sends).0 (record s { sends = (take_send sends).1 }))
unfolding answer_send take_send
answer_send-IsUsed sockfd buff [] s e = (refl, inl refl)
answer_send-IsUsed sockfd buff (Sent.blocked ∷ rest) s e = (refl, inl refl)
answer_send-IsUsed sockfd buff (Sent.failed ∷ rest) s e = (refl, inr (omega (arith, ap length e)))
answer_send-IsUsed sockfd buff (accepted k ∷ rest) s e = (refl, inr (omega (arith, ap length e)))

nonblock_send-IsUsed :
    (sockfd : ℕ) (buff : Bytes) (s : Server) → Ensures (IsUsed s) (nonblock_send sockfd buff s)
unfolding nonblock_send
nonblock_send-IsUsed sockfd buff s = answer_send-IsUsed sockfd buff s.sends s refl

send_nbytes-IsUsed :
    (sockfd : ℕ) (msg : Message) (n : ℤ) (s : Server)
    → Ensures (IsUsed s) (send_nbytes sockfd msg n s)
unfolding send_nbytes
send_nbytes-IsUsed sockfd msg n s = elim (Outcome-cases (send_buff msg n)) [
  | inr (f, e) ↦ rw (e, lift) tt
  | inl (buff, e) ↦
      rw (e, lift)
        (Ensures-bind (IsUsed s) (IsUsed s) (nonblock_send sockfd buff) _ s
          (nonblock_send-IsUsed sockfd buff s)
          λ r t used.
            Ensures-if (IsUsed s) (r ==ℤ minus_one) (pure minus_one) _ t (λ _. (used.0, inl refl))
              λ other.
                Ensures-if (IsUsed s) (ltb_ℤ r minus_one) (pure minus_two) (pure r) t
                  (λ _. elim used.1 [
                    | inl blocked ↦ absurd (ground arith)
                    | inr less ↦ (used.0, inr less)
                  ])
                  λ _. used)
]

-- A header is to be sent, or a body.
abbrev pub IsWriting : ℕ → ClientsMonitor → Type 0
IsWriting k cm =
    (get_socket_write_state k cm ≡ header_to_send) ⊎ (get_socket_write_state k cm ≡ header_sent)

write_bytes_set-IsWriting :
    (k : ℕ) (v : ℤ) (cm : ClientsMonitor)
    → IsWriting k cm
    → IsWriting k (set_socket_write_bytes_number k v cm)
write_bytes_set-IsWriting k v cm (inl e) = inl (write_state_of_write_bytes k 0 v cm e)
write_bytes_set-IsWriting k v cm (inr e) = inr (write_state_of_write_bytes k 1 v cm e)

-- A call with any message would block; or it used up an answer, and the message is out, which leaves `Q`,
-- or there is still something to write.
abbrev pub Went : (Server → Type 0) → ℕ → Server → ℤ → Server → Type 0
Went Q k s r t =
    ((r ==ℤ minus_one) ≡ true)
    ⊎ ((((r ==ℤ pos 1) ≡ true) × Q t) ⊎ IsWriting k t.clients) × (left t < left s)

pub send_msg-Went :
    (Q : Server → Type 0) (k : ℕ) (msg : Message) (s : Server)
    → ((t : Server) → Ensures (λ _ u. Q u × (left u ≡ left t)) (after_sent k msg t))
    → IsWriting k s.clients
    → Ensures (Went Q k s) (send_msg k msg s)
unfolding send_msg
send_msg-Went Q k msg s after writing =
    let to_send = get_socket_write_bytes_number k s.clients in
    let P = Went Q k s in
    Ensures-bind (IsUsed s) P (send_nbytes k msg to_send) _ s (send_nbytes-IsUsed k msg to_send s)
      λ r t used.
        let still = subst (IsWriting k) (sym used.0) writing in
        Ensures-if P (r ==ℤ minus_one) (pure minus_one) _ t (λ _. inl refl)
          λ other. elim used.1 [
            | inl blocked ↦ absurd (ground arith)
            | inr less ↦
                Ensures-if P (r ==ℤ to_send) _ _ t
                  (λ _.
                    Ensures-bind _ P (after_sent k msg) _ t (after t)
                      λ _ u q. inr (inl (refl, q.0), omega (arith, q.1)))
                  λ _.
                    Ensures-if P (ltb_ℤ (pos 0) r && ltb_ℤ r to_send) _ (pure r) t
                      (λ _.
                        inr
                          (inr (write_bytes_set-IsWriting k (to_send -ℤ r) t.clients still), less))
                      λ _. inr (inr still, less)
          ]

pub after_sent-header :
    (k : ℕ) (h : Header) (s : Server)
    → Ensures (λ _ u. IsWriting k u.clients × (left u ≡ left s)) (after_sent k (Message.header h) s)
unfolding after_sent get_message_type
after_sent-header k h s =
    let P : Unit {0} → Server → Type 0 = λ _ u. IsWriting k u.clients × (left u ≡ left s) in
    Ensures-lift P
      (substr (get_string_rep (Message.header h)) msg_type_len (header_size - msg_type_len)) _ s
      λ text.
        Ensures-lift P (stoi text) _ s λ n. (inr (write_state_of_header_out k n s.clients), refl)

pub after_sent-edit :
    (k : ℕ) (text : Bytes) (s : Server)
    → Ensures (λ _ u. Unit {0} × (left u ≡ left s)) (after_sent k (Message.edit text) s)
unfolding after_sent get_message_type
after_sent-edit k text s = (tt, refl)
