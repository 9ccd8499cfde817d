-- ===== src/Server/Transfer/Spent.antt =====
-- What one call of the kernel uses up of its answers.
use tin_system_do_wspolpracy.Base.{
  Bytes, List, Outcome, Outcome-cases, [], ap, arith, fault, inl, inr, length, ltb_ℤ, minus_one,
  minus_two, negsuc, ok, pos, refl, true, ℕ, ℤ, ◌+◌, ◌<◌, ◌==ℤ◌, ◌∷◌, ◌≡◌, ◌⊎◌,
}
use tin_system_do_wspolpracy.Message.{Message}
use tin_system_do_wspolpracy.Server.State.{Server, M, Sent, Received, ◌>>=◌, pure, bytes, accepted}
use tin_system_do_wspolpracy.Server.State.Ensures.{Ensures, Ensures-bind, Ensures-if}
use tin_system_do_wspolpracy.Server.Transfer.{
  send_buff, send_nbytes, nonblock_send, recv_nbytes, take_send, answer_send, take_recv,
  answer_recv, lift,
}

-- The answers that the kernel has left to give.
abbrev pub left : Server → ℕ
left s = length s.sends + length s.recvs

-- The call failed or would block, or it did something and used up an answer; the monitor is untouched.
abbrev pub IsSpent : Server → ℤ → Server → Type 0
IsSpent s r s' = (s'.clients ≡ s.clients) × ((ltb_ℤ r (pos 0) ≡ true) ⊎ (left s' < left s))

pub Ensures-lift :
    {A B : Type 0} (Q : B → Server → Type 0) (o : Outcome A) (f : A → M B) (s : Server)
    → ((a : A) → Ensures Q (f a s))
    → Ensures Q ((lift o >>= f) s)
Ensures-lift Q (ok a) f s k = k a
Ensures-lift Q (fault e) f s k = tt

answer_send-IsSpent :
    (sockfd : ℕ) (buff : Bytes) (sends : List Sent) (s : Server)
    → s.sends ≡ sends
    → Ensures
        (IsSpent s)
        (answer_send sockfd buff (take_send sends).0 (record s { sends = (take_send sends).1 }))
unfolding answer_send take_send
answer_send-IsSpent sockfd buff [] s e = (refl, inl refl)
answer_send-IsSpent sockfd buff (Sent.blocked ∷ rest) s e = (refl, inl refl)
answer_send-IsSpent sockfd buff (Sent.failed ∷ rest) s e = (refl, inl refl)
answer_send-IsSpent sockfd buff (accepted k ∷ rest) s e = (refl, inr (omega (arith, ap length e)))

nonblock_send-IsSpent :
    (sockfd : ℕ) (buff : Bytes) (s : Server) → Ensures (IsSpent s) (nonblock_send sockfd buff s)
unfolding nonblock_send
nonblock_send-IsSpent sockfd buff s = answer_send-IsSpent sockfd buff s.sends s refl

pub send_nbytes-IsSpent :
    (sockfd : ℕ) (msg : Message) (n : ℤ) (s : Server)
    → Ensures (IsSpent s) (send_nbytes sockfd msg n s)
unfolding send_nbytes
send_nbytes-IsSpent sockfd msg n s = elim (Outcome-cases (send_buff msg n)) [
  | inr (f, e) ↦ rw (e, lift) tt
  | inl (buff, e) ↦
      rw (e, lift)
        (Ensures-bind (IsSpent s) (IsSpent s) (nonblock_send sockfd buff) _ s
          (nonblock_send-IsSpent sockfd buff s)
          λ r s' spent.
            Ensures-if (IsSpent s) (r ==ℤ minus_one) (pure minus_one) _ s'
              (λ _. (spent.0, inl refl))
              λ _.
                Ensures-if (IsSpent s) (ltb_ℤ r minus_one) (pure minus_two) (pure r) s'
                  (λ _. (spent.0, inl refl)) λ _. spent)
]

answer_recv-IsSpent :
    (sockfd : ℕ) (recvs : List Received) (s : Server)
    → s.recvs ≡ recvs
    → Ensures
        (IsSpent s)
        (answer_recv sockfd (take_recv recvs).0 (record s { recvs = (take_recv recvs).1 }))
unfolding answer_recv take_recv
answer_recv-IsSpent sockfd [] s e = (refl, inl refl)
answer_recv-IsSpent sockfd (Received.blocked ∷ rest) s e = (refl, inl refl)
answer_recv-IsSpent sockfd (Received.failed ∷ rest) s e = (refl, inl refl)
answer_recv-IsSpent sockfd (bytes [] ∷ rest) s e = (refl, inl refl)
answer_recv-IsSpent sockfd (bytes (c ∷ b) ∷ rest) s e = (refl, inr (omega (arith, ap length e)))

pub recv_nbytes-IsSpent :
    (sockfd : ℕ) (n : ℤ) (s : Server) → Ensures (IsSpent s) (recv_nbytes sockfd n s)
unfolding recv_nbytes
recv_nbytes-IsSpent sockfd (negsuc n) s = tt
recv_nbytes-IsSpent sockfd (pos n) s = answer_recv-IsSpent sockfd s.recvs s refl
