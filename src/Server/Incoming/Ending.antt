-- ===== src/Server/Incoming/Ending.antt =====
-- The loop for what a logged-in client sends as a loop without fuel, and why it comes to an end.
use tin_system_do_wspolpracy.Base.{
  Bool, Bool-cases, Fault, List, Outcome, Outcome-cases, arith, false, fault, if◌then◌else◌, inl,
  inr, length, ltb_ℤ, minus_one, minus_two, not, ok, pos, refl, subst, suc, sym, true, zero, ℕ, ◌+◌,
  ◌<◌, ◌==ℤ◌, ◌||◌, ◌≡◌, ◌⊎◌,
}
use tin_system_do_wspolpracy.ClientsMonitor.{
  ClientsMonitor, get_socket_read_state, header_recvd, login_ended,
}
use tin_system_do_wspolpracy.MsgType
use tin_system_do_wspolpracy.Networking.{is_waiting_for_header, is_waiting_for_msg, get_msg_type}
use tin_system_do_wspolpracy.Server.State.{Server, Garbage, pure, Sent, Received}
use tin_system_do_wspolpracy.Server.State.Ensures.{
  Ensures, Ensures-bind, Ensures-if, Ensures-after, Ensures-map, Ensures-any,
}
use tin_system_do_wspolpracy.Server.State.Keeping.{IsKeeping, Same, keeping}
use tin_system_do_wspolpracy.Server.Transfer.{recv_msg, read_buffer}
use tin_system_do_wspolpracy.Server.Transfer.Keeping.{lift-IsKeeping}
use tin_system_do_wspolpracy.Server.Transfer.Spent.{left}
use tin_system_do_wspolpracy.Server.Incoming.Guarding.{incoming_round_ended}
use tin_system_do_wspolpracy.Server.State.{Sent, Received}
use tin_system_do_wspolpracy.Server.Incoming.Progress.{IsReading, Progressed, recv_msg-Progressed}
use tin_system_do_wspolpracy.Server.Incoming.{
  Flags, keep_on, incoming_header, incoming_msg, incoming_round, incoming_loop, take_header,
  join_notepad, take_edit, leave_notepad,
}

-- What decides how the loop goes on.
abbrev course : Server → ClientsMonitor × List Sent × List Received
course s = (s.clients, s.sends, s.recvs)

read_buffer-course : (k : ℕ) → IsKeeping course (read_buffer k)
unfolding read_buffer
read_buffer-course k = record { keeps = λ s. refl }

take_header-course : (k : ℕ) → IsKeeping course (take_header k)
unfolding take_header join_notepad
take_header-course k = search (keeping, lift-IsKeeping, read_buffer-course) depth 14

-- The flags ask to leave the loop.
abbrev pub leaves : Flags → Bool
leaves f = f.close_conn || f.change_cli

-- After the block for headers: the loop is left; or a body is to come, and nothing was done; or an answer
-- was used up.
abbrev AfterHeader : ℕ → Server → Flags → Server → Type 0
AfterHeader k s f t =
    (leaves f ≡ true)
    ⊎ (((get_socket_read_state k t.clients ≡ header_recvd) × (left t ≡ left s))
        ⊎ (IsReading k t.clients × (left t < left s)))

incoming_header-AfterHeader :
    (g : Garbage) (k : ℕ) (s : Server)
    → IsReading k s.clients
    → Ensures (AfterHeader k s) (incoming_header g k s)
unfolding incoming_header is_waiting_for_header
incoming_header-AfterHeader g k s reading =
    let P = AfterHeader k s in
    Ensures-if P (is_waiting_for_header k s.clients) _ (pure keep_on) s
      (λ _.
        Ensures-bind (Progressed k s) P (recv_msg k MsgType.header) _ s
          (recv_msg-Progressed k MsgType.header s reading)
          λ r t went.
            Ensures-if P (ltb_ℤ r (pos 0)) _ _ t
              (λ _.
                Ensures-if P (ltb_ℤ r minus_one) _ _ t
                  (λ _.
                    Ensures-after P (if r ==ℤ minus_two then leave_notepad g k else pure tt) _ t
                      λ _ u. inl refl)
                  λ _. inl refl)
              λ up. elim went [
                | inl failed ↦ absurd (ground arith)
                | inr (still, less) ↦
                    Ensures-if P (r ==ℤ pos 1) _ (pure keep_on) t
                      (λ _.
                        Ensures-bind (λ _ u. Same course t u) P (take_header k) _ t
                          ((take_header-course k).keeps t)
                          λ _ u same. inr (
                            inr (
                              subst (λ c. IsReading k c.0) (sym same) still,
                              subst (λ c. length c.1 + length c.2 < left s) (sym same) less,
                            )))
                      λ _. inr (inr (still, less))
              ])
      λ waits. elim reading [
        | inl e ↦ absurd (ground arith)
        | inr (inl e) ↦ inr (inl (e, refl))
        | inr (inr e) ↦ absurd (ground arith)
      ]

-- After the block for bodies.
abbrev AfterMsg : ℕ → Server → Flags → Server → Type 0
AfterMsg k s f t = (leaves f ≡ true) ⊎ (IsReading k t.clients × (left t < left s))

module _ (k : ℕ) (s t : Server) where
  abbrev Came : Type 0
  Came =
      ((get_socket_read_state k t.clients ≡ header_recvd) × (left t ≡ left s))
      ⊎ (IsReading k t.clients × (left t < left s))

  still-IsReading : Came → IsReading k t.clients
  still-IsReading (inl (e, same)) = inr (inl e)
  still-IsReading (inr (reading, less)) = reading

  less_left : (u : Server) → Came → left u < left t → left u < left s
  less_left u (inl (e, same)) h = omega arith
  less_left u (inr (reading, less)) h = omega arith

incoming_msg-AfterMsg :
    (k : ℕ) (s t : Server) (f : Flags)
    → AfterHeader k s f t
    → Ensures (λ b u. (leaves f ≡ true) ⊎ AfterMsg k s b u) (incoming_msg k t)
unfolding incoming_msg is_waiting_for_msg
incoming_msg-AfterMsg k s t f (inl out) =
    Ensures-map {P = λ _ _. Unit {0}} {Q = λ b u. (leaves f ≡ true) ⊎ AfterMsg k s b u}
      (λ _ _ _. inl out) (incoming_msg k t) (Ensures-any (incoming_msg k t))
incoming_msg-AfterMsg k s t f (inr came) =
    let Q : Flags → Server → Type 0 = λ b u. (leaves f ≡ true) ⊎ AfterMsg k s b u in
    let msg_type = get_msg_type k t.networking in
    Ensures-if Q (is_waiting_for_msg k t.clients) _ (pure keep_on) t
      (λ _.
        Ensures-bind (Progressed k t) Q (recv_msg k msg_type) _ t
          (recv_msg-Progressed k msg_type t (still-IsReading k s t came))
          λ r u went.
            Ensures-if Q (ltb_ℤ r (pos 0)) _ _ u (λ _. inr (inl (ground arith)))
              λ up. elim went [
                | inl failed ↦ absurd (ground arith)
                | inr (still, less) ↦
                    Ensures-if Q (r ==ℤ pos 1) _ (pure keep_on) u
                      (λ _.
                        Ensures-after Q (if msg_type ==ℤ MsgType.edit then take_edit k else pure tt)
                          _ u λ _ _. inr (inl refl))
                      λ _. inr (inr (still, less_left k s t u came less))
              ])
      λ waits. elim came [ inl (e, same) ↦ absurd (ground arith) | inr done ↦ inr (inr done) ]

incoming_round-AfterMsg :
    (fuel : ℕ) (g : Garbage) (k : ℕ) (s : Server)
    → login_ended k s.clients ≡ true
    → IsReading k s.clients
    → Ensures (AfterMsg k s) (incoming_round fuel g k s)
unfolding incoming_round
incoming_round-AfterMsg fuel g k s ended reading =
    let P = AfterMsg k s in
    Ensures-if P (not (login_ended k s.clients)) _ _ s (λ no. absurd (ground arith))
      λ _.
        Ensures-bind (AfterHeader k s) P (incoming_header g k) _ s
          (incoming_header-AfterHeader g k s reading)
          λ f t came.
            Ensures-bind (λ b u. (leaves f ≡ true) ⊎ AfterMsg k s b u) P (incoming_msg k) _ t
              (incoming_msg-AfterMsg k s t f came)
              λ b u done. elim done [
                | inl out ↦ inl (ground arith)
                | inr (inl out) ↦ inl (ground arith)
                | inr (inr more) ↦ inr more
              ]

-- The rounds of the loop from a state, down to the outcome.
pub data Ends (fuel : ℕ) (g : Garbage) (k : ℕ) : Server → Outcome (Bool × Server) → Type 0 where
  fails : {s : Server} {e : Fault} → incoming_round fuel g k s ≡ fault e → Ends fuel g k s (fault e)
  stops :
      {s s' : Server} {f : Flags}
      → incoming_round fuel g k s ≡ ok (f, s')
      → leaves f ≡ true
      → Ends fuel g k s (ok (f.close_conn, s'))
  goes_on :
      {s s' : Server} {f : Flags} {o : Outcome (Bool × Server)}
      → incoming_round fuel g k s ≡ ok (f, s')
      → leaves f ≡ false
      → Ends fuel g k s' o
      → Ends fuel g k s o

-- The client is logged in, and its descriptor is between two messages or a body is to come.
abbrev pub IsServed : ℕ → Server → Type 0
IsServed k s = (login_ended k s.clients ≡ true) × IsReading k s.clients

-- For a client that is logged in, and more rounds than the kernel has answers left, the loop ends by
-- itself: in a fault of a round, or because a round asks to leave, and never for want of fuel.
pub incoming_loop-Ends :
    (rounds fuel : ℕ) (g : Garbage) (k : ℕ) (s : Server)
    → IsServed k s
    → left s < rounds
    → Ends fuel g k s (incoming_loop rounds fuel g k s)
unfolding incoming_loop
incoming_loop-Ends zero fuel g k s h less = absurd (omega arith)
incoming_loop-Ends (suc rounds) fuel g k s (ended, reading) less =
    elim (Outcome-cases (incoming_round fuel g k s)) [
      | inr (e, bad) ↦ rw (bad, incoming_loop) (fails bad)
      | inl ((f, s'), good) ↦
          let after =
            subst (Ensures (AfterMsg k s)) good
              (incoming_round-AfterMsg fuel g k s ended reading) in
          let ended' =
            subst (Ensures λ _ t. login_ended k t.clients ≡ true) good
              (incoming_round_ended fuel g k s ended) in
          elim (Bool-cases (leaves f)) [
            | inl out ↦ rw (good, incoming_loop) (rw out (stops good out))
            | inr on ↦ elim after [
              | inl out ↦ absurd (ground arith)
              | inr (reading', fewer) ↦
                  rw (good, incoming_loop)
                    (rw on (
                      goes_on good on
                        (incoming_loop-Ends rounds fuel g k s' (ended', reading') (omega arith))))
            ]
          ]
    ]
