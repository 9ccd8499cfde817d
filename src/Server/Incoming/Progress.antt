-- ===== src/Server/Incoming/Progress.antt =====
-- What one call of `recv_msg` uses up of the kernel's answers, and what it leaves to be read.
use tin_system_do_wspolpracy.Base.{
  arith, inl, inr, ltb_ℤ, minus_one, negsuc, pos, refl, subst, sym, true, ℕ, ℤ, ◌&&◌, ◌-ℤ◌, ◌<◌,
  ◌==ℤ◌, ◌≡◌, ◌⊎◌,
}
use tin_system_do_wspolpracy.ClientsMonitor.{
  ClientsMonitor, get_socket_read_state, get_socket_read_bytes_number, header_to_recv, header_recvd,
  msg_recvd, set_socket_read_state, set_socket_read_bytes_number,
}
use tin_system_do_wspolpracy.ClientsMonitor.Fields.{
  find-set_socket_read_state, find-set_socket_read_bytes_number,
}
use tin_system_do_wspolpracy.ClientsMonitor.Phases.{
  read_state_of_read_bytes, read_state_of_header_in,
}
use tin_system_do_wspolpracy.Header.{parse_from_string}
use tin_system_do_wspolpracy.MsgType
use tin_system_do_wspolpracy.RecvBuffers.{get_string_from_bytes}
use tin_system_do_wspolpracy.Server.State.{Server, pure}
use tin_system_do_wspolpracy.Server.State.Ensures.{Ensures, Ensures-bind, Ensures-if}
use tin_system_do_wspolpracy.Server.Transfer.{recv_msg, recv_nbytes, after_recvd, read_buffer}
use tin_system_do_wspolpracy.Server.Transfer.Spent.{
  left, IsSpent, Ensures-lift, recv_nbytes-IsSpent,
}

-- The descriptor is between two messages, or a body is to come.
abbrev pub IsReading : ℕ → ClientsMonitor → Type 0
IsReading k cm =
    (get_socket_read_state k cm ≡ header_to_recv)
    ⊎ ((get_socket_read_state k cm ≡ header_recvd) ⊎ (get_socket_read_state k cm ≡ msg_recvd))

read_bytes_set-IsReading :
    (k : ℕ) (v : ℤ) (cm : ClientsMonitor)
    → IsReading k cm
    → IsReading k (set_socket_read_bytes_number k v cm)
read_bytes_set-IsReading k v cm (inl e) = inl (read_state_of_read_bytes k 0 v cm e)
read_bytes_set-IsReading k v cm (inr (inl e)) = inr (inl (read_state_of_read_bytes k 1 v cm e))
read_bytes_set-IsReading k v cm (inr (inr e)) = inr (inr (read_state_of_read_bytes k 2 v cm e))

read_state_of_body_in :
    (k : ℕ) (cm : ClientsMonitor)
    → get_socket_read_state k
        (set_socket_read_bytes_number k (pos 0) (set_socket_read_state k msg_recvd cm))
      ≡ msg_recvd
unfolding get_socket_read_state
read_state_of_body_in k cm = ground (
  arith,
  find-set_socket_read_bytes_number k (pos 0) (set_socket_read_state k msg_recvd cm),
  find-set_socket_read_state k msg_recvd cm,
)

after_recvd-IsReading :
    (k : ℕ) (msg_type : ℤ) (s : Server)
    → Ensures (λ _ t. IsReading k t.clients × (left t ≡ left s)) (after_recvd k msg_type s)
unfolding after_recvd read_buffer
after_recvd-IsReading k msg_type s =
    let P : Unit {0} → Server → Type 0 = λ _ t. IsReading k t.clients × (left t ≡ left s) in
    Ensures-if P (msg_type ==ℤ MsgType.header) _ _ s
      (λ _.
        let (text, buffers) = get_string_from_bytes k s.recv_buffers in
        Ensures-lift P (parse_from_string text) _ (record s { recv_buffers = buffers })
          λ h. (inr (inl (read_state_of_header_in k h.msg_len s.clients)), refl))
      λ _. (inr (inr (read_state_of_body_in k _)), refl)

sign_cases : (a : ℤ) → ((n : ℕ) × (a ≡ negsuc n)) ⊎ ((n : ℕ) × (a ≡ pos n))
sign_cases (negsuc n) = inl (n, refl)
sign_cases (pos n) = inr (n, refl)

-- A call failed or would block, or it used up an answer, and something is still to be read.
abbrev pub Progressed : ℕ → Server → ℤ → Server → Type 0
Progressed k s r t = (ltb_ℤ r (pos 0) ≡ true) ⊎ (IsReading k t.clients × (left t < left s))

pub recv_msg-Progressed :
    (k : ℕ) (msg_type : ℤ) (s : Server)
    → IsReading k s.clients
    → Ensures (Progressed k s) (recv_msg k msg_type s)
unfolding recv_msg read_buffer recv_nbytes
recv_msg-Progressed k msg_type s reading =
    elim (sign_cases (get_socket_read_bytes_number k s.clients)) [
      | inl (m, e) ↦ rw (e, recv_msg) tt
      | inr (m, e) ↦
          let to_recv = get_socket_read_bytes_number k s.clients in
          let P = Progressed k s in
          Ensures-bind (IsSpent s) P (recv_nbytes k to_recv) _ s (recv_nbytes-IsSpent k to_recv s)
            λ r t spent.
              let still = subst (IsReading k) (sym spent.0) reading in
              Ensures-if P (r ==ℤ minus_one) (pure minus_one) _ t (λ _. inl refl)
                λ _.
                  Ensures-if P (r ==ℤ to_recv) _ _ t
                    (λ all. elim spent.1 [
                      | inl failed ↦ absurd (ground (arith, e))
                      | inr less ↦
                          Ensures-bind _ P (after_recvd k msg_type) _ t
                            (after_recvd-IsReading k msg_type t)
                            λ _ u h. inr (h.0, omega (arith, h.1))
                    ])
                    λ _.
                      Ensures-if P (ltb_ℤ (pos 0) r && ltb_ℤ r to_recv) _ (pure r) t
                        (λ part. elim spent.1 [
                          | inl failed ↦ absurd (ground arith)
                          | inr less ↦
                              inr (read_bytes_set-IsReading k (to_recv -ℤ r) t.clients still, less)
                        ])
                        λ _. elim spent.1 [ inl failed ↦ inl failed | inr less ↦ inr (still, less) ]
    ]
