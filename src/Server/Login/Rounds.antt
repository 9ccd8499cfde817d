-- ===== src/Server/Login/Rounds.antt =====
-- A round of `client_login` that is to be followed by another one has used up an answer of the kernel.
use tin_system_do_wspolpracy.Base.{Bool, false, true, ℕ, ℤ}
use tin_system_do_wspolpracy.ClientsMonitor.{get_login_state}
use tin_system_do_wspolpracy.Server.State.{Server, M}
use tin_system_do_wspolpracy.Server.State.Ensures.{Ensures, Ensures-bind}
use tin_system_do_wspolpracy.Server.Login.{
  Flow, going, returned, send_header, send_body, recv_header, recv_login, then_block, login_round,
}
use tin_system_do_wspolpracy.Server.Login.Blocks.{
  IsConversing, Still, AfterHeader, AfterBody, AfterRecvd, AfterRound, send_header-AfterHeader,
  send_body-AfterBody, recv_header-AfterRecvd, recv_login-AfterRound, recv_login_tested,
  send_body_switched, recv_header_switched,
}

then_block-Still :
    (P Q : Server → Type 0) (block : ℤ → Bool → M Flow) (flow : Flow) (s : Server)
    → Still P flow s
    → ((res : ℤ) → P s → Ensures (Still Q) (block res false s))
    → ((res : ℤ) → Ensures (Still Q) (block res true s))
    → Ensures (Still Q) (then_block flow block s)
then_block-Still P Q block (going res true) s h on off = off res
then_block-Still P Q block (going res false) s h on off = on res h
then_block-Still P Q block (returned res) s h on off = tt

-- When another round follows, the login is still on its way, and an answer was used up.
pub login_round-AfterRound :
    (sockfd : ℕ) (res : ℤ) (s : Server)
    → IsConversing sockfd s
    → Ensures (Still (AfterRound sockfd s)) (login_round sockfd res s)
unfolding login_round
login_round-AfterRound sockfd res s c =
    let ls = get_login_state sockfd s.clients in
    let Q = Still (AfterRound sockfd s) in
    Ensures-bind (Still (AfterHeader sockfd s)) Q (send_header sockfd ls res) _ s
      (send_header-AfterHeader sockfd ls res s c)
      λ f₁ s₁ h₁.
        Ensures-bind (Still (AfterBody sockfd s)) Q (then_block f₁ (send_body sockfd ls)) _ s₁
          (then_block-Still _ _ (send_body sockfd ls) f₁ s₁ h₁
            (λ r. send_body-AfterBody sockfd ls r s s₁)
            (λ r. send_body_switched (AfterBody sockfd s) sockfd r s₁ ls))
          λ f₂ s₂ h₂.
            Ensures-bind (Still (AfterRecvd sockfd s)) Q (then_block f₂ (recv_header sockfd)) _ s₂
              (then_block-Still _ _ (recv_header sockfd) f₂ s₂ h₂
                (λ r. recv_header-AfterRecvd sockfd r s s₂)
                (λ r. recv_header_switched (AfterRecvd sockfd s) sockfd r s₂))
              λ f₃ s₃ h₃.
                then_block-Still _ _ (recv_login sockfd) f₃ s₃ h₃
                  (λ r. recv_login-AfterRound sockfd r s s₃)
                  (λ r. recv_login_tested (AfterRound sockfd s) sockfd r true s₃ λ _. tt)
