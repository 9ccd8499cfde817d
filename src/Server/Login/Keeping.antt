-- ===== src/Server/Login/Keeping.antt =====
-- A login leaves the set of descriptors, the document and the queues of unsent messages alone.
use tin_system_do_wspolpracy.Base.{
  Bool, Bytes, List, Outcome-cases, false, inl, inr, refl, subst, suc, true, zero, ℕ, ℤ,
}
use tin_system_do_wspolpracy.ClientsMonitor.{LoginState}
use tin_system_do_wspolpracy.LoginHandler.{check_login}
use tin_system_do_wspolpracy.IntMap.{IntMap}
use tin_system_do_wspolpracy.Networking.{NetState, add_client}
use tin_system_do_wspolpracy.NotepadHandler.{NotepadHandler}
use tin_system_do_wspolpracy.Server.State.{M, Server}
use tin_system_do_wspolpracy.Server.State.Ensures.{Ensures}
use tin_system_do_wspolpracy.Server.State.Keeping.{
  IsKeeping, Same, Same-Ensures, keeping, pure-IsKeeping, IsKeeping-after, watch, Watch,
}
use tin_system_do_wspolpracy.Server.Transfer.Keeping.{
  send_msg-IsKeeping, recv_msg-IsKeeping, read_buffer-IsKeeping,
}
use tin_system_do_wspolpracy.Server.Login.{
  Flow, going, returned, send_header, send_body, recv_header, recv_login, then_block, login_round,
  check, settle, client_login,
}

-- What a login does not write.
abbrev pub past_login : Server → Watch × NotepadHandler × IntMap (List NetState)
past_login s = (watch s, s.notepad, s.networking.send_queues)

send_header-IsKeeping :
    (sockfd : ℕ) (ls : LoginState) (res : ℤ) → IsKeeping past_login (send_header sockfd ls res)
unfolding send_header
send_header-IsKeeping sockfd ls res = search (keeping, send_msg-IsKeeping past_login) depth 14

send_body-IsKeeping :
    (sockfd : ℕ) (ls : LoginState) (res : ℤ) (switch_client : Bool)
    → IsKeeping past_login (send_body sockfd ls res switch_client)
unfolding send_body
send_body-IsKeeping sockfd ls res switch_client =
    search (keeping, send_msg-IsKeeping past_login) depth 14

recv_header-IsKeeping :
    (sockfd : ℕ) (res : ℤ) (switch_client : Bool)
    → IsKeeping past_login (recv_header sockfd res switch_client)
unfolding recv_header
recv_header-IsKeeping sockfd res switch_client =
    search (keeping, recv_msg-IsKeeping past_login) depth 14

check-IsKeeping : (text : Bytes) → IsKeeping past_login (check text)
unfolding check
check-IsKeeping text = record {
  keeps = λ s. elim (Outcome-cases (check_login text s.login_handler s.files)) [
    | inl (r, e) ↦ rw (e, check) refl
    | inr (f, e) ↦ rw (e, check) tt
  ];
}

settle-IsKeeping :
    (sockfd : ℕ) (login_result : ℤ) → IsKeeping past_login (settle sockfd login_result)
unfolding settle add_client
settle-IsKeeping sockfd login_result = search (keeping) depth 14

recv_login-IsKeeping :
    (sockfd : ℕ) (res : ℤ) (switch_client : Bool)
    → IsKeeping past_login (recv_login sockfd res switch_client)
unfolding recv_login
recv_login-IsKeeping sockfd res switch_client =
    search
      (
        keeping,
        recv_msg-IsKeeping past_login,
        read_buffer-IsKeeping past_login,
        check-IsKeeping,
        settle-IsKeeping,
      )
      depth 14

then_block-IsKeeping :
    (flow : Flow) (block : ℤ → Bool → M Flow)
    → ((res : ℤ) (switch_client : Bool) → IsKeeping past_login (block res switch_client))
    → IsKeeping past_login (then_block flow block)
then_block-IsKeeping (going res switch_client) block h = h res switch_client
then_block-IsKeeping (returned res) block h = pure-IsKeeping _

login_round-IsKeeping : (sockfd : ℕ) (res : ℤ) → IsKeeping past_login (login_round sockfd res)
unfolding login_round
login_round-IsKeeping sockfd res =
    search
      (
        keeping, then_block-IsKeeping, send_header-IsKeeping, send_body-IsKeeping,
        recv_header-IsKeeping, recv_login-IsKeeping,
      )
      depth 14

pub client_login-IsKeeping :
    (fuel sockfd : ℕ) (res : ℤ) → IsKeeping past_login (client_login fuel sockfd res)
unfolding client_login
client_login-IsKeeping zero sockfd res = record { keeps = λ s. tt }
client_login-IsKeeping (suc fuel) sockfd res = record {
  keeps = λ s. elim (Outcome-cases (login_round sockfd res s)) [
    | inr (e, bad) ↦ rw (bad, client_login) tt
    | inl ((returned r, s'), good) ↦
        rw (good, client_login)
          (subst (Ensures λ _ t. Same past_login s t) good
            ((login_round-IsKeeping sockfd res).keeps s))
    | inl ((going r true, s'), good) ↦
        rw (good, client_login)
          (subst (Ensures λ _ t. Same past_login s t) good
            ((login_round-IsKeeping sockfd res).keeps s))
    | inl ((going r false, s'), good) ↦
        rw (good, client_login)
          (Same-Ensures past_login (client_login fuel sockfd r s') s s'
            (subst (Ensures λ _ t. Same past_login s t) good
              ((login_round-IsKeeping sockfd res).keeps s))
            ((client_login-IsKeeping fuel sockfd r).keeps s'))
  ];
}

pub client_login-watch :
    (fuel sockfd : ℕ) (res : ℤ) → IsKeeping watch (client_login fuel sockfd res)
client_login-watch fuel sockfd res =
    IsKeeping-after (λ p. p.0) (client_login-IsKeeping fuel sockfd res)
