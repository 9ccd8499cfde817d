-- ===== src/Server/Outbound/Keeping.antt =====
-- The handler of a writable descriptor leaves the set of descriptors alone.
use tin_system_do_wspolpracy.Base.{
  Outcome-cases, false, inl, inr, refl, subst, suc, true, zero, ℕ, ℤ,
}
use tin_system_do_wspolpracy.Server.State.{Garbage}
use tin_system_do_wspolpracy.Server.State.Ensures.{Ensures}
use tin_system_do_wspolpracy.Server.State.Keeping.{
  IsKeeping, Same, Same-Ensures, keeping, IsKeeping-after, watch,
}
use tin_system_do_wspolpracy.Server.Transfer.Keeping.{lift-IsKeeping, send_msg-IsKeeping}
use tin_system_do_wspolpracy.Server.Login.Keeping.{client_login-watch}
use tin_system_do_wspolpracy.Server.Incoming.Keeping.{
  on_notepad-IsKeeping, multicast_edit-IsKeeping, enrolled,
}
use tin_system_do_wspolpracy.Server.Outbound.{
  outbound_login, first_obs_len, outbound_len, outbound_header, take_changes, after_file,
  after_changes, outbound_msg, outbound_round, outbound_loop, handle_existing_outbound_connection,
}

outbound_login-IsKeeping :
    (fuel : ℕ) (g : Garbage) (sockfd : ℕ) → IsKeeping watch (outbound_login fuel g sockfd)
unfolding outbound_login
outbound_login-IsKeeping fuel g sockfd = search (keeping, client_login-watch) depth 14

first_obs_len-IsKeeping :
    (g : Garbage) (sockfd : ℕ) (msg_type : ℤ) → IsKeeping enrolled (first_obs_len g sockfd msg_type)
unfolding first_obs_len
first_obs_len-IsKeeping g sockfd msg_type = record { keeps = λ s. refl }

outbound_len-IsKeeping :
    (g : Garbage) (sockfd : ℕ) (msg_type : ℤ) → IsKeeping enrolled (outbound_len g sockfd msg_type)
unfolding outbound_len
outbound_len-IsKeeping g sockfd msg_type = search (keeping, first_obs_len-IsKeeping) depth 14

pub outbound_header-IsKeeping :
    (g : Garbage) (sockfd : ℕ) → IsKeeping enrolled (outbound_header g sockfd)
unfolding outbound_header
outbound_header-IsKeeping g sockfd =
    search (keeping, outbound_len-IsKeeping, send_msg-IsKeeping enrolled) depth 14

take_changes-IsKeeping : (sockfd : ℕ) → IsKeeping enrolled (take_changes sockfd)
unfolding take_changes
take_changes-IsKeeping sockfd = search (keeping, lift-IsKeeping) depth 14

after_file-IsKeeping : (sockfd : ℕ) → IsKeeping enrolled (after_file sockfd)
unfolding after_file
after_file-IsKeeping sockfd =
    search (keeping, lift-IsKeeping, on_notepad-IsKeeping, multicast_edit-IsKeeping) depth 14

after_changes-IsKeeping :
    (sockfd : ℕ) (msg_type : ℤ) → IsKeeping enrolled (after_changes sockfd msg_type)
unfolding after_changes
after_changes-IsKeeping sockfd msg_type =
    search (keeping, lift-IsKeeping, on_notepad-IsKeeping) depth 14

pub outbound_msg-IsKeeping : (sockfd : ℕ) → IsKeeping enrolled (outbound_msg sockfd)
unfolding outbound_msg
outbound_msg-IsKeeping sockfd =
    search
      (
        keeping,
        take_changes-IsKeeping,
        send_msg-IsKeeping enrolled,
        after_file-IsKeeping,
        after_changes-IsKeeping,
      )
      depth 14

outbound_header-watch : (g : Garbage) (sockfd : ℕ) → IsKeeping watch (outbound_header g sockfd)
outbound_header-watch g sockfd = IsKeeping-after (λ p. p.0) (outbound_header-IsKeeping g sockfd)

outbound_msg-watch : (sockfd : ℕ) → IsKeeping watch (outbound_msg sockfd)
outbound_msg-watch sockfd = IsKeeping-after (λ p. p.0) (outbound_msg-IsKeeping sockfd)

outbound_round-IsKeeping :
    (fuel : ℕ) (g : Garbage) (sockfd : ℕ) → IsKeeping watch (outbound_round fuel g sockfd)
unfolding outbound_round
outbound_round-IsKeeping fuel g sockfd =
    search (keeping, outbound_login-IsKeeping, outbound_header-watch, outbound_msg-watch) depth 14

outbound_loop-IsKeeping :
    (rounds fuel : ℕ) (g : Garbage) (sockfd : ℕ)
    → IsKeeping watch (outbound_loop rounds fuel g sockfd)
unfolding outbound_loop
outbound_loop-IsKeeping zero fuel g sockfd = record { keeps = λ s. tt }
outbound_loop-IsKeeping (suc rounds) fuel g sockfd = record {
  keeps = λ s. elim (Outcome-cases (outbound_round fuel g sockfd s)) [
    | inr (e, bad) ↦ rw (bad, outbound_loop) tt
    | inl ((true, s'), good) ↦
        rw (good, outbound_loop)
          (subst (Ensures λ _ t. Same watch s t) good
            ((outbound_round-IsKeeping fuel g sockfd).keeps s))
    | inl ((false, s'), good) ↦
        rw (good, outbound_loop)
          (Same-Ensures watch (outbound_loop rounds fuel g sockfd s') s s'
            (subst (Ensures λ _ t. Same watch s t) good
              ((outbound_round-IsKeeping fuel g sockfd).keeps s))
            ((outbound_loop-IsKeeping rounds fuel g sockfd).keeps s'))
  ];
}

pub handle_existing_outbound_connection-IsKeeping :
    (fuel : ℕ) (g : Garbage) (sockfd : ℕ)
    → IsKeeping watch (handle_existing_outbound_connection fuel g sockfd)
unfolding handle_existing_outbound_connection
handle_existing_outbound_connection-IsKeeping fuel g sockfd =
    outbound_loop-IsKeeping fuel fuel g sockfd
