-- ===== src/Server/Login/Ending.antt =====
-- `client_login` as a loop without fuel, and why its rounds come to an end.
use tin_system_do_wspolpracy.Base.{
  Fault, Outcome, Outcome-cases, arith, false, fault, inl, inr, ok, subst, suc, true, zero, ℕ, ℤ,
  ◌<◌, ◌≡◌,
}
use tin_system_do_wspolpracy.Server.State.{Server}
use tin_system_do_wspolpracy.Server.State.Ensures.{Ensures}
use tin_system_do_wspolpracy.Server.Transfer.Spent.{left}
use tin_system_do_wspolpracy.Server.Login.{going, returned, login_round, client_login, login_result}
use tin_system_do_wspolpracy.Server.Login.Blocks.{IsConversing, AfterRound, Still}
use tin_system_do_wspolpracy.Server.Login.Rounds.{login_round-AfterRound}

-- The rounds of the loop from `res` and a state, down to the outcome.
pub data Finishes (sockfd : ℕ) : ℤ → Server → Outcome (ℤ × Server) → Type 0 where
  fails :
      {res : ℤ} {s : Server} {e : Fault}
      → login_round sockfd res s ≡ fault e
      → Finishes sockfd res s (fault e)
  returns :
      {res r : ℤ} {s s' : Server}
      → login_round sockfd res s ≡ ok (returned r, s')
      → Finishes sockfd res s (ok (r, s'))
  switches :
      {res r : ℤ} {s s' : Server}
      → login_round sockfd res s ≡ ok (going r true, s')
      → Finishes sockfd res s (login_result sockfd s')
  goes_on :
      {res r : ℤ} {s s' : Server} {o : Outcome (ℤ × Server)}
      → login_round sockfd res s ≡ ok (going r false, s')
      → Finishes sockfd r s' o
      → Finishes sockfd res s o

-- With a login on its way, and more rounds than the kernel has answers left, the loop ends by itself:
-- in a fault of a round, by a `return`, or by a switch to another client, and never for want of fuel.
pub client_login-Finishes :
    (fuel sockfd : ℕ) (res : ℤ) (s : Server)
    → IsConversing sockfd s
    → left s < fuel
    → Finishes sockfd res s (client_login fuel sockfd res s)
unfolding client_login
client_login-Finishes zero sockfd res s c h = absurd (omega arith)
client_login-Finishes (suc fuel) sockfd res s c h =
    let after = login_round-AfterRound sockfd res s c in
    elim (Outcome-cases (login_round sockfd res s)) [
      | inr (e, bad) ↦ rw (bad, client_login) (fails bad)
      | inl ((returned r, s'), good) ↦ rw (good, client_login) (returns good)
      | inl ((going r true, s'), good) ↦ rw (good, client_login) (switches good)
      | inl ((going r false, s'), good) ↦
          let next = subst (Ensures (Still (AfterRound sockfd s))) good after in
          rw (good, client_login)
            (goes_on good (client_login-Finishes fuel sockfd r s' next.0 (omega arith)))
    ]
