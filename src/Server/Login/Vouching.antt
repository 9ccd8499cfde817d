-- ===== src/Server/Login/Vouching.antt =====
-- Who is logged in by a call of `client_login`.
use tin_system_do_wspolpracy.Base.{
  ==_iff, Bool, Bool-cases, Bytes, Outcome-cases, arith, false, inl, inr, ok, subst, suc, true,
  zero, ℕ, ℤ, ◌==◌, ◌∙◌, ◌≡◌,
}
use tin_system_do_wspolpracy.ClientsMonitor.{is_logged, get_login_state}
use tin_system_do_wspolpracy.LoginHandler.{check_login, correct}
use tin_system_do_wspolpracy.Server.State.{Server, M}
use tin_system_do_wspolpracy.Server.State.Ensures.{Ensures, Ensures-bind, Ensures-map}
use tin_system_do_wspolpracy.Server.State.Keeping.{Same}
use tin_system_do_wspolpracy.Server.Login.Standing.{
  standing, send_header-standing, send_body-standing, recv_header-standing, then_block-standing,
}
use tin_system_do_wspolpracy.Server.Login.Vetting.{
  Vetted, Kept, Same-Vetted, Vetted-after, Kept-after, recv_login-Kept,
}
use tin_system_do_wspolpracy.Server.Login.{
  Flow, going, returned, send_header, send_body, recv_header, recv_login, then_block, login_round,
  client_login,
}

-- A block that follows on nothing changed.
then_block-Kept :
    (sockfd : ℕ) (s t : Server) (flow : Flow) (block : ℤ → Bool → M Flow)
    → Same standing s t
    → ((res : ℤ) (switch_client : Bool) → Ensures (Kept sockfd t) (block res switch_client t))
    → Ensures (Kept sockfd s) (then_block flow block t)
then_block-Kept sockfd s t (going res switch_client) block h k =
    Ensures-map (λ flow u. Kept-after sockfd s t u flow h) _ (k res switch_client)
then_block-Kept sockfd s t (returned res) block h k = Same-Vetted sockfd s t h

login_round-Kept :
    (sockfd : ℕ) (res : ℤ) (s : Server) → Ensures (Kept sockfd s) (login_round sockfd res s)
unfolding login_round
login_round-Kept sockfd res s =
    let ls = get_login_state sockfd s.clients in
    let P = Kept sockfd s in
    Ensures-bind (λ _ t. Same standing s t) P (send_header sockfd ls res) _ s
      ((send_header-standing sockfd ls res).keeps s)
      λ f t h.
        Ensures-bind (λ _ u. Same standing t u) P (then_block f (send_body sockfd ls)) _ t
          ((then_block-standing f (send_body sockfd ls) (send_body-standing sockfd ls)).keeps t)
          λ f' u h'.
            Ensures-bind (λ _ v. Same standing u v) P (then_block f' (recv_header sockfd)) _ u
              ((then_block-standing f' (recv_header sockfd) (recv_header-standing sockfd)).keeps u)
              λ f'' v h''.
                then_block-Kept sockfd s v f'' (recv_login sockfd) (h'' ∙ (h' ∙ h))
                  (λ r switch_client. recv_login-Kept sockfd r switch_client v)

client_login-Vetted :
    (fuel sockfd : ℕ) (res : ℤ) (s : Server)
    → Ensures (λ _ t. Vetted sockfd s t) (client_login fuel sockfd res s)
unfolding client_login
client_login-Vetted zero sockfd res s = tt
client_login-Vetted (suc fuel) sockfd res s = elim (Outcome-cases (login_round sockfd res s)) [
  | inr (e, bad) ↦ rw (bad, client_login) tt
  | inl ((returned r, s'), good) ↦
      rw (good, client_login) (subst (Ensures (Kept sockfd s)) good (login_round-Kept sockfd res s))
  | inl ((going r true, s'), good) ↦
      rw (good, client_login) (subst (Ensures (Kept sockfd s)) good (login_round-Kept sockfd res s))
  | inl ((going r false, s'), good) ↦
      rw (good, client_login)
        (Ensures-map
          (λ _ t.
            Vetted-after sockfd s s' t
              (subst (Ensures (Kept sockfd s)) good (login_round-Kept sockfd res s)))
          _ (client_login-Vetted fuel sockfd r s'))
]

-- Whatever a client sends and however the kernel answers, a call of `client_login` that returns has
-- logged nobody in but its own client, and that one only if a text passed `check_login` against the
-- accounts as they were before the call, which left the accounts as they are after it.
pub client_login-vouched :
    (fuel sockfd : ℕ) (res r : ℤ) (s t : Server) (j : ℕ)
    → client_login fuel sockfd res s ≡ ok (r, t)
    → is_logged j s.clients ≡ false
    → is_logged j t.clients ≡ true
    → (sockfd ≡ j)
      × (text : Bytes) × (check_login text s.login_handler s.files
          ≡ ok (correct, t.login_handler, t.files))
unfolding is_logged
client_login-vouched fuel sockfd res r s t j e before after =
    elim (subst (Ensures λ _ t. Vetted sockfd s t) e (client_login-Vetted fuel sockfd res s)) [
      | inl same ↦ absurd (ground (arith, same j))
      | inr ((text, passed), same) ↦ elim (Bool-cases (sockfd == j)) [
        | inl own ↦ ((==_iff sockfd j).0 own, text, passed)
        | inr other ↦ absurd (ground (arith, same j other))
      ]
    ]
