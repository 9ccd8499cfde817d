-- ===== src/Server/Login/Vetting.antt =====
-- The block of `client_login` that checks the login, and what it does to who is logged in.
use tin_system_do_wspolpracy.Base.{
  ==ℤ_iff, Bool, Bytes, Outcome-cases, ap, arith, false, if◌then◌else◌, inl, inr, minus_one, not,
  ok, pos, refl, subst, true, ℕ, ℤ, ◌&&◌, ◌==ℤ◌, ◌==◌, ◌∙◌, ◌≡◌, ◌⊎◌,
}
use tin_system_do_wspolpracy.ClientsMonitor.{
  ClientsMonitor, add_logged_client, remove_rejected, add_rejected_login, login_ended,
  get_socket_read_state, get_socket_write_state, header_recvd, msg_sent, is_rejected,
}
use tin_system_do_wspolpracy.IntMap.{has}
use tin_system_do_wspolpracy.IntMap.Laws.{find-update}
use tin_system_do_wspolpracy.LoginHandler.{check_login, correct}
use tin_system_do_wspolpracy.MsgType
use tin_system_do_wspolpracy.Server.State.{Server, pure}
use tin_system_do_wspolpracy.Server.State.Ensures.{Ensures, Ensures-bind, Ensures-if}
use tin_system_do_wspolpracy.Server.State.Keeping.{Same}
use tin_system_do_wspolpracy.Server.Transfer.{recv_msg, read_buffer}
use tin_system_do_wspolpracy.Server.Transfer.Keeping.{recv_msg-IsKeeping, read_buffer-IsKeeping}
use tin_system_do_wspolpracy.Server.Login.Standing.{standing}
use tin_system_do_wspolpracy.Server.Login.{Flow, going, returned, recv_login, check, settle}

-- A text passed the check against the accounts, and nobody but this client was logged in.
abbrev pub Vouched : ℕ → Server → Server → Type 0
Vouched sockfd s t =
    ((text : Bytes) × (check_login text s.login_handler s.files
        ≡ ok (correct, t.login_handler, t.files)))
    × ((j : ℕ)
        → (sockfd == j) ≡ false
        → has j t.clients.logged_clients ≡ has j s.clients.logged_clients)

abbrev pub Vetted : ℕ → Server → Server → Type 0
Vetted sockfd s t =
    ((j : ℕ) → has j t.clients.logged_clients ≡ has j s.clients.logged_clients) ⊎ Vouched sockfd s t

-- When the loop is to go on, nothing has changed at all.
abbrev pub Kept : ℕ → Server → Flow → Server → Type 0
Kept sockfd s (going res true) t = Vetted sockfd s t
Kept sockfd s (going res false) t = Same standing s t
Kept sockfd s (returned res) t = Vetted sockfd s t

pub Same-Vetted : (sockfd : ℕ) (s t : Server) → Same standing s t → Vetted sockfd s t
Same-Vetted sockfd s t h = inl λ j. ap (λ p. p.2 j) h

unchanged_Kept :
    (sockfd : ℕ) (s : Server) (res : ℤ) (switch_client : Bool) (t : Server)
    → Same standing s t
    → Kept sockfd s (going res switch_client) t
unchanged_Kept sockfd s res true t h = Same-Vetted sockfd s t h
unchanged_Kept sockfd s res false t h = h

pub Vetted-after :
    (sockfd : ℕ) (s t u : Server) → Same standing s t → Vetted sockfd t u → Vetted sockfd s u
Vetted-after sockfd s t u h (inl k) = inl λ j. k j ∙ ap (λ p. p.2 j) h
Vetted-after sockfd s t u h (inr ((text, e), k)) = inr (
  (text, subst (λ p. check_login text p.0 p.1 ≡ ok (correct, u.login_handler, u.files)) h e),
  λ j n. k j n ∙ ap (λ p. p.2 j) h,
)

-- Nobody but a client whose login was correct is logged in.
abbrev Settled : ℕ → ℤ → Server → Server → Type 0
Settled sockfd result s t =
    ((t.login_handler ≡ s.login_handler) × (t.files ≡ s.files))
    × (((j : ℕ) → has j t.clients.logged_clients ≡ has j s.clients.logged_clients)
        ⊎ ((result ≡ correct)
            × ((j : ℕ)
                → (sockfd == j) ≡ false
                → has j t.clients.logged_clients ≡ has j s.clients.logged_clients)))

has-add_logged_client :
    (j k : ℕ) (cm : ClientsMonitor) (b : Bool)
    → (k == j) ≡ false
    → has j (add_logged_client k (if b then remove_rejected k cm else cm)).logged_clients
      ≡ has j cm.logged_clients
unfolding add_logged_client remove_rejected
has-add_logged_client j k cm true n =
    ground (arith, find-update j k false (λ (w : Bool). w) cm.logged_clients)
has-add_logged_client j k cm false n =
    ground (arith, find-update j k false (λ (w : Bool). w) cm.logged_clients)

pub Kept-after :
    (sockfd : ℕ) (s t u : Server) (flow : Flow)
    → Same standing s t
    → Kept sockfd t flow u
    → Kept sockfd s flow u
Kept-after sockfd s t u (going res true) h k = Vetted-after sockfd s t u h k
Kept-after sockfd s t u (going res false) h k = k ∙ h
Kept-after sockfd s t u (returned res) h k = Vetted-after sockfd s t u h k

settle-Settled :
    (sockfd : ℕ) (result : ℤ) (s : Server)
    → Ensures (λ _ t. Settled sockfd result s t) (settle sockfd result s)
unfolding settle add_rejected_login
settle-Settled sockfd result s =
    Ensures-if (λ _ t. Settled sockfd result s t) (result ==ℤ correct) _ _ s
      (λ e. (
        (refl, refl),
        inr (
          (==ℤ_iff result correct).0 e,
          λ j n. has-add_logged_client j sockfd s.clients (is_rejected sockfd s.clients) n,
        ),
      ))
      λ _. ((refl, refl), inl λ j. refl)

-- The check decides on the accounts as they are, and logs nobody in.
abbrev Checked : Bytes → Server → ℤ → Server → Type 0
Checked text s result t =
    (check_login text s.login_handler s.files ≡ ok (result, t.login_handler, t.files))
    × ((j : ℕ) → has j t.clients.logged_clients ≡ has j s.clients.logged_clients)

check-Checked : (text : Bytes) (s : Server) → Ensures (Checked text s) (check text s)
unfolding check
check-Checked text s = elim (Outcome-cases (check_login text s.login_handler s.files)) [
  | inr (f, e) ↦ rw (e, check, Ensures) tt
  | inl (r, e) ↦ rw (e, check, Ensures) (e, λ j. refl)
]

Vetted-Settled :
    (sockfd : ℕ) (text : Bytes) (result : ℤ) (s t u : Server)
    → Checked text s result t
    → Settled sockfd result t u
    → Vetted sockfd s u
Vetted-Settled sockfd text result s t u (e, same) (kept, inl k) = inl λ j. k j ∙ same j
Vetted-Settled sockfd text result s t u (e, same) ((h, f), inr (good, k)) = inr (
  (
    text,
    rw (h, f)
        (subst (λ r. check_login text s.login_handler s.files ≡ ok (r, t.login_handler, t.files))
          good e),
  ),
  λ j n. k j n ∙ same j,
)

pub recv_login-Kept :
    (sockfd : ℕ) (res : ℤ) (switch_client : Bool) (s : Server)
    → Ensures (Kept sockfd s) (recv_login sockfd res switch_client s)
unfolding recv_login
recv_login-Kept sockfd res switch_client s =
    let P = Kept sockfd s in
    Ensures-if P
      (get_socket_read_state sockfd s.clients ==ℤ header_recvd
        && get_socket_write_state sockfd s.clients ==ℤ msg_sent
        && not (login_ended sockfd s.clients))
      _ (pure (going res switch_client)) s
      (λ _.
        Ensures-bind (λ _ t. Same standing s t) P (recv_msg sockfd MsgType.login) _ s
          ((recv_msg-IsKeeping standing sockfd MsgType.login).keeps s)
          λ r t same.
            Ensures-if P (r ==ℤ minus_one) (pure (going r true)) _ t
              (λ _. Same-Vetted sockfd s t same)
              λ _.
                Ensures-if P (r ==ℤ pos 1) _ (pure (returned r)) t
                  (λ _.
                    Ensures-bind (λ _ u. Same standing t u) P (read_buffer sockfd) _ t
                      ((read_buffer-IsKeeping standing sockfd).keeps t)
                      λ text u same'.
                        Ensures-bind (Checked text u) P (check text) _ u (check-Checked text u)
                          λ result v checked.
                            Ensures-bind (λ _ w. Settled sockfd result v w) P (settle sockfd result)
                              _ v (settle-Settled sockfd result v)
                              λ _ w settled.
                                Vetted-after sockfd s u w (same' ∙ same)
                                  (Vetted-Settled sockfd text result u v w checked settled))
                  λ _. Same-Vetted sockfd s t same)
      λ _. unchanged_Kept sockfd s res switch_client s refl
