-- ===== src/Server/Incoming/Guarding.antt =====
-- What a client can reach before its login has ended.
use tin_system_do_wspolpracy.Base.{
  Bool, Bool-cases, List, Outcome, Outcome-cases, ap, arith, false, fault, inl, inr, not, ok, subst,
  suc, true, zero, ℕ, ℤ, ◌||◌, ◌∙◌, ◌≡◌, ◌⊎◌,
}
use tin_system_do_wspolpracy.ClientsMonitor.{login_ended}
use tin_system_do_wspolpracy.IntMap.{IntMap, find}
use tin_system_do_wspolpracy.Networking.{NetState}
use tin_system_do_wspolpracy.NotepadHandler.{NotepadHandler}
use tin_system_do_wspolpracy.Server.State.{Server, Garbage, M, pure, ◌>>=◌}
use tin_system_do_wspolpracy.Server.State.Ensures.{Ensures, Ensures-if, Ensures-map}
use tin_system_do_wspolpracy.Server.State.Keeping.{IsKeeping, Same, IsKeeping-after, keeping}
use tin_system_do_wspolpracy.Server.Login.{client_login}
use tin_system_do_wspolpracy.Server.Login.Keeping.{client_login-IsKeeping}
use tin_system_do_wspolpracy.Server.Incoming.{
  Flags, incoming_login, incoming_header, incoming_msg, incoming_round, incoming_loop,
}
use tin_system_do_wspolpracy.Server.Incoming.Keeping.{
  enrolled, incoming_header-IsKeeping, incoming_msg-IsKeeping,
}

-- What the clients share: the document with its editors, and the messages queued for them.
abbrev pub shared : Server → NotepadHandler × IntMap (List NetState)
shared s = (s.notepad, s.networking.send_queues)

client_login-shared : (fuel sockfd : ℕ) (res : ℤ) → IsKeeping shared (client_login fuel sockfd res)
client_login-shared fuel sockfd res =
    IsKeeping-after (λ p. (p.1, p.2)) (client_login-IsKeeping fuel sockfd res)

incoming_login-shared :
    (fuel : ℕ) (g : Garbage) (sockfd : ℕ) → IsKeeping shared (incoming_login fuel g sockfd)
unfolding incoming_login
incoming_login-shared fuel g sockfd = search (keeping, client_login-shared) depth 14

-- A login that has ended stays so.
pub enrolled-Ensures :
    {A : Type 0} (m : M A) (sockfd : ℕ) (s : Server)
    → IsKeeping enrolled m
    → login_ended sockfd s.clients ≡ true
    → Ensures (λ _ t. login_ended sockfd t.clients ≡ true) (m s)
unfolding login_ended
enrolled-Ensures m sockfd s h e = go (m s) (h.keeps s)
  where
    go :
        {B : Type 0} (o : Outcome (B × Server))
        → Ensures (λ _ t. Same enrolled s t) o
        → Ensures (λ _ t. login_ended sockfd t.clients ≡ true) o
    go (ok (b, t)) same = ground (arith, ap (λ p. find sockfd p.1) same)
    go (fault f) same = tt

served_keeps :
    (g : Garbage) (sockfd : ℕ)
    → IsKeeping {A = Flags} enrolled (do
      a ← incoming_header g sockfd
      b ← incoming_msg sockfd
      pure (record {
        close_conn = a.close_conn || b.close_conn;
        change_cli = a.change_cli || b.change_cli;
      }))
served_keeps g sockfd = search (keeping, incoming_header-IsKeeping, incoming_msg-IsKeeping) depth 14

pub incoming_round_ended :
    (fuel : ℕ) (g : Garbage) (sockfd : ℕ) (s : Server)
    → login_ended sockfd s.clients ≡ true
    → Ensures (λ _ t. login_ended sockfd t.clients ≡ true) (incoming_round fuel g sockfd s)
unfolding incoming_round
incoming_round_ended fuel g sockfd s e =
    let P : Flags → Server → Type 0 = λ _ t. login_ended sockfd t.clients ≡ true in
    Ensures-if P (not (login_ended sockfd s.clients)) (incoming_login fuel g sockfd) _ s
      (λ out. absurd (ground arith)) λ _. enrolled-Ensures _ sockfd s (served_keeps g sockfd) e

incoming_round-shared :
    (fuel : ℕ) (g : Garbage) (sockfd : ℕ) (s : Server)
    → login_ended sockfd s.clients ≡ false
    → Ensures (λ _ t. Same shared s t) (incoming_round fuel g sockfd s)
unfolding incoming_round
incoming_round-shared fuel g sockfd s e =
    Ensures-if (λ _ t. Same shared s t) (not (login_ended sockfd s.clients)) _ _ s
      (λ _. (incoming_login-shared fuel g sockfd).keeps s) λ out. absurd (ground arith)

-- The login has ended, or it had not and nothing of what is shared was changed.
abbrev Guarded : ℕ → Server → Server → Type 0
Guarded sockfd s t =
    (login_ended sockfd t.clients ≡ true)
    ⊎ ((login_ended sockfd s.clients ≡ false) × Same shared s t)

incoming_round-Guarded :
    (fuel : ℕ) (g : Garbage) (sockfd : ℕ) (s : Server)
    → Ensures (λ _ t. Guarded sockfd s t) (incoming_round fuel g sockfd s)
incoming_round-Guarded fuel g sockfd s = elim (Bool-cases (login_ended sockfd s.clients)) [
  | inl e ↦ Ensures-map (λ _ t h. inl h) _ (incoming_round_ended fuel g sockfd s e)
  | inr e ↦ Ensures-map (λ _ t h. inr (e, h)) _ (incoming_round-shared fuel g sockfd s e)
]

-- One round after another.
Guarded-trans :
    (sockfd : ℕ) (s t u : Server) → Guarded sockfd s t → Guarded sockfd t u → Guarded sockfd s u
Guarded-trans sockfd s t u h (inl e) = inl e
Guarded-trans sockfd s t u (inl e) (inr (n, k)) = absurd (ground arith)
Guarded-trans sockfd s t u (inr (m, h)) (inr (n, k)) = inr (m, k ∙ h)

incoming_loop-Guarded :
    (rounds fuel : ℕ) (g : Garbage) (sockfd : ℕ) (s : Server)
    → Ensures (λ _ t. Guarded sockfd s t) (incoming_loop rounds fuel g sockfd s)
unfolding incoming_loop
incoming_loop-Guarded zero fuel g sockfd s = tt
incoming_loop-Guarded (suc rounds) fuel g sockfd s =
    elim (Outcome-cases (incoming_round fuel g sockfd s)) [
      | inr (e, bad) ↦ rw (bad, incoming_loop) tt
      | inl ((flags, s'), good) ↦
          let once =
            subst (Ensures λ _ t. Guarded sockfd s t) good
              (incoming_round-Guarded fuel g sockfd s) in
          elim (Bool-cases (flags.close_conn || flags.change_cli)) [
            | inl leaves ↦ rw (good, incoming_loop) (rw leaves once)
            | inr stays ↦
                rw (good, incoming_loop)
                  (rw stays (
                    Ensures-map (λ _ t. Guarded-trans sockfd s s' t once) _
                      (incoming_loop-Guarded rounds fuel g sockfd s')))
          ]
    ]

-- However long the loop for a readable descriptor runs and whatever its client sends, if the login of
-- the client has not ended when the loop is left, then the document, its editors and what they are owed,
-- and the messages queued for all clients are as before.
pub incoming_loop_shared :
    (rounds fuel : ℕ) (g : Garbage) (sockfd : ℕ) (s t : Server) (close_conn : Bool)
    → incoming_loop rounds fuel g sockfd s ≡ ok (close_conn, t)
    → login_ended sockfd t.clients ≡ false
    → (t.notepad ≡ s.notepad) × (t.networking.send_queues ≡ s.networking.send_queues)
incoming_loop_shared rounds fuel g sockfd s t close_conn e out =
    elim (subst (Ensures λ _ t. Guarded sockfd s t) e
      (incoming_loop-Guarded rounds fuel g sockfd s)) [
        | inl ended ↦ absurd (ground arith)
        | inr (_, same) ↦ (ap (λ p. p.0) same, ap (λ p. p.1) same)
      ]
