-- ===== src/Server/Outbound/Ending.antt =====
-- The loop for what is sent to an editor as a loop without fuel, and why it comes to an end.
use tin_system_do_wspolpracy.Base.{
  Bool, Fault, Outcome, Outcome-cases, arith, false, fault, inl, inr, not, ok, subst, suc, true,
  zero, ℕ, ◌<◌, ◌||◌, ◌≡◌,
}
use tin_system_do_wspolpracy.ClientsMonitor.{login_ended}
use tin_system_do_wspolpracy.Server.State.{Server, Garbage, pure, ◌>>=◌}
use tin_system_do_wspolpracy.Server.State.Ensures.{Ensures, Ensures-bind, Ensures-if, Ensures-after}
use tin_system_do_wspolpracy.Server.State.Keeping.{IsKeeping, keeping}
use tin_system_do_wspolpracy.Server.Transfer.Spent.{left}
use tin_system_do_wspolpracy.Server.Incoming.Keeping.{enrolled}
use tin_system_do_wspolpracy.Server.Incoming.Guarding.{enrolled-Ensures}
use tin_system_do_wspolpracy.Server.Outbound.Keeping.{
  outbound_header-IsKeeping, outbound_msg-IsKeeping,
}
use tin_system_do_wspolpracy.Server.Outbound.Blocks.{
  IsEditing, AfterHeader, AfterMsg, outbound_header-AfterHeader, outbound_msg-AfterMsg,
}
use tin_system_do_wspolpracy.Server.Outbound.{
  outbound_header, outbound_msg, outbound_round, outbound_loop,
}

-- A round of a logged-in editor either leaves the loop, or has used up an answer and is to go on.
outbound_round-AfterMsg :
    (fuel : ℕ) (g : Garbage) (k : ℕ) (s : Server)
    → login_ended k s.clients ≡ true
    → IsEditing k s
    → Ensures (AfterMsg k s) (outbound_round fuel g k s)
unfolding outbound_round
outbound_round-AfterMsg fuel g k s ended h =
    let P = AfterMsg k s in
    Ensures-if P (not (login_ended k s.clients)) _ _ s (λ no. absurd (ground arith))
      λ _.
        Ensures-bind (AfterHeader k s) P (outbound_header g k) _ s
          (outbound_header-AfterHeader g k s h)
          λ a t after. elim after [
            | inl out ↦ Ensures-after P (outbound_msg k) _ t λ b u. inl (ground arith)
            | inr (editing, spent) ↦
                Ensures-bind _ P (outbound_msg k) _ t (outbound_msg-AfterMsg k t editing)
                  λ b u more. elim more [
                    | inl (inl out) ↦ inl (ground arith)
                    | inl (inr (editing', less)) ↦ elim spent [
                      | inl less' ↦ inr (editing', omega arith)
                      | inr (_, same) ↦ inr (editing', omega arith)
                    ]
                    | inr (ready, (editing', same)) ↦ elim spent [
                      | inl less' ↦ inr (editing', omega arith)
                      | inr (e, _) ↦ absurd (ground arith)
                    ]
                  ]
          ]

served_keeps :
    (g : Garbage) (k : ℕ)
    → IsKeeping {A = Bool} enrolled (do a ← outbound_header g k; b ← outbound_msg k; pure (a || b))
served_keeps g k = search (keeping, outbound_header-IsKeeping, outbound_msg-IsKeeping) depth 14

outbound_round_ended :
    (fuel : ℕ) (g : Garbage) (k : ℕ) (s : Server)
    → login_ended k s.clients ≡ true
    → Ensures (λ _ t. login_ended k t.clients ≡ true) (outbound_round fuel g k s)
unfolding outbound_round
outbound_round_ended fuel g k s ended =
    Ensures-if (λ _ t. login_ended k t.clients ≡ true) (not (login_ended k s.clients)) _ _ s
      (λ no. absurd (ground arith)) λ _. enrolled-Ensures _ k s (served_keeps g k) ended

-- The rounds of the loop from a state, down to the outcome.
pub data Ends (fuel : ℕ) (g : Garbage) (k : ℕ) : Server → Outcome (Unit {0} × Server) → Type 0 where
  fails : {s : Server} {e : Fault} → outbound_round fuel g k s ≡ fault e → Ends fuel g k s (fault e)
  stops :
      {s s' : Server} → outbound_round fuel g k s ≡ ok (true, s') → Ends fuel g k s (ok (tt, s'))
  goes_on :
      {s s' : Server} {o : Outcome (Unit {0} × Server)}
      → outbound_round fuel g k s ≡ ok (false, s')
      → Ends fuel g k s' o
      → Ends fuel g k s o

-- For a client that is logged in and whose current message is an edit, with a header or a body to be
-- sent, and more rounds than the kernel has answers left, the loop ends by itself: in a fault of a
-- round, or because a round leaves it, and never for want of its own fuel.
pub outbound_loop-Ends :
    (rounds fuel : ℕ) (g : Garbage) (k : ℕ) (s : Server)
    → login_ended k s.clients ≡ true
    → IsEditing k s
    → left s < rounds
    → Ends fuel g k s (outbound_loop rounds fuel g k s)
unfolding outbound_loop
outbound_loop-Ends zero fuel g k s ended h less = absurd (omega arith)
outbound_loop-Ends (suc rounds) fuel g k s ended h less =
    elim (Outcome-cases (outbound_round fuel g k s)) [
      | inr (e, bad) ↦ rw (bad, outbound_loop) (fails bad)
      | inl ((true, s'), good) ↦ rw (good, outbound_loop) (stops good)
      | inl ((false, s'), good) ↦
          let ended' =
            subst (Ensures λ _ t. login_ended k t.clients ≡ true) good
              (outbound_round_ended fuel g k s ended) in
          elim (subst (Ensures (AfterMsg k s)) good (outbound_round-AfterMsg fuel g k s ended h)) [
            | inl out ↦ absurd (ground arith)
            | inr (h', fewer) ↦
                rw (good, outbound_loop)
                  (goes_on good (outbound_loop-Ends rounds fuel g k s' ended' h' (omega arith)))
          ]
    ]
