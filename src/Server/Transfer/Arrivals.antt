-- ===== src/Server/Transfer/Arrivals.antt =====
-- A message that arrives in pieces, one call of `recv_msg` for each.
use tin_system_do_wspolpracy.Base.{
  ==_self, All, Bytes, List, Outcome, [], ap, append-nil, append_assoc, arith, if◌then◌else◌,
  length, length-append, pos, refl, suc, sym, take_self, zero, ℕ, ℤ, ◌++◌, ◌-◌, ◌==ℤ◌, ◌∙◌, ◌∷◌,
  ◌≡◌,
}
use tin_system_do_wspolpracy.ClientsMonitor.{
  get_socket_read_bytes_number, set_socket_read_bytes_number,
}
use tin_system_do_wspolpracy.ClientsMonitor.Fields.{read_bytes_set}
use tin_system_do_wspolpracy.RecvBuffers.{get_string_from_bytes}
use tin_system_do_wspolpracy.RecvBuffers.Laws.{
  contents, contents-cpy_to_recv_buff, contents-get_string_from_bytes,
}
use tin_system_do_wspolpracy.Server.State.{◌>>=◌, ◌>>◌, pure, Server, Received, M, bytes}
use tin_system_do_wspolpracy.Server.Transfer.{recv_msg, after_recvd}
use tin_system_do_wspolpracy.Server.Transfer.Pieces.{last_call}
use tin_system_do_wspolpracy.Server.Transfer.Receiving.{arrived, recv_msg-partial, recv_msg-whole}

-- The calls that the loops of the server make while `recv_msg` answers 0.
pub recv_calls : ℕ → ℕ → ℤ → M ℤ
recv_calls zero sockfd msg_type = pure (pos 0)
recv_calls (suc calls) sockfd msg_type = do
  res ← recv_msg sockfd msg_type
  if res ==ℤ pos 0 then recv_calls calls sockfd msg_type else pure res

abbrev pub joined : List Bytes → Bytes
joined [] = []
joined (t ∷ ts) = t ++ joined ts

abbrev pub arrivals : List Bytes → List Received → List Received
arrivals [] rest = rest
arrivals (t ∷ ts) rest = bytes t ∷ arrivals ts rest

abbrev IsFilled : Bytes → Type 0
IsFilled [] = ⊥
IsFilled (c ∷ t) = Unit {0}

contents-arrived :
    (sockfd : ℕ) (text : Bytes) (rest : List Received) (s : Server)
    → contents sockfd (arrived sockfd text rest s).recv_buffers
      ≡ contents sockfd s.recv_buffers ++ text
contents-arrived sockfd text rest s =
    contents-cpy_to_recv_buff sockfd sockfd text (length text) s.recv_buffers
    ∙ rw (==_self sockfd) (rw (take_self text) refl)

-- The last of the calls leaves the state that follows the whole message, with the text behind what
-- the buffer of the descriptor held.
pub record Collected (sockfd : ℕ) (msg_type : ℤ) (text : Bytes) (rest : List Received) (s : Server)
    (o : Outcome (ℤ × Server)) : Type 0 where
  pub s' : Server
  pub ends : o ≡ (after_recvd sockfd msg_type >> pure (pos 1)) s'
  pub holds : contents sockfd s'.recv_buffers ≡ contents sockfd s.recv_buffers ++ text
  pub left : s'.recvs ≡ rest

-- When the bytes that are expected arrive in any pieces that are not empty, repeated calls of
-- `recv_msg` put exactly these bytes behind those that the buffer held, in order, and the last one
-- goes on as after the whole message.
pub recv_calls-Collected :
    (sockfd : ℕ) (msg_type : ℤ) (t : Bytes) (ts : List Bytes) (s : Server) (rest : List Received)
    → All IsFilled (t ∷ ts)
    → get_socket_read_bytes_number sockfd s.clients ≡ pos (length (joined (t ∷ ts)))
    → s.recvs ≡ arrivals (t ∷ ts) rest
    → Collected sockfd msg_type
        (joined (t ∷ ts))
        rest
        s
        (recv_calls (length (t ∷ ts)) sockfd msg_type s)
unfolding recv_calls
recv_calls-Collected sockfd msg_type [] ts s rest filled rb e = absurd filled.0
recv_calls-Collected sockfd msg_type (c ∷ t) [] s rest filled rb e =
    let last = arrived sockfd (c ∷ t) rest s in
    let same : joined ((c ∷ t) ∷ []) ≡ c ∷ t = append-nil (c ∷ t) in
    record {
      s' = last;
      ends =
          rw
            (
              recv_msg-whole sockfd msg_type (length (joined ((c ∷ t) ∷ []))) c t s rest rb
                  (ap length (sym same)) e,
              ◌>>=◌,
            )
            (last_call (after_recvd sockfd msg_type) (pure (pos 0)) last);
      holds =
          contents-arrived sockfd (c ∷ t) rest s
          ∙ ap (◌++◌ (contents sockfd s.recv_buffers)) (sym same);
      left = refl;
    }
recv_calls-Collected sockfd msg_type (c ∷ t) ([] ∷ ts) s rest filled rb e = absurd filled.1.0
recv_calls-Collected sockfd msg_type (c ∷ t) ((d ∷ u) ∷ ts) s rest filled rb e =
    let text = joined ((d ∷ u) ∷ ts) in
    let size = length-append (c ∷ t) text in
    let first = arrived sockfd (c ∷ t) (arrivals ((d ∷ u) ∷ ts) rest) s in
    let next : Server = record first {
      recv_buffers = (get_string_from_bytes sockfd first.recv_buffers).1;
      clients =
          set_socket_read_bytes_number sockfd (pos (length ((c ∷ t) ++ text) - length (c ∷ t)))
            s.clients;
    } in
    let left_over : length ((c ∷ t) ++ text) - length (c ∷ t) ≡ length text = omega (arith, size) in
    let later =
      recv_calls-Collected sockfd msg_type (d ∷ u) ts next rest filled.1
        (read_bytes_set sockfd _ s.clients ∙ ap pos left_over) refl in
    record {
      s' = later.s';
      ends =
          rw
            (
              recv_msg-partial sockfd msg_type (length ((c ∷ t) ++ text)) c t s
                  (arrivals ((d ∷ u) ∷ ts) rest) rb (omega (arith, size)) e,
              ◌>>=◌,
            )
            (later.ends);
      holds =
          later.holds
          ∙ ap (λ x. x ++ text)
              (contents-get_string_from_bytes sockfd sockfd first.recv_buffers
                ∙ contents-arrived sockfd (c ∷ t) (arrivals ((d ∷ u) ∷ ts) rest) s)
          ∙ append_assoc (contents sockfd s.recv_buffers) (c ∷ t) text;
      left = later.left;
    }
