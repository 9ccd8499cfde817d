-- ===== src/Server/Transfer/Pieces.antt =====
-- A message that the kernel takes in pieces, one call of `send_msg` for each.
use native.Mathlib.Nat.{zero-add}
use tin_system_do_wspolpracy.Base.{
  ==_self, All, Bytes, List, Outcome, Outcome-cases, [], ap, append-nil, append_assoc, arith, drop,
  false, if◌then◌else◌, inl, inr, length, ok, pos, refl, suc, sym, take, take-append-drop, zero, ℕ,
  ℤ, ◌++◌, ◌+◌, ◌-◌, ◌<◌, ◌==ℤ◌, ◌==◌, ◌∙◌, ◌∷◌, ◌≡◌, ◌≤◌,
}
use tin_system_do_wspolpracy.ClientsMonitor.{
  get_socket_read_bytes_number, get_socket_read_state, get_socket_write_state, header_to_recv,
  msg_sent, get_socket_write_bytes_number, set_socket_write_bytes_number,
}
use tin_system_do_wspolpracy.ClientsMonitor.Fields.{write_bytes_set, message_out, find-message_out}
use tin_system_do_wspolpracy.Message.{Message, get_string_rep, get_message_type}
use tin_system_do_wspolpracy.Header.{header_size}
use tin_system_do_wspolpracy.MsgType
use tin_system_do_wspolpracy.Server.State.{◌>>=◌, ◌>>◌, pure, Server, Sent, M, accepted}
use tin_system_do_wspolpracy.Server.Transfer.{send_msg, after_sent, inline_capacity}
use tin_system_do_wspolpracy.Server.Transfer.Sending.{remainder, send_msg-partial, send_msg-whole}

-- The bytes that went out on a descriptor.
abbrev pub delivered : ℕ → List (ℕ × Bytes) → Bytes
delivered sockfd [] = []
delivered sockfd ((fd, text) ∷ log) =
    if fd == sockfd then text ++ delivered sockfd log else delivered sockfd log

pub delivered-append :
    (sockfd : ℕ) (log : List (ℕ × Bytes)) (text : Bytes)
    → delivered sockfd (log ++ ((sockfd, text) ∷ [])) ≡ delivered sockfd log ++ text
delivered-append sockfd [] text = rw (==_self sockfd) (append-nil text)
delivered-append sockfd ((fd, t) ∷ log) text =
    ground (arith, delivered-append sockfd log text, append_assoc t (delivered sockfd log) text)

-- The calls that the loops of the server make while `send_msg` answers 0.
pub send_calls : ℕ → ℕ → Message → M ℤ
send_calls zero sockfd msg = pure (pos 0)
send_calls (suc calls) sockfd msg = do
  res ← send_msg sockfd msg
  if res ==ℤ pos 0 then send_calls calls sockfd msg else pure res

abbrev pub sum : List ℕ → ℕ
sum [] = 0
sum (k ∷ ks) = k + sum ks

abbrev pub answers : List ℕ → List Sent → List Sent
answers [] rest = rest
answers (k ∷ ks) rest = accepted k ∷ answers ks rest

drop_nil : (n : ℕ) → drop {A = ℕ} n [] ≡ []
drop_nil zero = refl
drop_nil (suc n) = refl

drop-drop : (a b : ℕ) (xs : Bytes) → drop a (drop b xs) ≡ drop (b + a) xs
drop-drop a zero xs = rw zero-add refl
drop-drop a (suc b) [] = drop_nil a ∙ sym (drop_nil (suc b + a))
drop-drop a (suc b) (x ∷ xs) =
    let e : suc b + a ≡ suc (b + a) = omega arith in rw e (drop-drop a b xs)

-- What is left after a piece.
remainder_next :
    (msg : Message) (n k : ℕ)
    → n ≤ length (get_string_rep msg)
    → k ≤ n
    → take k (remainder msg n) ++ remainder msg (n - k) ≡ remainder msg n
remainder_next msg n k fits part =
    let e : length (get_string_rep msg) - (n - k) ≡ length (get_string_rep msg) - n + k =
      omega arith in
    rw e (
      rw (← drop-drop k (length (get_string_rep msg) - n) (get_string_rep msg))
        (take-append-drop k (remainder msg n)))

-- The last of the calls goes on as after the whole message, and the log of the descriptor has grown by
-- what was left of it.
record Passed (sockfd : ℕ) (msg : Message) (n : ℕ) (rest : List Sent) (s : Server)
    (o : Outcome (ℤ × Server)) : Type 0 where
  s' : Server
  ends : o ≡ (after_sent sockfd msg >> pure (pos 1)) s'
  arrives : delivered sockfd s'.sent ≡ delivered sockfd s.sent ++ remainder msg n
  left : s'.sends ≡ rest

-- The result 1 ends the calls.
pub last_call :
    (m : M (Unit {0})) (again : M ℤ) (s : Server)
    → ((m >> pure (pos 1)) >>= λ res. if res ==ℤ pos 0 then again else pure res) s
      ≡ (m >> pure (pos 1)) s
last_call m again s = elim (Outcome-cases (m s)) [
  | inl ((u, s'), e) ↦ rw (e, ◌>>=◌) refl
  | inr (f, e) ↦ rw (e, ◌>>=◌) refl
]

send_calls-Passed :
    (sockfd : ℕ) (msg : Message) (k : ℕ) (ks : List ℕ) (n : ℕ) (s : Server) (rest : List Sent)
    → All (λ k. 0 < k) (k ∷ ks)
    → sum (k ∷ ks) ≡ n
    → get_socket_write_bytes_number sockfd s.clients ≡ pos n
    → n ≤ length (get_string_rep msg)
    → n ≤ inline_capacity
    → s.sends ≡ answers (k ∷ ks) rest
    → Passed sockfd msg n rest s (send_calls (length (k ∷ ks)) sockfd msg s)
unfolding send_calls
send_calls-Passed sockfd msg k [] n s rest positive total wb fits short e =
    let n_eq : n ≡ k = omega arith in
    let e' : s.sends ≡ accepted n ∷ rest = rw n_eq e in
    record {
      s' = record s { sends = rest; sent = s.sent ++ ((sockfd, remainder msg n) ∷ []) };
      ends =
          rw (send_msg-whole sockfd msg n s rest wb fits short e', ◌>>=◌)
            (last_call (after_sent sockfd msg) (pure (pos 0))
              (record s { sends = rest; sent = s.sent ++ ((sockfd, remainder msg n) ∷ []) }));
      arrives = delivered-append sockfd s.sent (remainder msg n);
      left = refl;
    }
send_calls-Passed sockfd msg k (k' ∷ ks) n s rest positive total wb fits short e =
    let next : Server = record s {
      clients = set_socket_write_bytes_number sockfd (pos (n - k)) s.clients;
      sends = answers (k' ∷ ks) rest;
      sent = s.sent ++ ((sockfd, take k (remainder msg n)) ∷ []);
    } in
    let later =
      send_calls-Passed sockfd msg k' ks (n - k) next rest positive.1 (omega arith)
        (write_bytes_set sockfd (pos (n - k)) s.clients) (omega arith) (omega arith) refl in
    record {
      s' = later.s';
      ends =
          rw
            (
              send_msg-partial sockfd msg n k s (answers (k' ∷ ks) rest) wb fits short (omega arith)
                  (omega arith) e,
              ◌>>=◌,
            )
            (later.ends);
      arrives =
          later.arrives
          ∙ (rw (delivered-append sockfd s.sent (take k (remainder msg n))) (
              rw (append_assoc (delivered sockfd s.sent))
                (ap (◌++◌ (delivered sockfd s.sent)) (remainder_next msg n k fits (omega arith)))));
      left = later.left;
    }

-- A body is out: the log of the descriptor has grown by what was left of it, nothing more is to be sent,
-- and a whole header may be received.
pub record Transmitted (sockfd : ℕ) (msg : Message) (n : ℕ) (rest : List Sent) (s : Server)
    (o : Outcome (ℤ × Server)) : Type 0 where
  pub s' : Server
  pub ends : o ≡ ok (pos 1, s')
  pub arrives : delivered sockfd s'.sent ≡ delivered sockfd s.sent ++ remainder msg n
  pub left : s'.sends ≡ rest
  pub write_state : get_socket_write_state sockfd s'.clients ≡ msg_sent
  pub write_bytes : get_socket_write_bytes_number sockfd s'.clients ≡ pos 0
  pub read_state : get_socket_read_state sockfd s'.clients ≡ header_to_recv
  pub read_bytes : get_socket_read_bytes_number sockfd s'.clients ≡ pos header_size

after_sent-body :
    (sockfd : ℕ) (msg : Message) (s : Server)
    → (get_message_type msg ==ℤ MsgType.header) ≡ false
    → (after_sent sockfd msg >> pure (pos 1)) s
      ≡ ok (pos 1, record s { clients = message_out sockfd s.clients })
unfolding after_sent
after_sent-body sockfd msg s body = rw (body, after_sent) refl

Passed-Transmitted :
    (sockfd : ℕ) (msg : Message) (n : ℕ) (rest : List Sent) (s : Server) (o : Outcome (ℤ × Server))
    → (get_message_type msg ==ℤ MsgType.header) ≡ false
    → Passed sockfd msg n rest s o
    → Transmitted sockfd msg n rest s o
unfolding get_socket_write_state get_socket_write_bytes_number get_socket_read_state
    get_socket_read_bytes_number
Passed-Transmitted sockfd msg n rest s o body p =
    let out = find-message_out sockfd p.s'.clients in
    record {
      s' = record p.s' { clients = message_out sockfd p.s'.clients };
      ends = p.ends ∙ after_sent-body sockfd msg p.s' body;
      arrives = p.arrives;
      left = p.left;
      write_state = ground (arith, out);
      write_bytes = ground (arith, out);
      read_state = ground (arith, out);
      read_bytes = ground (arith, out);
    }

-- When at most 15 bytes are left of the body of a message, and the kernel takes them in any pieces that
-- are not empty, repeated calls of `send_msg` send exactly these bytes, in order; the last call answers
-- 1, nothing is left to be sent then, and a whole header may be received.
pub send_calls-Transmitted :
    (sockfd : ℕ) (msg : Message) (k : ℕ) (ks : List ℕ) (n : ℕ) (s : Server) (rest : List Sent)
    → (get_message_type msg ==ℤ MsgType.header) ≡ false
    → All (λ k. 0 < k) (k ∷ ks)
    → sum (k ∷ ks) ≡ n
    → get_socket_write_bytes_number sockfd s.clients ≡ pos n
    → n ≤ length (get_string_rep msg)
    → n ≤ inline_capacity
    → s.sends ≡ answers (k ∷ ks) rest
    → Transmitted sockfd msg n rest s (send_calls (length (k ∷ ks)) sockfd msg s)
send_calls-Transmitted sockfd msg k ks n s rest body positive total wb fits short e =
    Passed-Transmitted sockfd msg n rest s _ body
      (send_calls-Passed sockfd msg k ks n s rest positive total wb fits short e)
