-- ===== src/Server/Transfer/Sending.antt =====
-- `send_msg` on every answer of the kernel, and a message sent in pieces.
use tin_system_do_wspolpracy.Base.{
  Bytes, List, [], arith, drop, false, fault, leb, length, length-drop, ltb_ℤ, minus_one, ok, pos,
  refl, take, take_all, true, undefined, ℕ, ◌++◌, ◌-◌, ◌<◌, ◌∷◌, ◌≡◌, ◌≤◌,
}
use tin_system_do_wspolpracy.ClientsMonitor.{
  get_socket_write_bytes_number, set_socket_write_bytes_number,
}
use tin_system_do_wspolpracy.Message.{Message, get_string_rep}
use tin_system_do_wspolpracy.Text.{substr}
use tin_system_do_wspolpracy.Server.State.{◌>>◌, pure, ◌>>=◌, ◌>>=◌, Server, Sent, accepted}
use tin_system_do_wspolpracy.Server.Transfer.{
  send_buff, dangling, inline_capacity, unsent, nonblock_send, send_nbytes, send_msg, after_sent,
  lift,
}

-- What is left to send of a message, when `n` bytes are.
abbrev pub remainder : Message → ℕ → Bytes
remainder msg n = drop (length (get_string_rep msg) - n) (get_string_rep msg)

unsent_lem :
    (text : Bytes) (n : ℕ)
    → n ≤ length text
    → unsent text (pos n) ≡ ok (drop (length text - n) text)
unfolding unsent substr
unsent_lem text n h =
    ground (arith, take_all n (drop (length text - n) text), length-drop (length text - n) text)

-- The answer that the kernel gives first.
abbrev pub answered : Server → List Sent → Server
answered s rest = record s { sends = rest }

not_below : (k : ℕ) → ltb_ℤ (pos k) minus_one ≡ false
not_below k = ground arith

send_buff_lem :
    (msg : Message) (n : ℕ)
    → n ≤ length (get_string_rep msg)
    → n ≤ inline_capacity
    → send_buff msg (pos n) ≡ ok (remainder msg n)
unfolding send_buff dangling
send_buff_lem msg n h short =
    let size = length-drop (length (get_string_rep msg) - n) (get_string_rep msg) in
    let fits : leb (length (remainder msg n)) inline_capacity ≡ true = ground (arith, size) in
    rw (unsent_lem (get_string_rep msg) n h, send_buff) (rw fits refl)

send_nbytes_accepted :
    (sockfd : ℕ) (msg : Message) (n k : ℕ) (s : Server) (rest : List Sent)
    → n ≤ length (get_string_rep msg)
    → n ≤ inline_capacity
    → s.sends ≡ accepted k ∷ rest
    → send_nbytes sockfd msg (pos n) s
      ≡ ok (
        pos k,
        record s { sends = rest; sent = s.sent ++ ((sockfd, take k (remainder msg n)) ∷ []) },
      )
unfolding send_nbytes nonblock_send
send_nbytes_accepted sockfd msg n k s rest h short e =
    rw (send_buff_lem msg n h short) (rw e (rw (not_below k) refl))

pub send_msg-partial :
    (sockfd : ℕ) (msg : Message) (n k : ℕ) (s : Server) (rest : List Sent)
    → get_socket_write_bytes_number sockfd s.clients ≡ pos n
    → n ≤ length (get_string_rep msg)
    → n ≤ inline_capacity
    → 0 < k
    → k < n
    → s.sends ≡ accepted k ∷ rest
    → send_msg sockfd msg s
      ≡ ok (
        pos 0,
        record s {
          clients = set_socket_write_bytes_number sockfd (pos (n - k)) s.clients;
          sends = rest;
          sent = s.sent ++ ((sockfd, take k (remainder msg n)) ∷ []);
        },
      )
unfolding send_msg
send_msg-partial sockfd msg n k s rest wb fits short positive part e =
    rw (wb, send_msg)
      (rw (send_nbytes_accepted sockfd msg n k s rest fits short e, ◌>>=◌) (ground arith))

pub send_msg-whole :
    (sockfd : ℕ) (msg : Message) (n : ℕ) (s : Server) (rest : List Sent)
    → get_socket_write_bytes_number sockfd s.clients ≡ pos n
    → n ≤ length (get_string_rep msg)
    → n ≤ inline_capacity
    → s.sends ≡ accepted n ∷ rest
    → send_msg sockfd msg s
      ≡ (after_sent sockfd msg >> pure (pos 1))
          (record s { sends = rest; sent = s.sent ++ ((sockfd, remainder msg n) ∷ []) })
unfolding send_msg
send_msg-whole sockfd msg n s rest wb fits short e =
    rw (wb, send_msg)
      (rw (send_nbytes_accepted sockfd msg n n s rest fits short e, ◌>>=◌)
        (rw
          (take_all n (remainder msg n)
            (omega (arith, length-drop (length (get_string_rep msg) - n) (get_string_rep msg))))
          (ground arith)))

send_buff_long :
    (msg : Message) (n : ℕ)
    → n ≤ length (get_string_rep msg)
    → inline_capacity < n
    → send_buff msg (pos n) ≡ fault undefined
unfolding send_buff dangling
send_buff_long msg n h long =
    let size = length-drop (length (get_string_rep msg) - n) (get_string_rep msg) in
    let freed : leb (length (remainder msg n)) inline_capacity ≡ false = ground (arith, size) in
    rw (unsent_lem (get_string_rep msg) n h, send_buff) (rw freed refl)

-- When more than 15 bytes of a message are left to be sent, `send_msg` comes to undefined behaviour,
-- whatever the kernel answers: it hands over the memory of a string that has been freed.
pub send_msg_dangling :
    (sockfd : ℕ) (msg : Message) (n : ℕ) (s : Server)
    → get_socket_write_bytes_number sockfd s.clients ≡ pos n
    → n ≤ length (get_string_rep msg)
    → inline_capacity < n
    → send_msg sockfd msg s ≡ fault undefined
unfolding send_msg send_nbytes
send_msg_dangling sockfd msg n s wb fits long =
    rw (wb, send_msg) (rw (send_buff_long msg n fits long, ◌>>=◌, lift) refl)
