-- ===== src/Server/Transfer/Headers.antt =====
-- Sending a header: what it leaves when it is out, and the size that `set_multicast` leaves for it.
use tin_system_do_wspolpracy.Base.{
  Bool-cases, List, Outcome, [], arith, drop, fault, if◌then◌else◌, inl, inr, length, ltb, ok,
  out_of_range, pos, refl, true, ℕ, ℤ, ◌++◌, ◌-◌, ◌<◌, ◌∙◌, ◌∷◌, ◌≡◌,
}
use tin_system_do_wspolpracy.ClientsMonitor.{get_socket_write_bytes_number}
use tin_system_do_wspolpracy.ClientsMonitor.Fields.{header_out}
use tin_system_do_wspolpracy.Header.Codec.{substr-len_text, stoi-quad, length-get_string_rep}
use tin_system_do_wspolpracy.Header.{header_size}
use tin_system_do_wspolpracy.IntMap.{IntSet, has}
use tin_system_do_wspolpracy.IntMap.Order.{IsSorted}
use tin_system_do_wspolpracy.Message.{Message, header, get_string_rep, get_message_type}
use tin_system_do_wspolpracy.Networking.{set_multicast}
use tin_system_do_wspolpracy.Networking.Multicast.{set_multicast-Notified}
use tin_system_do_wspolpracy.Server.State.{◌>>=◌, ◌>>◌, pure, Server, Sent, accepted}
use tin_system_do_wspolpracy.Server.Transfer.{
  send_buff, send_msg, send_nbytes, unsent, after_sent, lift,
}
use tin_system_do_wspolpracy.Server.Transfer.Sending.{remainder, send_msg-whole}

abbrev pub header_of : ℕ → ℕ → Message
header_of t l = header (record { msg_type = pos t; msg_len = pos l })

after_sent-header :
    (sockfd t l : ℕ) (s : Server)
    → t < 100
    → l < 10000
    → (after_sent sockfd (header_of t l) >> pure (pos 1)) s
      ≡ ok (pos 1, record s { clients = header_out sockfd (pos l) s.clients })
unfolding after_sent get_message_type get_string_rep
after_sent-header sockfd t l s h k =
    rw (substr-len_text t l h k, ◌>>=◌, ◌>>◌, lift) (rw (stoi-quad l k, ◌>>=◌, lift) refl)

-- A message longer than what is marked as unsent cannot be sliced: the process ends.
send_msg_oversize :
    (sockfd : ℕ) (msg : Message) (n : ℕ) (s : Server)
    → get_socket_write_bytes_number sockfd s.clients ≡ pos n
    → length (get_string_rep msg) < n
    → send_msg sockfd msg s ≡ fault out_of_range
unfolding send_msg send_nbytes send_buff unsent
send_msg_oversize sockfd msg n s wb h = rw (wb, send_msg) (ground arith)

-- A header whose fields fit, of which all six bytes are unsent and which the kernel takes at once, goes
-- out whole, and then a body of exactly the length announced is to be sent.
pub send_msg-header :
    (sockfd t l : ℕ) (s : Server) (rest : List Sent)
    → t < 100
    → l < 10000
    → get_socket_write_bytes_number sockfd s.clients ≡ pos header_size
    → s.sends ≡ accepted header_size ∷ rest
    → send_msg sockfd (header_of t l) s
      ≡ ok (
        pos 1,
        record s {
          clients = header_out sockfd (pos l) s.clients;
          sends = rest;
          sent = s.sent ++ ((sockfd, get_string_rep (header_of t l)) ∷ []);
        },
      )
unfolding get_string_rep
send_msg-header sockfd t l s rest h k wb e =
    let size = length-get_string_rep t l h k in
    let all : remainder (header_of t l) header_size ≡ get_string_rep (header_of t l) =
      rw size refl in
    send_msg-whole sockfd (header_of t l) header_size s rest wb (omega (arith, size)) (omega arith)
      e
    ∙ after_sent-header sockfd t l _ h k
    ∙ (rw all refl)

-- After a multicast of a message of more than six bytes to a sorted set of receivers, a header whose
-- fields fit cannot be sent to any of them: the size of the message stands where that of the
-- header should, and `substr` throws.
pub multicast_send-fault :
    (receivers : IntSet) (msg_t : ℤ) (n j t l : ℕ) (s : Server)
    → IsSorted receivers
    → has j receivers ≡ true
    → header_size < n
    → t < 100
    → l < 10000
    → let after = set_multicast receivers msg_t (pos n) (s.clients, s.networking) in
      send_msg j (header_of t l) (record s { clients = after.0; networking = after.1 })
      ≡ fault out_of_range
unfolding get_string_rep
multicast_send-fault receivers msg_t n j t l s sorted hit big h k =
    let after = set_multicast receivers msg_t (pos n) (s.clients, s.networking) in
    let told = set_multicast-Notified receivers msg_t (pos n) j s.clients s.networking sorted in
    send_msg_oversize j (header_of t l) n (record s { clients = after.0; networking = after.1 })
      (told.write_bytes ∙ rw hit refl) (omega (arith, length-get_string_rep t l h k))

-- What comes of a header when `n` bytes of it are marked as unsent and the kernel takes them: an exception
-- when it has less, and else the last `n` bytes go out, and the body is next.
abbrev pub header_sent_from : ℕ → ℕ → ℕ → ℕ → List Sent → Server → Outcome (ℤ × Server)
header_sent_from n j t l rest s =
    if ltb header_size n
    then fault out_of_range
    else ok (
      pos 1,
      record s {
        clients = header_out j (pos l) s.clients;
        sends = rest;
        sent = s.sent ++ ((j, drop (header_size - n) (get_string_rep (header_of t l))) ∷ []);
      },
    )

send_msg-header_sent_from :
    (n j t l : ℕ) (s : Server) (rest : List Sent)
    → get_socket_write_bytes_number j s.clients ≡ pos n
    → t < 100
    → l < 10000
    → s.sends ≡ accepted n ∷ rest
    → send_msg j (header_of t l) s ≡ header_sent_from n j t l rest s
unfolding get_string_rep
send_msg-header_sent_from n j t l s rest wb h k e =
    let size = length-get_string_rep t l h k in
    elim (Bool-cases (ltb header_size n)) [
      | inl big ↦ rw big (send_msg_oversize j (header_of t l) n s wb (ground (arith, size)))
      | inr fits ↦ rw fits (
          send_msg-whole j (header_of t l) n s rest wb (ground (arith, size)) (ground arith) e
          ∙ after_sent-header j t l _ h k
          ∙ rw size refl)
    ]

-- After a multicast of a message of `n` bytes to a sorted set of receivers, when the kernel takes `n`
-- bytes, what comes of a header for any of them, whose fields fit, is what `header_sent_from` says of a
-- header with `n` bytes unsent: only for `n` = 6 does the whole header go out, below that its first
-- bytes are missing, and above it `substr` throws.
pub multicast_send-header_sent_from :
    (receivers : IntSet) (msg_t : ℤ) (n j t l : ℕ) (s : Server) (rest : List Sent)
    → IsSorted receivers
    → has j receivers ≡ true
    → t < 100
    → l < 10000
    → s.sends ≡ accepted n ∷ rest
    → let after = set_multicast receivers msg_t (pos n) (s.clients, s.networking) in
      let s' : Server = record s { clients = after.0; networking = after.1 } in
      send_msg j (header_of t l) s' ≡ header_sent_from n j t l rest s'
multicast_send-header_sent_from receivers msg_t n j t l s rest sorted hit h k e =
    let after = set_multicast receivers msg_t (pos n) (s.clients, s.networking) in
    let told = set_multicast-Notified receivers msg_t (pos n) j s.clients s.networking sorted in
    send_msg-header_sent_from n j t l (record s { clients = after.0; networking = after.1 }) rest
      (told.write_bytes ∙ rw hit refl) h k e
