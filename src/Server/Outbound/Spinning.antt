-- ===== src/Server/Outbound/Spinning.antt =====
-- Where the loop for what is sent to a logged-in client never ends.
use tin_system_do_wspolpracy.Base.{
  List, [], false, fault, ok, out_of_fuel, pos, refl, suc, true, zero, ℕ, ◌++◌, ◌<◌, ◌==ℤ◌, ◌∙◌,
  ◌∷◌, ◌≡◌,
}
use tin_system_do_wspolpracy.ClientsMonitor.{
  get_socket_write_state, get_socket_write_bytes_number, login_ended, header_to_send, header_sent,
  set_socket_write_state, set_socket_write_bytes_number,
}
use tin_system_do_wspolpracy.ClientsMonitor.Fields.{header_out}
use tin_system_do_wspolpracy.ClientsMonitor.Phases.{write_state_of_header_out}
use tin_system_do_wspolpracy.Header.{header_size}
use tin_system_do_wspolpracy.Message.{get_string_rep}
use tin_system_do_wspolpracy.MsgType
use tin_system_do_wspolpracy.Networking.{get_msg_type, get_msg_len, to_send_header, to_send_msg}
use tin_system_do_wspolpracy.Server.State.{Server, Garbage, Sent, accepted}
use tin_system_do_wspolpracy.Server.State.Ensures.{bind_ok}
use tin_system_do_wspolpracy.Server.Transfer.{send_msg}
use tin_system_do_wspolpracy.Server.Transfer.Headers.{header_of, send_msg-header}
use tin_system_do_wspolpracy.Server.Outbound.{
  outbound_len, outbound_header, outbound_msg, outbound_round, outbound_loop,
}

-- A header is out for a message that is not an edit.
record IsStuck (k : ℕ) (s : Server) : Type 0 where
  pub ended : login_ended k s.clients ≡ true
  pub header_gone : get_socket_write_state k s.clients ≡ header_sent
  pub no_edit : (get_msg_type k s.networking ==ℤ MsgType.edit) ≡ false

outbound_msg_stuck :
    (k : ℕ) (s : Server)
    → get_socket_write_state k s.clients ≡ header_sent
    → (get_msg_type k s.networking ==ℤ MsgType.edit) ≡ false
    → outbound_msg k s ≡ ok (false, s)
unfolding outbound_msg to_send_msg
outbound_msg_stuck k s e n = rw (e, to_send_msg) (rw n refl)

outbound_header_stuck :
    (g : Garbage) (k : ℕ) (s : Server)
    → get_socket_write_state k s.clients ≡ header_sent
    → outbound_header g k s ≡ ok (false, s)
unfolding outbound_header to_send_header
outbound_header_stuck g k s e = rw (e, to_send_header) refl

outbound_round_stuck :
    (fuel : ℕ) (g : Garbage) (k : ℕ) (s : Server)
    → IsStuck k s
    → outbound_round fuel g k s ≡ ok (false, s)
unfolding outbound_round
outbound_round_stuck fuel g k s h = rw (h.ended) (
    bind_ok (outbound_header g k) _ s false s (outbound_header_stuck g k s h.header_gone)
    ∙ bind_ok (outbound_msg k) _ s false s (outbound_msg_stuck k s h.header_gone h.no_edit))

outbound_loop_stuck :
    (rounds fuel : ℕ) (g : Garbage) (k : ℕ) (s : Server)
    → IsStuck k s
    → outbound_loop rounds fuel g k s ≡ fault out_of_fuel
unfolding outbound_loop
outbound_loop_stuck zero fuel g k s h = refl
outbound_loop_stuck (suc rounds) fuel g k s h =
    rw (outbound_round_stuck fuel g k s h, outbound_loop) (outbound_loop_stuck rounds fuel g k s h)

-- The state when the header is out.
abbrev announced : ℕ → ℕ → ℕ → List Sent → Server → Server
announced k t l rest s = record s {
  clients = header_out k (pos l) s.clients;
  sends = rest;
  sent = s.sent ++ ((k, get_string_rep (header_of t l)) ∷ []);
}

outbound_len-other :
    (g : Garbage) (k t l : ℕ) (s : Server)
    → (pos t ==ℤ MsgType.edit) ≡ false
    → get_msg_len k s.networking ≡ pos l
    → outbound_len g k (pos t) s ≡ ok (pos l, s)
unfolding outbound_len
outbound_len-other g k t l s n ml = rw n (rw ml refl)

outbound_header-announced :
    (g : Garbage) (k t l : ℕ) (s : Server) (rest : List Sent)
    → get_socket_write_state k s.clients ≡ header_to_send
    → get_socket_write_bytes_number k s.clients ≡ pos header_size
    → get_msg_type k s.networking ≡ pos t
    → get_msg_len k s.networking ≡ pos l
    → (pos t ==ℤ MsgType.edit) ≡ false
    → t < 100
    → l < 10000
    → s.sends ≡ accepted header_size ∷ rest
    → outbound_header g k s ≡ ok (false, announced k t l rest s)
unfolding outbound_header to_send_header
outbound_header-announced g k t l s rest ws wb mt ml n small short e =
    rw (ws, to_send_header)
      (rw mt (
        bind_ok (outbound_len g k (pos t)) _ s (pos l) s (outbound_len-other g k t l s n ml)
        ∙ bind_ok (send_msg k (header_of t l)) _ s (pos 1) (announced k t l rest s)
            (send_msg-header k t l s rest small short wb e)))

announced-IsStuck :
    (k t l : ℕ) (s : Server) (rest : List Sent)
    → login_ended k s.clients ≡ true
    → get_msg_type k s.networking ≡ pos t
    → (pos t ==ℤ MsgType.edit) ≡ false
    → IsStuck k (announced k t l rest s)
unfolding login_ended set_socket_write_state set_socket_write_bytes_number
announced-IsStuck k t l s rest ended mt n = record {
  ended = ended;
  header_gone = write_state_of_header_out k (pos l) s.clients;
  no_edit = rw mt n;
}

outbound_round-announced :
    (fuel : ℕ) (g : Garbage) (k t l : ℕ) (s : Server) (rest : List Sent)
    → login_ended k s.clients ≡ true
    → get_socket_write_state k s.clients ≡ header_to_send
    → get_socket_write_bytes_number k s.clients ≡ pos header_size
    → get_msg_type k s.networking ≡ pos t
    → get_msg_len k s.networking ≡ pos l
    → (pos t ==ℤ MsgType.edit) ≡ false
    → t < 100
    → l < 10000
    → s.sends ≡ accepted header_size ∷ rest
    → outbound_round fuel g k s ≡ ok (false, announced k t l rest s)
unfolding outbound_round
outbound_round-announced fuel g k t l s rest ended ws wb mt ml n small short e =
    let s' = announced k t l rest s in
    let stuck = announced-IsStuck k t l s rest ended mt n in
    rw ended (
      bind_ok (outbound_header g k) _ s false s'
        (outbound_header-announced g k t l s rest ws wb mt ml n small short e)
      ∙ bind_ok (outbound_msg k) _ s' false s'
          (outbound_msg_stuck k s' stuck.header_gone stuck.no_edit))

-- For a logged-in client whose current message is not an edit, and to which a header is to be sent, all
-- its bytes unsent and its fields fitting, if the kernel takes the header whole, then the loop for what
-- is sent never ends: it runs out of any number of rounds.
pub outbound_loop-spins :
    (rounds fuel : ℕ) (g : Garbage) (k t l : ℕ) (s : Server) (rest : List Sent)
    → login_ended k s.clients ≡ true
    → get_socket_write_state k s.clients ≡ header_to_send
    → get_socket_write_bytes_number k s.clients ≡ pos header_size
    → get_msg_type k s.networking ≡ pos t
    → get_msg_len k s.networking ≡ pos l
    → (pos t ==ℤ MsgType.edit) ≡ false
    → t < 100
    → l < 10000
    → s.sends ≡ accepted header_size ∷ rest
    → outbound_loop rounds fuel g k s ≡ fault out_of_fuel
unfolding outbound_loop
outbound_loop-spins zero fuel g k t l s rest ended ws wb mt ml n small short e = refl
outbound_loop-spins (suc rounds) fuel g k t l s rest ended ws wb mt ml n small short e =
    rw
      (
        outbound_round-announced fuel g k t l s rest ended ws wb mt ml n small short e,
        outbound_loop,
      )
      (outbound_loop_stuck rounds fuel g k (announced k t l rest s)
        (announced-IsStuck k t l s rest ended mt n))
