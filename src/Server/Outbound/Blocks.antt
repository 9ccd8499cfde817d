-- ===== src/Server/Outbound/Blocks.antt =====
-- The blocks of the loop for what is sent to an editor: what each uses up of the kernel's answers.
use tin_system_do_wspolpracy.Base.{
  Bool, Bytes, ap, arith, false, if◌then◌else◌, inl, inr, minus_one, pos, refl, subst, sym, true, ℕ,
  ℤ, ◌<◌, ◌==ℤ◌, ◌≡◌, ◌⊎◌,
}
use tin_system_do_wspolpracy.ClientsMonitor.{
  ClientsMonitor, get_socket_write_state, header_to_send, header_sent,
}
use tin_system_do_wspolpracy.Header.{Header}
use tin_system_do_wspolpracy.Message.{header, edit}
use tin_system_do_wspolpracy.MsgType
use tin_system_do_wspolpracy.Networking.{
  get_msg_type, set_msg_len, get_first_obs_len, to_send_header, to_send_msg,
}
use tin_system_do_wspolpracy.Networking.Multicast.{get_msg_type-set_msg_len}
use tin_system_do_wspolpracy.NotepadHandler.{is_to_fetch_changes, get_file_as_str}
use tin_system_do_wspolpracy.Server.State.{Server, Garbage, pure, on_networking}
use tin_system_do_wspolpracy.Server.State.Ensures.{
  Ensures, Ensures-bind, Ensures-if, Ensures-after, Ensures-both,
}
use tin_system_do_wspolpracy.Server.State.Keeping.{IsKeeping, Same, keeping}
use tin_system_do_wspolpracy.Server.Transfer.{send_msg}
use tin_system_do_wspolpracy.Server.Transfer.Keeping.{lift-IsKeeping, send_msg-IsKeeping}
use tin_system_do_wspolpracy.Server.Transfer.Spent.{left}
use tin_system_do_wspolpracy.Server.Transfer.Used.{
  IsWriting, Went, send_msg-Went, after_sent-header, after_sent-edit,
}
use tin_system_do_wspolpracy.Server.Outbound.{
  first_obs_len, outbound_len, outbound_header, take_changes, after_file, after_changes,
  outbound_msg,
}

-- What decides how the loop goes on.
abbrev course : ℕ → Server → ClientsMonitor × ℕ × ℤ
course k s = (s.clients, left s, get_msg_type k s.networking)

set_msg_len-course : (k : ℕ) (l : ℤ) → IsKeeping (course k) (on_networking (set_msg_len k l))
set_msg_len-course k l = record {
  keeps = λ s. ap (λ t. (s.clients, left s, t)) (get_msg_type-set_msg_len k l s.networking);
}

first_obs_len-course :
    (g : Garbage) (k : ℕ) (msg_type : ℤ) → IsKeeping (course k) (first_obs_len g k msg_type)
unfolding first_obs_len get_first_obs_len get_msg_type
first_obs_len-course g k msg_type = record { keeps = λ s. refl }

outbound_len-course :
    (g : Garbage) (k : ℕ) (msg_type : ℤ) → IsKeeping (course k) (outbound_len g k msg_type)
unfolding outbound_len
outbound_len-course g k msg_type =
    search (keeping, set_msg_len-course, first_obs_len-course) depth 14

take_changes-course : (k : ℕ) → IsKeeping (course k) (take_changes k)
unfolding take_changes
take_changes-course k = search (keeping, lift-IsKeeping) depth 14

-- The current message of the descriptor is an edit, whose header or body is to be sent.
abbrev pub IsEditing : ℕ → Server → Type 0
IsEditing k s = ((get_msg_type k s.networking ==ℤ MsgType.edit) ≡ true) × IsWriting k s.clients

-- After the block for headers: the loop is left; or the body is to be sent, and nothing was done; or an
-- answer was used up.
abbrev pub AfterHeader : ℕ → Server → Bool → Server → Type 0
AfterHeader k s b t =
    (b ≡ true)
    ⊎ (IsEditing k t
        × ((left t < left s)
            ⊎ ((get_socket_write_state k t.clients ≡ header_sent) × (left t ≡ left s))))

IsEditing-along : (k : ℕ) (s t : Server) → Same (course k) s t → IsEditing k s → IsEditing k t
IsEditing-along k s t same h =
    subst (λ c. ((c.2 ==ℤ MsgType.edit) ≡ true) × IsWriting k c.0) (sym same) h

pub outbound_header-AfterHeader :
    (g : Garbage) (k : ℕ) (s : Server)
    → IsEditing k s
    → Ensures (AfterHeader k s) (outbound_header g k s)
unfolding outbound_header to_send_header
outbound_header-AfterHeader g k s (edits, writes) =
    let P = AfterHeader k s in
    let msg_type = get_msg_type k s.networking in
    Ensures-if P (to_send_header k s.clients) _ (pure false) s
      (λ _.
        Ensures-bind (λ _ t. Same (course k) s t) P (outbound_len g k msg_type) _ s
          ((outbound_len-course g k msg_type).keeps s)
          λ len t same.
            let h : Header = record { msg_type = msg_type; msg_len = len } in
            let (edits', writes') = IsEditing-along k s t same (edits, writes) in
            let Q : Server → Type 0 = λ u. IsWriting k u.clients in
            Ensures-bind (λ r u. Went Q k t r u × Same (λ v. v.networking) t u) P
              (send_msg k (header h)) _ t
              (Ensures-both (Went Q k t) (λ _ u. Same (λ v. v.networking) t u)
                (send_msg k (header h) t)
                (send_msg-Went Q k (header h) t (after_sent-header k h) writes')
                ((send_msg-IsKeeping (λ u. u.networking) k (header h)).keeps t))
              λ r u went. elim went.0 [
                | inl blocked ↦ inl blocked
                | inr (more, less) ↦ inr (
                  (rw went.1 edits', elim more [ inl out ↦ out.1 | inr still ↦ still ]),
                  inl (subst (λ c. left u < c.1) same less),
                )
              ])
      λ waits. elim writes [
        | inl e ↦ absurd (ground arith)
        | inr e ↦ inr ((edits, inr e), inr (e, refl))
      ]

-- After the block for bodies.
abbrev pub AfterMsg : ℕ → Server → Bool → Server → Type 0
AfterMsg k s b t = (b ≡ true) ⊎ (IsEditing k t × (left t < left s))

-- What is sent: the whole document, or the next change.
edit_msg_course :
    (k : ℕ) (fetches : Bool) (text : Bytes)
    → IsKeeping (course k) (if fetches then pure text else take_changes k)
edit_msg_course k fetches text = search (keeping, take_changes-course) depth 14

pub outbound_msg-AfterMsg :
    (k : ℕ) (s : Server)
    → IsEditing k s
    → Ensures
        (λ b t.
          AfterMsg k s b t
          ⊎ ((get_socket_write_state k s.clients ≡ header_to_send)
              × (IsEditing k t × (left t ≡ left s))))
        (outbound_msg k s)
unfolding outbound_msg to_send_msg
outbound_msg-AfterMsg k s (edits, writes) =
    let P : Bool → Server → Type 0 = λ b t.
      AfterMsg k s b t
      ⊎ ((get_socket_write_state k s.clients ≡ header_to_send)
          × (IsEditing k t × (left t ≡ left s))) in
    let msg_type = get_msg_type k s.networking in
    let fetches = is_to_fetch_changes k s.notepad in
    Ensures-if P (to_send_msg k s.clients) _ (pure false) s
      (λ _.
        Ensures-if P (msg_type ==ℤ MsgType.edit) _ (pure false) s
          (λ _.
            Ensures-bind (λ _ t. Same (course k) s t) P
              (if fetches then pure (get_file_as_str s.notepad) else take_changes k) _ s
              ((edit_msg_course k fetches (get_file_as_str s.notepad)).keeps s)
              λ text t same.
                let (edits', writes') = IsEditing-along k s t same (edits, writes) in
                let Q : Server → Type 0 = λ u. Unit {0} in
                Ensures-bind (λ r u. Went Q k t r u × Same (λ v. v.networking) t u) P
                  (send_msg k (edit text)) _ t
                  (Ensures-both (Went Q k t) (λ _ u. Same (λ v. v.networking) t u)
                    (send_msg k (edit text) t)
                    (send_msg-Went Q k (edit text) t (after_sent-edit k text) writes')
                    ((send_msg-IsKeeping (λ u. u.networking) k (edit text)).keeps t))
                  λ r u went.
                    Ensures-if P (r ==ℤ minus_one) (pure true) _ u (λ _. inl (inl refl))
                      λ other.
                        Ensures-if P (r ==ℤ pos 1) _ (pure false) u
                          (λ _.
                            Ensures-after P
                              (if fetches then after_file k else after_changes k msg_type) _ u
                              λ _ _. inl (inl refl))
                          λ part. elim went.0 [
                            | inl blocked ↦ absurd (ground arith)
                            | inr (inl out, less) ↦ absurd (ground (arith, out.0))
                            | inr (inr still, less) ↦ inl (
                                inr
                                  ((rw went.1 edits', still), subst (λ c. left u < c.1) same less))
                          ])
          λ no. absurd (ground arith))
      λ waits. elim writes [
        | inl e ↦ inr (e, ((edits, inl e), refl))
        | inr e ↦ absurd (ground arith)
      ]
