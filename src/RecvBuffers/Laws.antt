-- ===== src/RecvBuffers/Laws.antt =====
-- A descriptor's buffer after each member, and the buffers of the others.
use tin_system_do_wspolpracy.Base.{Bytes, [], arith, if◌then◌else◌, take, ℕ, ◌++◌, ◌==◌, ◌≡◌}
use tin_system_do_wspolpracy.IntMap.{find, get_or}
use tin_system_do_wspolpracy.IntMap.Laws.{find-update, find-erase}
use tin_system_do_wspolpracy.RecvBuffers.{
  RecvBuffers, add_new, clear_buff, delete_buff, get_string_from_bytes, cpy_to_recv_buff,
}

-- What `get_string_from_bytes` reads.
abbrev pub contents : ℕ → RecvBuffers → Bytes
contents sockfd r = get_or [] (find sockfd r.buffers)

pub contents-clear_buff :
    (j sockfd : ℕ) (r : RecvBuffers)
    → contents j (clear_buff sockfd r) ≡ (if sockfd == j then [] else contents j r)
unfolding clear_buff
contents-clear_buff j sockfd r =
    ground (arith, find-update j sockfd [] (λ (_ : Bytes). []) r.buffers)

pub contents-cpy_to_recv_buff :
    (j sockfd : ℕ) (from : Bytes) (len : ℕ) (r : RecvBuffers)
    → contents j (cpy_to_recv_buff from len sockfd r)
      ≡ (if sockfd == j then contents j r ++ take len from else contents j r)
unfolding cpy_to_recv_buff
contents-cpy_to_recv_buff j sockfd from len r =
    ground (arith, find-update j sockfd [] (λ (v : Bytes). v ++ take len from) r.buffers)

pub contents-get_string_from_bytes :
    (j sockfd : ℕ) (r : RecvBuffers) → contents j (get_string_from_bytes sockfd r).1 ≡ contents j r
unfolding get_string_from_bytes
contents-get_string_from_bytes j sockfd r =
    ground (arith, find-update j sockfd [] (λ (v : Bytes). v) r.buffers)

pub contents-add_new :
    (j sockfd : ℕ) (r : RecvBuffers) → contents j (add_new sockfd r).0 ≡ contents j r
unfolding add_new
contents-add_new j sockfd r = ground (arith, find-update j sockfd [] (λ (v : Bytes). v) r.buffers)

pub contents-delete_buff :
    (j sockfd : ℕ) (r : RecvBuffers)
    → contents j (delete_buff sockfd r) ≡ (if sockfd == j then [] else contents j r)
unfolding delete_buff
contents-delete_buff j sockfd r = ground (arith, find-erase j sockfd r.buffers)
