-- ===== src/RecvBuffers.antt =====
-- server/RecvBuffers.h and server/RecvBuffers.cpp: the bytes received so far, for each descriptor.
-- A member that writes `buffers[sockfd]` creates an empty buffer where there is none, so a read of a
-- string returns the buffers too.
pub mod Laws
use tin_system_do_wspolpracy.Base.{
  Bool, Bytes, [], length, minus_one, none, not, pos, some, take, ℕ, ℤ, ◌++◌,
}
use tin_system_do_wspolpracy.IntMap.{IntMap, find, has, update, insert, erase, get_or}

pub record RecvBuffers : Type 0 where
  pub buffers : IntMap Bytes

unfoldable pub add_new : ℕ → RecvBuffers → RecvBuffers × Bool
add_new sockfd r = (record { buffers = insert sockfd [] r.buffers }, not (has sockfd r.buffers))

unfoldable pub get_size : RecvBuffers → ℕ
get_size r = length r.buffers

unfoldable pub get_buffer_current_size : ℕ → RecvBuffers → ℤ
get_buffer_current_size sockfd r = elim (find sockfd r.buffers) [
  | none ↦ minus_one
  | some bytes ↦ pos (length bytes)
]

unfoldable pub clear_buff : ℕ → RecvBuffers → RecvBuffers
clear_buff sockfd r = record { buffers = update sockfd [] (λ _. []) r.buffers }

unfoldable pub delete_buff : ℕ → RecvBuffers → RecvBuffers
delete_buff sockfd r = record { buffers = erase sockfd r.buffers }

unfoldable pub get_string_from_bytes : ℕ → RecvBuffers → Bytes × RecvBuffers
get_string_from_bytes sockfd r =
    (get_or [] (find sockfd r.buffers), record { buffers = insert sockfd [] r.buffers })

unfoldable pub cpy_to_recv_buff : Bytes → ℕ → ℕ → RecvBuffers → RecvBuffers
cpy_to_recv_buff from len sockfd r = record {
  buffers = update sockfd [] (λ v. v ++ take len from) r.buffers;
}
