-- ===== src/Socket.antt =====
-- c-cpp/onethread/socket.c: the names of sockets, accepting and closing. The system calls are the
-- record `Os`.
pub mod Names
pub mod Create
pub mod Dots
use examples.Common.{
  ℕ, ◌+◌, ◌-◌, Bool, true, false, Option, none, some, List, [], ◌∷◌, ◌++◌, Bytes, ℤ, pos, minus_one,
  if◌then◌else◌, take, drop, length, c_string,
}
use examples.Sockbuf.State.{State}
use Prim.Native.Nat.{bit_and, bit_or}
use examples.Sockbuf.Run.{Cmd, ok, pure, update, ◌>>=◌, ◌>>◌}
use examples.Sockbuf.Env.{Os, SockName, ipv4, ipv6, other_length, syscall}

-- `memmove (buf, buf + from, n)`, on a buffer that holds `buf` and then a NUL; read as a string.
unfoldable pub memmove_down : Bytes → ℕ → ℕ → Bytes
memmove_down buf from n =
    let full = buf ++ 0 ∷ [] in c_string (take n (drop from full) ++ drop n full)

-- The IPv6 text that `socket_get_name` and `socket_accept` give; they differ in the bytes moved.
unfoldable pub unmap_get_name : Bytes → Bool → Bytes
unmap_get_name ip is_mapped = if is_mapped then memmove_down ip 7 (length ip - 7) else ip

unfoldable pub unmap_accept : Bytes → Bool → Bytes
unmap_accept ip is_mapped = if is_mapped then memmove_down ip 7 (length ip - 6) else ip

pub record Name : Type 0 where
  pub ret : ℤ
  pub ip : Option Bytes
  pub port : ℕ

abbrev pub no_name : Name
no_name = record { ret = minus_one; ip = none; port = 0 }

-- The first call looks for an IPv4 address, a second one for an IPv6 address.
unfoldable pub get_name_ipv6 : Option SockName → Name
get_name_ipv6 (some (ipv6 ip is_mapped port)) = record {
  ret = pos 0;
  ip = some (unmap_get_name ip is_mapped);
  port = port;
}
get_name_ipv6 other = no_name

unfoldable pub socket_get_name : Os → ℤ → Cmd Name
unfolding get_name_ipv6
socket_get_name os sock = do
  first ← syscall (λ t. os.getsockname t sock)
  elim first [
    | none ↦ do second ← syscall (λ t. os.getsockname t sock); pure (get_name_ipv6 second)
    | some name ↦ elim name [
      | ipv4 ip port ↦ pure (record { ret = pos 0; ip = some ip; port = port })
      | _ ↦ do second ← syscall (λ t. os.getsockname t sock); pure (get_name_ipv6 second)
    ]
  ]

-- As above, but a mapped address is left as it is.
unfoldable pub get_peer_name_ipv6 : Option SockName → Name
get_peer_name_ipv6 (some (ipv6 ip is_mapped port)) = record {
  ret = pos 0;
  ip = some ip;
  port = port;
}
get_peer_name_ipv6 other = no_name

unfoldable pub socket_get_peer_name : Os → ℤ → Cmd Name
unfolding get_peer_name_ipv6
socket_get_peer_name os sock = do
  first ← syscall (λ t. os.getpeername t sock)
  elim first [
    | none ↦ do second ← syscall (λ t. os.getpeername t sock); pure (get_peer_name_ipv6 second)
    | some name ↦ elim name [
      | ipv4 ip port ↦ pure (record { ret = pos 0; ip = some ip; port = port })
      | _ ↦ do second ← syscall (λ t. os.getpeername t sock); pure (get_peer_name_ipv6 second)
    ]
  ]

unfoldable pub socket_get_error : Os → ℤ → Cmd ℕ
socket_get_error os sock = syscall (λ t. os.socket_error t sock)

-- `ret` is the new descriptor.
unfoldable pub accepted_name : ℤ × SockName → Name
accepted_name (fd, ipv4 ip port) = record { ret = fd; ip = some ip; port = port }
accepted_name (fd, ipv6 ip is_mapped port) = record {
  ret = fd;
  ip = some (unmap_accept ip is_mapped);
  port = port;
}
accepted_name (fd, other_length) = record { ret = fd; ip = none; port = 0 }

unfoldable pub socket_accept : Os → ℤ → Cmd Name
unfolding accepted_name
socket_accept os sock = do r ← syscall (λ t. os.accept t sock); pure (accepted_name r)

-- `shutdown` and `close`.
unfoldable pub socket_close : ℤ → Cmd (Unit {0})
socket_close sock = update λ s. record s { clock = s.clock + 2; closed = s.closed ++ sock ∷ [] }

-- F_GETFL, the bit set or cleared, F_SETFL.
unfoldable pub socket_set_nonblock : Os → ℤ → Bool → Cmd ℤ
socket_set_nonblock os sock value = do
  old ← syscall (λ t. os.get_fd_flags t sock)
  elim old [
    | none ↦ pure minus_one
    | some flags ↦ syscall λ t.
        os.set_fd_flags t sock
          (if value then bit_or flags os.o_nonblock else flags - bit_and flags os.o_nonblock)
  ]
