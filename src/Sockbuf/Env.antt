-- ===== src/Sockbuf/Env.antt =====
-- What c-cpp/onethread/sockbuf.c and socket.c do not implement: the system calls, and the filters
-- and handlers that their users pass by address (`sockbuf_filter_t` and `sockbuf_handler_t` of
-- sockbuf.h). The answer of a system call depends on how many calls were made before it.
use examples.Common.{ℕ, suc, Bool, Option, List, Bytes, ℤ}
use examples.Sockbuf.State.{Ptr, PollBits, Pollfd}
use examples.Sockbuf.Run.{Cmd, ok}

-- `write`: the bytes taken, or `errno`.
pub data Written : Type 0 where
  wrote : ℕ → Written
  failed : ℕ → Written

-- `read`: the bytes read (none at the end of file), or `errno`.
pub data ReadResult : Type 0 where
  got : Bytes → ReadResult
  failed : ℕ → ReadResult

-- What `getsockname`, `getpeername` and `accept` leave, told by its length: the address as
-- `inet_ntop` prints it, for IPv6 also whether it is a mapped IPv4 address, and the port.
pub data SockName : Type 0 where
  ipv4 : Bytes → ℕ → SockName
  ipv6 : Bytes → (is_mapped : Bool) → ℕ → SockName
  other_length : SockName

-- The first argument of each call is the clock. `garbage` is what fresh memory holds.
pub record Os : Type 0 where
  pub eagain : ℕ
  pub write : ℕ → ℤ → Bytes → Written
  pub read : ℕ → ℤ → ℕ → ReadResult
  pub socket_error : ℕ → ℤ → ℕ
  pub getsockname : ℕ → ℤ → Option SockName
  pub getpeername : ℕ → ℤ → Option SockName
  pub accept : ℕ → ℤ → ℤ × SockName
  pub poll : ℕ → List Pollfd → ℤ → ℤ × List PollBits
  pub o_nonblock : ℕ
  pub get_fd_flags : ℕ → ℤ → Option ℕ
  pub set_fd_flags : ℕ → ℤ → ℕ → ℤ
  pub garbage : ℕ → PollBits

pub record Filter : Type 0 where
  pub level : ℤ
  pub on_connect : Option (Ptr → ℕ → Option Bytes → ℕ → Cmd ℤ)
  pub on_eof : Option (Ptr → ℕ → ℕ → Cmd ℤ)
  pub on_newclient : Option (Ptr → ℕ → ℕ → Option Bytes → ℕ → Cmd ℤ)
  pub on_read : Option (Ptr → ℕ → Bytes → Cmd ℤ)
  pub on_write : Option (Ptr → ℕ → Bytes → Cmd ℤ)
  pub on_written : Option (Ptr → ℕ → ℕ → ℕ → Cmd ℤ)
  pub on_flush : Option (Ptr → ℕ → Cmd ℤ)
  pub on_delete : Option (Ptr → ℕ → Cmd ℤ)

pub record Handler : Type 0 where
  pub on_connect : Option (Ptr → ℕ → Option Bytes → ℕ → Cmd ℤ)
  pub on_eof : Option (Ptr → ℕ → ℕ → Cmd ℤ)
  pub on_newclient : Option (Ptr → ℕ → ℕ → Option Bytes → ℕ → Cmd ℤ)
  pub on_read : Option (Ptr → ℕ → Bytes → Cmd ℤ)
  pub on_written : Option (Ptr → ℕ → ℕ → ℕ → Cmd ℤ)
  pub on_delete : Option (Ptr → ℕ → Cmd ℤ)

pub record Env : Type 0 where
  pub os : Os
  pub filter : Ptr → Filter
  pub handler : Ptr → Handler

-- A system call that only answers: its answer at this clock, and the clock moves on.
abbrev pub syscall : {A : Type 0} → (ℕ → A) → Cmd A
syscall answer s = ok (answer s.clock) (record s { clock = suc s.clock })
