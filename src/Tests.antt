-- ===== src/Tests.antt =====
-- A small world for the tests: one connection, three filters, and a system that takes two bytes at
-- a time.
pub mod Table
pub mod Stream
pub mod Chain
pub mod Texts
pub mod Chat
pub mod Tools
pub mod Servers
pub mod Poll
pub mod Services
use examples.Common.{if◌then◌else◌, [], false, length, ltb, none, pos, refl, some, true, ◌∷◌, ◌≡◌}
use examples.Sockbuf.Env.{Env, Filter, Handler, Os, got, ipv4, wrote}
use examples.Sockbuf.Run.{pure}
use examples.Sockbuf.State.{Sockbuf, initial, no_events, no_flags}
use examples.Sockbuf.Table.{fresh_sockbuf}
use examples.Sockbuf.Table.PollSet.{PollInv}
use examples.Sockbuf.Valid.{Holds}
use examples.Sockbuf.State.{Ptr, State}

abbrev pub small_os : Os
small_os = record {
  eagain = 11;
  write = λ t fd chunk. if ltb 2 (length chunk) then wrote 2 else wrote (length chunk);
  read = λ t fd n. got [];
  socket_error = λ t fd. 104;
  getsockname = λ t fd. some (ipv4 (b'm' ∷ b'e' ∷ []) 7000);
  getpeername = λ t fd. none;
  accept = λ t fd. (pos 9, ipv4 (b'y' ∷ b'o' ∷ b'u' ∷ []) 7001);
  poll = λ t fds timeout. (pos 1, record no_events { pollout = true } ∷ []);
  o_nonblock = 2048;
  get_fd_flags = λ t fd. some 2;
  set_fd_flags = λ t fd flags. pos 0;
  garbage = λ t. no_events;
}

-- The filter at an address has that address as its level. It takes reads, writes and connections,
-- and has no use for clients.
abbrev pub plain_filter : Ptr → Filter
plain_filter p = record {
  level = pos p;
  on_connect = some (λ d idx ip port. pure (pos 0));
  on_eof = none;
  on_newclient = none;
  on_read = some (λ d idx chunk. pure (pos p));
  on_write = some (λ d idx chunk. pure (pos p));
  on_written = none;
  on_flush = none;
  on_delete = some (λ d idx. pure (pos 0));
}

abbrev pub quiet_handler : Handler
quiet_handler = record {
  on_connect = none;
  on_eof = none;
  on_newclient = none;
  on_read = none;
  on_written = none;
  on_delete = none;
}

abbrev pub world : Env
world = record { os = small_os; filter = plain_filter; handler = λ h. quiet_handler }

-- A connection on descriptor 5, free to write.
abbrev pub connection : Sockbuf
connection = record fresh_sockbuf { sock = pos 5; flags = no_flags }

-- The same, blocked, with three bytes waiting.
abbrev pub waiting : Sockbuf
waiting = record connection { flags = record no_flags { block = true }; data_out = 1 ∷ 2 ∷ 3 ∷ [] }

-- The same with a filter at level 7.
abbrev pub filtered : Sockbuf
filtered = record connection { filters = 7 ∷ []; filter_client_data = 70 ∷ [] }

abbrev pub with_one : Sockbuf → State
with_one b = record initial {
  sockbufs = b ∷ [];
  idx_array = 0 ∷ [];
  pollfds =
      record {
        fd = b.sock;
        events = record no_events { pollin = true };
        revents = record no_events { pollout = true };
      }
      ∷ [];
  npollfds = 1;
}

pub Holds-connection : Holds (with_one connection) 0 connection
Holds-connection = record { at = refl; live = refl }

pub Holds-waiting : Holds (with_one waiting) 0 waiting
Holds-waiting = record { at = refl; live = refl }

pub Holds-filtered : Holds (with_one filtered) 0 filtered
Holds-filtered = record { at = refl; live = refl }

-- The poll set of such a state is right.
pub with_one-PollInv : (b : Sockbuf) → b.flags.avail ≡ false → PollInv (with_one b)
with_one-PollInv b used = record {
  socks = refl;
  total = refl;
  distinct = (tt, tt);
  paired = (simp used refl, tt);
}
