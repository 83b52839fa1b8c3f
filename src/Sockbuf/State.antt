-- ===== src/Sockbuf/State.antt =====
-- c-cpp/onethread/sockbuf.h and the file-scope data of c-cpp/onethread/sockbuf.c: flag words,
-- statistics, one sockbuf, the poll set, and what the operating system has been told so far.
use examples.Common.{
  ℕ, Bool, false, ◌&&◌, ◌||◌, Option, none, List, [], Bytes, ℤ, minus_one, replicate,
}

-- A flag word is the record of its named bits.
pub record Flags : Type 0 where
  pub block : Bool
  pub server : Bool
  pub client : Bool
  pub connecting : Bool
  pub inbound : Bool
  pub deleted : Bool
  pub noread : Bool
  pub avail : Bool

abbrev pub no_flags : Flags
no_flags = record {
  block = false;
  server = false;
  client = false;
  connecting = false;
  inbound = false;
  deleted = false;
  noread = false;
  avail = false;
}

-- a | b
abbrev pub flags_or : Flags → Flags → Flags
flags_or a b = record {
  block = a.block || b.block;
  server = a.server || b.server;
  client = a.client || b.client;
  connecting = a.connecting || b.connecting;
  inbound = a.inbound || b.inbound;
  deleted = a.deleted || b.deleted;
  noread = a.noread || b.noread;
  avail = a.avail || b.avail;
}

-- (a & b) != 0
abbrev pub flags_meet : Flags → Flags → Bool
flags_meet a b =
    (a.block && b.block)
    || (a.server && b.server)
    || (a.client && b.client)
    || (a.connecting && b.connecting)
    || (a.inbound && b.inbound)
    || (a.deleted && b.deleted)
    || (a.noread && b.noread)
    || (a.avail && b.avail)

-- The unsigned counters wrap at 2 ^ 64; the snapshots are plain `int`s.
pub record Stats : Type 0 where
  pub raw_bytes_in : ℕ
  pub raw_bytes_out : ℕ
  pub raw_bytes_left : ℕ
  pub bytes_in : ℕ
  pub bytes_out : ℕ
  pub total_in_cps : ℕ
  pub snapshot_in_cps : ℕ
  pub total_out_cps : ℕ
  pub snapshot_out_cps : ℕ
  pub snapshot_in_bytes : List ℕ
  pub snapshot_out_bytes : List ℕ
  pub snapshot_counter : ℕ
  pub last_snapshot : ℕ

-- What `calloc` gives.
abbrev pub zero_stats : Stats
zero_stats = record {
  raw_bytes_in = 0;
  raw_bytes_out = 0;
  raw_bytes_left = 0;
  bytes_in = 0;
  bytes_out = 0;
  total_in_cps = 0;
  snapshot_in_cps = 0;
  total_out_cps = 0;
  snapshot_out_cps = 0;
  snapshot_in_bytes = replicate 5 0;
  snapshot_out_bytes = replicate 5 0;
  snapshot_counter = 0;
  last_snapshot = 0;
}

-- The address of a filter, a handler or a client's data.
abbrev pub Ptr : Type 0
Ptr = ℕ

-- The address of the static `sockbuf_idler`.
abbrev pub sockbuf_idler : Ptr
sockbuf_idler = 0

-- `len` is the length of `data`, `nfilters` that of the two parallel arrays.
pub record Sockbuf : Type 0 where
  pub sock : ℤ
  pub flags : Flags
  pub peer_ip : Option Bytes
  pub peer_port : ℕ
  pub my_ip : Option Bytes
  pub my_port : ℕ
  pub stats : Option Stats
  pub data_out : Bytes
  pub filters : List Ptr
  pub filter_client_data : List Ptr
  pub handler : Option Ptr
  pub client_data : Ptr

-- What `memset (sbuf, 0, sizeof (*sbuf))` leaves, with `sock` set to -1.
abbrev pub blank_sockbuf : Sockbuf
blank_sockbuf = record {
  sock = minus_one;
  flags = no_flags;
  peer_ip = none;
  peer_port = 0;
  my_ip = none;
  my_port = 0;
  stats = none;
  data_out = [];
  filters = [];
  filter_client_data = [];
  handler = none;
  client_data = 0;
}

pub record PollBits : Type 0 where
  pub pollin : Bool
  pub pollout : Bool
  pub pollhup : Bool
  pub pollnval : Bool
  pub pollerr : Bool

abbrev pub no_events : PollBits
no_events = record {
  pollin = false;
  pollout = false;
  pollhup = false;
  pollnval = false;
  pollerr = false;
}

-- `revents` is set by `poll` alone.
pub record Pollfd : Type 0 where
  pub fd : ℤ
  pub events : PollBits
  pub revents : PollBits

-- `pollfds` holds the sockbufs' entries, one for each place of `idx_array`, and then the
-- listeners'. `clock` counts system calls; `wire` holds what `write` took and `closed` what was
-- closed, both oldest first. `table` counts the calls of `realloc` on `sockbufs`: a pointer into
-- the array, taken under one count, dangles under another.
pub record State : Type 0 where
  pub sockbufs : List Sockbuf
  pub table : ℕ
  pub ndeleted_sockbufs : ℕ
  pub idx_array : List ℕ
  pub pollfds : List Pollfd
  pub npollfds : ℕ
  pub nlisteners : ℕ
  pub depth : ℕ
  pub clock : ℕ
  pub wire : List (ℤ × Bytes)
  pub closed : List ℤ

abbrev pub initial : State
initial = record {
  sockbufs = [];
  table = 0;
  ndeleted_sockbufs = 0;
  idx_array = [];
  pollfds = [];
  npollfds = 0;
  nlisteners = 0;
  depth = 0;
  clock = 0;
  wire = [];
  closed = [];
}
