-- ===== src/Sockbuf/Table.antt =====
-- The table of sockbufs and the poll set, in c-cpp/onethread/sockbuf.c: `sockbuf_isvalid`,
-- `sockbuf_new`, `sockbuf_set_sock`, the read and write interest of an entry, and the listeners.
pub mod Paired
pub mod PollSet
pub mod SetSock
pub mod Placed
pub mod New
use examples.Common.{
  ℕ, ◌+◌, ◌-◌, Bool, true, false, not, ◌||◌, none, some, List, [], ◌∷◌, ◌++◌, ℤ, pos, negsuc,
  minus_one, ltb, ◌==◌, if◌then◌else◌, eqb_ℤ, is_nonneg, length, get_elem?, set, modify_at,
  insert_at, remove_at, find_index, replicate, drop,
}
use examples.Sockbuf.State.{
  Flags, no_flags, flags_or, zero_stats, sockbuf_idler, Sockbuf, blank_sockbuf, PollBits, no_events,
  Pollfd, State,
}
use examples.Sockbuf.Run.{
  Cmd, ok, pure, get_state, update, fetch, store, modify_sockbuf, ◌>>=◌, ◌>>◌,
}
use examples.Sockbuf.Env.{Env}
use examples.Socket.{socket_get_name, socket_close}

-- flags & (SOCKBUF_AVAIL | SOCKBUF_DELETED)
abbrev pub is_live : Sockbuf → Bool
is_live b = not (b.flags.avail || b.flags.deleted)

abbrev pub is_valid_at : State → ℕ → Bool
is_valid_at s idx = elim (get_elem? s.sockbufs idx) [ none ↦ false | some b ↦ is_live b ]

abbrev pub sockbuf_isvalid : State → ℤ → Bool
sockbuf_isvalid s (pos idx) = is_valid_at s idx
sockbuf_isvalid s (negsuc n) = false

-- if (!sockbuf_isvalid (idx)) return (refusal);
abbrev pub guard_valid : {A : Type 0} → A → ℤ → (ℕ → Cmd A) → Cmd A
guard_valid refusal (pos idx) body s = if is_valid_at s idx then body idx s else ok refusal s
guard_valid refusal (negsuc n) body s = ok refusal s

abbrev pub if_valid : ℤ → (ℕ → Cmd ℤ) → Cmd ℤ
if_valid = guard_valid minus_one

-- Search loops over `idx_array`: the place of `idx`, or `npollfds`.
abbrev pub place_of : ℕ → List ℕ → ℕ
place_of idx = find_index (λ j. j == idx)

abbrev pub edit_events : (PollBits → PollBits) → Pollfd → Pollfd
edit_events f p = record p { events = f p.events }

-- The effect of `pollfds[i].events op= mask` at the entry of `idx`, if it has one.
abbrev pub edit_events_of : (PollBits → PollBits) → ℕ → State → State
edit_events_of f idx s =
    let i = place_of idx s.idx_array in
    if ltb i s.npollfds then record s { pollfds = modify_at (edit_events f) i s.pollfds } else s

unfoldable pub sockbuf_block : ℕ → Cmd (Unit {0})
sockbuf_block idx = do
  modify_sockbuf (λ b. record b { flags = record (b.flags) { block = true } }) idx
  update (edit_events_of (λ e. record e { pollout = true }) idx)

unfoldable pub sockbuf_unblock : ℕ → Cmd (Unit {0})
sockbuf_unblock idx = do
  modify_sockbuf (λ b. record b { flags = record (b.flags) { block = false } }) idx
  update (edit_events_of (λ e. record e { pollout = false }) idx)

unfoldable pub edit_interest : (PollBits → PollBits) → ℤ → Cmd ℤ
edit_interest f idx = if_valid idx λ i. do
  s ← get_state
  if ltb (place_of i s.idx_array) s.npollfds
      then (do update (edit_events_of f i); pure (pos 0))
      else pure minus_one

unfoldable pub sockbuf_noread : ℤ → Cmd ℤ
unfolding edit_interest
sockbuf_noread = edit_interest (λ e. record e { pollin = false })

unfoldable pub sockbuf_read : ℤ → Cmd ℤ
unfolding edit_interest
sockbuf_read = edit_interest (λ e. record e { pollin = true })

-- The first entry that is AVAIL.
abbrev pub first_avail : List Sockbuf → ℕ
first_avail = find_index λ b. b.flags.avail

abbrev pub avail_sockbuf : Sockbuf
avail_sockbuf = record blank_sockbuf { flags = record no_flags { avail = true } }

abbrev pub fresh_sockbuf : Sockbuf
fresh_sockbuf = record blank_sockbuf {
  flags = record no_flags { block = true };
  handler = some sockbuf_idler;
  stats = some zero_stats;
}

-- Five more entries where none is available.
abbrev pub grown : List Sockbuf → List Sockbuf
grown bs = if first_avail bs == length bs then bs ++ replicate 5 avail_sockbuf else bs

unfoldable pub sockbuf_new : Cmd ℕ
sockbuf_new s =
    let idx = first_avail s.sockbufs in
    ok idx (record s {
      sockbufs = set (grown s.sockbufs) idx fresh_sockbuf;
      table = if idx == length s.sockbufs then s.table + 1 else s.table;
    })

-- The flag word after `sockbuf_set_sock`.
abbrev pub set_sock_flags : Flags → Flags → Flags
set_sock_flags old new =
    flags_or
      (record old {
        connecting = false;
        client = false;
        server = false;
        block = false;
        noread = false;
      })
      new

-- A new entry takes over what its place holds: the first listener's, or fresh memory.
abbrev pub stale_revents : PollBits → List Pollfd → PollBits
stale_revents garbage [] = garbage
stale_revents garbage (p ∷ ps) = p.revents

abbrev pub interest : Flags → PollBits
interest f = record no_events { pollout = f.block || f.connecting; pollin = not f.noread }

-- `sock == -1`: the entry goes.
drop_entry : ℕ → Cmd ℤ
drop_entry i s =
    if i == s.npollfds
    then ok (pos 1) s
    else ok (pos 0) (record s {
      idx_array = remove_at i s.idx_array;
      pollfds = remove_at i s.pollfds;
      npollfds = s.npollfds - 1;
    })

-- Make room at the end of the sockbufs' entries if `idx` has none.
add_entry : Env → ℕ → ℕ → State → State
add_entry env idx i s =
    if i == s.npollfds
    then record s {
      idx_array = s.idx_array ++ idx ∷ [];
      pollfds =
          insert_at i
            (record {
              fd = minus_one;
              events = no_events;
              revents = stale_revents (env.os.garbage s.clock) (drop i s.pollfds);
            })
            s.pollfds;
      npollfds = s.npollfds + 1;
    }
    else s

write_entry : ℕ → ℤ → Flags → State → State
write_entry i sock flags s = record s {
  pollfds = modify_at (λ p. record p { fd = sock; events = interest flags }) i s.pollfds;
}

-- The name of a server's own end.
pub name_server : Env → ℕ → ℤ → Flags → Cmd (Unit {0})
name_server env idx sock flags =
    if flags.server
    then (do
      name ← socket_get_name (env.os) sock
      modify_sockbuf (λ b. record b { my_ip = name.ip; my_port = name.port }) idx)
    else pure tt

pub poll_entry : Env → ℕ → ℤ → Flags → Cmd ℤ
unfolding drop_entry add_entry write_entry
poll_entry env idx sock flags s =
    let i = place_of idx s.idx_array in
    if eqb_ℤ sock minus_one
    then drop_entry i s
    else ok (pos idx) (write_entry i sock flags (add_entry env idx i s))

unfoldable pub sockbuf_set_sock : Env → ℤ → ℤ → Flags → Cmd ℤ
unfolding name_server poll_entry
sockbuf_set_sock env idx sock flags = if_valid idx λ i. do
  b ← fetch i
  let new_flags = set_sock_flags b.flags flags
  store i (record b { sock = sock; flags = new_flags })
  name_server env i sock new_flags
  poll_entry env i sock flags

unfoldable pub sockbuf_close : Env → ℤ → Cmd ℤ
unfolding sockbuf_set_sock
sockbuf_close env idx = if_valid idx λ i. do
  b ← fetch i
  if is_nonneg b.sock
      then (do socket_close b.sock; sockbuf_set_sock env idx minus_one no_flags; pure (pos 0))
      else pure (pos 0)

-- Listeners stand behind the sockbufs' entries.
unfoldable pub sockbuf_attach_listener : ℤ → Cmd ℤ
sockbuf_attach_listener fd s = ok (pos 0) (record s {
  pollfds =
      s.pollfds
      ++ record { fd = fd; events = record no_events { pollin = true }; revents = no_events } ∷ [];
  nlisteners = s.nlisteners + 1;
})

unfoldable pub sockbuf_detach_listener : ℤ → Cmd ℤ
sockbuf_detach_listener fd s =
    let i = find_index (λ (p : Pollfd). eqb_ℤ p.fd fd) (drop s.npollfds s.pollfds) in
    ok (pos 0) (
      if ltb i s.nlisteners
      then record s {
        pollfds = remove_at (s.npollfds + i) s.pollfds;
        nlisteners = s.nlisteners - 1;
      }
      else s)
