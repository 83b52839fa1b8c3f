-- ===== src/Sockbuf/Events.antt =====
-- How c-cpp/onethread/sockbuf.c passes events on: to the first filter above the level given, and
-- from there to the user's handler; `sockbuf_got_eof` and `sockbuf_real_write` at the lower end.
pub mod Newclient
pub mod Stream
pub mod Eof
use examples.Common.{
  ℕ, zero, suc, Option, none, some, [], ◌∷◌, ◌++◌, Bytes, ℤ, pos, minus_one, ◌==◌, if◌then◌else◌,
  take, drop, length,
}
use examples.Sockbuf.State.{Ptr, Stats, Sockbuf}
use examples.Sockbuf.Run.{Cmd, ok, fault, pure, or_fault, fetch, store, modify_sockbuf, ◌>>=◌, ◌>>◌}
use examples.Sockbuf.Env.{Written, wrote, failed, Filter, Handler, Env}
use examples.Sockbuf.Stats.{add_u64, stats_out}
use examples.Sockbuf.Table.{sockbuf_block, sockbuf_close}
use examples.Sockbuf.Filters.{forward, backward}
use examples.Socket.{socket_get_name, socket_get_error}

-- SOCKBUF_LEVEL_INTERNAL and SOCKBUF_LEVEL_WRITE_INTERNAL
abbrev pub level_internal : ℤ
level_internal = minus_one

abbrev pub level_write_internal : ℤ
level_write_internal = pos 1000000

-- if (handler->event) handler->event (...);
abbrev pub call_handler {ℓ} :
    {H : Type ℓ} → Env → (Handler → Option H) → (H → Cmd ℤ) → Sockbuf → Cmd ℤ
call_handler env event call b = do
  h ← or_fault b.handler
  elim (event (env.handler h)) [ none ↦ pure (pos 0) | some f ↦ call f >> pure (pos 0) ]

unfoldable pub sockbuf_on_eof : Env → ℕ → ℤ → ℕ → Cmd ℤ
sockbuf_on_eof env idx level err = do
  b ← fetch idx
  elim (forward env (λ f. f.on_eof) level b.filters b.filter_client_data) [
    | some (f, d) ↦ f d idx err
    | none ↦ call_handler env (λ h. h.on_eof) (λ f. f b.client_data idx err) b
  ]

-- if (peer_ip) str_redup (&peer_ip, ...); and the port.
abbrev pub set_peer : Option Bytes → ℕ → Sockbuf → Sockbuf
set_peer none port b = record b { peer_port = port }
set_peer (some ip) port b = record b { peer_ip = some ip; peer_port = port }

-- The peer's name as given, and this end's as the system tells it.
pub name_ends : Env → ℕ → Option Bytes → ℕ → Cmd (Unit {0})
name_ends env idx peer_ip peer_port = do
  b ← fetch idx
  name ← socket_get_name (env.os) b.sock
  store idx (record (set_peer peer_ip peer_port b) { my_ip = name.ip; my_port = name.port })

unfoldable pub sockbuf_on_connect : Env → ℕ → ℤ → Option Bytes → ℕ → Cmd ℤ
unfolding name_ends
sockbuf_on_connect env idx level peer_ip peer_port = do
  b ← fetch idx
  elim (forward env (λ f. f.on_connect) level b.filters b.filter_client_data) [
    | some (f, d) ↦ f d idx peer_ip peer_port
    | none ↦ do
      name_ends env idx peer_ip peer_port
      call_handler env (λ h. h.on_connect) (λ f. f b.client_data idx peer_ip peer_port) b
  ]

-- What the loop of `sockbuf_on_newclient` looks for: a filter with `on_connect`, of which it then
-- calls `on_newclient`.
abbrev pub newclient_event : Filter → Option (Option (Ptr → ℕ → ℕ → Option Bytes → ℕ → Cmd ℤ))
newclient_event f = elim (f.on_connect) [ none ↦ none | some _ ↦ some f.on_newclient ]

unfoldable pub sockbuf_on_newclient : Env → ℕ → ℤ → ℕ → Option Bytes → ℕ → Cmd ℤ
unfolding name_ends
sockbuf_on_newclient env idx level newidx peer_ip peer_port = do
  b ← fetch idx
  elim (forward env newclient_event level b.filters b.filter_client_data) [
    | some (f, d) ↦ elim f [ none ↦ λ s. fault | some call ↦ call d idx newidx peer_ip peer_port ]
    | none ↦ do
      name_ends env newidx peer_ip peer_port
      call_handler env (λ h. h.on_newclient) (λ f. f b.client_data idx newidx peer_ip peer_port) b
  ]

abbrev pub count_in : ℕ → Stats → Stats
count_in len t = record t { bytes_in = add_u64 t.bytes_in len }

-- `len` is the length of `chunk`.
unfoldable pub sockbuf_on_read : Env → ℕ → ℤ → Bytes → Cmd ℤ
sockbuf_on_read env idx level chunk = do
  b ← fetch idx
  elim (forward env (λ f. f.on_read) level b.filters b.filter_client_data) [
    | some (f, d) ↦ f d idx chunk
    | none ↦ do
      t ← or_fault b.stats
      store idx (record b { stats = some (count_in (length chunk) t) })
      call_handler env (λ h. h.on_read) (λ f. f b.client_data idx chunk) b
  ]

unfoldable pub sockbuf_on_written : Env → ℕ → ℤ → ℕ → ℕ → Cmd ℤ
sockbuf_on_written env idx level len remaining = do
  b ← fetch idx
  elim (forward env (λ f. f.on_written) level b.filters b.filter_client_data) [
    | some (f, d) ↦ f d idx len remaining
    | none ↦ call_handler env (λ h. h.on_written) (λ f. f b.client_data idx len remaining) b
  ]

-- `err` 0 asks the socket.
unfoldable pub sockbuf_got_eof : Env → ℕ → ℕ → Cmd (Unit {0})
sockbuf_got_eof env idx err = do
  b ← fetch idx
  err' ← (if err == 0 then socket_get_error (env.os) b.sock else pure err)
  sockbuf_close env (pos idx)
  sockbuf_on_eof env idx level_internal err'
  pure tt

-- `write`, and what it put on the wire.
unfoldable pub os_write : Env → ℤ → Bytes → Cmd Written
os_write env fd chunk s = elim (env.os.write s.clock fd chunk) [
  | wrote n ↦
      ok (wrote n) (record s { clock = suc s.clock; wire = s.wire ++ (fd, take n chunk) ∷ [] })
  | failed e ↦ ok (Written.failed e) (record s { clock = suc s.clock })
]

unfoldable pub append_out : ℕ → Bytes → Cmd (Unit {0})
append_out idx chunk = modify_sockbuf (λ b. record b { data_out = b.data_out ++ chunk }) idx

-- if (nbytes > 0) stats_out (sbuf->stats, nbytes);
unfoldable pub count_out : ℕ → ℕ → Cmd (Unit {0})
count_out idx zero = pure tt
count_out idx (suc n) = do
  b ← fetch idx
  t ← or_fault b.stats
  store idx (record b { stats = some (stats_out t (suc n)) })

-- The part of `sockbuf_real_write` behind a `write` that took `n` bytes, or none on EAGAIN.
unfoldable pub after_write : ℕ → Bytes → ℕ → Cmd ℤ
after_write idx chunk n = do
  count_out idx n
  if n == length chunk
      then pure (pos n)
      else (do sockbuf_block idx; append_out idx (drop n chunk); pure (pos n))

-- What follows from the answer of `write`.
unfoldable pub real_write_result : Env → ℕ → Bytes → Written → Cmd ℤ
real_write_result env idx chunk (wrote n) = after_write idx chunk n
real_write_result env idx chunk (failed e) =
    if e == env.os.eagain
    then after_write idx chunk 0
    else (do sockbuf_got_eof env idx e; pure minus_one)

unfoldable pub sockbuf_real_write : Env → ℕ → Bytes → Cmd ℤ
sockbuf_real_write env idx chunk = do
  b ← fetch idx
  if b.flags.block
      then (do append_out idx chunk; pure (pos 0))
      else (do r ← os_write env b.sock chunk; real_write_result env idx chunk r)

unfoldable pub sockbuf_on_write : Env → ℕ → ℤ → Bytes → Cmd ℤ
sockbuf_on_write env idx level chunk = do
  b ← fetch idx
  elim (backward env (λ f. f.on_write) level b.filters b.filter_client_data) [
    | some (f, d) ↦ f d idx chunk
    | none ↦ sockbuf_real_write env idx chunk
  ]
