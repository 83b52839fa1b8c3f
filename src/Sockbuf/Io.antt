-- ===== src/Sockbuf/Io.antt =====
-- What c-cpp/onethread/sockbuf.c does for one ready descriptor, and `sockbuf_write`.
pub mod Accept
pub mod Drain
pub mod Write
use examples.Common.{
  ℕ, true, false, not, some, Bytes, ℤ, pos, negsuc, ◌==◌, if◌then◌else◌, is_nonneg, take, drop,
  length, c_string,
}
use examples.Sockbuf.State.{no_flags, Stats, Sockbuf}
use examples.Sockbuf.Run.{Cmd, pure, or_fault, fetch, store, modify_sockbuf, ◌>>=◌, ◌>>◌}
use examples.Sockbuf.Env.{wrote, failed, got, Env, syscall}
use examples.Sockbuf.Stats.{add_u64, stats_in, stats_out}
use examples.Sockbuf.Table.{if_valid, sockbuf_unblock, sockbuf_new, sockbuf_set_sock}
use examples.Sockbuf.Events.{
  level_internal, level_write_internal, sockbuf_on_connect, sockbuf_on_newclient, sockbuf_on_read,
  sockbuf_on_written, sockbuf_on_write, sockbuf_got_eof, os_write,
}
use examples.Socket.{socket_get_peer_name, socket_get_error, socket_accept, socket_set_nonblock}

-- if (!sbuf->len) sockbuf_unblock (idx);
unblock_if_drained : ℕ → Cmd (Unit {0})
unblock_if_drained idx = do
  b ← fetch idx
  if length b.data_out == 0 then sockbuf_unblock idx else pure tt

unfoldable pub sockbuf_got_writable_client : Env → ℕ → Cmd (Unit {0})
unfolding unblock_if_drained
sockbuf_got_writable_client env idx = do
  b ← fetch idx
  err ← socket_get_error (env.os) b.sock
  if not (err == 0) then sockbuf_got_eof env idx err else (do
    modify_sockbuf (λ b. record b { flags = record (b.flags) { connecting = false } }) idx
    unblock_if_drained idx
    name ← socket_get_peer_name (env.os) b.sock
    sockbuf_on_connect env idx level_internal name.ip name.port
    pure tt)

unfoldable pub sockbuf_got_readable_server : Env → ℕ → Cmd (Unit {0})
sockbuf_got_readable_server env idx = do
  b ← fetch idx
  name ← socket_accept (env.os) b.sock
  if not (is_nonneg name.ret) then pure tt else (do
    socket_set_nonblock (env.os) name.ret true
    newidx ← sockbuf_new
    sockbuf_set_sock env (pos newidx) name.ret (record no_flags { inbound = true })
    sockbuf_on_newclient env idx level_internal newidx name.ip name.port
    pure tt)

-- The buffer and the counters after `write` took `n` bytes of it.
abbrev pub drain : ℕ → Sockbuf → Stats → Sockbuf
drain n b t = record b {
  data_out = drop n b.data_out;
  stats = some (record (stats_out t n) { raw_bytes_left = length (drop n b.data_out) });
}

-- Behind a `write` that took `n` bytes, `n` not 0.
wrote_some : Env → ℕ → ℕ → Cmd (Unit {0})
unfolding unblock_if_drained
wrote_some env idx n = do
  b ← fetch idx
  t ← or_fault b.stats
  store idx (drain n b t)
  unblock_if_drained idx
  sockbuf_on_written env idx level_internal n (length (drop n b.data_out))
  pure tt

unfoldable pub sockbuf_got_writable : Env → ℕ → Cmd (Unit {0})
unfolding wrote_some
sockbuf_got_writable env idx = do
  b ← fetch idx
  r ← os_write env b.sock b.data_out
  elim r [
    | wrote n ↦ if n == 0 then pure tt else wrote_some env idx n
    | failed e ↦ sockbuf_got_eof env idx e
  ]

read_some : Env → ℕ → Bytes → Cmd (Unit {0})
read_some env idx chunk = do
  b ← fetch idx
  t ← or_fault b.stats
  store idx (record b { stats = some (stats_in t (length chunk)) })
  sockbuf_on_read env idx level_internal chunk
  pure tt

-- At most 4096 bytes are asked for.
unfoldable pub sockbuf_got_readable : Env → ℕ → Cmd (Unit {0})
unfolding read_some
sockbuf_got_readable env idx = do
  b ← fetch idx
  r ← syscall (λ t. env.os.read t b.sock 4096)
  elim r [
    | got chunk ↦ if length chunk == 0 then sockbuf_got_eof env idx 0 else read_some env idx chunk
    | failed e ↦ sockbuf_got_eof env idx e
  ]

-- A negative `len` means the text up to the NUL.
abbrev pub chunk_of : Bytes → ℤ → Bytes
chunk_of text (pos len) = take len text
chunk_of text (negsuc n) = c_string text

unfoldable pub sockbuf_write : Env → ℤ → Bytes → ℤ → Cmd ℤ
sockbuf_write env idx text len = if_valid idx λ i. do
  b ← fetch i
  t ← or_fault b.stats
  let chunk = chunk_of text len
  store i (record b { stats = some (record t { bytes_out = add_u64 t.bytes_out (length chunk) }) })
  sockbuf_on_write env i level_write_internal chunk
