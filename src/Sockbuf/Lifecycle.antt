-- ===== src/Sockbuf/Lifecycle.antt =====
-- `sockbuf_delete` and `sockbuf_shutdown` of c-cpp/onethread/sockbuf.c.
pub mod Delete
use examples.Common.{
  ℕ, zero, suc, ◌+◌, ◌-◌, true, none, some, [], ℤ, pos, ◌==◌, if◌then◌else◌, is_nonneg, length,
  get_elem?, remove_at,
}
use examples.Sockbuf.State.{no_flags, Sockbuf, blank_sockbuf, sockbuf_idler, State}
use examples.Sockbuf.Run.{
  Cmd, fault, out_of_fuel, pure, get_state, update, or_fault, fetch, store, ◌>>=◌, ◌>>◌,
}
use examples.Sockbuf.Env.{Env}
use examples.Sockbuf.Table.{if_valid, place_of}
use examples.Sockbuf.Events.{call_handler}
use examples.Socket.{socket_close}

-- A read through `sbuf`, which was computed when the table was `table`.
abbrev pub fetch_from : (table idx : ℕ) → Cmd Sockbuf
fetch_from table idx s = if s.table == table then fetch idx s else fault

-- for (i = 0; i < sbuf->nfilters; i++), calling `on_delete`. The array is read in each round, and
-- the rounds are fuel: the filters at the start and one.
delete_filters : Env → (table idx : ℕ) → (rounds i : ℕ) → Cmd (Unit {0})
delete_filters env table idx zero i = λ s. out_of_fuel
delete_filters env table idx (suc rounds) i = do
  b ← fetch_from table idx
  elim (get_elem? b.filters i) [
    | none ↦ pure tt
    | some f ↦ do
      d ← or_fault (get_elem? b.filter_client_data i)
      elim ((env.filter f).on_delete) [ none ↦ pure (pos 0) | some call ↦ call d idx ]
      delete_filters env table idx rounds (i + 1)
  ]

abbrev pub deleted_sockbuf : Sockbuf
deleted_sockbuf = record blank_sockbuf {
  flags = record no_flags { deleted = true };
  handler = some sockbuf_idler;
}

-- Its entry leaves the poll set.
abbrev pub forget_entry : ℕ → State → State
forget_entry idx s =
    let i = place_of idx s.idx_array in
    if i == s.npollfds then s else record s {
      pollfds = remove_at i s.pollfds;
      idx_array = remove_at i s.idx_array;
      npollfds = s.npollfds - 1;
    }

-- From the closing of the descriptor to the end of `sockbuf_delete`.
finish_delete : (table idx : ℕ) → Cmd (Unit {0})
finish_delete table idx = do
  b ← fetch_from table idx
  (if is_nonneg b.sock then socket_close b.sock else pure tt)
  store idx deleted_sockbuf
  update λ s. record s { ndeleted_sockbufs = s.ndeleted_sockbufs + 1 }
  update (forget_entry idx)

unfoldable pub sockbuf_delete : Env → ℤ → Cmd ℤ
unfolding delete_filters finish_delete
sockbuf_delete env idx = if_valid idx λ i. do
  b ← fetch i
  store i (record b { flags = record (b.flags) { deleted = true } })
  s ← get_state
  delete_filters env s.table i (suc (length b.filters)) 0
  b' ← fetch_from s.table i
  call_handler env (λ h. h.on_delete) (λ f. f b'.client_data i) b'
  finish_delete s.table i
  pure (pos 0)

-- for (i = npollfds - 1; i >= 0; i--) sockbuf_delete (idx_array[i]);
shutdown_loop : Env → (rounds : ℕ) → Cmd (Unit {0})
shutdown_loop env zero = pure tt
shutdown_loop env (suc i) = do
  s ← get_state
  idx ← or_fault (get_elem? s.idx_array i)
  sockbuf_delete env (pos idx)
  shutdown_loop env i

-- `nlisteners` and `ndeleted_sockbufs` stay as they are.
unfoldable pub sockbuf_shutdown : Env → Cmd ℤ
unfolding shutdown_loop
sockbuf_shutdown env = do
  s ← get_state
  shutdown_loop env s.npollfds
  update λ s. record s { idx_array = []; pollfds = []; npollfds = 0; sockbufs = [] }
  pure (pos 0)
