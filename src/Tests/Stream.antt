-- ===== src/Tests/Stream.antt =====
-- Writing, draining and deleting, on the small world.
use examples.Common.{none}
use examples.Common.{Bytes, List}
use examples.Sockbuf.Events.Stream.{stream}
use examples.Sockbuf.Io.Write.{IsMild, concat, write_all, write_all-stream}
use examples.Sockbuf.Valid.{Holds}
use examples.Common.{
  Bool-cases, [], ap, arith, get_elem?, inl, inr, length, ltb, pos, refl, some, sym, ℕ, ℤ, ◌++◌,
  ◌∷◌, ◌≡◌,
}
use examples.Sockbuf.Events.{sockbuf_real_write}
use examples.Sockbuf.Events.Stream.{IsOrdered, WritesWithin}
use examples.Sockbuf.Events.Stream.Write.{WrittenOk, real_write-stream}
use examples.Sockbuf.Io.Drain.{Drained, got_writable-Drained}
use examples.Sockbuf.Lifecycle.{sockbuf_delete}
use examples.Sockbuf.Lifecycle.Delete.{DeleteRely, Deleted, delete-Deleted, marked}
use examples.Sockbuf.Run.{Cmd, pure}
use examples.Sockbuf.State.{Sockbuf, no_flags, zero_stats}
use examples.Sockbuf.Table.PollSet.{PollInv}
use examples.Unbuf.{servone_on_connect}
use examples.Unbuf.Greeting.{Telnetted, on_connect-Telnetted}
use examples.Tests.{
  connection, filtered, Holds-connection, Holds-filtered, waiting, with_one, world,
}
use examples.Sockbuf.State.{Ptr, State}
use examples.Sockbuf.Run.{ok}

within : WritesWithin world
within t fd chunk n e = elim (Bool-cases (ltb 2 (length chunk))) [
  | inl long ↦ ground (arith, simp long at e)
  | inr short ↦ ground (arith, simp short at e)
]

connection-IsOrdered : IsOrdered connection
connection-IsOrdered free = refl

waiting-IsOrdered : IsOrdered waiting
waiting-IsOrdered blocked = cc

-- Two of five bytes are taken at once.
real_write_example :
    (n : ℕ) × WrittenOk
      (with_one connection)
      0
      connection
      (1 ∷ 2 ∷ 3 ∷ 4 ∷ 5 ∷ [])
      n
      (sockbuf_real_write world 0 (1 ∷ 2 ∷ 3 ∷ 4 ∷ 5 ∷ []) (with_one connection))
real_write_example =
    real_write-stream world (with_one connection) 0 connection zero_stats (1 ∷ 2 ∷ 3 ∷ 4 ∷ 5 ∷ [])
      within refl refl connection-IsOrdered (λ e failure. cc)

-- Two of three bytes leave the buffer.
got_writable_example : Drained world (with_one waiting) 0 waiting 2
got_writable_example =
    got_writable-Drained world (with_one waiting) 0 waiting zero_stats 2 refl refl refl
      (λ e. omega arith)

abbrev unblocked : Sockbuf
unblocked = record waiting { flags = no_flags }

-- Deleting a sockbuf with a filter.
data Marked : State → Type 0 where
  is_marked : Marked (marked (with_one filtered) 0 filtered)

filtered-rely : DeleteRely world 0 0 (7 ∷ []) Marked
filtered-rely = record {
  same_table = unmoved;
  poll_inv = right;
  has_sockbuf = there;
  filter_runs = filter_returns;
  handler_runs = λ h d call s e inv. cc;
}
  where
    unmoved : (s : State) → Marked s → s.table ≡ 0
    unmoved _ is_marked = refl

    right : (s : State) → Marked s → PollInv s
    right _ is_marked = record {
      socks = refl;
      total = refl;
      distinct = (tt, tt);
      paired = (refl, tt);
    }

    there :
        (s : State)
        → Marked s
        → (b : Sockbuf) × (h : Ptr) × (get_elem? s.sockbufs 0 ≡ some b)
          × (b.handler ≡ some h)
          × (b.filters ≡ 7 ∷ [])
          × (length b.filters ≡ length b.filter_client_data)
    there _ is_marked = (_, _, refl, refl, refl, refl)

    filter_returns :
        (f d : Ptr) (call : Ptr → ℕ → Cmd ℤ) (s : State)
        → (world.filter f).on_delete ≡ some call
        → Marked s
        → (r : ℤ) × (s' : State) × (call d 0 s ≡ ok r s') × Marked s'
    filter_returns f d call s e inv =
        let same : (λ d idx. pure (pos 0)) ≡ call = cc in
        (pos 0, s, ap (λ (c : Ptr → ℕ → Cmd ℤ). c d 0 s) (sym same), inv)

delete_example :
    (before s' : State) × (sockbuf_delete world (pos 0) (with_one filtered) ≡ ok (pos 0) s')
    × Marked before
    × Deleted 0 before s'
delete_example =
    delete-Deleted world (with_one filtered) 0 filtered Marked filtered-rely Holds-filtered
      is_marked

mild : IsMild world
mild t fd chunk e failure = elim (Bool-cases (ltb 2 (length chunk))) [
  | inl long ↦ cc (simp long at failure)
  | inr short ↦ cc (simp short at failure)
]

abbrev three_texts : List Bytes
three_texts = (1 ∷ 2 ∷ 3 ∷ []) ∷ (4 ∷ []) ∷ (5 ∷ 6 ∷ []) ∷ []

write_all_example :
    (s' : State) × (b' : Sockbuf) × (write_all world 0 three_texts (with_one connection) ≡ ok tt s')
    × Holds s' 0 b'
    × (b'.sock ≡ pos 5)
    × (stream s' b' ≡ stream (with_one connection) connection ++ concat three_texts)
    × IsOrdered b'
write_all_example =
    write_all-stream world 0 three_texts (with_one connection) connection within mild
      Holds-connection (zero_stats, refl) refl connection-IsOrdered

-- The filter at the level of the telnet filter.
abbrev telnet_ptr : Ptr
telnet_ptr = 5000

abbrev commands_sent : Bytes
commands_sent = 255 ∷ 251 ∷ 3 ∷ 255 ∷ 251 ∷ 1 ∷ []

greeting_example :
    (s' : State) × (servone_on_connect world telnet_ptr 80 9 7 0 none 0 (with_one connection)
      ≡ ok (pos 0) s')
    × Telnetted s' 0 telnet_ptr 9 (pos 5) (stream (with_one connection) connection ++ commands_sent)
greeting_example =
    on_connect-Telnetted world telnet_ptr 80 9 7 0 none 0 (with_one connection) connection within
      mild refl Holds-connection refl connection-IsOrdered (zero_stats, refl)
