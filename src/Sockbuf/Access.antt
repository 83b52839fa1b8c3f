-- ===== src/Sockbuf/Access.antt =====
-- The queries and setters of c-cpp/onethread/sockbuf.c. An output parameter that the caller gave as
-- NULL is a result that it does not look at; `none` stands for the return value -1.
pub mod Listed
use examples.Common.{
  ℕ, not, Option, none, some, List, [], ◌∷◌, Bytes, ℤ, pos, negsuc, minus_one, if◌then◌else◌,
  get_elem?, ◌+◌,
}
use examples.Sockbuf.State.{Flags, flags_meet, Ptr, Sockbuf, State}
use examples.Sockbuf.Run.{Cmd, pure, fetch, store, modify_sockbuf, or_fault, ◌>>=◌, ◌>>◌}
use examples.Sockbuf.Stats.{update_stats}
use examples.Sockbuf.Table.{is_live, is_valid_at, if_valid}

-- The loop of `sockbuf_list`, from index `i` on.
pub list_from : Flags → ℕ → List Sockbuf → List ℕ
list_from flags i [] = []
list_from flags i (b ∷ bs) =
    let rest = list_from flags (i + 1) bs in
    if not (is_live b) then rest else if flags_meet b.flags flags then i ∷ rest else rest

unfoldable pub sockbuf_list : Flags → State → List ℕ
unfolding list_from
sockbuf_list flags s = list_from flags 0 s.sockbufs

unfoldable pub live_at : State → ℤ → Option Sockbuf
live_at s (negsuc n) = none
live_at s (pos idx) = if is_valid_at s idx then get_elem? s.sockbufs idx else none

unfoldable pub sockbuf_get_sock : State → ℤ → ℤ
unfolding live_at
sockbuf_get_sock s idx = elim (live_at s idx) [ none ↦ minus_one | some b ↦ b.sock ]

unfoldable pub sockbuf_get_peer : State → ℤ → Option (Option Bytes × ℕ)
unfolding live_at
sockbuf_get_peer s idx = elim (live_at s idx) [
  | none ↦ none
  | some b ↦ some (b.peer_ip, b.peer_port)
]

unfoldable pub sockbuf_get_self : State → ℤ → Option (Option Bytes × ℕ)
unfolding live_at
sockbuf_get_self s idx = elim (live_at s idx) [ none ↦ none | some b ↦ some (b.my_ip, b.my_port) ]

unfoldable pub sockbuf_get_handler : State → ℤ → Option (Option Ptr × Ptr)
unfolding live_at
sockbuf_get_handler s idx = elim (live_at s idx) [
  | none ↦ none
  | some b ↦ some (b.handler, b.client_data)
]

unfoldable pub sockbuf_set_handler : ℤ → Option Ptr → Ptr → Cmd ℤ
sockbuf_set_handler idx handler client_data = if_valid idx λ i. do
  modify_sockbuf (λ b. record b { handler = handler; client_data = client_data }) i
  pure (pos 0)

-- With a place for the result. `nsecs` and `curtime` as in `update_stats`.
unfoldable pub sockbuf_get_stats : (nsecs curtime : ℕ) → ℤ → Cmd ℤ
sockbuf_get_stats nsecs curtime idx = if_valid idx λ i. do
  b ← fetch i
  t ← or_fault b.stats
  t' ← or_fault (update_stats nsecs curtime t)
  store i (record b { stats = some t' })
  pure (pos 0)
