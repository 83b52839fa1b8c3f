-- ===== src/Sockbuf/Lifecycle/Delete.antt =====
-- `sockbuf_delete` of c-cpp/onethread/sockbuf.c, for filters and handlers that keep an invariant.
use examples.Sockbuf.Valid.{Holds, is_valid_at-Holds}
use examples.Socket.{socket_close}
use examples.Common.{
  ap, sym, append-nil, get_elem?-set_ne, ◌∙◌, ◌≢◌, if◌then◌else◌, List, [], ◌∷◌, ◌++◌, is_nonneg,
  set-get_elem?, ℕ, zero, suc, ◌+◌, ◌≤◌, ◌<◌, ◌≡◌, refl, inl, inr, true, false, some, ℤ, pos, arith,
  ◌==◌, length, get_elem?, set, Bool-cases, Option-cases, get_elem?_total, lt_of_get_elem?,
  length-remove_at,
}
use examples.Sockbuf.State.{Ptr, Sockbuf, State}
use examples.Sockbuf.Run.{Cmd, ok, and_then}
use examples.Sockbuf.Env.{Env}
use examples.Sockbuf.Table.{is_valid_at, place_of, sockbuf_isvalid}
use examples.Sockbuf.Table.Paired.{
  IsAbsent, IsAbsent-place, place-le, PairedBut-Paired, Paired-absent, Paired-remove_at,
  Distinct-remove_at, IsAbsent-removed,
}
use examples.Sockbuf.Table.PollSet.{PollInv}
use examples.Sockbuf.Lifecycle.{
  socket_close, sockbuf_delete, finish_delete, delete_filters, deleted_sockbuf, forget_entry,
}

abbrev pub marked : State → ℕ → Sockbuf → State
marked s idx b = record s {
  sockbufs = set s.sockbufs idx (record b { flags = record (b.flags) { deleted = true } });
}

-- What `sockbuf_delete` asks of the `on_delete` functions: each runs without a fault and keeps
-- `Inv`, under which the table has not been reallocated, the poll set is right and `idx` still has
-- its sockbuf, with a handler and with the same filters as at the start, in parallel arrays.
pub record DeleteRely (env : Env) (table idx : ℕ) (fs : List Ptr) (Inv : State → Type 0)
    : Type 0 where
  pub same_table : (s : State) → Inv s → s.table ≡ table
  pub poll_inv : (s : State) → Inv s → PollInv s
  pub has_sockbuf :
      (s : State)
      → Inv s
      → (b : Sockbuf) × (h : Ptr) × (get_elem? s.sockbufs idx ≡ some b)
        × (b.handler ≡ some h)
        × (b.filters ≡ fs)
        × (length b.filters ≡ length b.filter_client_data)
  pub filter_runs :
      (f d : Ptr) (call : Ptr → ℕ → Cmd ℤ) (s : State)
      → (env.filter f).on_delete ≡ some call
      → Inv s
      → (r : ℤ) × (s' : State) × (call d idx s ≡ ok r s') × Inv s'
  pub handler_runs :
      (h d : Ptr) (call : Ptr → ℕ → Cmd ℤ) (s : State)
      → (env.handler h).on_delete ≡ some call
      → Inv s
      → (r : ℤ) × (s' : State) × (call d idx s ≡ ok r s') × Inv s'

module _ (env : Env) (table idx : ℕ) (fs : List Ptr) (Inv : State → Type 0)
    (rely : DeleteRely env table idx fs Inv) where
  table_same : (s : State) → Inv s → (s.table == table) ≡ true
  table_same s inv = let e = rely.same_table s inv in ground arith

  delete_filters-ok :
      (rounds i : ℕ) (s : State)
      → Inv s
      → length fs < i + rounds
      → i ≤ length fs
      → (s' : State) × (delete_filters env table idx rounds i s ≡ ok tt s') × Inv s'
  unfolding delete_filters
  delete_filters-ok zero i s inv enough within = absurd (omega arith)
  delete_filters-ok (suc rounds) i s inv enough within =
      let (b, h, at, has, same, parallel) = rely.has_sockbuf s inv in
      let here = table_same s inv in
      elim (Option-cases (get_elem? b.filters i)) [
        | inl past ↦ (s, rw (here, at, and_then, past), inv)
        | inr (f, at_f) ↦
            let below : i < length fs =
              omega (arith, lt_of_get_elem? b.filters i at_f, ap length same) in
            let (d, at_d) =
              get_elem?_total b.filter_client_data i
                (omega (arith, lt_of_get_elem? b.filters i at_f, parallel)) in
            elim (Option-cases (env.filter f).on_delete) [
              | inl silent ↦
                  let (s', run, inv') =
                    delete_filters-ok rounds (i + 1) s inv (omega arith) (omega arith) in
                  (s', rw (here, at, and_then, at_f, at_d, silent) run, inv')
              | inr (call, e) ↦
                  let (r, s₁, ran, inv₁) = rely.filter_runs f d call s e inv in
                  let (s', run, inv') =
                    delete_filters-ok rounds (i + 1) s₁ inv₁ (omega arith) (omega arith) in
                  (s', rw (here, at, and_then, at_f, at_d, e, ran) run, inv')
            ]
      ]

-- Taking the entry of `idx` out of the poll set once its sockbuf is marked.
forget_entry-PollInv :
    (s : State) (idx : ℕ) (b : Sockbuf)
    → PollInv s
    → let s' = forget_entry idx (record s { sockbufs = set s.sockbufs idx b }) in
      PollInv s' × IsAbsent idx s'.idx_array
forget_entry-PollInv s idx b inv =
    let i = place_of idx s.idx_array in
    let le : i ≤ length s.idx_array = place-le idx s.idx_array in
    let bs = set s.sockbufs idx b in
    let but = PairedBut-Paired idx b s.sockbufs s.idx_array s.pollfds inv.paired in
    let socks = inv.socks in
    let total = inv.total in
    elim (Bool-cases (i == s.npollfds)) [
      | inl absent ↦
          let off = IsAbsent-place idx s.idx_array (ground arith) in
          rw absent (
            record {
              socks = socks;
              total = total;
              distinct = inv.distinct;
              paired = Paired-absent idx bs s.idx_array s.pollfds off but;
            },
            off,
          )
      | inr present ↦
          let lt : i < length s.idx_array = ground arith in
          rw present (
            record {
              socks = omega (arith, length-remove_at i s.idx_array lt);
              total = omega (arith, length-remove_at i s.pollfds (omega arith));
              distinct = Distinct-remove_at i s.idx_array inv.distinct;
              paired = Paired-remove_at idx bs s.idx_array s.pollfds inv.distinct but lt;
            },
            IsAbsent-removed idx s.idx_array inv.distinct lt,
          )
    ]

-- What is closed with a sockbuf: its descriptor, if it has one.
abbrev pub closing : Sockbuf → List ℤ
closing b = if is_nonneg b.sock then b.sock ∷ [] else []

-- How a deletion ends that has only its own work left to do in the state `before`.
pub record Deleted (idx : ℕ) (before s : State) : Type 0 where
  pub sockbuf : Sockbuf
  pub was : get_elem? before.sockbufs idx ≡ some sockbuf
  pub closed_is : s.closed ≡ before.closed ++ closing sockbuf
  pub counted : s.ndeleted_sockbufs ≡ before.ndeleted_sockbufs + 1
  pub others : (j : ℕ) → idx ≢ j → get_elem? s.sockbufs j ≡ get_elem? before.sockbufs j
  pub at : get_elem? s.sockbufs idx ≡ some deleted_sockbuf
  pub invalid : sockbuf_isvalid s (pos idx) ≡ false
  pub inv : PollInv s
  pub unwatched : IsAbsent idx s.idx_array

forget_entry-sockbufs :
    (idx : ℕ) (s : State)
    → ((forget_entry idx s).sockbufs ≡ s.sockbufs)
      × ((forget_entry idx s).ndeleted_sockbufs ≡ s.ndeleted_sockbufs)
      × ((forget_entry idx s).closed ≡ s.closed)
forget_entry-sockbufs idx s = ground arith

-- Behind the close of the descriptor, in whatever state `s` that leaves.
rest_of_delete :
    (idx : ℕ) (before s : State) (b : Sockbuf)
    → get_elem? s.sockbufs idx ≡ some b
    → s.sockbufs ≡ before.sockbufs
    → s.closed ≡ before.closed ++ closing b
    → s.ndeleted_sockbufs ≡ before.ndeleted_sockbufs
    → PollInv s
    → Deleted idx before (
        forget_entry idx (record s {
          sockbufs = set s.sockbufs idx deleted_sockbuf;
          ndeleted_sockbufs = s.ndeleted_sockbufs + 1;
        }))
rest_of_delete idx before s b at same_bufs closes count inv =
    let s₁ : State = record s { ndeleted_sockbufs = s.ndeleted_sockbufs + 1 } in
    let inv₁ : PollInv s₁ = record {
      socks = inv.socks;
      total = inv.total;
      distinct = inv.distinct;
      paired = inv.paired;
    } in
    let (inv₂, off) = forget_entry-PollInv s₁ idx deleted_sockbuf inv₁ in
    let same =
      forget_entry-sockbufs idx (record s₁ { sockbufs = set s.sockbufs idx deleted_sockbuf }) in
    let s₂ = forget_entry idx (record s₁ { sockbufs = set s.sockbufs idx deleted_sockbuf }) in
    let there : get_elem? s₂.sockbufs idx ≡ some deleted_sockbuf =
      rw (same.0) (set-get_elem? s.sockbufs idx deleted_sockbuf at) in
    record {
      sockbuf = b;
      was = rw (← same_bufs) at;
      closed_is = same.2 ∙ closes;
      counted = same.1 ∙ ap (λ (n : ℕ). n + 1) count;
      others = λ j ne. rw (same.0) (
          get_elem?-set_ne s.sockbufs idx j deleted_sockbuf ne
          ∙ ap (λ bs. get_elem? bs j) same_bufs);
      at = there;
      invalid = rw (there, is_valid_at);
      inv = inv₂;
      unwatched = off;
    }

finish_delete-Deleted :
    (table idx : ℕ) (s : State) (b : Sockbuf)
    → (s.table == table) ≡ true
    → get_elem? s.sockbufs idx ≡ some b
    → PollInv s
    → (s' : State) × (finish_delete table idx s ≡ ok tt s') × Deleted idx s s'
unfolding finish_delete socket_close
finish_delete-Deleted table idx s b here at inv = elim (Bool-cases (is_nonneg b.sock)) [
  | inl up ↦
      let s₁ : State = record s { clock = s.clock + 2; closed = s.closed ++ b.sock ∷ [] } in
      let inv₁ : PollInv s₁ = record {
        socks = inv.socks;
        total = inv.total;
        distinct = inv.distinct;
        paired = inv.paired;
      } in
      (
        _,
        rw (here, at, and_then, up) refl,
        rest_of_delete idx s s₁ b at refl (rw up refl) refl inv₁,
      )
  | inr down ↦ (
    _,
    rw (here, at, and_then, down) refl,
    rest_of_delete idx s s b at refl (rw down (sym (append-nil s.closed))) refl inv,
  )
]

-- Deleting a live sockbuf: if the `on_delete` functions run without a fault and keep `Inv`, which
-- holds once the sockbuf is marked and under which the table is not reallocated, as `sockbuf_new`
-- may do, and the filters stay as they are, then `sockbuf_delete` succeeds; the sockbuf is blank
-- and marked DELETED, its index is not valid any more, and the poll set has no entry for it and
-- keeps its invariant. From `before`, the state in which the last of these functions has returned,
-- on: the sockbuf's descriptor is closed if it has one, the count of deleted sockbufs grows by one,
-- and no other sockbuf changes.
pub delete-Deleted :
    (env : Env) (s : State) (idx : ℕ) (b : Sockbuf) (Inv : State → Type 0)
    → DeleteRely env s.table idx b.filters Inv
    → Holds s idx b
    → Inv (marked s idx b)
    → (before s' : State) × (sockbuf_delete env (pos idx) s ≡ ok (pos 0) s')
      × Inv before
      × Deleted idx before s'
unfolding sockbuf_delete
delete-Deleted env s idx b Inv rely h inv =
    let (s₁, ran, inv₁) =
      delete_filters-ok env s.table idx b.filters Inv rely (suc (length b.filters)) 0
        (marked s idx b) inv (omega arith) (omega arith) in
    let here = table_same env s.table idx b.filters Inv rely in
    let (b₁, hd, at₁, has, _, _) = rely.has_sockbuf s₁ inv₁ in
    elim (Option-cases (env.handler hd).on_delete) [
      | inl silent ↦
          let (s', done, end) =
            finish_delete-Deleted s.table idx s₁ b₁ (here s₁ inv₁) at₁ (rely.poll_inv s₁ inv₁) in
          (
            s₁,
            s',
            rw (is_valid_at-Holds h, h.at, ran, here s₁ inv₁, at₁, has, silent) (rw done),
            inv₁,
            end,
          )
      | inr (call, e) ↦
          let (r, s₂, called, inv₂) = rely.handler_runs hd b₁.client_data call s₁ e inv₁ in
          let (b₂, hd₂, at₂, _, _, _) = rely.has_sockbuf s₂ inv₂ in
          let (s', done, end) =
            finish_delete-Deleted s.table idx s₂ b₂ (here s₂ inv₂) at₂ (rely.poll_inv s₂ inv₂) in
          (
            s₂,
            s',
            rw (is_valid_at-Holds h, h.at, ran, here s₁ inv₁, at₁, has, e, called) (rw done),
            inv₂,
            end,
          )
    ]
