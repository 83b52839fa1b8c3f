-- ===== src/Sockbuf/Sequence.antt =====
-- Any sequence of calls that open, close and watch sockbufs in c-cpp/onethread/sockbuf.c.
use examples.Common.{
  eqb_ℤ, ℕ, zero, suc, ◌+◌, ◌-◌, ◌<◌, ◌≤◌, ◌≡◌, refl, inl, inr, false, List, [], ◌∷◌, ◌++◌, ℤ, pos,
  negsuc, minus_one, is_nonneg, arith, ltb, length, drop, remove_at, find_index, Bool-cases,
  length-append, length-modify_at, length-remove_at,
}
use examples.Sockbuf.State.{Sockbuf, Flags, PollBits, Pollfd, State}
use examples.Sockbuf.Run.{Cmd, Run, ok, pure, ◌>>=◌, ◌>>◌}
use examples.Sockbuf.Env.{Env}
use examples.Sockbuf.Valid.{Holds-isvalid}
use examples.Sockbuf.Table.{
  edit_interest, edit_events, place_of, edit_events_of, is_valid_at, sockbuf_attach_listener,
  sockbuf_detach_listener, sockbuf_new, sockbuf_set_sock, sockbuf_close, sockbuf_noread,
  sockbuf_read,
}
use examples.Sockbuf.Table.Paired.{Paired, Paired-edit}
use examples.Sockbuf.Table.PollSet.{PollInv}
use examples.Sockbuf.Table.SetSock.{set_sock-SockSet}
use examples.Sockbuf.Table.New.{new-fresh}
use examples.Sockbuf.Events.Eof.{close-Closed}

pub data Call : Type 0 where
  new_call : Call
  set_sock_call : (idx sock : ℤ) → Flags → Call
  close_call : (idx : ℤ) → Call
  noread_call : (idx : ℤ) → Call
  read_call : (idx : ℤ) → Call
  attach_listener_call : (fd : ℤ) → Call
  detach_listener_call : (fd : ℤ) → Call

unfoldable pub run_call : Env → Call → Cmd ℤ
run_call env new_call = do idx ← sockbuf_new; pure (pos idx)
run_call env (set_sock_call idx sock flags) = sockbuf_set_sock env idx sock flags
run_call env (close_call idx) = sockbuf_close env idx
run_call env (noread_call idx) = sockbuf_noread idx
run_call env (read_call idx) = sockbuf_read idx
run_call env (attach_listener_call fd) = sockbuf_attach_listener fd
run_call env (detach_listener_call fd) = sockbuf_detach_listener fd

unfoldable pub run_calls : Env → List Call → Cmd (Unit {0})
unfolding run_call
run_calls env [] = pure tt
run_calls env (c ∷ cs) = do run_call env c; run_calls env cs

-- AVAIL is not for callers to set.
abbrev pub IsPlain : Call → Type 0
IsPlain (set_sock_call idx sock flags) = flags.avail ≡ false
IsPlain _ = Unit {0}

abbrev pub AllPlain : List Call → Type 0
AllPlain [] = Unit {0}
AllPlain (c ∷ cs) = IsPlain c × AllPlain cs

-- The call returns, and the poll set keeps its invariant.
abbrev pub Keeps : {A : Type 0} → Run A → Type 0
Keeps {A} run = (r : A) × (s : State) × (run ≡ ok r s) × PollInv s

edited-PollInv :
    (f : PollBits → PollBits) (i : ℕ) (s : State) → PollInv s → PollInv (edit_events_of f i s)
edited-PollInv f i s inv = elim (Bool-cases (ltb (place_of i s.idx_array) s.npollfds)) [
  | inl here ↦ rw here (record {
    socks = inv.socks;
    total =
        omega
          (arith, length-modify_at (edit_events f) (place_of i s.idx_array) s.pollfds, inv.total);
    distinct = inv.distinct;
    paired = Paired-edit f (place_of i s.idx_array) s.sockbufs s.idx_array s.pollfds inv.paired;
  })
  | inr absent ↦ rw absent inv
]

interest-Keeps :
    (f : PollBits → PollBits) (idx : ℤ) (s : State) → PollInv s → Keeps (edit_interest f idx s)
unfolding edit_interest
interest-Keeps f (negsuc n) s inv = (minus_one, s, refl, inv)
interest-Keeps f (pos i) s inv = elim (Bool-cases (is_valid_at s i)) [
  | inr refused ↦ (minus_one, s, rw refused, inv)
  | inl valid ↦ elim (Bool-cases (ltb (place_of i s.idx_array) s.npollfds)) [
    | inl here ↦ (
      pos 0,
      edit_events_of f i s,
      rw (valid, here) (rw (pure, edit_events_of, here)),
      edited-PollInv f i s inv,
    )
    | inr absent ↦ (minus_one, s, rw (valid, absent), inv)
  ]
]

set_sock-Keeps :
    (env : Env) (idx sock : ℤ) (flags : Flags) (s : State)
    → flags.avail ≡ false
    → PollInv s
    → Keeps (sockbuf_set_sock env idx sock flags s)
unfolding sockbuf_set_sock
set_sock-Keeps env (negsuc n) sock flags s used inv = (minus_one, s, refl, inv)
set_sock-Keeps env (pos i) sock flags s used inv = elim (Bool-cases (is_valid_at s i)) [
  | inr refused ↦ (minus_one, s, rw refused, inv)
  | inl valid ↦
      let (b, h) = Holds-isvalid s i valid in
      let r = set_sock-SockSet env s i b sock flags h inv used in (r.ret, r.state, r.returns, r.inv)
]

close-Keeps : (env : Env) (idx : ℤ) (s : State) → PollInv s → Keeps (sockbuf_close env idx s)
unfolding sockbuf_close
close-Keeps env (negsuc n) s inv = (minus_one, s, refl, inv)
close-Keeps env (pos i) s inv = elim (Bool-cases (is_valid_at s i)) [
  | inr refused ↦ (minus_one, s, rw refused, inv)
  | inl valid ↦
      let (b, h) = Holds-isvalid s i valid in
      elim (Bool-cases (is_nonneg b.sock)) [
        | inl up ↦ let c = close-Closed env s i b h inv up in (pos 0, c.state, c.returns, c.inv)
        | inr down ↦ (pos 0, s, rw (valid, h.at, down), inv)
      ]
]

Paired-front :
    (bs : List Sockbuf) (is : List ℕ) (ps qs : List Pollfd)
    → Paired bs is ps
    → Paired bs is (ps ++ qs)
Paired-front bs [] ps qs h = tt
Paired-front bs (i ∷ is) [] qs h = absurd h
Paired-front bs (i ∷ is) (p ∷ ps) qs (e, h) = (e, Paired-front bs is ps qs h)

Paired-remove_behind :
    (bs : List Sockbuf) (is : List ℕ) (ps : List Pollfd) (k : ℕ)
    → length is ≤ k
    → Paired bs is ps
    → Paired bs is (remove_at k ps)
Paired-remove_behind bs [] ps k le h = tt
Paired-remove_behind bs (i ∷ is) [] k le h = absurd h
Paired-remove_behind bs (i ∷ is) (p ∷ ps) zero le h = absurd (omega arith)
Paired-remove_behind bs (i ∷ is) (p ∷ ps) (suc k) le (e, h) =
    (e, Paired-remove_behind bs is ps k (omega arith) h)

detach-Keeps : (fd : ℤ) (s : State) → PollInv s → Keeps (sockbuf_detach_listener fd s)
unfolding sockbuf_detach_listener
detach-Keeps fd s inv =
    let j = find_index (λ (p : Pollfd). eqb_ℤ p.fd fd) (drop s.npollfds s.pollfds) in
    elim (Bool-cases (ltb j s.nlisteners)) [
      | inl found ↦
          let lt : j < s.nlisteners = ground arith in
          (
            pos 0,
            record s {
              pollfds = remove_at (s.npollfds + j) s.pollfds;
              nlisteners = s.nlisteners - 1;
            },
            rw found,
            record {
              socks = inv.socks;
              total = omega (
                arith,
                length-remove_at (s.npollfds + j) s.pollfds (omega (arith, inv.total)),
                inv.total,
              );
              distinct = inv.distinct;
              paired =
                  Paired-remove_behind s.sockbufs s.idx_array s.pollfds (s.npollfds + j)
                    (omega (arith, inv.socks)) inv.paired;
            },
          )
      | inr absent ↦ (pos 0, s, rw absent, inv)
    ]

call-Keeps : (env : Env) (c : Call) (s : State) → IsPlain c → PollInv s → Keeps (run_call env c s)
unfolding run_call sockbuf_noread sockbuf_read sockbuf_attach_listener
call-Keeps env new_call s plain inv =
    let (idx, s', ran, _, _, _, inv') = new-fresh s inv in (pos idx, s', rw ran, inv')
call-Keeps env (set_sock_call idx sock flags) s plain inv =
    set_sock-Keeps env idx sock flags s plain inv
call-Keeps env (close_call idx) s plain inv = close-Keeps env idx s inv
call-Keeps env (noread_call idx) s plain inv = interest-Keeps _ idx s inv
call-Keeps env (read_call idx) s plain inv = interest-Keeps _ idx s inv
call-Keeps env (attach_listener_call fd) s plain inv = (
  pos 0,
  _,
  refl,
  record {
    socks = inv.socks;
    total = omega (arith, length-append s.pollfds _, inv.total);
    distinct = inv.distinct;
    paired = Paired-front s.sockbufs s.idx_array s.pollfds _ inv.paired;
  },
)
call-Keeps env (detach_listener_call fd) s plain inv = detach-Keeps fd s inv

-- Whatever calls are made, in whatever order, on valid indices and on others, from a state with a
-- right poll set and never with AVAIL among the flags: each of them returns, none faults, and in
-- the poll set left by them the counters are right, no sockbuf has two entries, and every entry
-- watches the descriptor of its own sockbuf.
pub calls-PollInv :
    (env : Env) (cs : List Call) (s : State)
    → AllPlain cs
    → PollInv s
    → (s' : State) × (run_calls env cs s ≡ ok tt s') × PollInv s'
unfolding run_calls
calls-PollInv env [] s plain inv = (s, refl, inv)
calls-PollInv env (c ∷ cs) s (p, plain) inv =
    let (r, s₁, ran, inv₁) = call-Keeps env c s p inv in
    let (s₂, rest, inv₂) = calls-PollInv env cs s₁ plain inv₁ in (s₂, rw ran rest, inv₂)
