-- ===== src/Sockbuf/Loop/Ready.antt =====
-- What one round of `sockbuf_update_all` in c-cpp/onethread/sockbuf.c does about the entries that
-- `poll` reports, while the poll set stays as it is.
use examples.Common.{
  ℕ, zero, suc, ◌+◌, ◌-◌, ◌≤◌, ◌<◌, ◌≡◌, refl, ap, ◌⊎◌, inl, inr, true, false, not, ◌||◌, some,
  List, [], ℤ, pos, arith, ◌==◌, ltb, length, get_elem?, take, drop, get_elem?_total,
  drop-get_elem?, drop-all, Bool-cases,
}
use examples.Sockbuf.State.{Pollfd, State}
use examples.Sockbuf.Run.{Run, Cmd, ok, fault, out_of_fuel, pure, update, and_then, ◌>>◌}
use examples.Sockbuf.Env.{Env}
use examples.Sockbuf.Table.PollSet.{PollInv}
use examples.Sockbuf.Loop.Serve.{serve, serve_all, ready_entries, dispatch-serve}
use examples.Sockbuf.Loop.{leave, poll_all, sockbuf_update_all, any_revents, dispatch, update_loop}

Run-cases : (r : Run (Unit {0})) → ((s : State) × (r ≡ ok tt s)) ⊎ ((r ≡ fault) ⊎ (r ≡ out_of_fuel))
Run-cases (ok tt s) = inl (s, refl)
Run-cases fault = inr (inl refl)
Run-cases out_of_fuel = inr (inr refl)

-- The poll set, of the entries `xs` and `ps`, stays as it is while entries with something to report
-- are dealt with; where that faults or does not return, nothing is asked.
pub record IsSteady (env : Env) (xs : List ℕ) (ps : List Pollfd) (Inv : State → Type 0)
    : Type 0 where
  pub keeps :
      (i idx : ℕ) (p : Pollfd) (s s' : State)
      → Inv s
      → get_elem? ps i ≡ some p
      → get_elem? xs i ≡ some idx
      → any_revents p.revents ≡ true
      → serve env (idx, p.revents) s ≡ ok tt s'
      → Inv s'
  pub idx_array_is : (s : State) → Inv s → s.idx_array ≡ xs
  pub pollfds_are : (s : State) → Inv s → s.pollfds ≡ ps
  pub npollfds_is : (s : State) → Inv s → s.npollfds ≡ length xs

module _ (env : Env) (xs : List ℕ) (ps : List Pollfd) (Inv : State → Type 0)
    (t : IsSteady env xs ps Inv) (room : length xs ≤ length ps) where
  -- The entry at `i`, where the loop goes on as it should with the entries behind it.
  round-serve_all :
      (fuel i n idx : ℕ) (p : Pollfd) (s : State)
      → Inv s
      → ltb i s.npollfds ≡ true
      → get_elem? ps i ≡ some p
      → get_elem? xs i ≡ some idx
      → ((n' : ℕ) (s' : State)
          → Inv s'
          → update_loop env fuel (i + 1) n' s'
            ≡ serve_all env (take n' (ready_entries (drop (i + 1) xs) (drop (i + 1) ps))) s')
      → update_loop env (suc fuel) i (suc n) s
        ≡ serve_all env (take (suc n) (ready_entries (drop i xs) (drop i ps))) s
  unfolding update_loop serve_all ready_entries
  round-serve_all fuel i n idx p s inv go at at_idx later =
      let on : (suc n == 0 || not (ltb i s.npollfds)) ≡ false = ground (arith, go) in
      let less : suc n - 1 ≡ n = omega arith in
      let at' : get_elem? s.pollfds i ≡ some p = rw (t.pollfds_are s inv) at in
      let at_idx' : get_elem? s.idx_array i ≡ some idx = rw (t.idx_array_is s inv) at_idx in
      let xs_from = drop-get_elem? i xs at_idx in
      let ps_from = drop-get_elem? i ps at in
      elim (Bool-cases (any_revents p.revents)) [
        | inr quiet ↦ rw (on, at', xs_from, ps_from, quiet) (later (suc n) s inv)
        | inl ready ↦
            let same : dispatch env idx p.revents s ≡ serve env (idx, p.revents) s =
              ap (λ (m : Cmd (Unit {0})). m s) (dispatch-serve env idx p.revents) in
            elim (Run-cases (serve env (idx, p.revents) s)) [
              | inl (s', ran) ↦
                  rw (on, at', xs_from, ps_from, ready, at_idx', same, ran, less)
                    (later n s' (t.keeps i idx p s s' inv at at_idx ready ran))
              | inr (inl bad) ↦ rw (on, at', xs_from, ps_from, ready, at_idx', same, bad) refl
              | inr (inr hangs) ↦ rw (on, at', xs_from, ps_from, ready, at_idx', same, hangs) refl
            ]
      ]

  update_loop-serve_all :
      (fuel i n : ℕ) (s : State)
      → Inv s
      → i ≤ length xs
      → length xs < i + fuel
      → update_loop env fuel i n s
        ≡ serve_all env (take n (ready_entries (drop i xs) (drop i ps))) s
  unfolding update_loop serve_all ready_entries
  update_loop-serve_all zero i n s inv le lt = absurd (omega arith)
  update_loop-serve_all (suc fuel) i zero s inv le lt = refl
  update_loop-serve_all (suc fuel) i (suc n) s inv le lt =
      let count = t.npollfds_is s inv in
      elim (Bool-cases (ltb i s.npollfds)) [
        | inr stop ↦
            let none_left : drop i xs ≡ [] = drop-all xs i (ground (arith, count)) in
            let off : (suc n == 0 || not (ltb i s.npollfds)) ≡ true = ground (arith, stop) in
            rw (off, none_left) refl
        | inl go ↦
            let below : i < length xs = ground (arith, count) in
            let (p, at) = get_elem?_total ps i (omega arith) in
            let (idx, at_idx) = get_elem?_total xs i below in
            round-serve_all fuel i n idx p s inv go at at_idx λ n' s' inv'.
              update_loop-serve_all fuel (i + 1) n' s' inv' (omega arith) (omega arith)
      ]

-- One call of `sockbuf_update_all`, where the poll set is right once `poll` has returned, and
-- serving an entry that reports something leaves `idx_array`, `pollfds` and `npollfds` as they are,
-- if it returns at all. Of the sockbufs whose entries report something the first `n` are served, in
-- the order of the poll set and each once, where `n` is the number that `poll` gives, or `npollfds`
-- if it fails; then the depth is left, and 0 is returned. A fault or an endless loop of one of them
-- ends the call there. One round more than there are entries is enough.
pub update_all-serve_all :
    (env : Env) (Inv : State → Type 0) (timeout : ℤ) (fuel n : ℕ) (s s₁ : State)
    → poll_all env timeout (record s { depth = s.depth + 1 }) ≡ ok n s₁
    → PollInv s₁
    → Inv s₁
    → IsSteady env s₁.idx_array s₁.pollfds Inv
    → s₁.npollfds < fuel
    → sockbuf_update_all env fuel timeout s
      ≡ (serve_all env (take n (ready_entries s₁.idx_array s₁.pollfds))
            >> (update leave >> pure (pos 0)))
          s₁
unfolding sockbuf_update_all
update_all-serve_all env Inv timeout fuel n s s₁ polled poll inv t enough =
    let socks = poll.socks in
    let total = poll.total in
    let loop =
      update_loop-serve_all env s₁.idx_array s₁.pollfds Inv t (omega arith) fuel 0 n s₁ inv
        (omega arith) (omega arith) in
    rw polled (ap (λ (r : Run (Unit {0})). and_then r (λ _. update leave >> pure (pos 0))) loop)
