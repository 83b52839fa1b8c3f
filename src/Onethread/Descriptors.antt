-- ===== src/Onethread/Descriptors.antt =====
-- The descriptors of c-cpp/onethread/onethread.c: what becomes of them, and when the array is full.
use mathlib.Core.Path.{subst}
use examples.Common.{
  ℕ, suc, ◌+◌, ◌≡◌, refl, sym, ap, inl, inr, true, false, ◌||◌, Option, none, some, List, [], ◌∷◌,
  ◌++◌, leb, if◌then◌else◌, length, arith, length-append, Bool-cases, Option-cases, append-nil,
}
use examples.Onethread.{
  Entry, State, Ready, Polled, poll_failed, timeout, ready, Outcome, running, exited, fault,
  store_bits, accept_client, read_clients, close_clients, closed_by, initial, max_fds,
  serve_clients, round, rounds,
}
use examples.Onethread.Table.{
  count, fds, held, taken_in, taken, length_of, accepts_in, accepts, count-append, fds-append,
  length-fds, fds-store, fds-read, count-close, length-close,
}

-- What a round in which the server goes on does to the table.
record Kept (p : Polled) (s s' : State) : Type 0 where
  balance : (v : ℕ) → held v s' ≡ taken_in v p + held v s
  size : length s'.clients ≡ accepts_in p + length s.clients

abbrev fds_of : Option ℕ → List (Option ℕ)
fds_of none = []
fds_of (some fd) = some fd ∷ []

count-fds_of : (v : ℕ) (o : Option ℕ) → count v (fds_of o) ≡ count v (o ∷ [])
count-fds_of v none = refl
count-fds_of v (some fd) = refl

length-fds_of : (o : Option ℕ) → length (fds_of o) ≡ length_of o
length-fds_of none = refl
length-fds_of (some fd) = refl

accept-fds :
    (r : Ready) (es es' : List Entry)
    → accept_client r es ≡ some es'
    → fds es' ≡ fds es ++ fds_of r.accepted
unfolding accept_client
accept-fds r es es' e = elim (Bool-cases (leb max_fds (suc (length es)))) [
  | inl full ↦ cc (rw (accept_client, full) at e)
  | inr room ↦ elim (Option-cases r.accepted) [
    | inl refused ↦
        let same : es ≡ es' = cc (rw (accept_client, room, refused) at e) in
        rw (refused, ← same) (sym (append-nil (fds es)))
    | inr (fd, came) ↦
        let new : List Entry = record { fd = some fd; revents = r.stack } ∷ [] in
        let same : es ++ new ≡ es' = cc (rw (accept_client, room, came) at e) in
        rw (came, ← same) (fds-append es new)
  ]
]

serve-Kept :
    (r : Ready) (es : List Entry) (s s' : State)
    → serve_clients r es s ≡ running s'
    → ((v : ℕ) → held v s' ≡ count v s.closed + count v (fds es)) × (length s'.clients ≡ length es)
unfolding serve_clients
serve-Kept r es s s' e = elim (Option-cases (read_clients r.received 0 es)) [
  | inl stop ↦ cc (rw (serve_clients, stop) at e)
  | inr (es', done) ↦
      let t : State = record { clients = close_clients es'; closed = s.closed ++ closed_by es' } in
      let same : t ≡ s' = cc (rw (serve_clients, done) at e) in
      let kept = fds-read r.received 0 es es' done in
      subst
        (λ u.
          ((v : ℕ) → held v u ≡ count v s.closed + count v (fds es))
          × (length u.clients ≡ length es))
        same
        (
          λ v. omega (
            arith,
            count-append v s.closed (closed_by es'),
            count-close v es',
            ap (count v) kept,
          ),
          omega (arith, length-close es', length-fds es', length-fds es, ap length kept),
        )
]

table-Kept :
    (r : Ready) (es es' : List Entry)
    → (if r.listener.input then accept_client r es else some es) ≡ some es'
    → ((v : ℕ) → count v (fds es') ≡ taken_in v (ready r) + count v (fds es))
      × (length es' ≡ accepts_in (ready r) + length es)
unfolding accept_client
table-Kept r es es' e = elim (Bool-cases r.listener.input) [
  | inr quiet ↦
      let same : es ≡ es' = cc (rw quiet at e) in rw (quiet, ← same) (λ v. omega arith, omega arith)
  | inl came ↦
      let grown = accept-fds r es es' (rw came at e) in
      rw came (
        λ v. omega (
          arith,
          ap (count v) grown,
          count-append v (fds es) (fds_of r.accepted),
          count-fds_of v r.accepted,
        ),
        omega (
          arith,
          ap length grown,
          length-append (fds es) (fds_of r.accepted),
          length-fds_of r.accepted,
          length-fds es,
          length-fds es',
        ),
      )
]

round-Kept : (p : Polled) (s s' : State) → round p s ≡ running s' → Kept p s s'
unfolding round
round-Kept poll_failed s s' e = cc
round-Kept timeout s s' e =
    let same : s ≡ s' = cc in
    subst (Kept timeout s) same (record { balance = λ v. omega arith; size = omega arith })
round-Kept (ready r) s s' e = elim (Bool-cases (r.listener.err || r.listener.hup)) [
  | inl gone ↦ cc (rw (round, gone) at e)
  | inr well ↦
      let es = store_bits r.bits 0 s.clients in
      let same = fds-store r.bits 0 s.clients in
      elim (Option-cases (if r.listener.input then accept_client r es else some es)) [
        | inl full ↦ cc (rw (round, well, full) at e)
        | inr (es', room) ↦
            let (count_in, size_in) = table-Kept r es es' room in
            let (count_out, size_out) = serve-Kept r es' s s' (rw (round, well, room) at e) in
            record {
              balance = λ v. omega (arith, count_in v, count_out v, ap (count v) same);
              size =
                  omega
                    (arith, size_in, size_out, ap length same, length-fds es, length-fds s.clients);
            }
      ]
]

first_round :
    (p : Polled) (ps : List Polled) (s s' : State)
    → rounds (p ∷ ps) s ≡ running s'
    → (t : State) × (round p s ≡ running t) × (rounds ps t ≡ running s')
unfolding rounds
first_round p ps s s' e = next_rounds (round p s) ps e
  where
    next_rounds :
        (o : Outcome) (ps : List Polled) {s' : State}
        → (elim o [ running t ↦ rounds ps t | exited ↦ exited | fault ↦ fault ]) ≡ running s'
        → (t : State) × (o ≡ running t) × (rounds ps t ≡ running s')
    next_rounds (running t) ps e = (t, refl, e)
    next_rounds exited ps e = cc
    next_rounds fault ps e = cc

-- As long as the program runs, every descriptor has been closed or is in the table as often as it
-- was accepted, and the table has an entry for every connection that was ever accepted.
pub rounds-held :
    (ps : List Polled) (s s' : State)
    → rounds ps s ≡ running s'
    → ((v : ℕ) → held v s' ≡ taken v ps + held v s)
      × (length s'.clients ≡ accepts ps + length s.clients)
unfolding rounds
rounds-held [] s s' e = let same : s ≡ s' = cc in rw (← same) (λ v. omega arith, omega arith)
rounds-held (p ∷ ps) s s' e =
    let (t, one, more) = first_round p ps s s' e in
    let kept = round-Kept p s t one in
    let (balance, size) = rounds-held ps t s' more in
    (λ v. omega (arith, balance v, kept.balance v), omega (arith, size, kept.size))

-- After 127 connections, however many of them are closed, the next event on the listening socket
-- writes behind the array of 128 entries.
pub rounds-full :
    (ps : List Polled) (s : State) (r : Ready)
    → rounds ps initial ≡ running s
    → accepts ps ≡ 127
    → (r.listener.err || r.listener.hup) ≡ false
    → r.listener.input ≡ true
    → round (ready r) s ≡ fault
unfolding round accept_client
rounds-full ps s r run many well came =
    let es = store_bits r.bits 0 s.clients in
    let (balance, size) = rounds-held ps initial s run in
    let count : length es ≡ 127 = omega (
      arith,
      size,
      ap length (fds-store r.bits 0 s.clients),
      length-fds es,
      length-fds s.clients,
    ) in
    let full : leb 128 (suc (length es)) ≡ true = ground arith in
    rw (round, well, came, accept_client, full) refl
