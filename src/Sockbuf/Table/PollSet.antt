-- ===== src/Sockbuf/Table/PollSet.antt =====
-- The invariant of the poll set of c-cpp/onethread/sockbuf.c, and that `sockbuf_set_sock` keeps it.
use examples.Common.{
  false, true, ℕ, suc, ◌+◌, ◌-◌, ◌≤◌, ◌<◌, ◌≡◌, refl, inl, inr, Option, none, some, [], ◌∷◌, ◌++◌,
  ℤ, pos, minus_one, eqb_ℤ, arith, ◌==◌, length, get_elem?, set, Bool-cases, insert_at, remove_at,
  length-append, length-insert_at, length-remove_at, length-modify_at, set_self, modify_at-set,
  drop,
}
use examples.Sockbuf.State.{Flags, Sockbuf, no_events, Pollfd, State}
use examples.Sockbuf.Run.{ok}
use examples.Sockbuf.Env.{Os, Env, SockName, ipv4, ipv6, other_length}
use examples.Sockbuf.Table.{
  place_of, interest, stale_revents, drop_entry, add_entry, write_entry, name_server, poll_entry,
}
use examples.Sockbuf.Table.Paired.{
  sock_at, Paired, PairedBut, Distinct, IsAbsent-place, place-le, Paired-absent, Paired-remove_at,
  Paired-modify_at, Paired-add, Distinct-concat, Distinct-remove_at, IsAbsent, IsAbsent-removed,
  place-concat,
}
use examples.Socket.{Name, get_name_ipv6, socket_get_name}

-- The counters count, no sockbuf has two entries, and each entry watches its sockbuf's descriptor.
pub record PollInv (s : State) : Type 0 where
  pub socks : s.npollfds ≡ length s.idx_array
  pub total : length s.pollfds ≡ s.npollfds + s.nlisteners
  pub distinct : Distinct s.idx_array
  pub paired : Paired s.sockbufs s.idx_array s.pollfds

-- `idx` has an entry exactly if its descriptor is not -1.
abbrev pub WatchedIff : ℕ → ℤ → State → Type 0
WatchedIff idx sock s =
    (eqb_ℤ sock minus_one ≡ true → IsAbsent idx s.idx_array)
    × (eqb_ℤ sock minus_one ≡ false → place_of idx s.idx_array < length s.idx_array)

-- Asking for a name takes system calls and changes nothing else.
pub get_name_run :
    (os : Os) (sock : ℤ) (s : State)
    → (name : Name) × (k : ℕ) × (socket_get_name os sock s ≡ ok name (record s { clock = k }))
unfolding socket_get_name
get_name_run os sock s = go (os.getsockname s.clock sock) refl
  where
    second : Name
    second = get_name_ipv6 (os.getsockname (suc s.clock) sock)

    go :
        (o : Option SockName)
        → os.getsockname s.clock sock ≡ o
        → (name : Name) × (k : ℕ) × (socket_get_name os sock s ≡ ok name (record s { clock = k }))
    go none e = (second, suc (suc s.clock), rw e)
    go (some (ipv4 ip port)) e =
        (record { ret = pos 0; ip = some ip; port = port }, suc s.clock, rw e)
    go (some (ipv6 ip m port)) e = (second, suc (suc s.clock), rw e)
    go (some other_length) e = (second, suc (suc s.clock), rw e)

-- A state that differs from `s` in the clock and in the sockbuf at `idx`, now `b`.
abbrev pub with_sockbuf : State → ℕ → Sockbuf → ℕ → State
with_sockbuf s idx b k = record s { sockbufs = set s.sockbufs idx b; clock = k }

abbrev pub named : Sockbuf → Name → Sockbuf
named b n = record b { my_ip = n.ip; my_port = n.port }

-- `name_server` changes the names of that sockbuf at most.
pub name_server_run :
    (env : Env) (s : State) (idx : ℕ) (b : Sockbuf) (sock : ℤ) (flags : Flags)
    → get_elem? s.sockbufs idx ≡ some b
    → (b' : Sockbuf) × (k : ℕ) × (name_server env idx sock flags s
        ≡ ok tt (with_sockbuf s idx b' k))
      × (b'.sock ≡ b.sock)
      × (b'.flags ≡ b.flags)
      × (b'.data_out ≡ b.data_out)
      × (b'.filters ≡ b.filters)
unfolding name_server
name_server_run env s idx b sock flags at =
    let (name, k, run) = get_name_run env.os sock s in
    elim (Bool-cases flags.server) [
      | inl up ↦ (
        named b name,
        k,
        simp up (rw (run, modify_at-set _ s.sockbufs idx at)),
        refl,
        refl,
        refl,
        refl,
      )
      | inr down ↦
          (b, s.clock, simp down (rw (set_self s.sockbufs idx b at)), refl, refl, refl, refl)
    ]

-- Where the entry of `idx` may be out of date, and the sockbuf has the descriptor `sock`,
-- `poll_entry` puts that right.
pub poll_entry-PollInv :
    (env : Env) (s : State) (idx : ℕ) (sock : ℤ) (flags : Flags)
    → s.npollfds ≡ length s.idx_array
    → length s.pollfds ≡ s.npollfds + s.nlisteners
    → Distinct s.idx_array
    → PairedBut idx s.sockbufs s.idx_array s.pollfds
    → sock_at s.sockbufs idx ≡ some sock
    → (r : ℤ) × (s' : State) × (poll_entry env idx sock flags s ≡ ok r s')
      × PollInv s'
      × (s'.sockbufs ≡ s.sockbufs)
      × (s'.closed ≡ s.closed)
      × WatchedIff idx sock s'
unfolding poll_entry drop_entry add_entry write_entry
poll_entry-PollInv env s idx sock flags socks total distinct but at =
    let i = place_of idx s.idx_array in
    let le : i ≤ length s.idx_array = place-le idx s.idx_array in
    elim (Bool-cases (eqb_ℤ sock minus_one)) [
      | inl closing ↦ elim (Bool-cases (i == s.npollfds)) [
        | inl absent ↦
            let off = IsAbsent-place idx s.idx_array (ground arith) in
            (
              pos 1,
              s,
              rw (closing, drop_entry, absent),
              record {
                socks = socks;
                total = total;
                distinct = distinct;
                paired = Paired-absent idx s.sockbufs s.idx_array s.pollfds off but;
              },
              refl,
              refl,
              (λ _. off, λ c. cc),
            )
        | inr present ↦
            let lt : i < length s.idx_array = ground arith in
            (
              pos 0,
              dropped i,
              rw (closing, drop_entry, present),
              record {
                socks = omega (arith, length-remove_at i s.idx_array lt);
                total = omega (arith, length-remove_at i s.pollfds (omega arith));
                distinct = Distinct-remove_at i s.idx_array distinct;
                paired = Paired-remove_at idx s.sockbufs s.idx_array s.pollfds distinct but lt;
              },
              refl,
              refl,
              (λ _. IsAbsent-removed idx s.idx_array distinct lt, λ c. cc),
            )
      ]
      | inr open_sock ↦ elim (Bool-cases (i == s.npollfds)) [
        | inl absent ↦
            let e : i ≡ length s.idx_array = ground arith in
            let off = IsAbsent-place idx s.idx_array e in
            (
              pos idx,
              write_entry i sock flags (added i),
              rw (open_sock, add_entry, absent),
              record {
                socks = omega (arith, length-append s.idx_array (idx ∷ []));
                total = omega (
                  arith,
                  length-modify_at (write sock) i (insert_at i (fresh i) s.pollfds),
                  length-insert_at i (fresh i) s.pollfds,
                );
                distinct = Distinct-concat idx s.idx_array distinct off;
                paired = rw e (
                    Paired-add idx (fresh (length s.idx_array)) (write sock) s.sockbufs s.idx_array
                      s.pollfds (Paired-absent idx s.sockbufs s.idx_array s.pollfds off but) at);
              },
              refl,
              refl,
              (λ c. cc, λ _. place-concat idx s.idx_array),
            )
        | inr present ↦
            let lt : i < length s.idx_array = ground arith in
            (
              pos idx,
              write_entry i sock flags s,
              rw (open_sock, add_entry, present),
              record {
                socks = socks;
                total = omega (arith, length-modify_at (write sock) i s.pollfds);
                distinct = distinct;
                paired =
                    Paired-modify_at idx sock (write sock) s.sockbufs s.idx_array s.pollfds distinct
                      but lt at (λ p. refl);
              },
              refl,
              refl,
              (λ c. cc, λ _. lt),
            )
      ]
    ]
  where
    write : ℤ → Pollfd → Pollfd
    write sk p = record p { fd = sk; events = interest flags }

    fresh : ℕ → Pollfd
    fresh i = record {
      fd = minus_one;
      events = no_events;
      revents = stale_revents (env.os.garbage s.clock) (drop i s.pollfds);
    }

    dropped : ℕ → State
    dropped i = record s {
      idx_array = remove_at i s.idx_array;
      pollfds = remove_at i s.pollfds;
      npollfds = s.npollfds - 1;
    }

    added : ℕ → State
    added i = record s {
      idx_array = s.idx_array ++ idx ∷ [];
      pollfds = insert_at i (fresh i) s.pollfds;
      npollfds = s.npollfds + 1;
    }
