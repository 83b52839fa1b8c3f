-- ===== src/Sockbuf/Events/Newclient.antt =====
-- `sockbuf_on_newclient` of c-cpp/onethread/sockbuf.c for a server without filters.
use examples.Common.{
  ℕ, ◌≡◌, ◌∙◌, refl, ap, inl, inr, Option, none, some, List, [], ◌∷◌, Bytes, ℤ, get_elem?, set,
  arith, ◌==◌, Bool-cases, set-get_elem?, get_elem?-set_ne,
}
use examples.Sockbuf.State.{Sockbuf, State, Pollfd}
use examples.Sockbuf.Run.{ok}
use examples.Sockbuf.Env.{Env}
use examples.Sockbuf.Table.Paired.{used_sock, sock_at, Paired}
use examples.Sockbuf.Table.PollSet.{PollInv, with_sockbuf, get_name_run}
use examples.Sockbuf.Filters.{forward}
use examples.Sockbuf.Events.{set_peer, call_handler, sockbuf_on_newclient, name_ends}

-- A sockbuf that keeps its descriptor and flags keeps its entry.
Paired-set :
    (k : ℕ) (b c : Sockbuf) (bs : List Sockbuf) (is : List ℕ) (ps : List Pollfd)
    → get_elem? bs k ≡ some b
    → c.sock ≡ b.sock
    → c.flags ≡ b.flags
    → Paired bs is ps
    → Paired (set bs k c) is ps
Paired-set k b c bs [] ps at sock flags h = tt
Paired-set k b c bs (i ∷ is) [] at sock flags h = h
Paired-set k b c bs (i ∷ is) (p ∷ ps) at sock flags (e, h) =
    (same_sock ∙ e, Paired-set k b c bs is ps at sock flags h)
  where
    same_sock : sock_at (set bs k c) i ≡ sock_at bs i
    same_sock = elim (Bool-cases (k == i)) [
      | inl own ↦
          let is_k : k ≡ i = ground arith in
          rw (← is_k, set-get_elem? bs k c at, at, sock, flags) refl
      | inr other ↦ ap used_sock (get_elem?-set_ne bs k i c (λ q. ground arith))
    ]

pub with_sockbuf-PollInv :
    (s : State) (k : ℕ) (b c : Sockbuf) (t : ℕ)
    → get_elem? s.sockbufs k ≡ some b
    → c.sock ≡ b.sock
    → c.flags ≡ b.flags
    → PollInv s
    → PollInv (with_sockbuf s k c t)
with_sockbuf-PollInv s k b c t at sock flags inv = record {
  socks = inv.socks;
  total = inv.total;
  distinct = inv.distinct;
  paired = Paired-set k b c s.sockbufs s.idx_array s.pollfds at sock flags inv.paired;
}

-- The new sockbuf gets the names of its ends.
pub name_ends_run :
    (env : Env) (s : State) (idx : ℕ) (b : Sockbuf) (ip : Option Bytes) (port : ℕ)
    → get_elem? s.sockbufs idx ≡ some b
    → (c : Sockbuf) × (t : ℕ) × (name_ends env idx ip port s ≡ ok tt (with_sockbuf s idx c t))
      × (c.sock ≡ b.sock)
      × (c.flags ≡ b.flags)
      × (c.filters ≡ b.filters)
      × (c.peer_port ≡ port)
unfolding name_ends
name_ends_run env s idx b none port at =
    let (name, t, asked) = get_name_run env.os b.sock s in
    (
      record (set_peer none port b) { my_ip = name.ip; my_port = name.port },
      t,
      rw (at, asked) refl,
      refl,
      refl,
      refl,
      refl,
    )
name_ends_run env s idx b (some ip) port at =
    let (name, t, asked) = get_name_run env.os b.sock s in
    (
      record (set_peer (some ip) port b) { my_ip = name.ip; my_port = name.port },
      t,
      rw (at, asked) refl,
      refl,
      refl,
      refl,
      refl,
    )

-- A server without filters leaves the client to its handler, once both ends have a name.
pub on_newclient-bare :
    (env : Env) (s s' : State) (idx newidx : ℕ) (b : Sockbuf) (level : ℤ) (ip : Option Bytes)
    (port : ℕ)
    → get_elem? s.sockbufs idx ≡ some b
    → b.filters ≡ []
    → name_ends env newidx ip port s ≡ ok tt s'
    → sockbuf_on_newclient env idx level newidx ip port s
      ≡ call_handler env (λ h. h.on_newclient) (λ f. f b.client_data idx newidx ip port) b s'
unfolding sockbuf_on_newclient forward
on_newclient-bare env s s' idx newidx b level ip port at bare named = rw (at, bare) (rw named refl)
