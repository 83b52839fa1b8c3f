-- ===== src/Sockbuf/Table/New.antt =====
-- `sockbuf_new` of c-cpp/onethread/sockbuf.c gives a place that nobody uses.
use examples.Common.{
  ◌+◌, if◌then◌else◌, get_elem?-none, get_elem?-append, ℕ, zero, suc, ◌≤◌, ◌<◌, ◌≡◌, ◌≢◌, ◌∙◌, refl,
  ap, ◌⊎◌, inl, inr, true, false, none, some, List, [], ◌∷◌, ◌++◌, ℤ, arith, ◌==◌, length,
  get_elem?, set, replicate, Bool-cases, find_index-le, length-append, get_elem?-set_self,
  get_elem?-set_ne,
}
use examples.Sockbuf.State.{Sockbuf, Pollfd, State}
use examples.Sockbuf.Run.{ok}
use examples.Sockbuf.Valid.{Holds, is_valid_at-Holds}
use examples.Sockbuf.Table.{
  first_avail, avail_sockbuf, fresh_sockbuf, grown, is_valid_at, sockbuf_new,
}
use examples.Sockbuf.Table.Paired.{
  sock_at, Paired, IsAbsent-unused, PairedBut-Paired, Paired-absent,
}
use examples.Sockbuf.Table.PollSet.{PollInv}

-- Either the place is past the end, or its sockbuf is AVAIL.
first_avail-cases :
    (bs : List Sockbuf)
    → (first_avail bs ≡ length bs)
      ⊎ ((b : Sockbuf) × (get_elem? bs (first_avail bs) ≡ some b) × (b.flags.avail ≡ true))
first_avail-cases [] = inl refl
first_avail-cases (b ∷ bs) = elim (Bool-cases b.flags.avail) [
  | inl up ↦ simp up (inr (b, refl, up))
  | inr down ↦ simp down (elim (first_avail-cases bs) [ inl e ↦ inl (ap suc e) | inr r ↦ inr r ])
]

-- No sockbuf in use stands there.
first_avail-unused : (bs : List Sockbuf) → sock_at bs (first_avail bs) ≡ none
first_avail-unused bs = elim (first_avail-cases bs) [
  | inl e ↦ rw e (rw (get_elem?-none bs))
  | inr (b, at, up) ↦ rw at (simp up)
]

first_avail-invalid : (s : State) → is_valid_at s (first_avail s.sockbufs) ≡ false
first_avail-invalid s = elim (first_avail-cases s.sockbufs) [
  | inl e ↦ rw (e, get_elem?-none s.sockbufs, is_valid_at)
  | inr (b, at, up) ↦ rw (at, is_valid_at) (simp up)
]

sock_at-append :
    (bs cs : List Sockbuf) (i : ℕ) {k : ℤ} → sock_at bs i ≡ some k → sock_at (bs ++ cs) i ≡ some k
sock_at-append [] cs i h = cc
sock_at-append (b ∷ bs) cs zero h = h
sock_at-append (b ∷ bs) cs (suc i) h = sock_at-append bs cs i h

Paired-append :
    (bs cs : List Sockbuf) (is : List ℕ) (ps : List Pollfd)
    → Paired bs is ps
    → Paired (bs ++ cs) is ps
Paired-append bs cs [] ps h = tt
Paired-append bs cs (i ∷ is) [] h = h
Paired-append bs cs (i ∷ is) (p ∷ ps) (e, h) =
    (sock_at-append bs cs i e, Paired-append bs cs is ps h)

Paired-grown :
    (bs : List Sockbuf) (is : List ℕ) (ps : List Pollfd) → Paired bs is ps → Paired (grown bs) is ps
Paired-grown bs is ps h = elim (Bool-cases (first_avail bs == length bs)) [
  | inl full ↦ rw full (Paired-append bs (replicate 5 avail_sockbuf) is ps h)
  | inr room ↦ rw room h
]

-- Growing leaves what was there where it was, and makes room.
pub grown-get :
    (bs : List Sockbuf) (i : ℕ) {b : Sockbuf}
    → get_elem? bs i ≡ some b
    → get_elem? (grown bs) i ≡ some b
grown-get bs i h = elim (Bool-cases (first_avail bs == length bs)) [
  | inl full ↦ rw full (get_elem?-append bs (replicate 5 avail_sockbuf) i h)
  | inr room ↦ rw room h
]

first_avail-lt-grown : (bs : List Sockbuf) → first_avail bs < length (grown bs)
first_avail-lt-grown bs =
    let le : first_avail bs ≤ length bs = find_index-le _ bs in
    elim (Bool-cases (first_avail bs == length bs)) [
      | inl full ↦ rw full (omega (arith, le, length-append bs (replicate 5 avail_sockbuf)))
      | inr room ↦ rw room (ground arith)
    ]

-- `sockbuf_new` cannot fail. The index that it gives was not valid before and holds a fresh,
-- blocked sockbuf after; every valid sockbuf is kept as it was, and the poll set keeps its
-- invariant.
pub new-fresh :
    (s : State)
    → PollInv s
    → (idx : ℕ) × (s' : State) × (sockbuf_new s ≡ ok idx s')
      × (is_valid_at s idx ≡ false)
      × Holds s' idx fresh_sockbuf
      × ((j : ℕ) (b : Sockbuf) → Holds s j b → Holds s' j b)
      × PollInv s'
unfolding sockbuf_new
new-fresh s inv =
    let bs = s.sockbufs in
    let idx = first_avail bs in
    (
      idx,
      record s {
        sockbufs = set (grown bs) idx fresh_sockbuf;
        table = if idx == length bs then s.table + 1 else s.table;
      },
      refl,
      first_avail-invalid s,
      record {
        at = get_elem?-set_self (grown bs) idx fresh_sockbuf (first_avail-lt-grown bs);
        live = refl;
      },
      kept,
      record {
        socks = inv.socks;
        total = inv.total;
        distinct = inv.distinct;
        paired =
            Paired-absent idx _ s.idx_array s.pollfds
              (IsAbsent-unused idx bs s.idx_array s.pollfds (first_avail-unused bs) inv.paired)
              (PairedBut-Paired idx fresh_sockbuf (grown bs) s.idx_array s.pollfds
                (Paired-grown bs s.idx_array s.pollfds inv.paired));
      },
    )
  where
    other : (j : ℕ) (b : Sockbuf) → Holds s j b → first_avail s.sockbufs ≢ j
    other j b h e = cc (first_avail-invalid s, is_valid_at-Holds h, ap (is_valid_at s) e)

    kept :
        (j : ℕ) (b : Sockbuf)
        → Holds s j b
        → Holds
            (record s {
              sockbufs = set (grown s.sockbufs) (first_avail s.sockbufs) fresh_sockbuf;
              table = if first_avail s.sockbufs == length s.sockbufs then s.table + 1 else s.table;
            })
            j
            b
    kept j b h = record {
      at =
          get_elem?-set_ne (grown s.sockbufs) (first_avail s.sockbufs) j fresh_sockbuf (other j b h)
          ∙ grown-get s.sockbufs j h.at;
      live = h.live;
    }
