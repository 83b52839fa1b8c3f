-- ===== src/Sockbuf/Loop/Reclaim.antt =====
-- When a deleted index of c-cpp/onethread/sockbuf.c can be given out again: the end of
-- `sockbuf_update_all`, at the topmost level only.
use examples.Common.{
  length, ℕ, zero, suc, ◌+◌, ◌-◌, ◌≤◌, ◌≡◌, ◌≢◌, ◌∙◌, refl, sym, ap, ◌⊎◌, ◌++◌, inl, inr, true,
  false, some, List, [], ◌∷◌, map, arith, ◌==◌, if◌then◌else◌, get_elem?, set, Bool-cases,
  get_elem?-set_ne,
}
use examples.Sockbuf.State.{Sockbuf, State}
use examples.Sockbuf.Run.{ok}
use examples.Sockbuf.Table.{sockbuf_new, first_avail, grown, fresh_sockbuf}
use examples.Sockbuf.Table.New.{grown-get}
use examples.Sockbuf.Loop.{reclaim, reclaimed, leave}

abbrev pub count_deleted : List Sockbuf → ℕ
count_deleted [] = 0
count_deleted (b ∷ bs) = (if b.flags.deleted then 1 else 0) + count_deleted bs

count_deleted-map : (bs : List Sockbuf) → count_deleted (map reclaimed bs) ≡ 0
count_deleted-map [] = refl
count_deleted-map (b ∷ bs) = ground (arith, count_deleted-map bs)

-- `now` is `before` with the deleted places of its front made available. The front has `n` of them,
-- or fewer, and then it is the whole table.
pub record Reclaimed (n : ℕ) (before now : List Sockbuf) : Type 0 where
  pub front : List Sockbuf
  pub back : List Sockbuf
  pub before_is : before ≡ front ++ back
  pub now_is : now ≡ map reclaimed front ++ back
  pub count : (count_deleted front ≡ n) ⊎ ((count_deleted front ≤ n) × (back ≡ []))

-- The loop stops with its count, or at the end of the table.
reclaim-Reclaimed : (n : ℕ) (bs : List Sockbuf) → Reclaimed n bs (reclaim n bs)
unfolding reclaim
reclaim-Reclaimed n [] = record {
  front = [];
  back = [];
  before_is = refl;
  now_is = refl;
  count = inr (omega arith, refl);
}
reclaim-Reclaimed n (b ∷ bs) = elim (Bool-cases (n == 0)) [
  | inl done ↦ record {
    front = [];
    back = b ∷ bs;
    before_is = refl;
    now_is = rw done refl;
    count = inl (ground arith);
  }
  | inr more ↦
      let r = reclaim-Reclaimed (if b.flags.deleted then n - 1 else n) bs in
      record {
        front = b ∷ r.front;
        back = r.back;
        before_is = ap (◌∷◌ b) r.before_is;
        now_is = rw more (ap (◌∷◌ (reclaimed b)) r.now_is);
        count = elim (r.count) [
          | inl e ↦ inl (ground (arith, e))
          | inr (le, e) ↦ inr (ground (arith, le), e)
        ];
      }
]

-- `out` is `s` after the topmost level has been left.
pub record Left (s out : State) : Type 0 where
  pub depth_is : out.depth ≡ 0
  pub uncounted : out.ndeleted_sockbufs ≡ 0
  pub places : Reclaimed s.ndeleted_sockbufs s.sockbufs out.sockbufs
  pub fewer : count_deleted out.sockbufs ≡ count_deleted s.sockbufs - s.ndeleted_sockbufs

count_deleted-concat :
    (xs ys : List Sockbuf) → count_deleted (xs ++ ys) ≡ count_deleted xs + count_deleted ys
count_deleted-concat [] ys = omega arith
count_deleted-concat (x ∷ xs) ys = let later = count_deleted-concat xs ys in omega (arith, later)

Reclaimed-fewer :
    (n : ℕ) (before now : List Sockbuf)
    → Reclaimed n before now
    → count_deleted now ≡ count_deleted before - n
Reclaimed-fewer n before now r =
    let all = count_deleted-concat r.front r.back in
    let kept = count_deleted-concat (map reclaimed r.front) r.back in
    let gone = count_deleted-map r.front in
    rw (r.before_is, r.now_is)
      (elim (r.count) [
        | inl e ↦ omega (arith, all, kept, gone, e)
        | inr (le, e) ↦
            let none_left : count_deleted r.back ≡ 0 = rw e refl in
            omega (arith, all, kept, gone, le, none_left)
      ])

-- Leaving the topmost `sockbuf_update_all`: of the deleted places the first `ndeleted_sockbufs` in
-- the order of the table, or all if there are fewer, become available, all others stay as they are,
-- deleted ones behind them too, and the count is 0 afterwards. The count may be wrong before.
pub leave-Left : (s : State) → s.depth ≡ 1 → Left s (leave s)
unfolding leave
leave-Left s d =
    let top : (s.depth - 1 == 0) ≡ true = ground arith in
    elim (Bool-cases (s.ndeleted_sockbufs == 0)) [
      | inl nothing ↦
          let zero_count : s.ndeleted_sockbufs ≡ 0 = ground arith in
          rw nothing (record {
            depth_is = omega arith;
            uncounted = zero_count;
            places = record {
              front = [];
              back = s.sockbufs;
              before_is = refl;
              now_is = refl;
              count = inl (sym zero_count);
            };
            fewer = omega arith;
          })
      | inr some_left ↦
          let r = reclaim-Reclaimed s.ndeleted_sockbufs s.sockbufs in
          rw (some_left, top)
            (record {
              depth_is = omega arith;
              uncounted = refl;
              places = r;
              fewer = Reclaimed-fewer s.ndeleted_sockbufs s.sockbufs _ r;
            })
    ]

-- At a deeper level nothing is made available.
pub leave-nested : (s : State) → 2 ≤ s.depth → leave s ≡ record s { depth = s.depth - 1 }
unfolding leave
leave-nested s d = ground arith

first_avail-ne :
    (bs : List Sockbuf) (i : ℕ) {b : Sockbuf}
    → get_elem? bs i ≡ some b
    → b.flags.avail ≡ false
    → first_avail bs ≢ i
first_avail-ne [] i h down = cc
first_avail-ne (c ∷ bs) zero h down = ground arith
first_avail-ne (c ∷ bs) (suc i) h down = elim (Bool-cases c.flags.avail) [
  | inl up ↦ simp up (λ e. cc)
  | inr no_avail ↦ simp no_avail (λ e. first_avail-ne bs i h down (omega arith))
]

-- While a deleted sockbuf is not reclaimed its index is not given out, and it stays deleted.
pub new-spares-deleted :
    (s : State) (i : ℕ) (b : Sockbuf)
    → get_elem? s.sockbufs i ≡ some b
    → b.flags.deleted ≡ true
    → b.flags.avail ≡ false
    → (idx : ℕ) × (s' : State) × (sockbuf_new s ≡ ok idx s')
      × (idx ≢ i)
      × (get_elem? s'.sockbufs i ≡ some b)
unfolding sockbuf_new
new-spares-deleted s i b at del down =
    let ne = first_avail-ne s.sockbufs i at down in
    (
      first_avail s.sockbufs,
      record s {
        sockbufs = set (grown s.sockbufs) (first_avail s.sockbufs) fresh_sockbuf;
        table = if first_avail s.sockbufs == length s.sockbufs then s.table + 1 else s.table;
      },
      refl,
      ne,
      get_elem?-set_ne (grown s.sockbufs) (first_avail s.sockbufs) i fresh_sockbuf ne
          ∙ grown-get s.sockbufs i at,
    )
