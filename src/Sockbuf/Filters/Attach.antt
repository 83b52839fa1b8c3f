-- ===== src/Sockbuf/Filters/Attach.antt =====
-- `sockbuf_attach_filter` and `sockbuf_detach_filter` of c-cpp/onethread/sockbuf.c as operations on
-- the table of sockbufs.
use examples.Common.{
  ℕ, ◌≤◌, ◌<◌, ◌≡◌, ◌∙◌, refl, ap, false, some, pos, arith, ◌==◌, length, get_elem?, set, insert_at,
  remove_at, length-insert_at, find_index-le, set-set, set_self, set-get_elem?,
}
use examples.Sockbuf.State.{Ptr, Sockbuf, State}
use examples.Sockbuf.Run.{ok, and_then, ◌>>=◌}
use examples.Sockbuf.Env.{Env}
use examples.Sockbuf.Filters.{
  attach_place, place_of_filter, sockbuf_attach_filter, sockbuf_detach_filter,
}
use examples.Sockbuf.Valid.{Holds, is_valid_at-Holds}
use examples.Sockbuf.Filters.Order.{
  IsSorted, IsAbsent, IsSorted-attach, remove_at-insert_at, get_elem?-insert_at_self,
  place_of_filter-insert_at,
}

-- The two arrays are as long as each other, and the levels are in order.
pub record ChainInv (env : Env) (b : Sockbuf) : Type 0 where
  pub parallel : length b.filters ≡ length b.filter_client_data
  pub sorted : IsSorted env b.filters

abbrev pub with_filter : Env → Ptr → Ptr → Sockbuf → Sockbuf
with_filter env f d b =
    let i = attach_place env (env.filter f).level b.filters in
    record b {
      filters = insert_at i f b.filters;
      filter_client_data = insert_at i d b.filter_client_data;
    }

-- The run of an attachment to a live sockbuf.
pub attach_run :
    (env : Env) (s : State) (idx : ℕ) (b : Sockbuf) (f d : Ptr)
    → Holds s idx b
    → sockbuf_attach_filter env (pos idx) f d s
      ≡ ok (pos 0) (record s { sockbufs = set s.sockbufs idx (with_filter env f d b) })
unfolding sockbuf_attach_filter
attach_run env s idx b f d h = rw (is_valid_at-Holds h, h.at)

with_filter-ChainInv :
    (env : Env) (f d : Ptr) (b : Sockbuf) → ChainInv env b → ChainInv env (with_filter env f d b)
with_filter-ChainInv env f d b inv = record {
  parallel = omega (
    arith,
    length-insert_at i f b.filters,
    length-insert_at i d b.filter_client_data,
    inv.parallel,
  );
  sorted = IsSorted-attach env f b.filters inv.sorted;
}
  where
    i : ℕ
    i = attach_place env (env.filter f).level b.filters

-- Attaching to a live sockbuf succeeds, changes that sockbuf alone, puts the filter and its client
-- data at one place of the two arrays, and keeps these parallel and in the order of the levels.
pub attach-ChainInv :
    (env : Env) (s : State) (idx : ℕ) (b : Sockbuf) (f d : Ptr)
    → Holds s idx b
    → ChainInv env b
    → (i : ℕ) × (b' : Sockbuf) × (sockbuf_attach_filter env (pos idx) f d s
        ≡ ok (pos 0) (record s { sockbufs = set s.sockbufs idx b' }))
      × (b'.filters ≡ insert_at i f b.filters)
      × (b'.filter_client_data ≡ insert_at i d b.filter_client_data)
      × ChainInv env b'
attach-ChainInv env s idx b f d h inv = (
  attach_place env (env.filter f).level b.filters,
  with_filter env f d b,
  attach_run env s idx b f d h,
  refl,
  refl,
  with_filter-ChainInv env f d b inv,
)

detach_found :
    (s : State) (idx : ℕ) (b : Sockbuf) (f : Ptr) (i : ℕ)
    → Holds s idx b
    → place_of_filter f b.filters ≡ i
    → i < length b.filters
    → sockbuf_detach_filter (pos idx) f s
      ≡ ok
          (pos 0, get_elem? b.filter_client_data i)
          (record s {
            sockbufs = set s.sockbufs idx (record b {
              filters = remove_at i b.filters;
              filter_client_data = remove_at i b.filter_client_data;
            });
          })
unfolding sockbuf_detach_filter
detach_found s idx b f i h p lt =
    let miss : (i == length b.filters) ≡ false = ground arith in
    rw (is_valid_at-Holds h, h.at, p, miss)

-- Detaching a filter that was not attached before gives back the client data that it was attached
-- with, and the state as it was before the attachment.
pub detach-attach :
    (env : Env) (s : State) (idx : ℕ) (b : Sockbuf) (f d : Ptr)
    → Holds s idx b
    → ChainInv env b
    → IsAbsent f b.filters
    → (sockbuf_attach_filter env (pos idx) f d >>= λ _. sockbuf_detach_filter (pos idx) f) s
      ≡ ok (pos 0, some d) s
detach-attach env s idx b f d h inv absent =
    let i = attach_place env (env.filter f).level b.filters in
    let i-le : i ≤ length b.filters = find_index-le _ b.filters in
    let b' = with_filter env f d b in
    let s' : State = record s { sockbufs = set s.sockbufs idx b' } in
    let h' : Holds s' idx b' = record {
      at = set-get_elem? s.sockbufs idx b' h.at;
      live = h.live;
    } in
    ap (λ r. and_then r (λ _. sockbuf_detach_filter (pos idx) f)) (attach_run env s idx b f d h)
    ∙ detach_found s' idx b' f i h' (place_of_filter-insert_at f i b.filters absent i-le)
        (omega (arith, length-insert_at i f b.filters))
    ∙ rw (
      get_elem?-insert_at_self i d b.filter_client_data (omega (arith, inv.parallel)),
      remove_at-insert_at i f b.filters i-le,
      remove_at-insert_at i d b.filter_client_data (omega (arith, inv.parallel)),
      set-set s.sockbufs idx b' b,
      set_self s.sockbufs idx b h.at,
    )
