-- ===== src/Sockbuf/Filters.antt =====
-- The filter chain of a sockbuf in c-cpp/onethread/sockbuf.c: attaching, detaching, looking up, and
-- the loops by which an event finds the filter that takes it.
pub mod Order
pub mod Attach
pub mod Forward
pub mod Backward
use examples.Common.{
  ℕ, Option, none, some, List, [], ◌∷◌, ℤ, pos, minus_one, ltb, ltb_ℤ, ◌==◌, if◌then◌else◌, length,
  get_elem?, insert_at, remove_at, find_index,
}
use examples.Sockbuf.State.{Ptr}
use examples.Sockbuf.Run.{Cmd, pure, fetch, store, ◌>>=◌, ◌>>◌}
use examples.Sockbuf.Env.{Filter, Env}
use examples.Sockbuf.Table.{guard_valid, if_valid}

-- The first filter of a higher level than `level`, or the end of the array.
abbrev pub attach_place : Env → ℤ → List Ptr → ℕ
attach_place env level = find_index λ f. ltb_ℤ level (env.filter f).level

unfoldable pub sockbuf_attach_filter : Env → ℤ → Ptr → Ptr → Cmd ℤ
sockbuf_attach_filter env idx filter client_data = if_valid idx λ k. do
  b ← fetch k
  let i = attach_place env (env.filter filter).level b.filters
  store k (record b {
    filters = insert_at i filter b.filters;
    filter_client_data = insert_at i client_data b.filter_client_data;
  })
  pure (pos 0)

abbrev pub place_of_filter : Ptr → List Ptr → ℕ
place_of_filter filter = find_index λ f. f == filter

-- The return value, and what is written through `client_data_ptr`, if anything is.
unfoldable pub sockbuf_get_filter_data : ℤ → Ptr → Cmd (ℤ × Option Ptr)
sockbuf_get_filter_data idx filter =
    guard_valid (minus_one, none) idx
      λ k. do
        b ← fetch k
        let i = place_of_filter filter b.filters
        if ltb i (length b.filters)
            then pure (pos 0, get_elem? b.filter_client_data i)
            else pure (minus_one, none)

-- As above. Where the filter is not attached, the code assigns NULL to its own parameter
-- `client_data_ptr`, so that nothing is written to the caller's variable.
unfoldable pub sockbuf_detach_filter : ℤ → Ptr → Cmd (ℤ × Option Ptr)
sockbuf_detach_filter idx filter =
    guard_valid (minus_one, none) idx
      λ k. do
        b ← fetch k
        let i = place_of_filter filter b.filters
        if i == length b.filters then pure (pos 0, none) else (do
          store k (record b {
            filters = remove_at i b.filters;
            filter_client_data = remove_at i b.filter_client_data;
          })
          pure (pos 0, get_elem? b.filter_client_data i))

-- for (i = 0; i < nfilters; i++) if (filters[i]->event && filters[i]->level > level) return ...
-- The event's function, and the filter's client data.
unfoldable pub forward {ℓ} :
    {H : Type ℓ} → Env → (Filter → Option H) → ℤ → List Ptr → List Ptr → Option (H × Ptr)
forward env event level [] data_ptrs = none
forward env event level (f ∷ fs) [] = none
forward env event level (f ∷ fs) (d ∷ ds) =
    let rest = forward env event level fs ds in
    elim (event (env.filter f)) [
      | none ↦ rest
      | some h ↦ if ltb_ℤ level (env.filter f).level then some (h, d) else rest
    ]

abbrev or_else {ℓ} : {A : Type ℓ} → Option A → Option A → Option A
or_else (some a) b = some a
or_else none b = b

abbrev here_below {ℓ} : {H : Type ℓ} → Env → Option H → ℤ → Ptr → Ptr → Option (H × Ptr)
here_below env none level f d = none
here_below env (some h) level f d = if ltb_ℤ (env.filter f).level level then some (h, d) else none

-- for (i = nfilters - 1; i >= 0; i--) if (filters[i]->event && filters[i]->level < level) return
-- ...
unfoldable pub backward {ℓ} :
    {H : Type ℓ} → Env → (Filter → Option H) → ℤ → List Ptr → List Ptr → Option (H × Ptr)
backward env event level [] data_ptrs = none
backward env event level (f ∷ fs) [] = none
backward env event level (f ∷ fs) (d ∷ ds) =
    or_else (backward env event level fs ds) (here_below env (event (env.filter f)) level f d)
