-- ===== src/Sockbuf/Filters/Backward.antt =====
-- The same for an event on its way down, which only writing is.
use examples.Common.{
  ℕ, zero, suc, ◌≡◌, refl, ◌⊎◌, inl, inr, Option, none, some, List, [], ◌∷◌, ℤ, arith, length,
  get_elem?, ◌<ℤ◌, ltb_ℤ, Bool-cases, Option-cases,
}
use examples.Sockbuf.State.{Ptr}
use examples.Sockbuf.Env.{Filter, Env}
use examples.Sockbuf.Filters.{backward, here_below, or_else}
use examples.Sockbuf.Filters.Order.{level_of, IsChain, IsSorted, IsSorted-IsChain, ◌≤ℤ◌}
use examples.Sockbuf.Filters.Forward.{IsBelow, IsChain-le}

module _ {H : Type 0} (env : Env) (event : Filter → Option H) (level : ℤ) where
  pub record Highest (fs ds : List Ptr) (h : H) (d : Ptr) : Type 0 where
    pub place : ℕ
    pub filter : Ptr
    pub at : get_elem? fs place ≡ some filter
    pub data_at : get_elem? ds place ≡ some d
    pub takes : event (env.filter filter) ≡ some h
    pub below : level_of env filter <ℤ level
    pub highest :
        (j : ℕ) (g : Ptr)
        → get_elem? fs j ≡ some g
        → IsBelow env event level g
        → level_of env g ≤ℤ level_of env filter

  abbrev pub NoneBelow : List Ptr → Type 0
  NoneBelow fs = (j : ℕ) (g : Ptr) → get_elem? fs j ≡ some g → ¬ IsBelow env event level g

  abbrev pub Backwards : List Ptr → List Ptr → Option (H × Ptr) → Type 0
  Backwards fs ds r =
      ((r ≡ none) × NoneBelow fs) ⊎ ((h : H) × (d : Ptr) × (r ≡ some (h, d)) × Highest fs ds h d)

  -- A filter found further up stays the highest.
  Highest-there :
      (f d : Ptr) (fs ds : List Ptr) (h : H) (d' : Ptr)
      → IsChain env (level_of env f) fs
      → Highest fs ds h d'
      → Highest (f ∷ fs) (d ∷ ds) h d'
  Highest-there f d fs ds h d' c r = record {
    place = suc r.place;
    filter = r.filter;
    at = r.at;
    data_at = r.data_at;
    takes = r.takes;
    below = r.below;
    highest = most;
  }
    where
      most :
          (j : ℕ) (g : Ptr)
          → get_elem? (f ∷ fs) j ≡ some g
          → IsBelow env event level g
          → level_of env g ≤ℤ level_of env r.filter
      most zero g at _ =
          let over = IsChain-le env event level (level_of env f) fs r.place r.filter c r.at in
          ground arith
      most (suc j) g at low = r.highest j g at low

  Highest-here :
      (f d : Ptr) (fs ds : List Ptr) (h : H)
      → event (env.filter f) ≡ some h
      → level_of env f <ℤ level
      → NoneBelow fs
      → Highest (f ∷ fs) (d ∷ ds) h d
  Highest-here f d fs ds h e low no_one = record {
    place = 0;
    filter = f;
    at = refl;
    data_at = refl;
    takes = e;
    below = low;
    highest = most;
  }
    where
      most :
          (j : ℕ) (g : Ptr)
          → get_elem? (f ∷ fs) j ≡ some g
          → IsBelow env event level g
          → level_of env g ≤ℤ level_of env f
      most zero g at _ = ground arith
      most (suc j) g at low' = absurd (no_one j g at low')

  NoneBelow-cons :
      (f : Ptr) (fs : List Ptr) → ¬ IsBelow env event level f → NoneBelow fs → NoneBelow (f ∷ fs)
  NoneBelow-cons f fs miss r zero g at low = miss (ground arith)
  NoneBelow-cons f fs miss r (suc j) g at low = r j g at low

  -- What the head of the chain makes of a search that found nothing behind it.
  Backwards-here :
      (f d : Ptr) (fs ds : List Ptr)
      → NoneBelow fs
      → Backwards (f ∷ fs) (d ∷ ds) (here_below env (event (env.filter f)) level f d)
  Backwards-here f d fs ds no_one = elim (Option-cases (event (env.filter f))) [
    | inl gone ↦ rw (gone, here_below) (inl (refl, NoneBelow-cons f fs (ground arith) no_one))
    | inr (h, has) ↦ elim (Bool-cases (ltb_ℤ (level_of env f) level)) [
      | inl low ↦
          rw (has, here_below, low)
            (inr (h, d, refl, Highest-here f d fs ds h has (ground arith) no_one))
      | inr high ↦
          rw (has, here_below, high) (inl (refl, NoneBelow-cons f fs (ground arith) no_one))
    ]
  ]

  Backwards-cons :
      (f d : Ptr) (fs ds : List Ptr) (r : Option (H × Ptr))
      → IsChain env (level_of env f) fs
      → Backwards fs ds r
      → Backwards (f ∷ fs) (d ∷ ds) (or_else r (here_below env (event (env.filter f)) level f d))
  Backwards-cons f d fs ds r c (inl (e, no_one)) = rw (e, or_else) (Backwards-here f d fs ds no_one)
  Backwards-cons f d fs ds r c (inr (h, d', e, high)) =
      rw (e, or_else) (inr (h, d', refl, Highest-there f d fs ds h d' c high))

  -- A write on its way down is taken by the filter of the highest level below `level` that has a
  -- function for it, with that filter's own client data, and by none only if there is no such filter.
  pub backward-Highest :
      (fs ds : List Ptr)
      → length fs ≡ length ds
      → IsSorted env fs
      → Backwards fs ds (backward env event level fs ds)
  unfolding backward
  backward-Highest [] ds e c = inl (refl, λ j g at. cc)
  backward-Highest (f ∷ fs) [] e c = absurd (omega arith)
  backward-Highest (f ∷ fs) (d ∷ ds) e c =
      Backwards-cons f d fs ds (backward env event level fs ds) c
        (backward-Highest fs ds (omega arith) (IsSorted-IsChain env (level_of env f) fs c))
