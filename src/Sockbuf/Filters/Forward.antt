-- ===== src/Sockbuf/Filters/Forward.antt =====
-- Which filter an event reaches (the loops of the `sockbuf_on_...` functions in
-- c-cpp/onethread/sockbuf.c), on a chain in the order of its levels.
use examples.Common.{
  ℕ, zero, suc, ◌≡◌, refl, ◌⊎◌, inl, inr, Bool, true, false, Option, none, some, List, [], ◌∷◌, ℤ,
  arith, length, get_elem?, ◌<ℤ◌, ltb_ℤ, Bool-cases, Option-cases,
}
use examples.Sockbuf.State.{Ptr}
use examples.Sockbuf.Env.{Filter, Env}
use examples.Sockbuf.Filters.{forward}
use examples.Sockbuf.Filters.Order.{level_of, IsChain, IsSorted, IsSorted-IsChain, ◌≤ℤ◌}

abbrev pub is_some {ℓ} : {A : Type ℓ} → Option A → Bool
is_some none = false
is_some (some _) = true

module _ {H : Type 0} (env : Env) (event : Filter → Option H) (level : ℤ) where
  -- The filter takes the event, and its level is above `level`.
  abbrev pub IsAbove : Ptr → Type 0
  IsAbove f = (is_some (event (env.filter f)) ≡ true) × (level <ℤ level_of env f)

  abbrev pub IsBelow : Ptr → Type 0
  IsBelow f = (is_some (event (env.filter f)) ≡ true) × (level_of env f <ℤ level)

  -- The place of the filter that takes an event on its way up: of those that can take it the one
  -- of the lowest level.
  pub record Lowest (fs ds : List Ptr) (h : H) (d : Ptr) : Type 0 where
    pub place : ℕ
    pub filter : Ptr
    pub at : get_elem? fs place ≡ some filter
    pub data_at : get_elem? ds place ≡ some d
    pub takes : event (env.filter filter) ≡ some h
    pub above : level <ℤ level_of env filter
    pub lowest :
        (j : ℕ) (g : Ptr)
        → get_elem? fs j ≡ some g
        → IsAbove g
        → level_of env filter ≤ℤ level_of env g

  pub IsChain-le :
      (low : ℤ) (fs : List Ptr) (j : ℕ) (g : Ptr)
      → IsChain env low fs
      → get_elem? fs j ≡ some g
      → low ≤ℤ level_of env g
  IsChain-le low [] j g c e = cc
  IsChain-le low (f ∷ fs) zero g (h, c) e = ground arith
  IsChain-le low (f ∷ fs) (suc j) g (h, c) e =
      let rest = IsChain-le (level_of env f) fs j g c e in ground arith

  Lowest-here :
      (f d : Ptr) (fs ds : List Ptr) (h : H)
      → event (env.filter f) ≡ some h
      → level <ℤ level_of env f
      → IsChain env (level_of env f) fs
      → Lowest (f ∷ fs) (d ∷ ds) h d
  Lowest-here f d fs ds h e up c = record {
    place = 0;
    filter = f;
    at = refl;
    data_at = refl;
    takes = e;
    above = up;
    lowest = least;
  }
    where
      least :
          (j : ℕ) (g : Ptr)
          → get_elem? (f ∷ fs) j ≡ some g
          → IsAbove g
          → level_of env f ≤ℤ level_of env g
      least zero g at _ = ground arith
      least (suc j) g at _ = IsChain-le (level_of env f) fs j g c at

  Lowest-there :
      (f d : Ptr) (fs ds : List Ptr) (h : H) (d' : Ptr)
      → ¬ IsAbove f
      → Lowest fs ds h d'
      → Lowest (f ∷ fs) (d ∷ ds) h d'
  Lowest-there f d fs ds h d' miss r = record {
    place = suc r.place;
    filter = r.filter;
    at = r.at;
    data_at = r.data_at;
    takes = r.takes;
    above = r.above;
    lowest = least;
  }
    where
      least :
          (j : ℕ) (g : Ptr)
          → get_elem? (f ∷ fs) j ≡ some g
          → IsAbove g
          → level_of env r.filter ≤ℤ level_of env g
      least zero g at up = absurd (miss (ground arith))
      least (suc j) g at up = r.lowest j g at up

  -- No filter of the chain can take the event.
  abbrev pub NoneAbove : List Ptr → Type 0
  NoneAbove fs = (j : ℕ) (g : Ptr) → get_elem? fs j ≡ some g → ¬ IsAbove g

  NoneAbove-cons : (f : Ptr) (fs : List Ptr) → ¬ IsAbove f → NoneAbove fs → NoneAbove (f ∷ fs)
  NoneAbove-cons f fs miss r zero g at up = miss (ground arith)
  NoneAbove-cons f fs miss r (suc j) g at up = r j g at up

  abbrev pub Forwards : List Ptr → List Ptr → Option (H × Ptr) → Type 0
  Forwards fs ds r =
      ((r ≡ none) × NoneAbove fs) ⊎ ((h : H) × (d : Ptr) × (r ≡ some (h, d)) × Lowest fs ds h d)

  Forwards-there :
      (f d : Ptr) (fs ds : List Ptr) (r : Option (H × Ptr))
      → ¬ IsAbove f
      → Forwards fs ds r
      → Forwards (f ∷ fs) (d ∷ ds) r
  Forwards-there f d fs ds r miss (inl (e, no_one)) = inl (e, NoneAbove-cons f fs miss no_one)
  Forwards-there f d fs ds r miss (inr (h, d', e, low)) =
      inr (h, d', e, Lowest-there f d fs ds h d' miss low)

  -- An event on its way up is taken by the filter of the lowest level above `level` that has a
  -- function for it, with that filter's own client data, and by none only if there is no such filter.
  pub forward-Lowest :
      (fs ds : List Ptr)
      → length fs ≡ length ds
      → IsSorted env fs
      → Forwards fs ds (forward env event level fs ds)
  unfolding forward
  forward-Lowest [] ds e c = inl (refl, λ j g at. cc)
  forward-Lowest (f ∷ fs) [] e c = absurd (omega arith)
  forward-Lowest (f ∷ fs) (d ∷ ds) e c =
      let rest = forward-Lowest fs ds (omega arith) (IsSorted-IsChain env (level_of env f) fs c) in
      elim (Option-cases (event (env.filter f))) [
        | inl gone ↦ rw (gone, forward) (Forwards-there f d fs ds _ (ground arith) rest)
        | inr (h, has) ↦ elim (Bool-cases (ltb_ℤ level (level_of env f))) [
          | inl up ↦
              rw (has, forward, up) (inr (h, d, refl, Lowest-here f d fs ds h has (ground arith) c))
          | inr down ↦ rw (has, forward, down) (Forwards-there f d fs ds _ (ground arith) rest)
        ]
      ]
