-- ===== src/Sockbuf/Access/Listed.antt =====
-- What `sockbuf_list` of c-cpp/onethread/sockbuf.c lists.
use mathlib.Core.Path.{subst}
use examples.Common.{
  ℕ, zero, suc, ◌+◌, ◌≡◌, ◌↔◌, ◌⊎◌, ◌∙◌, ap, refl, inl, inr, true, some, List, [], ◌∷◌, arith,
  get_elem?, Bool-cases,
}
use examples.Sockbuf.State.{Flags, flags_meet, Sockbuf, State}
use examples.Sockbuf.Table.{is_live}
use examples.Sockbuf.Access.{list_from, sockbuf_list}

abbrev pub Contains : ℕ → List ℕ → Type 0
Contains j [] = ⊥
Contains j (i ∷ is) = (i ≡ j) ⊎ Contains j is

-- At that place stands a live sockbuf with one of the flags.
abbrev pub IsWanted : Flags → List Sockbuf → ℕ → Type 0
IsWanted flags bs k =
    (b : Sockbuf) × (get_elem? bs k ≡ some b)
    × (is_live b ≡ true)
    × (flags_meet b.flags flags ≡ true)

module _ (flags : Flags) where
  -- Behind the first sockbuf.
  Later : ℕ → ℕ → List Sockbuf → Type 0
  Later i j bs = (k : ℕ) × (j ≡ i + k) × IsWanted flags bs k

  Later-cons : (i j : ℕ) (b : Sockbuf) (bs : List Sockbuf) → Later (i + 1) j bs → Later i j (b ∷ bs)
  unfolding Later
  Later-cons i j b bs (k, e, w) = (suc k, omega arith, w)

  list_from_sound : (i j : ℕ) (bs : List Sockbuf) → Contains j (list_from flags i bs) → Later i j bs
  unfolding list_from Later
  list_from_sound i j [] c = absurd c
  list_from_sound i j (b ∷ bs) c = elim (Bool-cases (is_live b)) [
    | inr dead ↦ Later-cons i j b bs (list_from_sound (i + 1) j bs (rw dead at c))
    | inl live ↦ elim (Bool-cases (flags_meet b.flags flags)) [
      | inr other ↦ Later-cons i j b bs (list_from_sound (i + 1) j bs (rw (live, other) at c))
      | inl meets ↦ elim (rw (live, meets) at c) [
        | inl e ↦ (0, omega arith, (b, refl, live, meets))
        | inr later ↦ Later-cons i j b bs (list_from_sound (i + 1) j bs later)
      ]
    ]
  ]

  -- What is listed of the rest is listed of the whole.
  Contains-later :
      (i j : ℕ) (b : Sockbuf) (bs : List Sockbuf)
      → Contains j (list_from flags (i + 1) bs)
      → Contains j (list_from flags i (b ∷ bs))
  unfolding list_from
  Contains-later i j b bs c = elim (Bool-cases (is_live b)) [
    | inr dead ↦ rw dead c
    | inl live ↦ elim (Bool-cases (flags_meet b.flags flags)) [
      | inr other ↦ rw (live, other) c
      | inl meets ↦ rw (live, meets) (inr c)
    ]
  ]

  list_from_complete :
      (i j k : ℕ) (bs : List Sockbuf)
      → j ≡ i + k
      → IsWanted flags bs k
      → Contains j (list_from flags i bs)
  unfolding list_from
  list_from_complete i j k [] at (b, e, _, _) = absurd (cc)
  list_from_complete i j zero (c ∷ bs) at (b, e, live, meets) =
      let same : c ≡ b = ground arith in
      let live' : is_live c ≡ true = ap (λ (d : Sockbuf). is_live d) same ∙ live in
      let meets' : flags_meet c.flags flags ≡ true =
        ap (λ (d : Sockbuf). flags_meet d.flags flags) same ∙ meets in
      rw (live', meets') (inl (omega arith))
  list_from_complete i j (suc k) (c ∷ bs) at w =
      Contains-later i j c bs (list_from_complete (i + 1) j k bs (omega arith) w)

  -- An index is listed exactly if a live sockbuf with one of the flags stands there.
  pub list-IsWanted :
      (s : State) (j : ℕ) → Contains j (sockbuf_list flags s) ↔ IsWanted flags s.sockbufs j
  unfolding sockbuf_list Later
  list-IsWanted s j = (
    λ c.
        let (k, e, w) = list_from_sound 0 j s.sockbufs c in
        let same : k ≡ j = omega arith in subst (IsWanted flags s.sockbufs) same w,
    λ w. list_from_complete 0 j j s.sockbufs (omega arith) w,
  )
