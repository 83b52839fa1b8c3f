-- ===== src/Sockbuf/Filters/Order.antt =====
-- The order of the filter chain (c-cpp/onethread/sockbuf.c): attaching keeps the levels in order
-- and the two arrays parallel, detaching undoes attaching.
use examples.Common.{
  ℕ, zero, suc, ◌+◌, ◌≤◌, ◌≡◌, refl, ap, inl, inr, some, List, [], ◌∷◌, ℤ, pos_part, neg_part,
  arith, ltb_ℤ, ◌==◌, Bool-cases, length, get_elem?, insert_at, remove_at,
}
use examples.Sockbuf.State.{Ptr}
use examples.Sockbuf.Env.{Env}
use examples.Sockbuf.Filters.{attach_place, place_of_filter}

infix 50 ◌≤ℤ◌
abbrev pub ◌≤ℤ◌ : ℤ → ℤ → Type 0
a ≤ℤ b = pos_part a + neg_part b ≤ pos_part b + neg_part a

module _ (env : Env) where
  abbrev pub level_of : Ptr → ℤ
  level_of f = (env.filter f).level

  -- No filter of the chain is below `low`, and each is at most its successor.
  abbrev pub IsChain : ℤ → List Ptr → Type 0
  IsChain low [] = Unit {0}
  IsChain low (f ∷ fs) = (low ≤ℤ level_of f) × IsChain (level_of f) fs

  -- Every level stands in order.
  abbrev pub IsSorted : List Ptr → Type 0
  IsSorted [] = Unit {0}
  IsSorted (f ∷ fs) = IsChain (level_of f) fs

  IsChain-attach :
      (low : ℤ) (f : Ptr) (fs : List Ptr)
      → low ≤ℤ level_of f
      → IsChain low fs
      → IsChain low (insert_at (attach_place env (level_of f) fs) f fs)
  IsChain-attach low f [] h c = (h, tt)
  IsChain-attach low f (g ∷ gs) h (hg, c) = elim (Bool-cases (ltb_ℤ (level_of f) (level_of g))) [
    | inl lt ↦ rw lt (h, (ground arith, c))
    | inr ge ↦ rw ge (hg, IsChain-attach (level_of g) f gs (ground arith) c)
  ]

  pub IsSorted-attach :
      (f : Ptr) (fs : List Ptr)
      → IsSorted fs
      → IsSorted (insert_at (attach_place env (level_of f) fs) f fs)
  IsSorted-attach f [] c = tt
  IsSorted-attach f (g ∷ gs) c = elim (Bool-cases (ltb_ℤ (level_of f) (level_of g))) [
    | inl lt ↦ rw lt (ground arith, c)
    | inr ge ↦ rw ge (IsChain-attach (level_of g) f gs (ground arith) c)
  ]

  IsChain-weaken : (low high : ℤ) (fs : List Ptr) → low ≤ℤ high → IsChain high fs → IsChain low fs
  IsChain-weaken low high [] h c = tt
  IsChain-weaken low high (f ∷ fs) h (k, c) = (ground arith, c)

  IsChain-remove_at :
      (low : ℤ) (i : ℕ) (fs : List Ptr) → IsChain low fs → IsChain low (remove_at i fs)
  IsChain-remove_at low i [] c = tt
  IsChain-remove_at low zero (f ∷ fs) (h, c) = IsChain-weaken low (level_of f) fs h c
  IsChain-remove_at low (suc i) (f ∷ fs) (h, c) = (h, IsChain-remove_at (level_of f) i fs c)

  pub IsSorted-IsChain : (low : ℤ) (fs : List Ptr) → IsChain low fs → IsSorted fs
  IsSorted-IsChain low [] c = tt
  IsSorted-IsChain low (f ∷ fs) (h, c) = c

  pub IsSorted-remove_at : (i : ℕ) (fs : List Ptr) → IsSorted fs → IsSorted (remove_at i fs)
  IsSorted-remove_at i [] c = tt
  IsSorted-remove_at zero (f ∷ fs) c = IsSorted-IsChain (level_of f) fs c
  IsSorted-remove_at (suc i) (f ∷ fs) c = IsChain-remove_at (level_of f) i fs c

module _ {ℓ} {A : Type ℓ} where
  pub remove_at-insert_at :
      (i : ℕ) (v : A) (xs : List A) → i ≤ length xs → remove_at i (insert_at i v xs) ≡ xs
  remove_at-insert_at zero v xs h = refl
  remove_at-insert_at (suc i) v [] h = absurd (omega arith)
  remove_at-insert_at (suc i) v (x ∷ xs) h = ap (◌∷◌ x) (remove_at-insert_at i v xs (omega arith))

  pub get_elem?-insert_at_self :
      (i : ℕ) (v : A) (xs : List A) → i ≤ length xs → get_elem? (insert_at i v xs) i ≡ some v
  get_elem?-insert_at_self zero v xs h = refl
  get_elem?-insert_at_self (suc i) v [] h = absurd (omega arith)
  get_elem?-insert_at_self (suc i) v (x ∷ xs) h = get_elem?-insert_at_self i v xs (omega arith)

-- `filter` stands nowhere in the chain.
abbrev pub IsAbsent : Ptr → List Ptr → Type 0
IsAbsent filter fs = place_of_filter filter fs ≡ length fs

-- A filter that was absent is found where it was put.
pub place_of_filter-insert_at :
    (f : Ptr) (i : ℕ) (fs : List Ptr)
    → IsAbsent f fs
    → i ≤ length fs
    → place_of_filter f (insert_at i f fs) ≡ i
place_of_filter-insert_at f zero fs a h = ground arith
place_of_filter-insert_at f (suc i) [] a h = absurd (omega arith)
place_of_filter-insert_at f (suc i) (g ∷ fs) a h = elim (Bool-cases (g == f)) [
  | inl same ↦ absurd (omega (arith, rw same at a))
  | inr miss ↦
      rw miss
        (ap suc (place_of_filter-insert_at f i fs (omega (arith, rw miss at a)) (omega arith)))
]
