-- ===== src/Sockbuf/Table/Paired.antt =====
-- The parallel arrays `idx_array` and `pollfds` of c-cpp/onethread/sockbuf.c: each entry watches
-- the descriptor of its own sockbuf.
use examples.Common.{
  ==-refl, ℕ, zero, suc, ◌≤◌, ◌<◌, ◌≡◌, ◌≢◌, ◌∙◌, sym, ap, inl, inr, Option, none, some, List, [],
  ◌∷◌, ◌++◌, ℤ, arith, ◌==◌, if◌then◌else◌, length, get_elem?, set, Bool-cases, modify_at,
  insert_at, remove_at, get_elem?-set_ne, ==_iff,
}
use examples.Sockbuf.State.{Sockbuf, PollBits, Pollfd}
use examples.Sockbuf.Table.{place_of, edit_events}

-- The descriptor of the sockbuf at a place, if there is one in use.
abbrev pub used_sock : Option Sockbuf → Option ℤ
used_sock none = none
used_sock (some b) = if b.flags.avail then none else some b.sock

abbrev pub sock_at : List Sockbuf → ℕ → Option ℤ
sock_at bs i = used_sock (get_elem? bs i)

-- Entry by entry; what stands behind in `ps` are the listeners.
abbrev pub Paired : List Sockbuf → List ℕ → List Pollfd → Type 0
Paired bs [] ps = Unit {0}
Paired bs (i ∷ is) [] = ⊥
Paired bs (i ∷ is) (p ∷ ps) = (sock_at bs i ≡ some p.fd) × Paired bs is ps

-- The same but for the entry of `k`.
abbrev pub PairedBut : ℕ → List Sockbuf → List ℕ → List Pollfd → Type 0
PairedBut k bs [] ps = Unit {0}
PairedBut k bs (i ∷ is) [] = ⊥
PairedBut k bs (i ∷ is) (p ∷ ps) = (i ≢ k → sock_at bs i ≡ some p.fd) × PairedBut k bs is ps

abbrev pub IsAbsent : ℕ → List ℕ → Type 0
IsAbsent k [] = Unit {0}
IsAbsent k (i ∷ is) = (i ≢ k) × IsAbsent k is

abbrev pub Distinct : List ℕ → Type 0
Distinct [] = Unit {0}
Distinct (i ∷ is) = IsAbsent i is × Distinct is

pub IsAbsent-place : (k : ℕ) (is : List ℕ) → place_of k is ≡ length is → IsAbsent k is
IsAbsent-place k [] h = tt
IsAbsent-place k (i ∷ is) h = elim (Bool-cases (i == k)) [
  | inl same ↦ absurd (omega (arith, rw same at h))
  | inr other ↦ (ground arith, IsAbsent-place k is (omega (arith, rw other at h)))
]

pub place-le : (k : ℕ) (is : List ℕ) → place_of k is ≤ length is
place-le k [] = omega arith
place-le k (i ∷ is) = ground (arith, place-le k is)

pub PairedBut-Paired :
    (k : ℕ) (b : Sockbuf) (bs : List Sockbuf) (is : List ℕ) (ps : List Pollfd)
    → Paired bs is ps
    → PairedBut k (set bs k b) is ps
PairedBut-Paired k b bs [] ps h = tt
PairedBut-Paired k b bs (i ∷ is) [] h = h
PairedBut-Paired k b bs (i ∷ is) (p ∷ ps) (e, h) = (
  λ ne. ap used_sock (get_elem?-set_ne bs k i b (λ q. ne (sym q))) ∙ e,
  PairedBut-Paired k b bs is ps h,
)

pub Paired-absent :
    (k : ℕ) (bs : List Sockbuf) (is : List ℕ) (ps : List Pollfd)
    → IsAbsent k is
    → PairedBut k bs is ps
    → Paired bs is ps
Paired-absent k bs [] ps a h = tt
Paired-absent k bs (i ∷ is) [] a h = h
Paired-absent k bs (i ∷ is) (p ∷ ps) (ne, a) (e, h) = (e ne, Paired-absent k bs is ps a h)

-- The entry of `k` goes.
pub Paired-remove_at :
    (k : ℕ) (bs : List Sockbuf) (is : List ℕ) (ps : List Pollfd)
    → Distinct is
    → PairedBut k bs is ps
    → place_of k is < length is
    → Paired bs (remove_at (place_of k is) is) (remove_at (place_of k is) ps)
Paired-remove_at k bs [] ps d h lt = absurd (omega arith)
Paired-remove_at k bs (i ∷ is) [] d h lt = absurd h
Paired-remove_at k bs (i ∷ is) (p ∷ ps) (a, d) (e, h) lt = elim (Bool-cases (i == k)) [
  | inl same ↦
      let eq : i ≡ k = (==_iff i k).0 same in rw same (Paired-absent k bs is ps (rw eq at a) h)
  | inr other ↦
      rw other (e (ground arith), Paired-remove_at k bs is ps d h (omega (arith, rw other at lt)))
]

-- The entry of `k` is brought up to date.
pub Paired-modify_at :
    (k : ℕ) (sock : ℤ) (g : Pollfd → Pollfd) (bs : List Sockbuf) (is : List ℕ) (ps : List Pollfd)
    → Distinct is
    → PairedBut k bs is ps
    → place_of k is < length is
    → sock_at bs k ≡ some sock
    → ((p : Pollfd) → (g p).fd ≡ sock)
    → Paired bs is (modify_at g (place_of k is) ps)
Paired-modify_at k sock g bs [] ps d h lt at fd = absurd (omega arith)
Paired-modify_at k sock g bs (i ∷ is) [] d h lt at fd = absurd h
Paired-modify_at k sock g bs (i ∷ is) (p ∷ ps) (a, d) (e, h) lt at fd = elim (Bool-cases (i == k)) [
  | inl same ↦
      let eq : i ≡ k = (==_iff i k).0 same in
      rw same
        (ap (sock_at bs) eq ∙ at ∙ ap some (sym (fd p)), Paired-absent k bs is ps (rw eq at a) h)
  | inr other ↦ rw other (
    e (ground arith),
    Paired-modify_at k sock g bs is ps d h (omega (arith, rw other at lt)) at fd,
  )
]

-- An entry is added behind the others, before the listeners.
pub Paired-add :
    (k : ℕ) (q : Pollfd) (g : Pollfd → Pollfd) (bs : List Sockbuf) (is : List ℕ) (ps : List Pollfd)
    → Paired bs is ps
    → sock_at bs k ≡ some ((g q).fd)
    → Paired bs (is ++ k ∷ []) (modify_at g (length is) (insert_at (length is) q ps))
Paired-add k q g bs [] ps h at = (at, tt)
Paired-add k q g bs (i ∷ is) [] h at = absurd h
Paired-add k q g bs (i ∷ is) (p ∷ ps) (e, h) at = (e, Paired-add k q g bs is ps h at)

IsAbsent-concat : (j k : ℕ) (is : List ℕ) → IsAbsent j is → k ≢ j → IsAbsent j (is ++ k ∷ [])
IsAbsent-concat j k [] a ne = (ne, tt)
IsAbsent-concat j k (i ∷ is) (h, a) ne = (h, IsAbsent-concat j k is a ne)

pub Distinct-concat : (k : ℕ) (is : List ℕ) → Distinct is → IsAbsent k is → Distinct (is ++ k ∷ [])
Distinct-concat k [] d a = (tt, tt)
Distinct-concat k (i ∷ is) (h, d) (ne, a) =
    (IsAbsent-concat i k is h (λ e. ne (sym e)), Distinct-concat k is d a)

IsAbsent-remove_at : (k i : ℕ) (is : List ℕ) → IsAbsent k is → IsAbsent k (remove_at i is)
IsAbsent-remove_at k i [] a = tt
IsAbsent-remove_at k zero (j ∷ is) (h, a) = a
IsAbsent-remove_at k (suc i) (j ∷ is) (h, a) = (h, IsAbsent-remove_at k i is a)

pub Distinct-remove_at : (i : ℕ) (is : List ℕ) → Distinct is → Distinct (remove_at i is)
Distinct-remove_at i [] d = tt
Distinct-remove_at zero (j ∷ is) (h, d) = d
Distinct-remove_at (suc i) (j ∷ is) (h, d) =
    (IsAbsent-remove_at j i is h, Distinct-remove_at i is d)

-- Interest in events says nothing of descriptors.
pub Paired-edit :
    (f : PollBits → PollBits) (i : ℕ) (bs : List Sockbuf) (is : List ℕ) (ps : List Pollfd)
    → Paired bs is ps
    → Paired bs is (modify_at (edit_events f) i ps)
Paired-edit f i bs [] ps h = tt
Paired-edit f i bs (j ∷ is) [] h = h
Paired-edit f zero bs (j ∷ is) (p ∷ ps) h = h
Paired-edit f (suc i) bs (j ∷ is) (p ∷ ps) (e, h) = (e, Paired-edit f i bs is ps h)

-- A place that no sockbuf in use has is nobody's entry.
pub IsAbsent-unused :
    (k : ℕ) (bs : List Sockbuf) (is : List ℕ) (ps : List Pollfd)
    → sock_at bs k ≡ none
    → Paired bs is ps
    → IsAbsent k is
IsAbsent-unused k bs [] ps u h = tt
IsAbsent-unused k bs (i ∷ is) [] u h = absurd h
IsAbsent-unused k bs (i ∷ is) (p ∷ ps) u (e, h) =
    (λ eq. cc (e, u, ap (sock_at bs) eq), IsAbsent-unused k bs is ps u h)

pub IsAbsent-removed :
    (k : ℕ) (is : List ℕ)
    → Distinct is
    → place_of k is < length is
    → IsAbsent k (remove_at (place_of k is) is)
IsAbsent-removed k [] d lt = absurd (omega arith)
IsAbsent-removed k (i ∷ is) (a, d) lt = elim (Bool-cases (i == k)) [
  | inl same ↦ rw same (rw ((==_iff i k).0 same) at a)
  | inr other ↦ rw other (ground arith, IsAbsent-removed k is d (omega (arith, rw other at lt)))
]

pub place-concat : (k : ℕ) (is : List ℕ) → place_of k (is ++ k ∷ []) < length (is ++ k ∷ [])
place-concat k [] = rw (==-refl k) (omega arith)
place-concat k (i ∷ is) = ground (arith, place-concat k is)
