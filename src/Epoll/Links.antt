-- ===== src/Epoll/Links.antt =====
-- The linked list of other/pm.c, and the pointers that epoll holds into it.
use mathlib.Core.Path.{subst}
use examples.Common.{
  ℕ, zero, suc, ◌≤◌, ◌<◌, ◌≡◌, ◌≢◌, ◌∙◌, refl, sym, ap, inl, inr, Bool, true, false, Option, none,
  some, List, [], ◌∷◌, ◌++◌, ℤ, length, get_elem?, modify_at, arith, length-append,
  length-modify_at, get_elem?-append, get_elem?-concat, Bool-cases,
}
use examples.Epoll.{
  State, Client, Place, head_place, next_of, Line, print, set_prev, relink, clientadd, sockadd,
  register, sockdel, unregistered, Adding, Callback,
}

-- A pointer `at`, kept in the field `place`, leads through the first `n` cells from the last one
-- down, and each cell's `prev` names the field that points to it.
abbrev pub Linked : List Client → Place → ℕ → Option ℕ → Type 0
Linked clients place zero at = at ≡ none
Linked clients place (suc n) at =
    (at ≡ some n)
    × (c : Client) × (get_elem? clients n ≡ some c)
    × (c.prev ≡ place)
    × Linked clients (next_of n) n c.next

-- Every pointer that the kernel holds is a client of the list.
abbrev pub AllKnown : ℕ → List (ℤ × ℕ) → Type 0
AllKnown n [] = Unit {0}
AllKnown n ((fd, c) ∷ rest) = (c < n) × AllKnown n rest

pub record IsLinked (s : State) : Type 0 where
  pub linked : Linked s.clients head_place (length s.clients) s.head
  pub known : AllKnown (length s.clients) s.registered

-- The part of the list below a place does not depend on the cells from that place on.
Linked-append :
    (clients more : List Client) (place : Place) (n : ℕ) (at : Option ℕ)
    → Linked clients place n at
    → Linked (clients ++ more) place n at
Linked-append clients more place zero at l = l
Linked-append clients more place (suc n) at (e, c, found, back, l) = (
  e,
  c,
  get_elem?-append clients more n found,
  back,
  Linked-append clients more (next_of n) n c.next l,
)

get_elem?-modify_ne :
    (clients : List Client) (f : Client → Client) (i j : ℕ)
    → i ≢ j
    → get_elem? (modify_at f i clients) j ≡ get_elem? clients j
get_elem?-modify_ne [] f i j ne = refl
get_elem?-modify_ne (c ∷ clients) f zero zero ne = absurd (ne refl)
get_elem?-modify_ne (c ∷ clients) f zero (suc j) ne = refl
get_elem?-modify_ne (c ∷ clients) f (suc i) zero ne = refl
get_elem?-modify_ne (c ∷ clients) f (suc i) (suc j) ne =
    get_elem?-modify_ne clients f i j (λ e. ne (ap suc e))

get_elem?-modify_self :
    (clients : List Client) (f : Client → Client) (i : ℕ) {c : Client}
    → get_elem? clients i ≡ some c
    → get_elem? (modify_at f i clients) i ≡ some (f c)
get_elem?-modify_self [] f i e = cc
get_elem?-modify_self (d ∷ clients) f zero e = ground arith
get_elem?-modify_self (d ∷ clients) f (suc i) e = get_elem?-modify_self clients f i e

Linked-modify :
    (clients : List Client) (f : Client → Client) (i : ℕ) (place : Place) (n : ℕ) (at : Option ℕ)
    → n ≤ i
    → Linked clients place n at
    → Linked (modify_at f i clients) place n at
Linked-modify clients f i place zero at le l = l
Linked-modify clients f i place (suc n) at le (e, c, found, back, l) = (
  e,
  c,
  get_elem?-modify_ne clients f i n (λ e. absurd (omega arith)) ∙ found,
  back,
  Linked-modify clients f i (next_of n) n c.next (omega arith) l,
)

-- After the new cell is put behind the others, the list below it is the old one, linked to it.
Linked-relink :
    (clients : List Client) (made : Client) (n : ℕ) (head : Option ℕ)
    → length clients ≡ n
    → Linked clients head_place n head
    → Linked (relink head (next_of n) (clients ++ made ∷ [])) (next_of n) n head
unfolding relink
Linked-relink clients made zero head len l = l
Linked-relink clients made (suc n) head len (e, c, found, back, l) =
    subst
      (λ h. Linked (relink h (next_of (suc n)) (clients ++ made ∷ [])) (next_of (suc n)) (suc n) h)
      (sym e)
      (
        refl,
        set_prev (next_of (suc n)) c,
        get_elem?-modify_self (clients ++ made ∷ []) (set_prev (next_of (suc n))) n
            (get_elem?-append clients (made ∷ []) n found),
        refl,
        Linked-modify (clients ++ made ∷ []) (set_prev (next_of (suc n))) n (next_of n) n c.next
            (omega arith) (Linked-append clients (made ∷ []) (next_of n) n c.next l),
      )

-- The new cell itself is not touched by the relinking.
relink-new :
    (clients : List Client) (made : Client) (n : ℕ) (head : Option ℕ) (place : Place)
    → length clients ≡ n
    → Linked clients head_place n head
    → get_elem? (relink head place (clients ++ made ∷ [])) n ≡ some made
unfolding relink
relink-new clients made zero head place len none_yet = rw none_yet (
    subst (λ k. get_elem? (clients ++ made ∷ []) k ≡ some made) len (get_elem?-concat clients made))
relink-new clients made (suc n) head place len (e, c, found, back, l) = rw e (
    get_elem?-modify_ne (clients ++ made ∷ []) (set_prev place) n (suc n)
      (λ h. absurd (omega arith))
    ∙ subst (λ k. get_elem? (clients ++ made ∷ []) k ≡ some made) len
        (get_elem?-concat clients made))

pub length-relink :
    (head : Option ℕ) (place : Place) (clients : List Client) (made : Client)
    → length (relink head place (clients ++ made ∷ [])) ≡ suc (length clients)
unfolding relink
length-relink none place clients made = omega (arith, length-append clients (made ∷ []))
length-relink (some h) place clients made = omega (
  arith,
  length-append clients (made ∷ []),
  length-modify_at (set_prev place) h (clients ++ made ∷ []),
)

AllKnown-suc : (n : ℕ) (reg : List (ℤ × ℕ)) → AllKnown n reg → AllKnown (suc n) reg
AllKnown-suc n [] k = tt
AllKnown-suc n ((fd, c) ∷ reg) (lt, k) = (omega arith, AllKnown-suc n reg k)

pub clientadd-IsLinked :
    (calloc_ok : Bool) (fd : ℤ) (cb : Callback) (p : ℕ) (s : State)
    → IsLinked s
    → IsLinked (clientadd calloc_ok fd cb p s).1
unfolding clientadd
clientadd-IsLinked false fd cb p s inv = record { linked = inv.linked; known = inv.known }
clientadd-IsLinked true fd cb p s inv =
    let n = length s.clients in
    let made : Client = record { fd = fd; cb = cb; p = p; prev = head_place; next = s.head } in
    let count = length-relink s.head (next_of n) s.clients made in
    record {
      linked = rw count (
        refl,
        made,
        relink-new s.clients made n s.head (next_of n) refl inv.linked,
        refl,
        Linked-relink s.clients made n s.head refl inv.linked,
      );
      known = rw count (AllKnown-suc n s.registered inv.known);
    }

pub print-IsLinked : (l : Line) (s : State) → IsLinked s → IsLinked (print l s)
print-IsLinked l s inv = record { linked = inv.linked; known = inv.known }

unregistered-AllKnown :
    (n : ℕ) (fd : ℤ) (reg : List (ℤ × ℕ)) → AllKnown n reg → AllKnown n (unregistered fd reg)
unregistered-AllKnown n fd [] k = tt
unregistered-AllKnown n fd ((fd', c) ∷ reg) (lt, k) =
    ground (arith, unregistered-AllKnown n fd reg k)

pub sockdel-IsLinked :
    (epoll_ok : Bool) (fd : ℤ) (s : State) → IsLinked s → IsLinked (sockdel epoll_ok fd s).1
unfolding sockdel
sockdel-IsLinked false fd s inv = print-IsLinked Line.error_line s inv
sockdel-IsLinked true fd s inv = record {
  linked = inv.linked;
  known = unregistered-AllKnown (length s.clients) fd s.registered inv.known;
}

-- The pointer that `clientadd` returns is a client.
clientadd-known :
    (calloc_ok : Bool) (fd : ℤ) (cb : Callback) (p : ℕ) (s : State) (c : ℕ)
    → (clientadd calloc_ok fd cb p s).0 ≡ some c
    → c < length (clientadd calloc_ok fd cb p s).1.clients
unfolding clientadd
clientadd-known false fd cb p s c e = cc
clientadd-known true fd cb p s c e =
    let made : Client = record { fd = fd; cb = cb; p = p; prev = head_place; next = s.head } in
    ground (arith, length-relink s.head (next_of (length s.clients)) s.clients made)

register-IsLinked :
    (epoll_ok : Bool) (fd : ℤ) (o : Option ℕ) (s : State)
    → ((c : ℕ) → o ≡ some c → c < length s.clients)
    → IsLinked s
    → IsLinked (register epoll_ok fd (o, s)).1
unfolding register
register-IsLinked epoll_ok fd none s known inv = inv
register-IsLinked false fd (some c) s known inv = print-IsLinked Line.error_line s inv
register-IsLinked true fd (some c) s known inv = record {
  linked = inv.linked;
  known = (known c refl, inv.known);
}

pub sockadd-IsLinked :
    (answers : Adding) (fd : ℤ) (cb : Callback) (p : ℕ) (s : State)
    → IsLinked s
    → IsLinked (sockadd answers fd cb p s).1
unfolding sockadd
sockadd-IsLinked answers fd cb p s inv = elim (Bool-cases answers.fcntl_ok) [
  | inl set ↦ rw set (
      register-IsLinked answers.epoll_ok fd (clientadd answers.calloc_ok fd cb p s).0
        (clientadd answers.calloc_ok fd cb p s).1 (clientadd-known answers.calloc_ok fd cb p s)
        (clientadd-IsLinked answers.calloc_ok fd cb p s inv))
  | inr unset ↦ rw unset (print-IsLinked Line.error_line s inv)
]
