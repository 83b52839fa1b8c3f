-- ===== src/Onethread/Table.antt =====
-- The table of c-cpp/onethread/onethread.c under the loops of a round.
use examples.Common.{
  ℕ, suc, ◌+◌, ◌≡◌, ◌∙◌, refl, sym, ap, inl, inr, Option, none, some, List, [], ◌∷◌, ◌++◌, ◌==◌,
  if◌then◌else◌, length, arith, Bool-cases, Option-cases,
}
use examples.Onethread.{
  Bits, Entry, State, Received, bytes, failed, Polled, ready, store_bits, read_entry, read_client,
  read_clients, close_clients, closed_by,
}

-- How often a descriptor is in a list of them.
abbrev pub count : ℕ → List (Option ℕ) → ℕ
count v [] = 0
count v (none ∷ xs) = count v xs
count v (some w ∷ xs) = (if w == v then 1 else 0) + count v xs

abbrev pub fds : List Entry → List (Option ℕ)
fds [] = []
fds (e ∷ es) = e.fd ∷ fds es

-- What the program has to do with the descriptor: closed or still in the table.
abbrev pub held : ℕ → State → ℕ
held v s = count v s.closed + count v (fds s.clients)

-- How often the rounds accept the descriptor, and how often any.
abbrev pub taken_in : ℕ → Polled → ℕ
taken_in v (ready r) = if r.listener.input then count v (r.accepted ∷ []) else 0
taken_in v p = 0

abbrev pub taken : ℕ → List Polled → ℕ
taken v [] = 0
taken v (p ∷ ps) = taken_in v p + taken v ps

abbrev pub length_of : Option ℕ → ℕ
length_of none = 0
length_of (some v) = 1

abbrev pub accepts_in : Polled → ℕ
accepts_in (ready r) = if r.listener.input then length_of r.accepted else 0
accepts_in p = 0

abbrev pub accepts : List Polled → ℕ
accepts [] = 0
accepts (p ∷ ps) = accepts_in p + accepts ps

pub count-append : (v : ℕ) (xs ys : List (Option ℕ)) → count v (xs ++ ys) ≡ count v xs + count v ys
count-append v [] ys = omega arith
count-append v (none ∷ xs) ys = count-append v xs ys
count-append v (some w ∷ xs) ys = omega (arith, count-append v xs ys)

pub fds-append : (es es' : List Entry) → fds (es ++ es') ≡ fds es ++ fds es'
fds-append [] es' = refl
fds-append (e ∷ es) es' = ap (◌∷◌ e.fd) (fds-append es es')

pub length-fds : (es : List Entry) → length (fds es) ≡ length es
length-fds [] = refl
length-fds (e ∷ es) = ap suc (length-fds es)

pub fds-store : (bits : ℕ → Bits) (i : ℕ) (es : List Entry) → fds (store_bits bits i es) ≡ fds es
unfolding store_bits
fds-store bits i [] = refl
fds-store bits i (e ∷ es) = ap (◌∷◌ e.fd) (fds-store bits (suc i) es)

fd-read_entry :
    (received : Received) (e e' : Entry) → read_entry received e ≡ some e' → e'.fd ≡ e.fd
unfolding read_entry read_client
fd-read_entry (bytes sbuf) e e' h = ground arith
fd-read_entry failed e e' h = ground arith

count_cons :
    (v : ℕ) (x : Option ℕ) (xs : List (Option ℕ)) → count v (x ∷ xs) ≡ count v (x ∷ []) + count v xs
count_cons v none xs = omega arith
count_cons v (some w) xs = omega arith

pub fds-read :
    (received : ℕ → Received) (i : ℕ) (es : List Entry) (es' : List Entry)
    → read_clients received i es ≡ some es'
    → fds es' ≡ fds es
unfolding read_clients
fds-read received i [] es' e = ap fds (let same : es' ≡ [] = cc in same)
fds-read received i (c ∷ es) es' e = elim (Option-cases (read_entry (received i) c)) [
  | inl stop ↦ cc (rw (read_clients, stop) at e)
  | inr (c', one) ↦ elim (Option-cases (read_clients received (suc i) es)) [
    | inl stop ↦ cc (rw (read_clients, one, stop) at e)
    | inr (rest, more) ↦
        let whole : c' ∷ rest ≡ es' = cc (rw (read_clients, one, more) at e) in
        ap fds (sym whole)
        ∙ ap (λ t. t ∷ fds rest) (fd-read_entry (received i) c c' one)
        ∙ ap (λ t. c.fd ∷ t) (fds-read received (suc i) es rest more)
  ]
]

pub count-close :
    (v : ℕ) (es : List Entry)
    → count v (closed_by es) + count v (fds (close_clients es)) ≡ count v (fds es)
unfolding closed_by close_clients
count-close v [] = refl
count-close v (e ∷ es) = elim (Bool-cases e.revents.hup) [
  | inl gone ↦ rw gone (
      omega (arith, count_cons v e.fd (closed_by es), count_cons v e.fd (fds es), count-close v es))
  | inr kept ↦ rw kept (
      omega (
        arith,
        count_cons v e.fd (fds (close_clients es)),
        count_cons v e.fd (fds es),
        count-close v es,
      ))
]

pub length-close : (es : List Entry) → length (close_clients es) ≡ length es
unfolding close_clients
length-close [] = refl
length-close (e ∷ es) = ap suc (length-close es)
