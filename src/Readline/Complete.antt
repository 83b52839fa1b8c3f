-- ===== src/Readline/Complete.antt =====
-- Completion in c-cpp/readline.c: what the generator yields over its calls.
use examples.Common.{
  ℕ, zero, suc, ◌+◌, ◌<◌, ◌≡◌, ◌∙◌, ◌⊎◌, inl, inr, refl, sym, ap, none, some, List, [], ◌∷◌, Bytes,
  ◌==◌, if◌then◌else◌, length, drop, arith, Bool-cases, drop-nil, length-drop,
}
use examples.Readline.{
  Command, Generator, cmd_list, same_start, next_name, cmd_list_generator, matches, prepend,
  shutils_completor,
}

-- The names in the table that begin with the first `n` bytes of the text, without regard to case.
unfoldable pub selected : List Command → Bytes → ℕ → List Bytes
selected [] cmd n = []
selected (c ∷ rest) cmd n =
    let others = selected rest cmd n in if same_start n cmd c.name then c.name ∷ others else others

drop-add {ℓ} : {A : Type ℓ} (m n : ℕ) (xs : List A) → drop (m + n) xs ≡ drop n (drop m xs)
drop-add zero n xs = let e : 0 + n ≡ n = omega arith in rw e refl
drop-add (suc m) n [] = rw (drop-nil (suc m + n), drop-nil n) refl
drop-add (suc m) n (x ∷ xs) =
    let e : suc m + n ≡ suc (m + n) = omega arith in rw e (drop-add m n xs)

-- A call either gives the first name that is left and steps behind it, or there is none.
Yields : List Command → Bytes → Generator → Type 0
Yields rest cmd g =
    (((next_name rest cmd g).0 ≡ none) × (selected rest cmd g.len ≡ []))
    ⊎ ((k : ℕ) × (name : Bytes) × (k < length rest)
        × (next_name rest cmd g ≡ (some name, record { i = g.i + suc k; len = g.len }))
        × (selected rest cmd g.len ≡ name ∷ selected (drop (suc k) rest) cmd g.len))

next_name-Yields : (rest : List Command) (cmd : Bytes) (g : Generator) → Yields rest cmd g
unfolding Yields next_name selected
next_name-Yields [] cmd g = inl (refl, refl)
next_name-Yields (c ∷ rest) cmd g = elim (Bool-cases (same_start g.len cmd c.name)) [
  | inl found ↦ inr (0, c.name, omega arith, rw found refl, rw found refl)
  | inr missed ↦ elim (next_name-Yields rest cmd (record g { i = g.i + 1 })) [
    | inl (over, nothing) ↦ inl (rw missed over, rw missed nothing)
    | inr (k, name, inside, call, names) ↦
        let place : g.i + 1 + suc k ≡ g.i + suc (suc k) = omega arith in
        inr (suc k, name, omega arith, rw missed (rw place at call), rw missed names)
  ]
]

-- A call and those behind it give the names that are left.
collect :
    (fuel state : ℕ) (rest : List Command) (cmd : Bytes) (g : Generator)
    → rest ≡ drop g.i cmd_list
    → ((g' : Generator)
        → length (drop g'.i cmd_list) < length rest
        → matches fuel (suc state) cmd g' ≡ some (selected (drop g'.i cmd_list) cmd g'.len))
    → prepend (next_name rest cmd g).0 (matches fuel (suc state) cmd (next_name rest cmd g).1)
      ≡ some (selected rest cmd g.len)
unfolding Yields
collect fuel state rest cmd g here later = elim (next_name-Yields rest cmd g) [
  | inl (over, nothing) ↦ rw (over, nothing) refl
  | inr (k, name, inside, call, names) ↦
      let left : drop (g.i + suc k) cmd_list ≡ drop (suc k) rest =
        drop-add g.i (suc k) cmd_list ∙ ap (drop (suc k)) (sym here) in
      let fewer : length (drop (g.i + suc k) cmd_list) < length rest =
        rw left (omega (arith, length-drop (suc k) rest)) in
      rw (call, names, later (record { i = g.i + suc k; len = g.len }) fewer, left) refl
]

matches_from :
    (fuel state : ℕ) (cmd : Bytes) (g : Generator)
    → length (drop g.i cmd_list) < fuel
    → matches fuel (suc state) cmd g ≡ some (selected (drop g.i cmd_list) cmd g.len)
unfolding matches cmd_list_generator
matches_from zero state cmd g enough = absurd (omega arith)
matches_from (suc fuel) state cmd g enough =
    collect fuel (suc state) (drop g.i cmd_list) cmd g refl
      (λ g' fewer. matches_from fuel (suc state) cmd g' (omega arith))

matches-selected :
    (cmd : Bytes) (g : Generator) → matches 5 0 cmd g ≡ some (selected cmd_list cmd (length cmd))
unfolding matches cmd_list_generator
matches-selected cmd g =
    collect 4 0 cmd_list cmd (record { i = 0; len = length cmd }) refl
      (λ g' fewer. matches_from 4 0 cmd g' fewer)

-- On the first word of a line, the calls that follow give exactly the names that begin with the
-- word, without regard to case, in the order of the table, whatever the generator's static
-- variables were; elsewhere there is no completion.
pub completor-selected :
    (start : ℕ) (cmd : Bytes) (g : Generator)
    → shutils_completor 5 start cmd g
      ≡ some (if start == 0 then selected cmd_list cmd (length cmd) else [])
unfolding shutils_completor
completor-selected start cmd g = elim (Bool-cases (start == 0)) [
  | inl first ↦ rw first (matches-selected cmd g)
  | inr other ↦ rw other refl
]
