-- ===== src/Socket/Names.antt =====
-- The text of a mapped IPv4 address ("::ffff:" and the IPv4 text), as `socket_accept` and
-- `socket_get_name` of c-cpp/onethread/socket.c give it.
use examples.Common.{
  false, ℕ, zero, suc, ◌-◌, ◌≤◌, ◌≡◌, ◌≢◌, ◌∙◌, refl, sym, ap, true, [], ◌∷◌, ◌++◌, Bytes, arith,
  ◌==◌, length, take, drop, c_string, append-nil, append_assoc, length-append, length-drop,
}
use examples.Socket.{memmove_down, unmap_get_name, unmap_accept}

-- No NUL among the bytes.
abbrev pub IsText : Bytes → Type 0
IsText [] = Unit {0}
IsText (c ∷ cs) = (c ≢ 0) × IsText cs

c_string-append : (xs ys : Bytes) → IsText xs → c_string (xs ++ ys) ≡ xs ++ c_string ys
c_string-append [] ys t = refl
c_string-append (x ∷ xs) ys (ne, t) =
    let miss : (x == 0) ≡ false = ground arith in rw miss (ap (◌∷◌ x) (c_string-append xs ys t))

IsText-append : (xs ys : Bytes) → IsText xs → IsText ys → IsText (xs ++ ys)
IsText-append [] ys t u = u
IsText-append (x ∷ xs) ys (ne, t) u = (ne, IsText-append xs ys t u)

IsText-drop : (n : ℕ) (xs : Bytes) → IsText xs → IsText (drop n xs)
IsText-drop zero xs t = t
IsText-drop (suc n) [] t = t
IsText-drop (suc n) (x ∷ xs) (ne, t) = IsText-drop n xs t

take-append_left : (xs ys : Bytes) → take (length xs) (xs ++ ys) ≡ xs
take-append_left [] ys = refl
take-append_left (x ∷ xs) ys = ap (◌∷◌ x) (take-append_left xs ys)

drop-append_left : (xs ys : Bytes) → drop (length xs) (xs ++ ys) ≡ ys
drop-append_left [] ys = refl
drop-append_left (x ∷ xs) ys = drop-append_left xs ys

drop-append_le : (n : ℕ) (xs ys : Bytes) → n ≤ length xs → drop n (xs ++ ys) ≡ drop n xs ++ ys
drop-append_le zero xs ys h = refl
drop-append_le (suc n) [] ys h = absurd (omega arith)
drop-append_le (suc n) (x ∷ xs) ys h = drop-append_le n xs ys (omega arith)

drop_prefix : (pre d z : Bytes) → length pre ≡ 7 → drop 7 ((pre ++ d) ++ z) ≡ d ++ z
drop_prefix pre d z e =
    ap (λ k. drop k ((pre ++ d) ++ z)) (sym e)
    ∙ ap (drop (length pre)) (append_assoc pre d z)
    ∙ drop-append_left pre (d ++ z)

-- A text, a terminator, and whatever stands behind it.
c_string_terminated : (d rest : Bytes) → IsText d → c_string ((d ++ 0 ∷ []) ++ rest) ≡ d
c_string_terminated d rest t =
    rw (append_assoc d (0 ∷ []) rest) (c_string-append d (0 ∷ rest) t ∙ append-nil d)

take_le : (n : ℕ) (xs ys : Bytes) → n ≡ length xs → take n (xs ++ ys) ≡ xs
take_le n xs ys e = rw e (take-append_left xs ys)

-- `socket_accept` moves the terminator along: of a prefix of seven bytes and the text `d` it gives
-- `d`.
pub unmap_accept_lem :
    (pre d : Bytes) → length pre ≡ 7 → IsText d → unmap_accept (pre ++ d) true ≡ d
unfolding unmap_accept memmove_down
unmap_accept_lem pre d e t =
    let n = length (pre ++ d) - 6 in
    let full = (pre ++ d) ++ 0 ∷ [] in
    let moved : take n (drop 7 full) ≡ d ++ 0 ∷ [] = rw (drop_prefix pre d (0 ∷ []) e) (
      ap (take n) (sym (append-nil (d ++ 0 ∷ [])))
      ∙ take_le n (d ++ 0 ∷ []) []
          (omega (arith, length-append {0} pre d, length-append {0} d (0 ∷ [])))) in
    rw moved (c_string_terminated d (drop n full) t)

-- `socket_get_name` leaves the terminator where it was: after `d` come the bytes of the old text
-- from place `length d` on, so that the name is never `d`.
pub unmap_get_name_lem :
    (pre d : Bytes)
    → length pre ≡ 7
    → IsText pre
    → IsText d
    → (unmap_get_name (pre ++ d) true ≡ d ++ drop (length d) (pre ++ d))
      × (unmap_get_name (pre ++ d) true ≢ d)
unfolding unmap_get_name memmove_down
unmap_get_name_lem pre d e tp td =
    let n = length (pre ++ d) - 7 in
    let full = (pre ++ d) ++ 0 ∷ [] in
    let size : n ≡ length d = omega (arith, length-append {0} pre d) in
    let moved : take n (drop 7 full) ≡ d =
      rw (drop_prefix pre d (0 ∷ []) e) (take_le n d (0 ∷ []) size) in
    let tail = drop (length d) (pre ++ d) in
    let behind : drop n full ≡ tail ++ 0 ∷ [] =
      rw size
        (drop-append_le (length d) (pre ++ d) (0 ∷ []) (omega (arith, length-append {0} pre d))) in
    let text : IsText tail = IsText-drop (length d) (pre ++ d) (IsText-append pre d tp td) in
    let is : unmap_get_name (pre ++ d) true ≡ d ++ tail =
      rw (moved, behind)
        (c_string-append d (tail ++ 0 ∷ []) td
          ∙ ap (◌++◌ d) (c_string-append tail (0 ∷ []) text ∙ append-nil tail)) in
    (
      is,
      λ same. absurd (
          omega (
            arith,
            ap length (sym is ∙ same),
            length-append {0} d tail,
            length-drop {0} (length d) (pre ++ d),
            length-append {0} pre d,
          )),
    )
