-- ===== src/Circ/Text.antt =====
-- The string functions that c-cpp/circ/circ.c calls, on texts without NUL.
use examples.Common.{
  ℕ, ◌+◌, Bool, true, false, ◌&&◌, Option, none, some, [], ◌∷◌, Bytes, leb, ◌==◌, if◌then◌else◌,
}

-- strchr (text, ' '), with the space overwritten by NUL: what is before it, and what is behind.
unfoldable pub cut_space : Bytes → Option (Bytes × Bytes)
cut_space [] = none
cut_space (c ∷ cs) =
    let rest = cut_space cs in
    if c == b' ' then some ([], cs) else elim rest [ none ↦ none | some (a, b) ↦ some (c ∷ a, b) ]

-- `strtok_r` with one delimiter: the delimiters in front, which it skips.
unfoldable pub skip_delims : ℕ → Bytes → Bytes
skip_delims d [] = []
skip_delims d (c ∷ cs) = let rest = skip_delims d cs in if c == d then rest else c ∷ cs

unfoldable pub leading_delims : ℕ → Bytes → Bytes
leading_delims d [] = []
leading_delims d (c ∷ cs) = let rest = leading_delims d cs in if c == d then c ∷ rest else []

-- The token up to the next delimiter, and the text behind that, where the next call goes on.
unfoldable pub token : ℕ → Bytes → Bytes × Bytes
token d [] = ([], [])
token d (c ∷ cs) = let (a, b) = token d cs in if c == d then ([], cs) else (c ∷ a, b)

abbrev pub non_empty : Bytes → Option Bytes
non_empty [] = none
non_empty (c ∷ cs) = some (c ∷ cs)

abbrev pub lower : ℕ → ℕ
lower c = if leb b'A' c && leb c b'Z' then c + 32 else c

-- !strcasecmp (a, b)
unfoldable pub same_ignoring_case : Bytes → Bytes → Bool
same_ignoring_case [] [] = true
same_ignoring_case [] (b ∷ bs) = false
same_ignoring_case (a ∷ as') [] = false
same_ignoring_case (a ∷ as') (b ∷ bs) =
    let rest = same_ignoring_case as' bs in lower a == lower b && rest
