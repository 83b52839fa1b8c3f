-- ===== src/CmdTree/Text.antt =====
-- The order of `std::string`, byte by byte.
use examples.Common.{
  Bool, true, false, ◌&&◌, ◌||◌, ◌≡◌, refl, [], ◌∷◌, Bytes, ltb, ◌==◌, arith, length, take,
}

unfoldable pub text_eq : Bytes → Bytes → Bool
text_eq [] [] = true
text_eq [] (b ∷ bs) = false
text_eq (a ∷ as') [] = false
text_eq (a ∷ as') (b ∷ bs) = a == b && text_eq as' bs

unfoldable pub text_lt : Bytes → Bytes → Bool
text_lt as' [] = false
text_lt [] (b ∷ bs) = true
text_lt (a ∷ as') (b ∷ bs) = ltb a b || (a == b && text_lt as' bs)

pub text_eq_refl : (a : Bytes) → text_eq a a ≡ true
unfolding text_eq
text_eq_refl [] = refl
text_eq_refl (a ∷ as') = ground (arith, text_eq_refl as')

pub eq_of_text_eq : (a b : Bytes) → text_eq a b ≡ true → a ≡ b
unfolding text_eq
eq_of_text_eq [] [] h = refl
eq_of_text_eq [] (b ∷ bs) h = cc
eq_of_text_eq (a ∷ as') [] h = cc
eq_of_text_eq (a ∷ as') (b ∷ bs) h = ground (arith, eq_of_text_eq as' bs)

pub text_lt_trans : (a b c : Bytes) → text_lt a b ≡ true → text_lt b c ≡ true → text_lt a c ≡ true
unfolding text_lt
text_lt_trans a b [] h k = cc
text_lt_trans a [] (c ∷ cs) h k = cc
text_lt_trans [] (b ∷ bs) (c ∷ cs) h k = refl
text_lt_trans (a ∷ as') (b ∷ bs) (c ∷ cs) h k = ground (arith, text_lt_trans as' bs cs)

pub text_lt_irrefl : (a : Bytes) → text_lt a a ≡ false
unfolding text_lt
text_lt_irrefl [] = refl
text_lt_irrefl (a ∷ as') = ground (arith, text_lt_irrefl as')

-- Neither less nor equal is greater.
pub text_total : (a b : Bytes) → text_eq a b ≡ false → text_lt b a ≡ false → text_lt a b ≡ true
unfolding text_eq text_lt
text_total [] [] n h = cc
text_total [] (b ∷ bs) n h = refl
text_total (a ∷ as') [] n h = cc
text_total (a ∷ as') (b ∷ bs) n h = ground (arith, text_total as' bs)

-- Whatever lies between a text and an extension of it extends it too.
pub between-prefix :
    (key a b : Bytes)
    → text_lt a key ≡ false
    → text_lt b a ≡ false
    → text_eq (take (length key) b) key ≡ true
    → text_eq (take (length key) a) key ≡ true
unfolding text_eq text_lt
between-prefix [] a b h k p = refl
between-prefix (c ∷ cs) [] b h k p = cc
between-prefix (c ∷ cs) (a ∷ as') [] h k p = cc
between-prefix (c ∷ cs) (a ∷ as') (b ∷ bs) h k p = ground (arith, between-prefix cs as' bs)

-- A text is not above its extensions.
pub prefix-le : (key b : Bytes) → text_eq (take (length key) b) key ≡ true → text_lt b key ≡ false
unfolding text_eq text_lt
prefix-le [] b p = refl
prefix-le (c ∷ cs) [] p = cc
prefix-le (c ∷ cs) (b ∷ bs) p = ground (arith, prefix-le cs bs)
