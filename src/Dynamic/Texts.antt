-- ===== src/Dynamic/Texts.antt =====
-- dynamic/src: the comparison of texts decides their equality.
use zust.Prelude.{◌≡◌, refl, arith, true, [], ◌∷◌}
use zust.Dynamic.Value.{Bytes, same_text}

pub same_text→eq : (a b : Bytes) → same_text a b ≡ true → a ≡ b
unfolding same_text
same_text→eq [] [] h = refl
same_text→eq [] (b ∷ y) h = cc
same_text→eq (a ∷ x) [] h = cc
same_text→eq (a ∷ x) (b ∷ y) h = ground (arith, same_text→eq x y, h)

pub same_text_refl : (k : Bytes) → same_text k k ≡ true
unfolding same_text
same_text_refl [] = refl
same_text_refl (a ∷ k) = ground (arith, same_text_refl k)

pub same_text_comm : (a b : Bytes) → same_text a b ≡ same_text b a
unfolding same_text
same_text_comm [] [] = refl
same_text_comm [] (y ∷ ys) = refl
same_text_comm (x ∷ xs) [] = refl
same_text_comm (x ∷ xs) (y ∷ ys) = ground (arith, same_text_comm xs ys)
