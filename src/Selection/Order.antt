-- ===== src/Selection/Order.antt =====
-- The order of the candidates.
use inferflux.Prelude.{◌≡◌, refl, true, false, [], ◌∷◌, arith}
use inferflux.Prelude.Text.{Text}
use inferflux.Selection.Ops.{text_less, Key, key_less}

text_less_trans :
    (x y z : Text) → text_less x y ≡ true → text_less y z ≡ true → text_less x z ≡ true
unfolding text_less
text_less_trans [] [] z e f = cc
text_less_trans [] (b ∷ y) [] e f = cc
text_less_trans [] (b ∷ y) (c ∷ z) e f = refl
text_less_trans (a ∷ x) [] z e f = cc
text_less_trans (a ∷ x) (b ∷ y) [] e f = cc
text_less_trans (a ∷ x) (b ∷ y) (c ∷ z) e f = ground (arith, e, f, text_less_trans x y z)

text_less_irrefl : (x : Text) → text_less x x ≡ false
unfolding text_less
text_less_irrefl [] = refl
text_less_irrefl (a ∷ x) = ground (arith, text_less_irrefl x)

text_less_cotrans :
    (x y z : Text) → text_less x z ≡ true → text_less x y ≡ false → text_less y z ≡ true
unfolding text_less
text_less_cotrans [] [] z e f = e
text_less_cotrans [] (b ∷ y) z e f = cc
text_less_cotrans (a ∷ x) y [] e f = cc
text_less_cotrans (a ∷ x) [] (c ∷ z) e f = refl
text_less_cotrans (a ∷ x) (b ∷ y) (c ∷ z) e f = ground (arith, e, f, text_less_cotrans x y z)

pub key_less_trans : (x y z : Key) → key_less x y ≡ true → key_less y z ≡ true → key_less x z ≡ true
key_less_trans x y z e f = ground (arith, e, f, text_less_trans x.id y.id z.id)

pub key_less_irrefl : (x : Key) → key_less x x ≡ false
key_less_irrefl x = ground (arith, text_less_irrefl x.id)

pub key_less_cotrans :
    (x y z : Key) → key_less x z ≡ true → key_less x y ≡ false → key_less y z ≡ true
key_less_cotrans x y z e f = ground (arith, e, f, text_less_cotrans x.id y.id z.id)
