-- ===== src/Prelude/Text/Order.antt =====
-- `<` on strings. Go compares bytes; on valid UTF-8 that is the order of the runes.
use log_service.Prelude.Tests.{ltb, ◌==◌, if◌then◌else◌}
use log_service.Prelude.Text.{Text}
use log_service.Prelude.Sorting.Laws.{IsOrder}
use mathlib.Core.Path.{◌≡◌, refl}
use mathlib.Core.Bool.{Bool, true, false}
use mathlib.Core.List.{[], ◌∷◌}
use native.Mathlib.Omega.{arith}

unfoldable pub text_less : Text → Text → Bool
text_less [] [] = false
text_less [] (d ∷ t) = true
text_less (c ∷ s) [] = false
text_less (c ∷ s) (d ∷ t) = let rest = text_less s t in if c == d then rest else ltb c d

text_less_irrefl : (s : Text) → text_less s s ≡ false
unfolding text_less
text_less_irrefl [] = refl
text_less_irrefl (c ∷ s) = ground (arith, text_less_irrefl s)

text_less_trans :
    (r s t : Text) → text_less r s ≡ true → text_less s t ≡ true → text_less r t ≡ true
unfolding text_less
text_less_trans [] [] t h k = cc
text_less_trans [] (d ∷ s) [] h k = cc
text_less_trans [] (d ∷ s) (e ∷ t) h k = refl
text_less_trans (c ∷ r) [] t h k = cc
text_less_trans (c ∷ r) (d ∷ s) [] h k = cc
text_less_trans (c ∷ r) (d ∷ s) (e ∷ t) h k = ground (arith, text_less_trans r s t)

text_less_connex : (s t : Text) → text_less s t ≡ false → text_less t s ≡ false → s ≡ t
unfolding text_less
text_less_connex [] [] h k = refl
text_less_connex [] (d ∷ t) h k = cc
text_less_connex (c ∷ s) [] h k = cc
text_less_connex (c ∷ s) (d ∷ t) h k = ground (arith, text_less_connex s t)

pub text_less-IsOrder : IsOrder text_less
text_less-IsOrder = record {
  irrefl = text_less_irrefl;
  trans = text_less_trans;
  connex = text_less_connex;
}
