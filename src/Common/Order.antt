-- ===== src/Common/Order.antt =====
-- The order of texts is strict and total.
use Prim.Native.String.compare
use Prim.Native.String.{String, compare}
use Prim.Native.Nat.{Ordering}
use mathlib.Core.Path.{◌≡◌}
use mathlib.Core.Bool.{true, false}
use text.Mathlib.TextEquality.{path_by_compare}
use native.Mathlib.Omega.{arith}
use provider_crossplane_akui.Common.Text.{text_lt}

pub text_lt_asym : (a b : String) → text_lt a b ≡ true → text_lt b a ≡ false
text_lt_asym String.[] String.[] h = ground (arith, compare.nil-nil)
text_lt_asym String.[] (String.◌∷◌ d t) h = ground (arith, compare.cons-nil d t)
text_lt_asym (String.◌∷◌ c s) String.[] h = ground (arith, compare.cons-nil c s)
text_lt_asym (String.◌∷◌ c s) (String.◌∷◌ d t) h =
    ground (arith, compare.cons-cons c d s t, compare.cons-cons d c t s, text_lt_asym s t)

pub text_lt_trans : (a b c : String) → text_lt a b ≡ true → text_lt b c ≡ true → text_lt a c ≡ true
text_lt_trans String.[] String.[] c g h = h
text_lt_trans (String.◌∷◌ b r) String.[] c g h = absurd (ground (arith, compare.cons-nil b r))
text_lt_trans a (String.◌∷◌ c s) String.[] g h = absurd (ground (arith, compare.cons-nil c s))
text_lt_trans String.[] (String.◌∷◌ c s) (String.◌∷◌ d t) g h = ground (arith, compare.nil-cons d t)
text_lt_trans (String.◌∷◌ b r) (String.◌∷◌ c s) (String.◌∷◌ d t) g h = ground (
  arith,
  compare.cons-cons b c r s,
  compare.cons-cons c d s t,
  compare.cons-cons b d r t,
  text_lt_trans r s t,
)

pub text_lt_total : (a b : String) → text_lt a b ≡ false → text_lt b a ≡ false → a ≡ b
text_lt_total a b g h = path_by_compare a b (equal a b g h)
  where
    equal : (a b : String) → text_lt a b ≡ false → text_lt b a ≡ false → compare a b ≡ Ordering.eq
    equal String.[] String.[] g h = compare.nil-nil
    equal String.[] (String.◌∷◌ d t) g h = absurd (ground (arith, compare.nil-cons d t))
    equal (String.◌∷◌ c s) String.[] g h = absurd (ground (arith, compare.nil-cons c s))
    equal (String.◌∷◌ c s) (String.◌∷◌ d t) g h =
        ground (arith, compare.cons-cons c d s t, compare.cons-cons d c t s, equal s t)
