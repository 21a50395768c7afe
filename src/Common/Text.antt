-- ===== src/Common/Text.antt =====
-- Texts by their code points, numbers in decimal, and the order of texts.
use Prim.Native.Nat.{ℕ, zero, suc, ◌+◌, ◌/◌, ◌%◌, Ordering}
use Prim.Native.Char.{code}
use Prim.Native.String.{String, ◌++◌ as ◌<>◌, compare as compare_texts}
use mathlib.Core.Bool.{Bool, true, false, not, ◌&&◌, ◌||◌}
use mathlib.Core.List.{List, [], ◌∷◌}
use mathlib.Core.Path.{◌≡◌, refl}
use native.Mathlib.Omega.{arith}
use provider_crossplane_akui.Common.Logic.{if◌then◌else◌, ltb, nat_eq}

abbrev pub codes : String → List ℕ
codes String.[] = []
codes (String.◌∷◌ c s) = code c ∷ codes s

digit_texts : List String
digit_texts = "0" ∷ "1" ∷ "2" ∷ "3" ∷ "4" ∷ "5" ∷ "6" ∷ "7" ∷ "8" ∷ "9" ∷ []

pick : List String → ℕ → String
pick [] n = ""
pick (s ∷ ss) zero = s
pick (s ∷ ss) (suc n) = pick ss n

decimal_from : ℕ → ℕ → String → String
decimal_from zero n acc = acc
decimal_from (suc fuel) n acc =
    let done = pick digit_texts (n % 10) <> acc in
    let more = decimal_from fuel (n / 10) done in if ltb n 10 then done else more

-- `%d`; a number has at most as many digits as it has units, and one for zero.
pub decimal : ℕ → String
unfolding decimal_from pick digit_texts
decimal n = decimal_from (suc n) n ""

-- `a < b` on Go strings.
abbrev pub text_lt : String → String → Bool
text_lt a b = elim (compare_texts a b) [ Ordering.lt ↦ true | _ ↦ false ]

-- `unicode.IsSpace`
is_space : ℕ → Bool
is_space c =
    let inside = λ (a b : ℕ). not (ltb c a) && not (ltb b c) in
    inside 0x09 0x0d
    || (nat_eq c 0x20
        || (nat_eq c 0x85
            || (nat_eq c 0xa0
                || (nat_eq c 0x1680
                    || (inside 0x2000 0x200a
                        || (inside 0x2028 0x2029
                            || (nat_eq c 0x202f || (nat_eq c 0x205f || nat_eq c 0x3000))))))))

all_spaces : List ℕ → Bool
all_spaces [] = true
all_spaces (c ∷ cs) = is_space c && all_spaces cs

-- `strings.TrimSpace(s) == ""`
unfoldable pub is_blank : String → Bool
unfolding all_spaces is_space
is_blank s = all_spaces (codes s)

-- The lower case ASCII letter that a code point folds to, or itself: beside the capital letters
-- the long s and the Kelvin sign fold to ASCII.
fold_code : ℕ → ℕ
fold_code c =
    if nat_eq c 0x17f
    then b's'
    else if nat_eq c 0x212a
    then b'k'
    else if not (ltb c b'A') && not (ltb b'Z' c)
    then c + 32
    else c

same_codes : List ℕ → List ℕ → Bool
same_codes [] [] = true
same_codes (a ∷ as') (b ∷ bs) = nat_eq (fold_code a) b && same_codes as' bs
same_codes _ _ = false

-- `strings.EqualFold(s, t)` where `t` is in lower case ASCII letters.
unfoldable pub equal_fold : String → String → Bool
unfolding same_codes fold_code
equal_fold s t = same_codes (codes s) (codes t)

drop_spaces : List ℕ → List ℕ
drop_spaces [] = []
drop_spaces (c ∷ cs) = if is_space c then drop_spaces cs else c ∷ cs

rest_is_spaces : List ℕ → List ℕ → Bool
rest_is_spaces [] cs = all_spaces cs
rest_is_spaces (a ∷ as') [] = false
rest_is_spaces (a ∷ as') (c ∷ cs) = nat_eq a c && rest_is_spaces as' cs

-- `strings.TrimSpace(s) == t`, where `t` has no space at either end.
unfoldable pub trims_to : String → String → Bool
unfolding drop_spaces rest_is_spaces all_spaces is_space
trims_to s t = rest_is_spaces (codes t) (drop_spaces (codes s))

drop_newlines : List ℕ → List ℕ
drop_newlines [] = []
drop_newlines (c ∷ cs) = elim (drop_newlines cs) [
  | [] ↦ if nat_eq c 0x0a then [] else c ∷ []
  | d ∷ ds ↦ c ∷ d ∷ ds
]

equal_codes : List ℕ → List ℕ → Bool
equal_codes [] [] = true
equal_codes (a ∷ as') (b ∷ bs) = nat_eq a b && equal_codes as' bs
equal_codes _ _ = false

-- `strings.TrimRight(a, "\n") == strings.TrimRight(b, "\n")`
unfoldable pub same_but_newlines : String → String → Bool
unfolding drop_newlines equal_codes
same_but_newlines a b = equal_codes (drop_newlines (codes a)) (drop_newlines (codes b))

lower_code : ℕ → ℕ
lower_code c = if not (ltb c b'A') && not (ltb b'Z' c) then c + 32 else c

starts_folded : List ℕ → List ℕ → Bool
starts_folded cs [] = true
starts_folded [] (b ∷ bs) = false
starts_folded (c ∷ cs) (b ∷ bs) = nat_eq (lower_code c) b && starts_folded cs bs

has_folded : List ℕ → List ℕ → Bool
has_folded [] bs = starts_folded [] bs
has_folded (c ∷ cs) bs = starts_folded (c ∷ cs) bs || has_folded cs bs

-- `strings.Contains(strings.ToLower(s), t)` where `t` is in lower case ASCII letters to which no
-- letter outside ASCII is lowered (these are `i` and `k`).
unfoldable pub contains_lower : String → String → Bool
unfolding lower_code starts_folded has_folded
contains_lower s t = has_folded (codes s) (codes t)

-- The ASCII letter that unicode.ToLower gives, or the code point itself: beside the capital letters
-- the dotted capital I and the Kelvin sign are lowered to ASCII.
lowered_code : ℕ → ℕ
lowered_code c = if nat_eq c 0x130 then b'i' else if nat_eq c 0x212a then b'k' else lower_code c

lowered_codes : List ℕ → List ℕ → Bool
lowered_codes [] [] = true
lowered_codes (a ∷ as') (b ∷ bs) = nat_eq (lowered_code a) b && lowered_codes as' bs
lowered_codes _ _ = false

-- `strings.ToLower(s) == t` where `t` is in lower case ASCII letters.
unfoldable pub lowers_to : String → String → Bool
unfolding lowered_codes lowered_code lower_code
lowers_to s t = lowered_codes (codes s) (codes t)

alike_codes : List ℕ → List ℕ → Bool
alike_codes [] [] = true
alike_codes (a ∷ as') (b ∷ bs) = nat_eq (fold_code a) (fold_code b) && alike_codes as' bs
alike_codes _ _ = false

-- `strings.EqualFold(s, t)` of texts whose letters are ASCII letters, or fold to them.
unfoldable pub folds_alike : String → String → Bool
unfolding alike_codes fold_code
folds_alike s t = alike_codes (codes s) (codes t)

alike_codes_refl : (cs : List ℕ) → alike_codes cs cs ≡ true
unfolding alike_codes
alike_codes_refl [] = refl
alike_codes_refl (c ∷ cs) = let r = alike_codes_refl cs in ground (arith, r)

pub folds_alike_refl : (s : String) → folds_alike s s ≡ true
unfolding folds_alike
folds_alike_refl s = alike_codes_refl (codes s)
