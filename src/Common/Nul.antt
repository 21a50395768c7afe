-- ===== src/Common/Nul.antt =====
-- Texts that a NUL ends: a text without NUL can be told from what follows it.
use Prim.Native.Char.{Char, code, nul}
use Prim.Native.String.append
use Prim.Native.String.{String, ◌++◌ as ◌<>◌}
use mathlib.Core.Path.{◌≡◌, refl, sym, ap, subst, ◌∙◌}
use mathlib.Core.Bool.{Bool, true, not, ◌&&◌, false≢true}
use native.Mathlib.Omega.{arith}
use text.Mathlib.TextLemmas.{cons-ne-nil, append-eq-nil_iff}
use provider_crossplane_akui.Common.Logic.{nat_eq}

-- No character of the text is NUL.
abbrev pub nul_free : String → Bool
nul_free String.[] = true
nul_free (String.◌∷◌ c s) = not (nat_eq (code c) 0) && nul_free s

bare : (r : String) → "" <> ("\0" <> r) ≡ String.◌∷◌ nul r
bare r = append.nil _ ∙ append.cons nul "" r ∙ ap (λ s. String.◌∷◌ nul s) (append.nil r)

cut_same : (c d : Char) (s t : String) → String.◌∷◌ c s ≡ String.◌∷◌ d t → (c ≡ d) × (s ≡ t)
cut_same c d s t h = ground arith

starts_otherwise : (d : Char) (t : String) → nul_free (String.◌∷◌ d t) ≡ true → nul ≡ d → ⊥
starts_otherwise d t g e = false≢true (subst (λ c. nul_free (String.◌∷◌ c t) ≡ true) (sym e) g)

pub terminated≢empty : (k r : String) → k <> "\0" <> r ≡ "" → ⊥
terminated≢empty k r h = cons-ne-nil nul r (sym (bare r) ∙ append.nil _ ∙ (append-eq-nil_iff.0 h).1)

pub cut :
    (k j r q : String)
    → nul_free k ≡ true
    → nul_free j ≡ true
    → k <> "\0" <> r ≡ j <> "\0" <> q
    → (k ≡ j) × (r ≡ q)
cut String.[] String.[] r q f g h = (refl, (cut_same nul nul r q (sym (bare r) ∙ h ∙ bare q)).1)
cut String.[] (String.◌∷◌ d t) r q f g h =
    let e = cut_same nul d r (t <> "\0" <> q) (sym (bare r) ∙ h ∙ append.cons d t _) in
    absurd (starts_otherwise d t g e.0)
cut (String.◌∷◌ c s) String.[] r q f g h =
    let e = cut_same c nul (s <> "\0" <> r) q (sym (append.cons c s _) ∙ h ∙ bare q) in
    absurd (starts_otherwise c s f (sym e.0))
cut (String.◌∷◌ c s) (String.◌∷◌ d t) r q f g h =
    let e =
      cut_same c d (s <> "\0" <> r) (t <> "\0" <> q)
        (sym (append.cons c s _) ∙ h ∙ append.cons d t _) in
    let ih = cut s t r q (ground arith) (ground arith) e.1 in
    (λ i. String.◌∷◌ (e.0 i) (ih.0 i), ih.1)
