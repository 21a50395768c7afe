-- ===== src/Children/Paths.antt =====
-- What a successful match promises, path by path.
use provider_crossplane_akui.Common.{
  ◌==◌, ==_iff, Bool-cases, Option-cases, ℕ, zero, suc, String, ◌≡◌, refl, sym, ap, ◌∙◌, inl, inr,
  Bool, true, false, Option, none, some, List, [], ◌∷◌, arith, eq_iff,
}
use provider_crossplane_akui.Json.{
  Json, null, bool, num, int, str, arr, obj, Items, nil, item, Fields, end, field, lookup,
  count_items,
}
use provider_crossplane_akui.Children.{
  is_empty_json_value, same_scalar, matches_subset, matches_fields, matches_items,
}

-- A step of a path: a key of an object, or a position of a list.
pub data Step : Type 0 where
  key : String → Step
  at : ℕ → Step

abbrev nth : ℕ → Items → Option Json
nth n nil = none
nth zero (item x xs) = some x
nth (suc n) (item x xs) = nth n xs

abbrev child_at : Step → Json → Option Json
child_at (key k) (obj m) = lookup k m
child_at (at n) (arr xs) = nth n xs
child_at _ _ = none

-- The value at a path.
abbrev pub value_at : List Step → Json → Option Json
value_at [] v = some v
value_at (s ∷ p) v = elim (child_at s v) [ none ↦ none | some w ↦ value_at p w ]

-- A value with content of its own.
abbrev is_scalar : Json → Bool
is_scalar (bool b) = true
is_scalar (num n) = true
is_scalar (int n) = true
is_scalar (str s) = true
is_scalar _ = false

same_scalar-eq : (x y : Json) → same_scalar x y ≡ true → is_scalar x ≡ true → y ≡ x
same_scalar-eq (bool true) (bool true) h s = refl
same_scalar-eq (bool false) (bool false) h s = refl
same_scalar-eq (num n) (num m) h s = ap num (ground arith)
same_scalar-eq (int n) (int m) h s = ap int (ground arith)
same_scalar-eq (str a) (str b) h s = ap str (sym ((==_iff a b).0 h))
same_scalar-eq x y h s = ground arith

matches_fields-head :
    (j : String) (u : Json) (d o : Fields)
    → matches_fields (field j u d) o ≡ true
    → (matches_fields d o ≡ true)
      × (is_empty_json_value u ≡ false
          → (w : Json) × (lookup j o ≡ some w) × (matches_subset u w ≡ true))
unfolding matches_subset
matches_fields-head j u d o h = elim (Option-cases (lookup j o)) [
  | inl e ↦ (ground (arith, e), λ n. absurd (ground (arith, e)))
  | inr (w, e) ↦ (ground (arith, e), λ n. (w, e, ground (arith, e)))
]

matches_fields-lookup :
    (k : String) (d o : Fields) (v : Json)
    → matches_fields d o ≡ true
    → lookup k d ≡ some v
    → is_empty_json_value v ≡ false
    → (w : Json) × (lookup k o ≡ some w) × (matches_subset v w ≡ true)
unfolding lookup
matches_fields-lookup k end o v h e n = absurd (cc)
matches_fields-lookup k (field j u d) o v h e n =
    let (rest, here) = matches_fields-head j u d o h in
    elim (Bool-cases (j == k)) [
      | inl s ↦
          let u≡v : u ≡ v = ground (arith) in
          let (w, f, m) = here (rw u≡v n) in
          (w, ground (arith, eq_iff j k, f), ground (arith, u≡v, m))
      | inr s ↦ matches_fields-lookup k d o v rest (ground arith) n
    ]

matches_items-nth :
    (n : ℕ) (d o : Items) (v : Json)
    → matches_items d o ≡ true
    → count_items d ≡ count_items o
    → nth n d ≡ some v
    → (w : Json) × (nth n o ≡ some w) × (matches_subset v w ≡ true)
unfolding matches_subset
matches_items-nth n nil o v h c e = absurd (cc)
matches_items-nth n (item x d) nil v h c e = absurd (omega arith)
matches_items-nth zero (item x d) (item y o) v h c e = (y, refl, ground arith)
matches_items-nth (suc n) (item x d) (item y o) v h c e =
    matches_items-nth n d o v (ground arith) (omega arith) e

-- A step down a document that matches leads to documents that match.
matches_subset-child :
    (s : Step) (d o : Json) (v : Json)
    → matches_subset d o ≡ true
    → child_at s d ≡ some v
    → is_empty_json_value v ≡ false
    → (w : Json) × (child_at s o ≡ some w) × (matches_subset v w ≡ true)
unfolding matches_subset lookup
matches_subset-child (key k) (obj d) (obj o) v h e n = matches_fields-lookup k d o v h e n
matches_subset-child (key k) (obj (field j u d)) null v h e n = absurd (cc)
matches_subset-child (at i) (arr d) (arr o) v h e n =
    matches_items-nth i d o v (ground arith) (ground arith) e
matches_subset-child (at i) (arr (item x d)) null v h e n = absurd (cc)
matches_subset-child s d o v h e n = cc

scalar_match : (d o : Json) → matches_subset d o ≡ true → is_scalar d ≡ true → o ≡ d
unfolding matches_subset
scalar_match (bool b) o h s = same_scalar-eq (bool b) o h refl
scalar_match (num n) o h s = same_scalar-eq (num n) o h refl
scalar_match (int n) o h s = same_scalar-eq (int n) o h refl
scalar_match (str t) o h s = same_scalar-eq (str t) o h refl
scalar_match d o h s = cc

-- A value above a scalar is not empty.
nonempty_above :
    (p : List Step) (w v : Json)
    → value_at p w ≡ some v
    → is_scalar v ≡ true
    → is_empty_json_value w ≡ false
unfolding lookup
nonempty_above [] w v e s = let w≡v : w ≡ v = cc in rw w≡v (go v s)
  where
    go : (v : Json) → is_scalar v ≡ true → is_empty_json_value v ≡ false
    go (bool b) s = refl
    go (num n) s = refl
    go (int n) s = refl
    go (str t) s = refl
    go v s = cc
nonempty_above (key k ∷ p) (obj (field j u m)) v e s = refl
nonempty_above (at n ∷ p) (arr (item x xs)) v e s = refl
nonempty_above (key k ∷ p) w v e s = cc
nonempty_above (at n ∷ p) w v e s = cc

-- Every scalar that the user declared, however deep, stands in the observed document at the same
-- path, if the match succeeds.
pub matches_subset-value_at :
    (p : List Step) (d o v : Json)
    → matches_subset d o ≡ true
    → value_at p d ≡ some v
    → is_scalar v ≡ true
    → value_at p o ≡ some v
matches_subset-value_at [] d o v h e s =
    let d≡v : d ≡ v = cc in ap some (scalar_match d o h (rw d≡v s) ∙ d≡v)
matches_subset-value_at (st ∷ p) d o v h e s = elim (Option-cases (child_at st d)) [
  | inl c ↦ absurd (ground (arith, c))
  | inr (w, c) ↦
      let below : value_at p w ≡ some v = ground (arith, c) in
      let (y, f, m) = matches_subset-child st d o w h c (nonempty_above p w v below s) in
      rw (f, value_at) (matches_subset-value_at p w y v m below s)
]
