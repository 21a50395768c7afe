-- ===== src/Cluster/Entries.antt =====
-- The entries of the map of a kustomization, its check and its header.
use provider_crossplane_akui.Common.{
  ok, Option-cases, Bool-cases, ◌==◌, ==_iff, ==_refl, ◌≡◌, refl, sym, if◌then◌else◌, subst, ◌∙◌,
  ◌↔◌, ◌⊎◌, inl, inr, String, true, false, none, some, arith,
}
use provider_crossplane_akui.Common.Text.{is_blank, trims_to}
use provider_crossplane_akui.Json.{Json, str, Fields, end, field, lookup, put, has_key}
use provider_crossplane_akui.Json.Maps.{lookup-put}
use provider_crossplane_akui.Cluster.State.{ClusterCodec}
use provider_crossplane_akui.Cluster.Kustomization.{
  entry_error, validate_cluster_kustomization_object, put_if_absent, with_header,
}

abbrev pub HasEntry : String → Json → Fields → Type 0
HasEntry k v end = ⊥
HasEntry k v (field j w m) = (k ≡ j) × (v ≡ w) ⊎ HasEntry k v m

abbrev SameEntries : Fields → Fields → Type 0
SameEntries m n = (k : String) (v : Json) → HasEntry k v m ↔ HasEntry k v n

-- The libraries: the JSON text of a map is not empty and has a YAML text, which is neither blank nor
-- null and is read as a map of the same entries, whose JSON text is the same.
pub record Renders {T : Type 0} (cc : ClusterCodec T) : Type 0 where
  pub has_text : (m : Fields) (k : String) → cc.marshal_object m ≡ ok k → (k == "") ≡ false
  pub renders :
      (m : Fields) (k : String)
      → cc.marshal_object m ≡ ok k
      → (t : String) × (raw : String) × (n : Fields) × (cc.codec.json_to_yaml k ≡ ok t)
        × (is_blank t ≡ false)
        × (trims_to t "null" ≡ false)
        × (cc.codec.yaml_to_json t ≡ ok raw)
        × (cc.codec.unmarshal_object raw ≡ ok (some n))
        × SameEntries m n
        × (cc.marshal_object n ≡ ok k)

abbrev AllValid : Fields → Type 0
AllValid m = (k : String) (v : Json) → HasEntry k v m → entry_error k v ≡ none

pub AllValid-of-validate :
    (m : Fields) → validate_cluster_kustomization_object m ≡ none → AllValid m
unfolding validate_cluster_kustomization_object
AllValid-of-validate end h k v x = absurd x
AllValid-of-validate (field j w m) h k v x = elim (Option-cases (entry_error j w)) [
  | inr (e, f) ↦ absurd (ground (arith, h, f))
  | inl f ↦ elim x [
    | inl (a, b) ↦
        subst (λ (i : String). entry_error i v ≡ none) (sym a)
          (subst (λ (u : Json). entry_error j u ≡ none) (sym b) f)
    | inr y ↦ AllValid-of-validate m (ground (arith, h, f)) k v y
  ]
]

pub validate-of-AllValid :
    (m : Fields) → AllValid m → validate_cluster_kustomization_object m ≡ none
unfolding validate_cluster_kustomization_object
validate-of-AllValid end h = refl
validate-of-AllValid (field j w m) h =
    let first = h j w (inl (refl, refl)) in
    let rest = validate-of-AllValid m (λ k v x. h k v (inr x)) in ground (arith, first, rest)

put-hit :
    (i j : String) (u w : Json) (m : Fields) → (i == j) ≡ true → put j w (field i u m) ≡ field i w m
unfolding put
put-hit i j u w m e = rw e refl

put-miss :
    (i j : String) (u w : Json) (m : Fields)
    → (i == j) ≡ false
    → put j w (field i u m) ≡ field i u (put j w m)
unfolding put
put-miss i j u w m e = rw e refl

HasEntry-put :
    (k j : String) (v w : Json) (m : Fields)
    → HasEntry k v (put j w m)
    → (k ≡ j) × (v ≡ w) ⊎ HasEntry k v m
unfolding put
HasEntry-put k j v w end x = x
HasEntry-put k j v w (field i u m) x = elim (Bool-cases (i == j)) [
  | inl e ↦ elim (subst (HasEntry k v) (put-hit i j u w m e) x) [
    | inl (a, b) ↦ inl (a ∙ (==_iff i j).0 e, b)
    | inr y ↦ inr (inr y)
  ]
  | inr e ↦ elim (subst (HasEntry k v) (put-miss i j u w m e) x) [
    | inl y ↦ inr (inl y)
    | inr y ↦ elim (HasEntry-put k j v w m y) [ inl z ↦ inl z | inr z ↦ inr (inr z) ]
  ]
]

AllValid-put :
    (j : String) (w : Json) (m : Fields)
    → entry_error j w ≡ none
    → AllValid m
    → AllValid (put j w m)
AllValid-put j w m e h k v x = elim (HasEntry-put k j v w m x) [
  | inl (a, b) ↦
      subst (λ (i : String). entry_error i v ≡ none) (sym a)
        (subst (λ (u : Json). entry_error j u ≡ none) (sym b) e)
  | inr y ↦ h k v y
]

AllValid-put_if_absent :
    (j : String) (w : Json) (m : Fields)
    → entry_error j w ≡ none
    → AllValid m
    → AllValid (put_if_absent j w m)
AllValid-put_if_absent j w m e h = elim (Bool-cases (has_key j m)) [
  | inl y ↦ rw y h
  | inr n ↦ rw n (AllValid-put j w m e h)
]

has_key-put_if_absent :
    (i j : String) (w : Json) (m : Fields)
    → has_key i (put_if_absent j w m) ≡ (if has_key i m then true else j == i)
has_key-put_if_absent i j w m = ground (arith, lookup-put j i w m, ==_iff j i)

HasEntry-of-has_key : (k : String) (m : Fields) → has_key k m ≡ true → (v : Json) × HasEntry k v m
unfolding lookup
HasEntry-of-has_key k end h = absurd (cc)
HasEntry-of-has_key k (field j w m) h = elim (Bool-cases (j == k)) [
  | inl e ↦ (w, inl (sym ((==_iff j k).0 e), refl))
  | inr e ↦ let (v, x) = HasEntry-of-has_key k m (ground (arith, h, e)) in (v, inr x)
]

has_key-of-HasEntry : (k : String) (v : Json) (m : Fields) → HasEntry k v m → has_key k m ≡ true
unfolding lookup
has_key-of-HasEntry k v end x = absurd x
has_key-of-HasEntry k v (field j w m) x = elim x [
  | inl (a, b) ↦ ground (arith, a, ==_refl k, ==_iff j k)
  | inr y ↦ let r = has_key-of-HasEntry k v m y in ground (arith, r)
]

pub has_key-SameEntries :
    (k : String) (m n : Fields) → SameEntries m n → has_key k m ≡ true → has_key k n ≡ true
has_key-SameEntries k m n same h =
    let (v, x) = HasEntry-of-has_key k m h in has_key-of-HasEntry k v n ((same k v).0 x)

-- A map with its header stays as it is.
pub with_header_again :
    (m : Fields) → has_key "apiVersion" m ≡ true → has_key "kind" m ≡ true → with_header m ≡ m
with_header_again m a k = ground (arith, a, k)

pub with_header-HasKeys :
    (m : Fields)
    → (has_key "apiVersion" (with_header m) ≡ true) × (has_key "kind" (with_header m) ≡ true)
with_header-HasKeys m =
    let api = str "kustomize.config.k8s.io/v1beta1" in
    let kind = str "Kustomization" in
    let first = has_key-put_if_absent "apiVersion" "apiVersion" api m in
    let second =
      has_key-put_if_absent "apiVersion" "kind" kind (put_if_absent "apiVersion" api m) in
    let third = has_key-put_if_absent "kind" "kind" kind (put_if_absent "apiVersion" api m) in
    (ground (arith, first, second), ground (arith, third))

pub with_header-AllValid : (m : Fields) → AllValid m → AllValid (with_header m)
with_header-AllValid m h =
    AllValid-put_if_absent "kind" (str "Kustomization") _ refl
      (AllValid-put_if_absent "apiVersion" (str "kustomize.config.k8s.io/v1beta1") m refl h)
