-- ===== src/Children/Indexing.antt =====
-- What an index holds.
use mathlib.Core.List.{append_assoc, append-nil}
use provider_crossplane_akui.Common.{
  Result, ok, Result-cases, ◌==◌, Bool-cases, Option-cases, ℕ, ◌+◌, String, ◌≡◌, refl, sym, ◌∙◌,
  subst, inl, inr, true, false, Option, none, some, List, [], ◌∷◌, ◌++◌, arith, eq_iff,
}
use provider_crossplane_akui.Reason.{Error}
use provider_crossplane_akui.Json.{Fields}
use provider_crossplane_akui.Children.{
  Identity, same_identity, strip, identity_of, Index, find_child, add_child, index_from, index,
  index_structs_from, index_structs,
}

-- The identity of every entry is that of its document, and no identity stands twice.
abbrev pub IsIndex : Index → Type 0
IsIndex [] = Unit
IsIndex ((k, v) ∷ m) = (find_child k m ≡ none) × IsIndex m

find_child-snoc :
    (k id : Identity) (v : Fields) (m : Index)
    → find_child id m ≡ none
    → same_identity k id ≡ false
    → find_child id (m ++ ((k, v) ∷ [])) ≡ none
unfolding find_child
find_child-snoc k id v [] h n = rw n
find_child-snoc k id v ((j, w) ∷ m) h n = ground (arith, find_child-snoc k id v m)

same_identity-eq : (a b : Identity) → same_identity a b ≡ true → a ≡ b
same_identity-eq a b h = ground (
  arith,
  eq_iff a.api_version b.api_version,
  eq_iff a.kind b.kind,
  eq_iff a.namespace b.namespace,
  eq_iff a.name b.name,
)

-- A list of documents, as the loops go through it: each document is added under its identity.
abbrev pub Holds : Index → List Fields → Type 0
Holds [] [] = Unit
Holds ((k, v) ∷ m) (o ∷ os) = (identity_of o ≡ ok k) × (v ≡ strip o) × Holds m os
Holds _ _ = ⊥

snoc-IsIndex :
    (id : Identity) (v : Fields) (m : Index)
    → IsIndex m
    → find_child id m ≡ none
    → IsIndex (m ++ ((id, v) ∷ []))
unfolding find_child
snoc-IsIndex id v [] h n = (refl, tt)
snoc-IsIndex id v ((k, w) ∷ m) h n = (
  find_child-snoc id k v m h.0 (apart id k (ground arith)),
  snoc-IsIndex id v m h.1 (ground arith),
)
  where
    apart : (a b : Identity) → same_identity b a ≡ false → same_identity a b ≡ false
    apart a b n = elim (Bool-cases (same_identity a b)) [
      | inl s ↦ absurd (ground (arith, s, n, same_identity-eq a b s))
      | inr s ↦ s
    ]

add_child-eq-ok :
    (label : String) (i : ℕ) (o : Fields) (m : Index) {out : Index}
    → add_child label i o m ≡ ok out
    → (id : Identity) × (identity_of o ≡ ok id)
      × (find_child id m ≡ none)
      × (out ≡ m ++ ((id, strip o) ∷ []))
unfolding add_child
add_child-eq-ok label i o m h = elim (Result-cases (identity_of o)) [
  | inl (id, e) ↦ elim (Option-cases (find_child id m)) [
    | inl n ↦ (id, e, n, ground (arith, e, n))
    | inr (w, f) ↦ absurd (ground (arith, e, f))
  ]
  | inr (x, e) ↦ absurd (ground (arith, e))
]

-- The documents that the gateway sent, less the nil structs.
abbrev present : List (Option Fields) → List Fields
present [] = []
present (none ∷ rest) = present rest
present (some o ∷ rest) = o ∷ present rest

abbrev Extends : Index → Index → List Fields → Type 0
Extends m out docs = (tail : Index) × (out ≡ m ++ tail) × Holds tail docs × IsIndex out

Extends-child :
    (id : Identity) (o : Fields) (m m' out : Index) (docs : List Fields)
    → identity_of o ≡ ok id
    → m' ≡ m ++ ((id, strip o) ∷ [])
    → Extends m' out docs
    → Extends m out (o ∷ docs)
Extends-child id o m m' out docs e n (tail, f, h, d) =
    ((id, strip o) ∷ tail, f ∙ rw n (append_assoc m ((id, strip o) ∷ []) tail), (e, refl, h), d)

index_structs_from-Extends :
    (i : ℕ) (structs : List (Option Fields)) (m : Index) {out : Index}
    → IsIndex m
    → index_structs_from i structs m ≡ ok out
    → Extends m out (present structs)
unfolding index_structs_from
index_structs_from-Extends i [] m {out} d h =
    let m≡out : m ≡ out = cc in ([], sym m≡out ∙ sym (append-nil m), tt, subst IsIndex m≡out d)
index_structs_from-Extends i (none ∷ rest) m d h = index_structs_from-Extends (i + 1) rest m d h
index_structs_from-Extends i (some o ∷ rest) m d h =
    elim (Result-cases (add_child "struct" i o m)) [
      | inl (m', e) ↦
          let (id, f, n, s) = add_child-eq-ok "struct" i o m e in
          Extends-child id o m m' _ (present rest) f s (
            index_structs_from-Extends (i + 1) rest m' (rw s (snoc-IsIndex id (strip o) m d n))
              (ground (arith, e)))
      | inr (x, e) ↦ absurd (ground (arith, e))
    ]

-- Where `IndexStructs` succeeds, the index holds each struct of the answer that is not nil, in
-- order, stripped, under the identity of its document, and no identity stands twice.
pub index_structs-Holds :
    (structs : List (Option Fields)) {m : Index}
    → index_structs structs ≡ ok m
    → Holds m (present structs) × IsIndex m
unfolding index_structs
index_structs-Holds structs h =
    let (tail, e, held, d) = index_structs_from-Extends 0 structs [] tt h in (rw e held, d)

-- The payloads decode, one by one, to the documents.
abbrev pub Decoded : (String → Result Error Fields) → List String → List Fields → Type 0
Decoded decode [] [] = Unit
Decoded decode (raw ∷ raws) (o ∷ os) =
    ((raw == "") ≡ false) × (decode raw ≡ ok o) × Decoded decode raws os
Decoded decode _ _ = ⊥

module _ (decode : String → Result Error Fields) where
  index_from-Extends :
      (i : ℕ) (raws : List String) (m : Index) {out : Index}
      → IsIndex m
      → index_from decode i raws m ≡ ok out
      → (docs : List Fields) × Decoded decode raws docs × Extends m out docs
  unfolding index_from
  index_from-Extends i [] m {out} d h =
      let m≡out : m ≡ out = cc in
      ([], tt, ([], sym m≡out ∙ sym (append-nil m), tt, subst IsIndex m≡out d))
  index_from-Extends i (raw ∷ raws) m {out} d h = elim (Bool-cases (raw == "")) [
    | inl b ↦ absurd (ground (arith, b))
    | inr b ↦ elim (Result-cases (decode raw)) [
      | inr (x, e) ↦ absurd (ground (arith, b, e))
      | inl (o, e) ↦ elim (Result-cases (add_child "entry" i o m)) [
        | inr (x, a) ↦ absurd (ground (arith, b, e, a))
        | inl (m', a) ↦
            let (id, f, n, s) = add_child-eq-ok "entry" i o m a in
            let go : index_from decode (i + 1) raws m' ≡ ok out = ground (arith, b, e, a) in
            let (docs, dec, ext) =
              index_from-Extends (i + 1) raws m' (rw s (snoc-IsIndex id (strip o) m d n)) go in
            (o ∷ docs, (b, e, dec), Extends-child id o m m' out docs f s ext)
      ]
    ]
  ]

  -- Where `Index` succeeds, every payload is a document that is not empty, the index holds the
  -- documents in order, stripped, each under its identity, and no identity stands twice.
  pub index-Holds :
      (raws : List String) {m : Index}
      → index decode raws ≡ ok m
      → (docs : List Fields) × Decoded decode raws docs × Holds m docs × IsIndex m
  unfolding index
  index-Holds raws h =
      let (docs, dec, ext) = index_from-Extends 0 raws [] tt h in
      let (tail, e, held, d) = ext in (docs, dec, rw e held, d)
