-- ===== src/Children/Report.antt =====
-- Which children a report names, and that nothing drifts from itself.
use provider_crossplane_akui.Common.{
  Bool-cases, Option-cases, Member, ◌≡◌, refl, sym, subst, ◌↔◌, ◌⊎◌, inl, inr, true, false, none,
  some, List, [], ◌∷◌, arith,
}
use provider_crossplane_akui.Common.Text.{text_lt}
use provider_crossplane_akui.Json.{obj, Fields}
use provider_crossplane_akui.Children.{
  Identity, identity_string, Index, matches_subset, insert_key, sorted_keys, DriftReport,
  resolve_child, desired_child, compare_keys, compare_children,
}

abbrev pub keys_of : Index → List Identity
keys_of [] = []
keys_of ((k, v) ∷ m) = k ∷ keys_of m

Member-insert_key :
    (x k : Identity) (ks : List Identity) → Member x (insert_key k ks) ↔ ((x ≡ k) ⊎ Member x ks)
unfolding insert_key
Member-insert_key x k [] = (λ h. h, λ h. h)
Member-insert_key x k (y ∷ ys) =
    elim (Bool-cases (text_lt (identity_string y) (identity_string k))) [
      | inl s ↦ rw s (swapped (Member-insert_key x k ys))
      | inr s ↦ rw s (λ h. h, λ h. h)
    ]
  where
    swapped :
        Member x (insert_key k ys) ↔ ((x ≡ k) ⊎ Member x ys)
        → ((x ≡ y) ⊎ Member x (insert_key k ys)) ↔ ((x ≡ k) ⊎ ((x ≡ y) ⊎ Member x ys))
    swapped r = (
      λ h. elim h [
        | inl e ↦ inr (inl e)
        | inr t ↦ elim (r.0 t) [ inl e ↦ inl e | inr u ↦ inr (inr u) ]
      ],
      λ h. elim h [
        | inl e ↦ inr (r.1 (inl e))
        | inr t ↦ elim t [ inl e ↦ inl e | inr u ↦ inr (r.1 (inr u)) ]
      ],
    )

-- Sorting the keys loses none and adds none.
Member-sorted_keys : (x : Identity) (m : Index) → Member x (sorted_keys m) ↔ Member x (keys_of m)
unfolding sorted_keys
Member-sorted_keys x [] = (λ h. h, λ h. h)
Member-sorted_keys x ((k, v) ∷ m) =
    let ins = Member-insert_key x k (sorted_keys m) in
    let rec = Member-sorted_keys x m in
    (
      λ h. elim (ins.0 h) [ inl e ↦ inl e | inr t ↦ inr (rec.0 t) ],
      λ h. elim h [ inl e ↦ ins.1 (inl e) | inr t ↦ ins.1 (inr (rec.1 t)) ],
    )

-- The three fates of a desired child.
abbrev pub IsMissing : Index → Identity → Type 0
IsMissing observed id = resolve_child observed id ≡ none

abbrev pub IsChanged : Index → Index → Identity → Type 0
IsChanged desired observed id =
    (o : Fields) × (resolve_child observed id ≡ some o)
    × (matches_subset (obj (desired_child desired id)) (obj o) ≡ false)

module _ (P : Identity → Type 0) (x id : Identity) (ids found : List Identity) where
  Member-extend :
      P x
      → Member id found ↔ (Member id ids × P id)
      → Member id (x ∷ found) ↔ (Member id (x ∷ ids) × P id)
  Member-extend p ih = (
    λ h. elim h [ inl e ↦ (inl e, subst P (sym e) p) | inr t ↦ (inr (ih.0 t).0, (ih.0 t).1) ],
    λ h. elim h.0 [ inl e ↦ inl e | inr t ↦ inr (ih.1 (t, h.1)) ],
  )

  Member-skip :
      ¬ P x
      → Member id found ↔ (Member id ids × P id)
      → Member id found ↔ (Member id (x ∷ ids) × P id)
  Member-skip n ih = (
    λ h. (inr (ih.0 h).0, (ih.0 h).1),
    λ h. elim h.0 [ inl e ↦ absurd (n (subst P e h.1)) | inr t ↦ ih.1 (t, h.1) ],
  )

module _ (desired observed : Index) where
  abbrev rest_of : List Identity → DriftReport
  rest_of ids = compare_keys desired observed ids

  -- What one turn of the loop adds to the report.
  turn :
      (x : Identity) (ids : List Identity)
      → ((IsMissing observed x)
          × (rest_of (x ∷ ids)
              ≡ record { missing = x ∷ (rest_of ids).missing; changed = (rest_of ids).changed }))
        ⊎ ((IsChanged desired observed x)
            × (rest_of (x ∷ ids)
                ≡ record { missing = (rest_of ids).missing; changed = x ∷ (rest_of ids).changed }))
        ⊎ (((o : Fields) × (resolve_child observed x ≡ some o)
              × (matches_subset (obj (desired_child desired x)) (obj o) ≡ true))
            × (rest_of (x ∷ ids) ≡ rest_of ids))
  unfolding compare_keys
  turn x ids = elim (Option-cases (resolve_child observed x)) [
    | inl n ↦ inl (n, ground (arith, n))
    | inr (o, r) ↦ elim (Bool-cases (matches_subset (obj (desired_child desired x)) (obj o))) [
      | inl y ↦ inr (inr ((o, r, y), ground (arith, r, y)))
      | inr y ↦ inr (inl ((o, r, y), ground (arith, r, y)))
    ]
  ]

  compare_keys-nil : rest_of [] ≡ record { missing = []; changed = [] }
  unfolding compare_keys
  compare_keys-nil = refl

  compare_keys-missing :
      (ids : List Identity) (id : Identity)
      → Member id (rest_of ids).missing ↔ (Member id ids × IsMissing observed id)
  compare_keys-missing [] id = rw compare_keys-nil (λ h. absurd h, λ h. absurd h.0)
  compare_keys-missing (x ∷ ids) id =
      let ih = compare_keys-missing ids id in
      elim (turn x ids) [
        | inl (n, e) ↦ rw e (Member-extend (IsMissing observed) x id _ _ n ih)
        | inr t ↦ elim t [
          | inl ((o, r, y), e) ↦
              rw e (Member-skip (IsMissing observed) x id _ _ (λ n. cc (n, r)) ih)
          | inr ((o, r, y), e) ↦
              rw e (Member-skip (IsMissing observed) x id _ _ (λ n. cc (n, r)) ih)
        ]
      ]

  compare_keys-changed :
      (ids : List Identity) (id : Identity)
      → Member id (rest_of ids).changed ↔ (Member id ids × IsChanged desired observed id)
  compare_keys-changed [] id = rw compare_keys-nil (λ h. absurd h, λ h. absurd h.0)
  compare_keys-changed (x ∷ ids) id =
      let ih = compare_keys-changed ids id in
      elim (turn x ids) [
        | inl (n, e) ↦
            rw e (Member-skip (IsChanged desired observed) x id _ _ (λ (o, r, y). cc (n, r)) ih)
        | inr t ↦ elim t [
          | inl (c, e) ↦ rw e (Member-extend (IsChanged desired observed) x id _ _ c ih)
          | inr ((o, r, y), e) ↦ rw e (
              Member-skip (IsChanged desired observed) x id _ _ (λ (o', r', y'). clash r r' y y')
                ih)
        ]
      ]
    where
      clash :
          {o o' : Fields}
          → resolve_child observed x ≡ some o
          → resolve_child observed x ≡ some o'
          → matches_subset (obj (desired_child desired x)) (obj o) ≡ true
          → matches_subset (obj (desired_child desired x)) (obj o') ≡ false
          → ⊥
      clash r r' y y' = ground (arith, r, r', y, y')

  -- A report lists as missing exactly the desired children for which no observed child stands,
  -- and as changed exactly those whose fields the observed one does not all have.
  pub compare_children_lem :
      (id : Identity)
      → (Member id (compare_children desired observed).missing
          ↔ (Member id (keys_of desired) × IsMissing observed id))
        × (Member id (compare_children desired observed).changed
            ↔ (Member id (keys_of desired) × IsChanged desired observed id))
  unfolding compare_children
  compare_children_lem id =
      let s = Member-sorted_keys id desired in
      let m = compare_keys-missing (sorted_keys desired) id in
      let c = compare_keys-changed (sorted_keys desired) id in
      (
        (λ h. (s.0 (m.0 h).0, (m.0 h).1), λ h. m.1 (s.1 h.0, h.1)),
        (λ h. (s.0 (c.0 h).0, (c.0 h).1), λ h. c.1 (s.1 h.0, h.1)),
      )
