-- ===== src/Children/Standing.antt =====
-- Which observed child stands for a desired one, and what a report says of it.
use provider_crossplane_akui.Common.{
  ==_iff, Bool-cases, Option-cases, Member, ◌≡◌, refl, sym, subst, ◌≢◌, ◌↔◌, ◌⊎◌, inl, inr, true,
  false, none, some, [], ◌∷◌, arith,
}
use provider_crossplane_akui.Json.{obj, Fields}
use provider_crossplane_akui.Children.{
  Identity, same_identity, Index, find_child, matches_subset, resolve_child, desired_child,
  compare_children,
}
use provider_crossplane_akui.Children.Report.{keys_of, compare_children_lem}
use provider_crossplane_akui.Children.Matching.{same_identity_refl, candidates, resolve_child_lem}

-- The child that an index has under an identity.
abbrev pub At : Identity → Fields → Index → Type 0
At id v [] = ⊥
At id v ((k, w) ∷ m) = (k ≡ id) × (w ≡ v) ⊎ (k ≢ id) × At id v m

-- An observed child stands for a desired one if it has its identity; or, if none has and the
-- desired one names no namespace, if it alone has its API version, kind and name.
abbrev pub StandsFor : Index → Identity → Fields → Type 0
StandsFor observed id o =
    At id o observed
    ⊎ (¬ Member id (keys_of observed)) × (id.namespace ≡ "") × (candidates observed id ≡ o ∷ [])

eq-of-same_identity : (k id : Identity) → same_identity k id ≡ true → k ≡ id
eq-of-same_identity k id s = ground (
  arith,
  s,
  ==_iff k.api_version id.api_version,
  ==_iff k.kind id.kind,
  ==_iff k.namespace id.namespace,
  ==_iff k.name id.name,
)

ne-of-same_identity : (k id : Identity) → same_identity k id ≡ false → k ≢ id
ne-of-same_identity k id s e = let r = same_identity_refl k in ground (arith, s, r, e)

find_child-At : (id : Identity) (v : Fields) (m : Index) → (find_child id m ≡ some v) ↔ At id v m
unfolding find_child
find_child-At id v [] = (λ h. cc, λ h. absurd h)
find_child-At id v ((k, w) ∷ m) = elim (Bool-cases (same_identity k id)) [
  | inl s ↦
      let e = eq-of-same_identity k id s in
      rw s (λ h. inl (e, cc), λ h. elim h [ inl x ↦ cc (x.1) | inr x ↦ absurd (x.0 e) ])
  | inr s ↦
      let n = ne-of-same_identity k id s in
      let ih = find_child-At id v m in
      rw s (λ h. inr (n, ih.0 h), λ h. elim h [ inl x ↦ absurd (n x.0) | inr x ↦ ih.1 x.1 ])
]

find_child-absent : (id : Identity) (m : Index) → (find_child id m ≡ none) ↔ ¬ Member id (keys_of m)
unfolding find_child
find_child-absent id [] = (λ h. λ x. absurd x, λ h. refl)
find_child-absent id ((k, w) ∷ m) = elim (Bool-cases (same_identity k id)) [
  | inl s ↦
      let e = eq-of-same_identity k id s in rw s (λ h. absurd (cc), λ h. absurd (h (inl (sym e))))
  | inr s ↦
      let n = ne-of-same_identity k id s in
      let ih = find_child-absent id m in
      rw s (λ h. λ x. elim x [ inl e ↦ n (sym e) | inr t ↦ ih.0 h t ], λ h. ih.1 (λ t. h (inr t)))
]

resolve_child-StandsFor :
    (observed : Index) (id : Identity) (o : Fields)
    → (resolve_child observed id ≡ some o) ↔ StandsFor observed id o
resolve_child-StandsFor observed id o =
    let l = resolve_child_lem observed id o in
    let at = find_child-At id o observed in
    let absent = find_child-absent id observed in
    let no_namespace = ==_iff id.namespace "" in
    (
      λ h. elim (l.0 h) [
        | inl f ↦ inl (at.0 f)
        | inr t ↦ inr (absent.0 t.0, no_namespace.0 t.1, t.2)
      ],
      λ h.
          l.1
            (elim h [ inl f ↦ inl (at.1 f) | inr t ↦ inr (absent.1 t.0, no_namespace.1 t.1, t.2) ]),
    )

desired_child-At : (id : Identity) (d : Fields) (m : Index) → At id d m → desired_child m id ≡ d
desired_child-At id d m a = rw ((find_child-At id d m).1 a, desired_child) refl

At-of-Member : (id : Identity) (m : Index) → Member id (keys_of m) → At id (desired_child m id) m
At-of-Member id m h = elim (Option-cases (find_child id m)) [
  | inl n ↦ absurd ((find_child-absent id m).0 n h)
  | inr (d, f) ↦
      let a = (find_child-At id d m).0 f in
      subst (λ (x : Fields). At id x m) (sym (desired_child-At id d m a)) a
]

Member-of-At : (id : Identity) (d : Fields) (m : Index) → At id d m → Member id (keys_of m)
Member-of-At id d [] a = absurd a
Member-of-At id d ((k, w) ∷ m) (inl (e, f)) = inl (sym e)
Member-of-At id d ((k, w) ∷ m) (inr (n, a)) = inr (Member-of-At id d m a)

-- A report lists as missing exactly the desired children for which no observed child stands, and
-- as changed exactly those for which one stands that the declared fields do not match. The one that
-- stands for a desired child has its identity; if none has and the desired child names no
-- namespace, it is the child of its API version, kind and name, as long as there is exactly one.
pub compare_children-StandsFor :
    (desired observed : Index) (id : Identity)
    → (Member id (compare_children desired observed).missing
        ↔ (Member id (keys_of desired) × ((o : Fields) → ¬ StandsFor observed id o)))
      × (Member id (compare_children desired observed).changed ↔ (
          (d : Fields) × (o : Fields) × At id d desired
          × StandsFor observed id o
          × (matches_subset (obj d) (obj o) ≡ false)))
compare_children-StandsFor desired observed id =
    let (missing, changed) = compare_children_lem desired observed id in
    (
      (
        λ h. ((missing.0 h).0, λ o s. none_stands (missing.0 h).1 o s),
        λ h. missing.1 (h.0, is_missing h.1),
      ),
      (
        λ h.
            let (k, (o, r, y)) = changed.0 h in
            (
              desired_child desired id,
              o,
              At-of-Member id desired k,
              (resolve_child-StandsFor observed id o).0 r,
              y,
            ),
        λ (d, o, a, s, y). changed.1 (
          Member-of-At id d desired a,
          (
            o,
            (resolve_child-StandsFor observed id o).1 s,
            subst (λ (x : Fields). matches_subset (obj x) (obj o) ≡ false)
                (sym (desired_child-At id d desired a)) y,
          ),
        ),
      ),
    )
  where
    none_stands : resolve_child observed id ≡ none → (o : Fields) → ¬ StandsFor observed id o
    none_stands n o s = let r = (resolve_child-StandsFor observed id o).1 s in cc (n, r)

    is_missing : ((o : Fields) → ¬ StandsFor observed id o) → resolve_child observed id ≡ none
    is_missing f = elim (Option-cases (resolve_child observed id)) [
      | inl n ↦ n
      | inr (o, r) ↦ absurd (f o ((resolve_child-StandsFor observed id o).0 r))
    ]
