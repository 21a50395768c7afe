-- ===== src/Cluster/Rendered.antt =====
-- The kustomization that a cluster's export renders, sent again.
use provider_crossplane_akui.Common.{
  ok, Result-cases, Bool-cases, ==_refl, ◌≡◌, refl, sym, ap, subst, ◌∙◌, ◌⊎◌, ◌||◌, inl, inr,
  String, true, false, none, some, arith,
}
use provider_crossplane_akui.Common.Text.{is_blank, trims_to}
use provider_crossplane_akui.Json.{Fields}
use provider_crossplane_akui.Cluster.State.{ClusterCodec}
use provider_crossplane_akui.Cluster.Kustomization.{
  validate_cluster_kustomization_object, with_header, encoded_kustomization,
  cluster_kustomization_raw,
}
use provider_crossplane_akui.Cluster.Normalize.{kustomization_equivalent}
use provider_crossplane_akui.Cluster.RoundTrip.{rendered}
use provider_crossplane_akui.Cluster.Entries.{
  Renders, AllValid-of-validate, validate-of-AllValid, has_key-SameEntries, with_header_again,
  with_header-HasKeys, with_header-AllValid,
}

module _ {T : Type 0} (cc : ClusterCodec T) where
  encoded_kustomization-parts :
      (top : Fields) (k : String)
      → encoded_kustomization cc top ≡ ok k
      → (validate_cluster_kustomization_object top ≡ none)
        × (cc.marshal_object (with_header top) ≡ ok k)
  unfolding encoded_kustomization
  encoded_kustomization-parts top k h = (ground (arith, h), ground (arith, h))

  raw-of-parts :
      (t raw : String) (n : Fields) (k : String)
      → is_blank t ≡ false
      → trims_to t "null" ≡ false
      → cc.codec.yaml_to_json t ≡ ok raw
      → cc.codec.unmarshal_object raw ≡ ok (some n)
      → validate_cluster_kustomization_object n ≡ none
      → cc.marshal_object (with_header n) ≡ ok k
      → cluster_kustomization_raw cc t ≡ ok k
  unfolding cluster_kustomization_raw encoded_kustomization
  raw-of-parts t raw n k b u y o v m = ground (arith, b, u, y, o, v, m)

  encoded-again :
      (top : Fields) (k : String)
      → Renders cc
      → encoded_kustomization cc top ≡ ok k
      → cluster_kustomization_raw cc (rendered cc k) ≡ ok k
  encoded-again top k law h =
      let (valid, sent) = encoded_kustomization-parts top k h in
      let (t, raw, n, j, b, u, y, o, same, back) = law.renders (with_header top) k sent in
      let (a, i) = with_header-HasKeys top in
      let kept =
        with_header_again n (has_key-SameEntries "apiVersion" (with_header top) n same a)
          (has_key-SameEntries "kind" (with_header top) n same i) in
      let all = with_header-AllValid top (AllValid-of-validate top valid) in
      let ok_n = validate-of-AllValid n (λ e v x. all e v ((same e v).1 x)) in
      let text : (rendered cc k ≡ t) = ground (arith, j, law.has_text (with_header top) k sent) in
      subst (λ (s : String). cluster_kustomization_raw cc s ≡ ok k) (sym text)
        (raw-of-parts t raw n k b u y o ok_n (ap cc.marshal_object kept ∙ back))

  raw-of-empty : cluster_kustomization_raw cc (rendered cc "") ≡ ok ""
  unfolding cluster_kustomization_raw is_blank
  raw-of-empty = refl

  empty-or-encoded :
      (s k : String)
      → cluster_kustomization_raw cc s ≡ ok k
      → (k ≡ "") ⊎ ((top : Fields) × (encoded_kustomization cc top ≡ ok k))
  unfolding cluster_kustomization_raw
  empty-or-encoded s k h = elim (Bool-cases (is_blank s || trims_to s "null")) [
    | inl b ↦ inl (ground (arith, h, b))
    | inr b ↦ elim (Result-cases (cc.codec.yaml_to_json s)) [
      | inr (e, y) ↦ absurd (ground (arith, h, b, y))
      | inl (raw, y) ↦ elim (Result-cases (cc.codec.unmarshal_object raw)) [
        | inr (e, u) ↦ absurd (ground (arith, h, b, y, u))
        | inl (none, u) ↦ inl (ground (arith, h, b, y, u))
        | inl (some top, u) ↦ inr (top, ground (arith, h, b, y, u))
      ]
    ]
  ]

  sent-again :
      (s k : String)
      → Renders cc
      → cluster_kustomization_raw cc s ≡ ok k
      → cluster_kustomization_raw cc (rendered cc k) ≡ ok k
  sent-again s k law h = elim (empty-or-encoded s k h) [
    | inl e ↦
        subst (λ (x : String). cluster_kustomization_raw cc (rendered cc x) ≡ ok x) (sym e)
          raw-of-empty
    | inr (top, x) ↦ encoded-again top k law x
  ]

  -- A kustomization that is sent is equivalent to its rendering.
  pub rendered-equivalent_to :
      (s k : String)
      → Renders cc
      → cluster_kustomization_raw cc s ≡ ok k
      → kustomization_equivalent cc s (rendered cc k) ≡ true
  unfolding kustomization_equivalent
  rendered-equivalent_to s k law h = ground (arith, h, sent-again s k law h, ==_refl k)
