-- ===== src/KargoAgent/Equivalent.antt =====
-- A kustomization beside its rendering.
use provider_crossplane_akui.Glue.{
  kustomization_string_to_raw, kustomization_raw_to_string, validate_kustomization_yaml, Codec,
}
use provider_crossplane_akui.Common.{
  ok, err, Result-cases, Bool-cases, ==_iff, ==_refl, ◌==◌, ◌≡◌, ◌≢◌, refl, sym, subst, inl, inr,
  String, true, false, Option, none, arith,
}
use provider_crossplane_akui.Common.Text.{is_blank}
use provider_crossplane_akui.Reason.{Error}
use provider_crossplane_akui.Json.{Fields}
use provider_crossplane_akui.KargoAgent.Normalize.{
  kargo_agent_kustomization_raw, is_empty_kargo_agent_kustomization, succeeds, same_raw,
  kargo_agent_kustomization_equivalent,
}
use provider_crossplane_akui.KargoAgent.RoundTrip.{rendered}

-- The YAML library: a document that was parsed is rendered as a text that is not blank and parses
-- to the same document, a document has a text, and a blank text is the null document.
pub record Renders {Tm : Type 0} (codec : Codec Tm) : Type 0 where
  pub renders :
      (s raw : String)
      → codec.yaml_to_json s ≡ ok raw
      → (t : String) × (codec.json_to_yaml raw ≡ ok t)
        × (is_blank t ≡ false)
        × (codec.yaml_to_json t ≡ ok raw)
  pub has_text : (s raw : String) → codec.yaml_to_json s ≡ ok raw → (raw == "") ≡ false
  pub blank_is_null :
      (s raw : String)
      → is_blank s ≡ true
      → codec.yaml_to_json s ≡ ok raw
      → codec.unmarshal_object raw ≡ ok none

module _ {Tm : Type 0} (codec : Codec Tm) where
  rendered-text :
      (k raw t : String)
      → (k == "") ≡ false
      → codec.yaml_to_json k ≡ ok raw
      → (raw == "") ≡ false
      → codec.json_to_yaml raw ≡ ok t
      → rendered codec k ≡ t
  unfolding kustomization_string_to_raw kustomization_raw_to_string
  rendered-text k raw t e g n j = ground (arith, e, g, n, j)

  equivalent-of-empty :
      (a b : String)
      → succeeds codec (is_empty_kargo_agent_kustomization codec a) ≡ true
      → succeeds codec (is_empty_kargo_agent_kustomization codec b) ≡ true
      → kargo_agent_kustomization_equivalent codec a b ≡ true
  unfolding kargo_agent_kustomization_equivalent
  equivalent-of-empty a b h k = ground (arith, h, k)

  equivalent-of-raw :
      (a b : String)
      → same_raw codec
          (kargo_agent_kustomization_raw codec a)
          (kargo_agent_kustomization_raw codec b)
        ≡ true
      → kargo_agent_kustomization_equivalent codec a b ≡ true
  unfolding kargo_agent_kustomization_equivalent
  equivalent-of-raw a b h = ground (arith, h)

  raw-of-text :
      (t raw : String) (top : Option Fields)
      → is_blank t ≡ false
      → codec.yaml_to_json t ≡ ok raw
      → codec.unmarshal_object raw ≡ ok top
      → kargo_agent_kustomization_raw codec t ≡ ok raw
  unfolding kargo_agent_kustomization_raw
  raw-of-text t raw top b g u = ground (arith, b, g, u)

  empty-of-null :
      (t raw : String)
      → codec.unmarshal_object raw ≡ ok none
      → kargo_agent_kustomization_raw codec t ≡ ok raw
      → succeeds codec (is_empty_kargo_agent_kustomization codec t) ≡ true
  unfolding is_empty_kargo_agent_kustomization
  empty-of-null t raw u r = ground (arith, u, r)

  empty-of-blank :
      (k : String)
      → is_blank k ≡ true
      → succeeds codec (is_empty_kargo_agent_kustomization codec k) ≡ true
  unfolding is_empty_kargo_agent_kustomization
  empty-of-blank k b = rw b refl

  same_raw_self : (raw : String) → same_raw codec (ok raw) (ok raw) ≡ true
  same_raw_self raw = ==_refl raw

  parsed-equivalent :
      (k raw : String) (top : Option Fields)
      → Renders codec
      → (k == "") ≡ false
      → codec.yaml_to_json k ≡ ok raw
      → codec.unmarshal_object raw ≡ ok top
      → kargo_agent_kustomization_equivalent codec k (rendered codec k) ≡ true
  parsed-equivalent k raw top law e g u =
      let (t, j, b, back) = law.renders k raw g in
      let same = rendered-text k raw t e g (law.has_text k raw g) j in
      let r = raw-of-text t raw top b back u in
      subst (λ (s : String). kargo_agent_kustomization_equivalent codec k s ≡ true) (sym same)
        (elim (Bool-cases (is_blank k)) [
          | inl blank ↦
              equivalent-of-empty k t (empty-of-blank k blank)
                (empty-of-null t raw (law.blank_is_null k raw blank g) r)
          | inr full ↦
              equivalent-of-raw k t (rw (raw-of-text k raw top full g u, r) (same_raw_self raw))
        ])

  invalid :
      (k : String) (x : Error)
      → (k == "") ≡ false
      → codec.yaml_to_json k ≡ err x
      → validate_kustomization_yaml codec k ≢ none
  unfolding validate_kustomization_yaml
  invalid k x e g v = ground (arith, e, g, v)

  no_object :
      (k raw : String) (x : Error)
      → (k == "") ≡ false
      → codec.yaml_to_json k ≡ ok raw
      → codec.unmarshal_object raw ≡ err x
      → validate_kustomization_yaml codec k ≢ none
  unfolding validate_kustomization_yaml
  no_object k raw x e g u v = ground (arith, e, g, u, v)

  -- A kustomization that passes the validation is equivalent to itself rendered.
  pub rendered-equivalent :
      (k : String)
      → Renders codec
      → validate_kustomization_yaml codec k ≡ none
      → kargo_agent_kustomization_equivalent codec k (rendered codec k) ≡ true
  unfolding kargo_agent_kustomization_equivalent validate_kustomization_yaml
      kustomization_string_to_raw kustomization_raw_to_string
  rendered-equivalent k law v = elim (Bool-cases (k == "")) [
    | inl e ↦
        subst
          (λ (s : String). kargo_agent_kustomization_equivalent codec s (rendered codec s) ≡ true)
          (sym ((==_iff k "").0 e)) refl
    | inr e ↦ elim (Result-cases (codec.yaml_to_json k)) [
      | inr (x, g) ↦ absurd (invalid k x e g v)
      | inl (raw, g) ↦ elim (Result-cases (codec.unmarshal_object raw)) [
        | inr (x, u) ↦ absurd (no_object k raw x e g u v)
        | inl (top, u) ↦ parsed-equivalent k raw top law e g u
      ]
    ]
  ]
