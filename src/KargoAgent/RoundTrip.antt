-- ===== src/KargoAgent/RoundTrip.antt =====
-- A Kargo agent that is applied and exported again, beside what was declared.
use provider_crossplane_akui.Glue.{
  kustomization_string_to_raw, kustomization_raw_to_string, string_ptr_to_time_ptr,
  time_ptr_to_string_ptr, validate_kustomization_yaml, Codec,
}
use provider_crossplane_akui.Common.{
  ok, Result-cases, Option-cases, Bool-cases, ==_iff, ◌==◌, ◌≡◌, refl, sym, ap, subst, ◌∙◌, inl,
  inr, String, Bool, true, false, Option, none, some, arith,
}
use provider_crossplane_akui.Common.Text.{equal_fold}
use provider_crossplane_akui.CustomSize.{Yaml}
use provider_crossplane_akui.KargoAgent.State.{KargoAgentData, KargoAgentParameters, WireAgent}
use provider_crossplane_akui.KargoAgent.Size.{
  is_true, generate_kargo_agent_custom_size_kustomization, project_custom_kargo_agent_size,
}
use provider_crossplane_akui.KargoAgent.Convert.{
  kargo_agent_data_spec_to_api, kargo_agent_data_api_to_spec, wire_of, spec_to_api, kept_managed,
  wire_to_spec,
}

-- The data with what the projection and the wire may change of it.
abbrev pub image : KargoAgentData → String → String → Option String → KargoAgentData
image d z k x = record d {
  size = z;
  kustomization = k;
  custom_agent_size_config = none;
  maintenance_mode_expiry = x;
}

-- A projection that succeeds changes the size and the kustomization, and clears the configuration
-- of the size; it does not read the expiry.
pub record IsProjection (yaml : Yaml) (name : String) (d : KargoAgentData) (z k : String)
    : Type 0 where
  pub projects :
      (x : Option String)
      → project_custom_kargo_agent_size yaml name (record d { maintenance_mode_expiry = x })
        ≡ (none, image d z k x)
  pub unset : (d.size == "") ≡ true → d.size ≡ z

custom-nonempty : (s : String) → equal_fold s "custom" ≡ true → (s == "") ≡ true → ⊥
unfolding equal_fold
custom-nonempty s e u =
    let blank : (equal_fold "" "custom" ≡ true) =
      subst (λ (t : String). equal_fold t "custom" ≡ true) ((==_iff s "").0 u) e in
    cc (blank)

pub project-IsProjection :
    (yaml : Yaml) (name : String) (d : KargoAgentData)
    → (project_custom_kargo_agent_size yaml name d).0 ≡ none
    → (z : String) × (k : String) × IsProjection yaml name d z k
unfolding project_custom_kargo_agent_size
project-IsProjection yaml name d h = elim (Bool-cases (equal_fold d.size "custom")) [
  | inr e ↦ elim (Option-cases d.custom_agent_size_config) [
    | inr (c, n) ↦ absurd (ground (arith, h, e, n))
    | inl n ↦ (
      d.size,
      d.kustomization,
      record { projects = λ x. ground (arith, e, n); unset = λ _. refl },
    )
  ]
  | inl e ↦ elim (Bool-cases (is_true d.akuity_managed)) [
    | inl m ↦ absurd (ground (arith, h, e, m))
    | inr m ↦ elim (Option-cases d.custom_agent_size_config) [
      | inl n ↦ absurd (ground (arith, h, e, m, n))
      | inr (c, n) ↦ elim (Option-cases d.autoscaler_config) [
        | inr (a, s) ↦ absurd (ground (arith, h, e, m, n, s))
        | inl s ↦
            elim (Result-cases (
              generate_kargo_agent_custom_size_kustomization yaml name d.custom_agent_size_config
                d.kustomization)) [
                  | inr (x, g) ↦ absurd (ground (arith, h, e, m, n, s, g))
                  | inl (k, g) ↦ (
                    "large",
                    k,
                    record {
                      projects = λ x. ground (arith, e, m, n, s, g);
                      unset = λ u. absurd (custom-nonempty d.size e u);
                    },
                  )
                ]
      ]
    ]
  ]
]

module _ {Tm : Type 0} (codec : Codec Tm) where
  -- A kustomization and an expiry as they come back.
  abbrev pub rendered : String → String
  rendered k = kustomization_raw_to_string codec (kustomization_string_to_raw codec k)

  abbrev pub rendered_expiry : Option String → Option String
  rendered_expiry x = time_ptr_to_string_ptr codec (string_ptr_to_time_ptr codec x)

  -- The parameters with other data.
  abbrev pub with_data : KargoAgentParameters → KargoAgentData → KargoAgentParameters
  with_data p d = record p { kargo_agent_spec = record (p.kargo_agent_spec) { agent_data = d } }

  kept_managed_self : (m : Option Bool) → kept_managed codec m m ≡ m
  kept_managed_self none = refl
  kept_managed_self (some true) = refl
  kept_managed_self (some false) = refl

  -- What `SpecToAPI` returns.
  pub spec_to_api-wire_of :
      (p : KargoAgentParameters) (wire : WireAgent Tm)
      → spec_to_api codec p ≡ ok wire
      → (z : String) × (k : String) × IsProjection codec.yaml p.name p.kargo_agent_spec.agent_data z
          k
        × (validate_kustomization_yaml codec k ≡ none)
        × (wire_of codec p (
              image p.kargo_agent_spec.agent_data z k
                p.kargo_agent_spec.agent_data.maintenance_mode_expiry)
            ≡ wire)
  unfolding spec_to_api
  spec_to_api-wire_of p wire h =
      let d = p.kargo_agent_spec.agent_data in
      let r = project_custom_kargo_agent_size codec.yaml p.name d in
      elim (Option-cases r.0) [
        | inr (e, f) ↦ absurd (ground (arith, h, f))
        | inl f ↦
            let (z, k, is) = project-IsProjection codec.yaml p.name d f in
            let same = is.projects d.maintenance_mode_expiry in
            elim (Option-cases (validate_kustomization_yaml codec k)) [
              | inr (e, v) ↦ absurd (ground (arith, h, same, v))
              | inl v ↦ (z, k, is, v, ground (arith, h, same, v))
            ]
      ]

  pub wire_to_spec-wire_of :
      (p : KargoAgentParameters) (z k : String) (x : Option String)
      → wire_to_spec codec p (wire_of codec p (image p.kargo_agent_spec.agent_data z k x))
        ≡ with_data p (image p.kargo_agent_spec.agent_data z (rendered k) (rendered_expiry x))
  unfolding wire_of wire_to_spec kargo_agent_data_spec_to_api kargo_agent_data_api_to_spec
  wire_to_spec-wire_of p z k x =
      ap
        (λ (m : Option Bool).
          with_data p
            (record (image p.kargo_agent_spec.agent_data z (rendered k) (rendered_expiry x)) {
              akuity_managed = m;
            }))
        (kept_managed_self p.kargo_agent_spec.agent_data.akuity_managed)

  pub wire_to_spec-spec_to_api :
      (p : KargoAgentParameters) (wire : WireAgent Tm)
      → spec_to_api codec p ≡ ok wire
      → (z : String) × (k : String) × IsProjection codec.yaml p.name p.kargo_agent_spec.agent_data z
          k
        × (validate_kustomization_yaml codec k ≡ none)
        × (wire_to_spec codec p wire
            ≡ with_data p (
                image p.kargo_agent_spec.agent_data z
                  (rendered k)
                  (rendered_expiry p.kargo_agent_spec.agent_data.maintenance_mode_expiry)))
  wire_to_spec-spec_to_api p wire h =
      let (z, k, is, v, e) = spec_to_api-wire_of p wire h in
      (
        z,
        k,
        is,
        v,
        ap (λ (u : WireAgent Tm). wire_to_spec codec p u) (sym e)
            ∙ wire_to_spec-wire_of p z k p.kargo_agent_spec.agent_data.maintenance_mode_expiry,
      )
