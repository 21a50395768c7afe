-- ===== src/Cluster/RoundTrip.antt =====
-- What is applied of a cluster, and what an export gives back of it.
use provider_crossplane_akui.Common.{
  ok, err, Result-cases, Option-cases, Bool-cases, if◌then◌else◌, ◌==◌, ==_iff, ◌≡◌, refl, sym, ap,
  subst, ◌∙◌, ◌⊎◌, inl, inr, String, true, false, Option, none, some, arith,
}
use provider_crossplane_akui.Common.Text.{is_blank, trims_to, equal_fold}
use provider_crossplane_akui.Json.{Json, str, Fields, lookup}
use provider_crossplane_akui.Json.Maps.{lookup-put}
use provider_crossplane_akui.Glue.{kustomization_raw_to_string, time_ptr_to_string_ptr}
use provider_crossplane_akui.ClusterTypes.{ClusterData, ClusterCustomAgentSizeConfig}
use provider_crossplane_akui.CustomSize.{
  Yaml, custom_kustomization, generate_cluster_custom_size_kustomization,
  project_custom_cluster_size,
}
use provider_crossplane_akui.Cluster.{ClusterParameters, WireCluster, ClusterCodec, with_data}
use provider_crossplane_akui.Cluster.Kustomization.{
  put_if_absent, with_header, encoded_kustomization, cluster_kustomization_raw,
}
use provider_crossplane_akui.Cluster.Convert.{
  cluster_data_spec_to_api, cluster_data_api_to_spec, sized, wire_of, spec_to_api, wire_to_spec,
}

-- The data with the size that stands for a missing one.
abbrev pub with_size : ClusterData → ClusterData
with_size e = record e { size = if e.size == "" then "small" else e.size }

-- A projection that succeeds changes nothing, or turns a size "custom" into "large" with the
-- kustomization that its configuration generates.
abbrev pub IsProjected : Yaml → ClusterData → ClusterData → Type 0
IsProjected yaml e d =
    (equal_fold e.size "custom" ≡ false) × (e.custom_agent_size_config ≡ none) × (d ≡ e)
    ⊎ (equal_fold e.size "custom" ≡ true)
      × (e.autoscaler_config ≡ none)
      × (cfg : ClusterCustomAgentSizeConfig) × (top : Fields) × (text : String)
      × (e.custom_agent_size_config ≡ some cfg)
      × (custom_kustomization yaml cfg e.kustomization ≡ ok top)
      × (yaml.marshal top ≡ ok text)
      × (d ≡ record e { size = "large"; kustomization = text; custom_agent_size_config = none })

-- What a kustomization must hold.
abbrev pub header_of : String → Option Json
header_of key =
    if key == "apiVersion"
    then some (str "kustomize.config.k8s.io/v1beta1")
    else if key == "kind"
    then some (str "Kustomization")
    else none

-- A map with the missing parts of the header, and else as it was.
abbrev pub IsHeaded : Fields → Fields → Type 0
IsHeaded top m =
    (key : String) → lookup key m ≡ elim (lookup key top) [ some v ↦ some v | none ↦ header_of key ]

lookup-put_if_absent :
    (k key : String) (v : Json) (m : Fields)
    → lookup key (put_if_absent k v m)
      ≡ elim (lookup key m) [ some u ↦ some u | none ↦ if k == key then some v else none ]
lookup-put_if_absent k key v m = ground (arith, lookup-put k key v m, ==_iff k key)

with_header-IsHeaded : (top : Fields) → IsHeaded top (with_header top)
with_header-IsHeaded top key = ground (
  arith,
  lookup-put_if_absent "apiVersion" key (str "kustomize.config.k8s.io/v1beta1") top,
  lookup-put_if_absent "kind" key (str "Kustomization")
      (put_if_absent "apiVersion" (str "kustomize.config.k8s.io/v1beta1") top),
  ==_iff "apiVersion" key,
  ==_iff "kind" key,
  ==_iff key "apiVersion",
  ==_iff key "kind",
)

generated-of-none :
    (yaml : Yaml) (e : ClusterData) (cfg : ClusterCustomAgentSizeConfig)
    → equal_fold e.size "custom" ≡ true
    → e.custom_agent_size_config ≡ some cfg
    → e.autoscaler_config ≡ none
    → (project_custom_cluster_size yaml e).0 ≡ none
    → (top : Fields) × (text : String) × (custom_kustomization yaml cfg e.kustomization ≡ ok top)
      × (yaml.marshal top ≡ ok text)
      × ((project_custom_cluster_size yaml e).1
          ≡ record e { size = "large"; kustomization = text; custom_agent_size_config = none })
unfolding project_custom_cluster_size generate_cluster_custom_size_kustomization
generated-of-none yaml e cfg y c a h =
    elim (Result-cases (custom_kustomization yaml cfg e.kustomization)) [
      | inr (x, k) ↦ absurd (ground (arith, h, y, c, a, k))
      | inl (top, k) ↦ elim (Result-cases (yaml.marshal top)) [
        | inr (x, m) ↦ absurd (ground (arith, h, y, c, a, k, m))
        | inl (text, m) ↦ (top, text, k, m, ground (arith, h, y, c, a, k, m))
      ]
    ]

project_custom_cluster_size-IsProjected :
    (yaml : Yaml) (e : ClusterData)
    → (project_custom_cluster_size yaml e).0 ≡ none
    → IsProjected yaml e (project_custom_cluster_size yaml e).1
unfolding project_custom_cluster_size
project_custom_cluster_size-IsProjected yaml e h = elim (Bool-cases (equal_fold e.size "custom")) [
  | inr n ↦ elim (Option-cases e.custom_agent_size_config) [
    | inl c ↦ inl (n, c, ground (arith, n, c))
    | inr (cfg, c) ↦ absurd (ground (arith, h, n, c))
  ]
  | inl y ↦ elim (Option-cases e.custom_agent_size_config) [
    | inl c ↦ absurd (ground (arith, h, y, c))
    | inr (cfg, c) ↦ elim (Option-cases e.autoscaler_config) [
      | inr (x, a) ↦ absurd (ground (arith, h, y, c, a))
      | inl a ↦
          let (top, text, k, m, g) = generated-of-none yaml e cfg y c a h in
          inr (y, a, cfg, top, text, c, k, m, g)
    ]
  ]
]

module _ {T : Type 0} (cc : ClusterCodec T) where
  -- The document that is sent for a kustomization: none of a blank text or of null, and else the
  -- encoded map with its header.
  abbrev pub IsSent : String → String → Type 0
  IsSent s k =
      ((is_blank s ≡ true) ⊎ (trims_to s "null" ≡ true)) × (k ≡ "")
      ⊎ (raw : String) × (cc.codec.yaml_to_json s ≡ ok raw)
        × ((cc.codec.unmarshal_object raw ≡ ok none) × (k ≡ "")
            ⊎ (top : Fields) × (m : Fields) × (cc.codec.unmarshal_object raw ≡ ok (some top))
              × IsHeaded top m
              × (cc.marshal_object m ≡ ok k))

  encoded_kustomization-IsHeaded :
      (top : Fields) (k : String)
      → encoded_kustomization cc top ≡ ok k
      → cc.marshal_object (with_header top) ≡ ok k
  unfolding encoded_kustomization
  encoded_kustomization-IsHeaded top k h = ground (arith, h)

  cluster_kustomization_raw-IsSent :
      (s k : String) → cluster_kustomization_raw cc s ≡ ok k → IsSent s k
  unfolding cluster_kustomization_raw
  cluster_kustomization_raw-IsSent s k h = elim (Bool-cases (is_blank s)) [
    | inl b ↦ inl (inl b, ground (arith, h, b))
    | inr b ↦ elim (Bool-cases (trims_to s "null")) [
      | inl t ↦ inl (inr t, ground (arith, h, b, t))
      | inr t ↦ elim (Result-cases (cc.codec.yaml_to_json s)) [
        | inr (e, y) ↦ absurd (ground (arith, h, b, t, y))
        | inl (raw, y) ↦ elim (Result-cases (cc.codec.unmarshal_object raw)) [
          | inr (e, u) ↦ absurd (ground (arith, h, b, t, y, u))
          | inl (none, u) ↦ inr (raw, y, inl (u, ground (arith, h, b, t, y, u)))
          | inl (some top, u) ↦
              let sent : (encoded_kustomization cc top ≡ ok k) = ground (arith, h, b, t, y, u) in
              inr (
                raw,
                y,
                inr (
                  top,
                  with_header top,
                  u,
                  with_header-IsHeaded top,
                  encoded_kustomization-IsHeaded top k sent,
                ),
              )
        ]
      ]
    ]
  ]

  -- The text that an export gives for a document; none if there is none.
  abbrev pub rendered : String → String
  rendered k = if k == "" then "" else elim (cc.codec.json_to_yaml k) [ ok s ↦ s | err e ↦ "" ]

  -- What an export gives back of the projected data, with its encoded kustomization.
  abbrev pub image : ClusterData → String → ClusterData
  image d k = record d {
    kustomization = rendered k;
    maintenance_mode = none;
    maintenance_mode_expiry = none;
    custom_agent_size_config = none;
  }

  wire_to_spec-wire_of :
      (id : String) (p : ClusterParameters) (d : ClusterData) (k : String)
      → wire_to_spec cc id p (wire_of cc p d k)
        ≡ with_data (record p { instance_id = id }) (image d k)
  unfolding wire_to_spec wire_of cluster_data_api_to_spec cluster_data_spec_to_api
      time_ptr_to_string_ptr kustomization_raw_to_string
  wire_to_spec-wire_of id p d k = refl

  sized-with_size : (e : ClusterData) → sized cc e ≡ with_size e
  sized-with_size e = ground arith

  pub spec_to_api-steps :
      (id : String) (p : ClusterParameters) (wire : WireCluster T)
      → spec_to_api cc p ≡ ok wire
      → (d : ClusterData) × (k : String) × IsProjected cc.codec.yaml
          (with_size p.cluster_spec.cluster_data)
          d
        × (cluster_kustomization_raw cc d.kustomization ≡ ok k)
        × (wire_to_spec cc id p wire ≡ with_data (record p { instance_id = id }) (image d k))
  unfolding spec_to_api
  spec_to_api-steps id p wire h =
      let q = project_custom_cluster_size cc.codec.yaml (sized cc p.cluster_spec.cluster_data) in
      elim (Option-cases q.0) [
        | inr (e, f) ↦ absurd (ground (arith, h, f))
        | inl n ↦ elim (Result-cases (cluster_kustomization_raw cc q.1.kustomization)) [
          | inr (e, f) ↦ absurd (ground (arith, h, n, f))
          | inl (k, f) ↦
              let same : (wire_of cc p q.1 k ≡ wire) = ground (arith, h, n, f) in
              (
                q.1,
                k,
                subst (λ (e : ClusterData). IsProjected cc.codec.yaml e q.1)
                    (sized-with_size p.cluster_spec.cluster_data)
                    (project_custom_cluster_size-IsProjected cc.codec.yaml
                      (sized cc p.cluster_spec.cluster_data) n),
                f,
                ap (wire_to_spec cc id p) (sym same) ∙ wire_to_spec-wire_of id p q.1 k,
              )
        ]
      ]

  -- What is applied of a cluster and exported unchanged is what was declared, but for its data: a
  -- missing size has become "small" and a size "custom" has become "large", with the kustomization
  -- that its configuration generates; the kustomization is the rendering of the document that it
  -- holds, to which at most an API version and a kind are added; and the maintenance fields do not
  -- cross the wire this way.
  pub spec_to_api-exported :
      (id : String) (p : ClusterParameters) (wire : WireCluster T)
      → spec_to_api cc p ≡ ok wire
      → (d : ClusterData) × (k : String) × IsProjected cc.codec.yaml
          (with_size p.cluster_spec.cluster_data)
          d
        × IsSent d.kustomization k
        × (wire_to_spec cc id p wire ≡ with_data (record p { instance_id = id }) (image d k))
  spec_to_api-exported id p wire h =
      let (d, k, projected, raw, back) = spec_to_api-steps id p wire h in
      (d, k, projected, cluster_kustomization_raw-IsSent d.kustomization k raw, back)
