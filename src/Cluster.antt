-- ===== src/Cluster.antt =====
-- internal/controller/cluster/cluster.go: Create and Update of the controller of Argo CD clusters,
-- with the roll back of a Create that fails half way, and the maintenance mode. The gateway's
-- client, the application of manifests to a target and the codecs are the parameter `ClusterApi`;
-- one state holds the platform and the target cluster.
mod State
mod Kustomization
mod Convert
mod Normalize
mod Observation
mod Lookup
mod Observe
mod Refused
mod Forgotten
mod RoundTrip
mod Idempotent
mod Late
mod Entries
mod Rendered
mod Absorbed
mod NoDrift
mod Rollback
mod Maintenance
mod Delete
mod Removal
pub mod Tests
mod ObserveTests
mod DriftTests
use provider_crossplane_akui.Common.{
  Result, ok, err, if◌then◌else◌, ◌==◌, is_none, ◌*◌, String, ◌⊎◌, inl, inr, Bool, true, false, not,
  ◌&&◌, Option, none, some, [], ◌∷◌,
}
use provider_crossplane_akui.Reason.{
  Error, wrap, Err, text, as_terminal, classify_apply_error, classify_manifest_install_error,
}
use provider_crossplane_akui.Managed.{propagate_observed_generation}
use provider_crossplane_akui.Guard.{TerminalWriteKey, message, value, new_terminal_write_key}
use provider_crossplane_akui.Base.{
  record_terminal_write, clear_terminal_write, clear_terminal_write_resource,
}
use provider_crossplane_akui.Json.{str}
use provider_crossplane_akui.ClusterTypes.{ClusterData}
use provider_crossplane_akui.Kube.{has_kube_config, target_fingerprint}
use provider_crossplane_akui.Cluster.Convert.{build_apply_instance_request}
unfoldable pub use State.*

module _ {S T C : Type 0} (api : ClusterApi S T C) where
  unfoldable pub cluster_write_key : ClusterResource → Result Error TerminalWriteKey
  cluster_write_key mg =
      let target =
        value "string" (api.encode (str (target_fingerprint api.config mg.for_provider.target))) in
      elim (build_apply_instance_request api.codecs mg.for_provider.instance_id mg.for_provider) [
        | err e ↦ new_terminal_write_key api.sum mg.meta cluster_gvk (
            value "string" (api.encode (str "build-error"))
            ∷ value "v1alpha1.ClusterParameters" (api.encode_parameters mg.for_provider)
            ∷ target
            ∷ value "string" (api.encode (str (text e)))
            ∷ [])
        | ok req ↦
            new_terminal_write_key api.sum mg.meta cluster_gvk
              (message "*argocdv1.ApplyInstanceRequest" (api.encode_request req) ∷ target ∷ [])
      ]

  -- The expiry that the user set, if it is not empty.
  abbrev parsed_expiry : Option String → Result Error (Option T)
  parsed_expiry none = ok none
  parsed_expiry (some s) = if s == "" then ok none else elim (api.codecs.codec.parse_time s) [
    | ok t ↦ ok (some t)
    | err e ↦ err (
        as_terminal
          (wrap "could not parse spec.forProvider.data.maintenanceModeExpiry as RFC3339" e))
  ]

  unfoldable pub maintenance_mode_already_applied : ClusterData → Bool → Option T → Bool
  maintenance_mode_already_applied observed mode expiry = elim observed.maintenance_mode [
    | none ↦ false
    | some m ↦
        if same_mode m mode
        then elim expiry [
          | none ↦ is_none observed.maintenance_mode_expiry
          | some t ↦ elim observed.maintenance_mode_expiry [
            | none ↦ false
            | some s ↦ elim (api.codecs.codec.parse_time s) [
              | err e ↦ false
              | ok u ↦ api.same_time u t
            ]
          ]
        ]
        else false
  ]

  unfoldable pub sync_maintenance_mode : S → ClusterResource → Err × S
  sync_maintenance_mode s mg =
      let d = mg.for_provider.cluster_spec.cluster_data in
      let mode = or_false d.maintenance_mode in
      if is_none d.maintenance_mode && is_none d.maintenance_mode_expiry
      then (none, s)
      else elim (parsed_expiry d.maintenance_mode_expiry) [
        | err e ↦ (some e, s)
        | ok expiry ↦
            if maintenance_mode_already_applied mg.at_provider.at_cluster_spec.cluster_data mode
              expiry
            then (none, s)
            else api.set_maintenance_mode s mg.for_provider.instance_id mg.for_provider.name mode
                expiry
      ]

  -- What a failed write returns, with the guard's record of it.
  abbrev pub failed : ClusterWorld S → TerminalWriteKey → Err → Err × ClusterWorld S
  failed w key e = let (g, e') = record_terminal_write w.guard key e in (e', record w { guard = g })

  abbrev pub removes_resources : ClusterResource → Bool
  removes_resources mg =
      mg.for_provider.remove_agent_resources_on_destroy && has_kube_config mg.for_provider.target

  -- rollbackCreatedCluster: the state once the manifests are stripped, as far as that works, and
  -- the whole of it. Its errors are only logged.
  unfoldable pub strip_manifests : S → ClusterResource → S
  strip_manifests s mg =
      let (r, s₁) = api.get_cluster_manifests s mg.for_provider.instance_id mg.for_provider.name in
      let stripped : S = elim r [
        | err e ↦ s₁
        | ok manifests ↦ (api.apply_manifests_to_target s₁ mg.for_provider.target manifests true).1
      ] in
      if removes_resources mg then stripped else s

  unfoldable pub rollback : S → ClusterResource → S
  rollback s mg =
      (api.delete_cluster (strip_manifests s mg) mg.for_provider.instance_id mg.for_provider.name).1

  abbrev pub rolled_back : ClusterWorld S → ClusterWorld S
  rolled_back w = record w { remote = rollback w.remote w.mg }

  abbrev pub named : ClusterWorld S → ClusterWorld S
  named w = record w {
    mg = record (w.mg) { meta = record (w.mg.meta) { external_name = w.mg.for_provider.name } };
  }

  -- The installation of the agent's manifests.
  unfoldable pub install_manifests : ClusterWorld S → TerminalWriteKey → Err × ClusterWorld S
  install_manifests w key =
      let (r, s) =
        api.get_cluster_manifests w.remote w.mg.for_provider.instance_id w.mg.for_provider.name in
      let w₁ : ClusterWorld S = record w { remote = s } in
      elim r [
        | err e ↦ failed (rolled_back w₁) key (
            classify_manifest_install_error api.errors
              (some (wrap "could not get cluster manifests to apply" e)))
        | ok manifests ↦
            let (e, s') =
              api.apply_manifests_to_target s w.mg.for_provider.target manifests false in
            let w₂ : ClusterWorld S = record w { remote = s' } in
            elim e [
              | some x ↦ failed (rolled_back w₂) key (
                  classify_manifest_install_error api.errors
                    (some (wrap "could not apply cluster manifests" x)))
              | none ↦ (none, named w₂)
            ]
      ]

  -- The end of Create.
  unfoldable pub install : ClusterWorld S → TerminalWriteKey → Err × ClusterWorld S
  install w key =
      if has_kube_config w.mg.for_provider.target then install_manifests w key else (none, named w)

  -- Create after the platform has the row.
  unfoldable pub finish_create : ClusterWorld S → TerminalWriteKey → Err × ClusterWorld S
  finish_create w key =
      let (e, s) = sync_maintenance_mode w.remote w.mg in
      let w₁ : ClusterWorld S = record w { remote = s } in
      elim e [
        | some x ↦ failed (rolled_back w₁) key (classify_apply_error api.errors (some x))
        | none ↦ install (record w₁ { guard = clear_terminal_write w.guard key }) key
      ]

  -- ApplyInstance, for Create and Update: a failure, or the world that has the row.
  unfoldable pub stamp : ClusterWorld S → TerminalWriteKey → (Err × ClusterWorld S) ⊎ ClusterWorld S
  stamp w key =
      elim (build_apply_instance_request api.codecs w.mg.for_provider.instance_id
        w.mg.for_provider) [
          | err e ↦ inl (
              failed w key (
                classify_apply_error api.errors
                  (some (wrap "cannot transform cluster to Akuity API model" e))))
          | ok req ↦
              let (e, s) = api.apply_instance w.remote req in
              let w₁ : ClusterWorld S = record w { remote = s } in
              elim e [
                | some x ↦ inl (failed w₁ key (classify_apply_error api.errors (some x)))
                | none ↦ inr w₁
              ]
        ]

  abbrev pub propagated : ClusterWorld S → ClusterWorld S
  propagated w = record w { mg = record (w.mg) { meta = propagate_observed_generation w.mg.meta } }

  unfoldable pub try_create : ClusterWorld S → Err × ClusterWorld S
  try_create w = elim (cluster_write_key w.mg) [
    | err e ↦ (some e, w)
    | ok key ↦ elim (stamp w key) [ inl r ↦ r | inr w₁ ↦ finish_create w₁ key ]
  ]

  unfoldable pub create_cluster : ClusterWorld S → Err × ClusterWorld S
  create_cluster w = let (e, w') = try_create w in (e, propagated w')

  unfoldable try_update : ClusterWorld S → Err × ClusterWorld S
  try_update w = elim (cluster_write_key w.mg) [
    | err e ↦ (some e, w)
    | ok key ↦ elim (stamp w key) [
      | inl r ↦ r
      | inr w₁ ↦
          let (e, s) = sync_maintenance_mode w₁.remote w₁.mg in
          let w₂ : ClusterWorld S = record w₁ { remote = s } in
          elim e [
            | some x ↦ failed w₂ key (classify_apply_error api.errors (some x))
            | none ↦ (none, record w₂ { guard = clear_terminal_write w₂.guard key })
          ]
    ]
  ]

  unfoldable update_cluster : ClusterWorld S → Err × ClusterWorld S
  update_cluster w = let (e, w') = try_update w in (e, propagated w')
