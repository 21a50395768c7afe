-- ===== src/Cluster/Lookup.antt =====
-- internal/controller/cluster/cluster.go: the ID of the instance, the exported cluster, and the
-- guard.
use provider_crossplane_akui.Common.{
  Result, ok, err, map_err, if◌then◌else◌, ◌==◌, nonempty, String, ◌<>◌, Option, none, some, List,
  [], ◌∷◌,
}
use provider_crossplane_akui.Reason.{Error, new, wrap}
use provider_crossplane_akui.Guard.{Guard, Suppression}
use provider_crossplane_akui.Base.{
  not_suppressed, suppress_terminal_write, clear_terminal_write, has_terminal_write_resource,
  skip_terminal_write_guard,
}
use provider_crossplane_akui.Json.{Json}
use provider_crossplane_akui.Cluster.{
  ClusterParameters, ClusterResource, ClusterApi, cluster_gvk, cluster_write_key,
}
use provider_crossplane_akui.Cluster.Convert.{wire_to_spec}

module _ {S T C : Type 0} (api : ClusterApi S T C) where
  -- getInstanceID
  unfoldable pub get_instance_id : S → ClusterParameters → Result Error String × S
  get_instance_id s p =
      if nonempty p.instance_id then (ok p.instance_id, s) else elim p.instance_ref [
        | none ↦ (err (new "one of InstanceID or InstanceRef must be provided"), s)
        | some name ↦
            if name == ""
            then (err (new "one of InstanceID or InstanceRef must be provided"), s)
            else elim (api.kube_instance name) [
              | err e ↦ (err (wrap ("could not look up instance with instanceRef " <> name) e), s)
              | ok n ↦
                  let (r, s') = api.get_instance_id s n in
                  (map_err (wrap ("could not look up instance with instanceRef " <> name)) r, s')
            ]
      ]

  unfoldable pub suppress_cluster : Guard → ClusterResource → Suppression
  suppress_cluster g mg = elim g [
    | none ↦ not_suppressed none mg.meta
    | some m ↦ elim (cluster_write_key api mg) [
      | err e ↦ skip_terminal_write_guard (some m) mg.meta
      | ok key ↦ suppress_terminal_write (some m) mg.meta key
    ]
  ]

  unfoldable pub clear_cluster : Guard → ClusterResource → Guard
  clear_cluster g mg =
      if has_terminal_write_resource g mg.meta cluster_gvk
      then elim (cluster_write_key api mg) [ err e ↦ g | ok key ↦ clear_terminal_write g key ]
      else g

  -- The loop of exportedClusterSpec over the clusters of an export.
  unfoldable pub find_exported :
      String
      → String
      → ClusterParameters
      → List (Option Json)
      → Result Error (Option ClusterParameters)
  find_exported instance_id name p [] = ok none
  find_exported instance_id name p (none ∷ es) = find_exported instance_id name p es
  find_exported instance_id name p (some e ∷ es) =
      let rest = find_exported instance_id name p es in
      elim (api.marshal_entry e) [
        | err x ↦ err (wrap "encode exported cluster" x)
        | ok raw ↦ elim (api.unmarshal_wire raw) [
          | err x ↦ err (wrap "decode exported cluster" x)
          | ok wire ↦
              if wire.name == name
              then ok (some (wire_to_spec api.codecs instance_id p wire))
              else rest
        ]
      ]

  -- An export that fails is as one that does not have the cluster.
  unfoldable pub exported_cluster_spec :
      S → String → String → ClusterParameters → Result Error (Option ClusterParameters) × S
  exported_cluster_spec s instance_id name p =
      let (r, s') = api.export_clusters s instance_id in
      elim r [ err e ↦ (ok none, s') | ok es ↦ (find_exported instance_id name p es, s') ]
