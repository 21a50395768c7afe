-- ===== src/KargoAgent/Write.antt =====
-- internal/controller/kargoagent/kargoagent.go: Create with its roll back, Update and Delete.
use provider_crossplane_akui.Common.{
  Result, ok, err, if◌then◌else◌, ◌==◌, String, ◌<>◌, Bool, true, false, ◌&&◌, none, some,
}
use provider_crossplane_akui.Common.Exec.{Exec, pure, raise, lift, ◌>>=◌, ◌>>◌, attempt}
use provider_crossplane_akui.Common.Text.{contains_lower}
use provider_crossplane_akui.Reason.{
  Error, wrap, Err, text, as_retryable, classify_apply_error, classify_manifest_install_error,
}
use provider_crossplane_akui.Guard.{TerminalWriteKey}
use provider_crossplane_akui.Base.{
  record_terminal_write, clear_terminal_write, clear_terminal_write_resource,
}
use provider_crossplane_akui.Kube.{has_kube_config}
use provider_crossplane_akui.KargoAgent.State.{KargoAgentParameters}
use provider_crossplane_akui.KargoAgent.Convert.{build_apply_kargo_instance_request}
use provider_crossplane_akui.KargoAgent.World.{
  KargoAgentResource, AgentApi, AgentWorld, kargo_agent_gvk,
}
use provider_crossplane_akui.KargoAgent.Lookup.{
  resolve_kargo_instance_id, workspace_of, kargo_agent_write_key,
}
use provider_crossplane_akui.KargoAgent.Observe.{with_meta, with_instance_id, propagated}

abbrev pub apply_verb : Bool → String
apply_verb true = "delete"
apply_verb false = "apply"

-- isConnectedAgentDeleteError, of an error that is not nil.
unfoldable pub is_connected_agent_delete_error : Error → Bool
is_connected_agent_delete_error e =
    contains_lower (text e) "connected" && contains_lower (text e) "agent"

module _ {W Tm C : Type 0} (api : AgentApi W Tm C) where
  -- What a failed write returns, with the guard's record of it.
  abbrev pub failed : AgentWorld W → TerminalWriteKey → Err → Err × AgentWorld W
  failed w key e = let (g, e') = record_terminal_write w.guard key e in (e', record w { guard = g })

  -- The call of `apply`, once it has its key.
  unfoldable pub send_agent : AgentWorld W → TerminalWriteKey → Err × AgentWorld W
  send_agent w key =
      let fp = w.mg.for_provider in
      elim (build_apply_kargo_instance_request api.codec api.marshal fp.kargo_instance_id fp) [
        | err e ↦ failed w key (classify_apply_error api.errors (some e))
        | ok req ↦
            let (r, s) = api.client.apply req w.remote in
            let w' : AgentWorld W = record w { remote = s } in
            elim r [
              | err e ↦ failed w' key (classify_apply_error api.errors (some e))
              | ok u ↦ (none, record w' { guard = clear_terminal_write w.guard key })
            ]
      ]

  -- The parameters that `apply` fills in.
  abbrev pub filled_in : KargoAgentResource → String → KargoAgentResource
  filled_in mg id =
      let m = with_instance_id api mg id in
      record m { for_provider = record (m.for_provider) { workspace = workspace_of api m } }

  unfoldable pub apply : AgentWorld W → Err × AgentWorld W
  apply w =
      let (r, s) = resolve_kargo_instance_id api w.mg w.remote in
      elim r [
        | err e ↦ (some e, record w { remote = s })
        | ok id ↦
            let w' : AgentWorld W = record w { remote = s; mg = filled_in w.mg id } in
            elim (kargo_agent_write_key api w'.mg.meta w'.mg.for_provider) [
              | err e ↦ (some e, w')
              | ok key ↦ send_agent w' key
            ]
      ]

  unfoldable pub install_agent_manifests : KargoAgentParameters → Bool → Exec Error W (Unit {0})
  install_agent_manifests fp delete = do
    r ← attempt (api.client.get_manifests fp.kargo_instance_id fp.name)
    manifests ← lift (elim r [
      | ok m ↦ ok m
      | err e ↦ err (wrap ("could not get kargo agent manifests to " <> apply_verb delete) e)
    ])
    a ← attempt (api.apply_manifests_to_target fp.target manifests delete)
    elim a [
      | ok u ↦ pure tt
      | err e ↦ raise (wrap ("could not " <> apply_verb delete <> " kargo agent manifests") e)
    ]

  abbrev pub removes_resources : KargoAgentParameters → Bool
  removes_resources fp = fp.remove_agent_resources_on_destroy && has_kube_config fp.target

  -- rollbackCreatedAgent, whose errors are only logged.
  unfoldable pub strip_agent_manifests : KargoAgentParameters → W → W
  strip_agent_manifests fp s =
      if removes_resources fp then (install_agent_manifests fp true s).1 else s

  unfoldable pub rollback_created_agent : KargoAgentParameters → W → W
  rollback_created_agent fp s =
      (api.client.delete_agent fp.kargo_instance_id fp.name (strip_agent_manifests fp s)).1

  abbrev pub rolled_back : AgentWorld W → AgentWorld W
  rolled_back w = record w { remote = rollback_created_agent w.mg.for_provider w.remote }

  abbrev pub named : AgentWorld W → AgentWorld W
  named w = with_meta api w (λ m. record m { external_name = w.mg.for_provider.name })

  -- The end of a Create that cannot install the manifests.
  unfoldable pub refuse_install : AgentWorld W → Error → Err × AgentWorld W
  refuse_install w e = elim (kargo_agent_write_key api w.mg.meta w.mg.for_provider) [
    | err k ↦ (some e, w)
    | ok key ↦ failed w key (classify_manifest_install_error api.errors (some e))
  ]

  -- The installation of the agent's manifests.
  unfoldable pub install_created : AgentWorld W → Err × AgentWorld W
  install_created w =
      let (r, s) = install_agent_manifests w.mg.for_provider false w.remote in
      let w' : AgentWorld W = record w { remote = s } in
      elim r [ ok u ↦ (none, named w') | err e ↦ refuse_install (rolled_back w') e ]

  -- Create after the platform has the row.
  unfoldable pub finish_create : AgentWorld W → Err × AgentWorld W
  finish_create w =
      if has_kube_config w.mg.for_provider.target then install_created w else (none, named w)

  unfoldable pub try_create_agent : AgentWorld W → Err × AgentWorld W
  try_create_agent w =
      let (e, w') = apply w in elim e [ some x ↦ (some x, w') | none ↦ finish_create w' ]

  unfoldable pub create_kargo_agent : AgentWorld W → Err × AgentWorld W
  create_kargo_agent w = let (e, w') = try_create_agent w in (e, propagated api w')

  unfoldable pub update_kargo_agent : AgentWorld W → Err × AgentWorld W
  update_kargo_agent w = let (e, w') = apply w in (e, propagated api w')

  unfoldable pub remove_resources : KargoAgentParameters → Exec Error W (Unit {0})
  remove_resources fp = if removes_resources fp then install_agent_manifests fp true else pure tt

  -- The deletion of the row.
  unfoldable pub delete_row : String → String → Exec Error W (Unit {0})
  delete_row id name = do
    r ← attempt (api.client.delete_agent id name)
    elim r [
      | ok u ↦ pure tt
      | err e ↦ if is_connected_agent_delete_error e then raise (as_retryable e) else raise e
    ]

  -- Delete on the platform and the target: the ID is not stored, so the manifests are those of
  -- the ID in the parameters.
  unfoldable pub remove_agent : KargoAgentResource → Exec Error W (Unit {0})
  remove_agent mg = if mg.meta.external_name == "" then pure tt else do
    id ← resolve_kargo_instance_id api mg
    remove_resources mg.for_provider
    delete_row id mg.meta.external_name

  abbrev pub err_of : Result Error (Unit {0}) → Err
  err_of (ok u) = none
  err_of (err e) = some e

  unfoldable pub delete_kargo_agent : AgentWorld W → Err × AgentWorld W
  delete_kargo_agent w =
      let (r, s) = remove_agent w.mg w.remote in
      (
        err_of r,
        propagated api (record w {
          remote = s;
          guard = clear_terminal_write_resource w.guard w.mg.meta kargo_agent_gvk;
        }),
      )
