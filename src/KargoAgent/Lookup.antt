-- ===== src/KargoAgent/Lookup.antt =====
-- internal/controller/kargoagent/kargoagent.go: the owning Kargo instance, its workspace, the
-- exported agent, and the guard.
use provider_crossplane_akui.Common.{
  Result, ok, err, if◌then◌else◌, ◌==◌, nonempty, String, ◌<>◌, Option, none, some, List, [], ◌∷◌,
}
use provider_crossplane_akui.Common.Exec.{Exec, pure, raise, lift, ◌>>=◌, attempt}
use provider_crossplane_akui.Reason.{Error, new, wrap, text}
use provider_crossplane_akui.Managed.{Meta}
use provider_crossplane_akui.Guard.{
  TerminalWriteKey, message, value, new_terminal_write_key, Guard, Suppression,
}
use provider_crossplane_akui.Base.{
  not_suppressed, suppress_terminal_write, clear_terminal_write, has_terminal_write_resource,
  skip_terminal_write_guard,
}
use provider_crossplane_akui.Json.{Json, str}
use provider_crossplane_akui.Kube.{target_fingerprint}
use provider_crossplane_akui.KargoAgent.State.{KargoAgentParameters}
use provider_crossplane_akui.KargoAgent.Convert.{build_apply_kargo_instance_request, wire_to_spec}
use provider_crossplane_akui.KargoAgent.World.{
  KargoAgentResource, KargoParent, AgentApi, kargo_agent_gvk,
}

abbrev unset_text : String
unset_text =
    "one of spec.forProvider.kargoInstanceId or spec.forProvider.kargoInstanceRef must be set"

abbrev pub or_else_text : String → String → String
or_else_text a b = if nonempty a then a else b

module _ {W Tm C : Type 0} (api : AgentApi W Tm C) where
  -- The workspace of the KargoInstance that a reference names.
  unfoldable pub resolve_workspace_from_parent : KargoAgentResource → String
  resolve_workspace_from_parent mg = elim mg.for_provider.kargo_instance_ref [
    | none ↦ ""
    | some name ↦ if name == "" then "" else elim (api.kube_parent mg.meta.namespace name) [
      | err e ↦ ""
      | ok parent ↦ or_else_text parent.workspace parent.at_workspace
    ]
  ]

  -- The lookup by the API of an instance that has not reported its ID.
  unfoldable pub instance_id_of_parent : KargoParent → Exec Error W String
  instance_id_of_parent parent = if nonempty parent.at_id then pure parent.at_id else do
    r ← attempt (api.client.get_instance_id parent.name)
    elim r [
      | ok id ↦ pure id
      | err e ↦
          raise (wrap ("could not resolve KargoInstance \"" <> parent.name <> "\" on Akuity API") e)
    ]

  unfoldable pub resolve_kargo_instance_id : KargoAgentResource → Exec Error W String
  resolve_kargo_instance_id mg =
      if nonempty mg.for_provider.kargo_instance_id
      then pure mg.for_provider.kargo_instance_id
      else elim mg.for_provider.kargo_instance_ref [
        | none ↦ raise (new unset_text)
        | some name ↦
            if name == ""
            then raise (new unset_text)
            else elim (api.kube_parent mg.meta.namespace name) [
              | err e ↦ raise (
                  wrap ("could not resolve KargoInstanceRef " <> mg.meta.namespace <> "/" <> name)
                    e)
              | ok parent ↦ instance_id_of_parent parent
            ]
      ]

  -- The workspace that the user pinned, or the parent's.
  unfoldable pub workspace_of : KargoAgentResource → String
  workspace_of mg = or_else_text mg.for_provider.workspace (resolve_workspace_from_parent mg)

  -- kargoAgentTerminalWriteKey
  unfoldable pub kargo_agent_write_key : Meta → KargoAgentParameters → Result Error TerminalWriteKey
  kargo_agent_write_key mg fp =
      let target = value "string" (api.encode (str (target_fingerprint api.config fp.target))) in
      elim (build_apply_kargo_instance_request api.codec api.marshal fp.kargo_instance_id fp) [
        | err e ↦ new_terminal_write_key api.sum mg kargo_agent_gvk (
            value "string" (api.encode (str "build-error"))
            ∷ value "v1alpha1.KargoAgentParameters" (api.encode_parameters fp)
            ∷ target
            ∷ value "string" (api.encode (str (text e)))
            ∷ [])
        | ok req ↦
            new_terminal_write_key api.sum mg kargo_agent_gvk
              (message "*kargov1.ApplyKargoInstanceRequest" (api.encode_request req) ∷ target ∷ [])
      ]

  unfoldable pub suppress_agent : Guard → Meta → KargoAgentParameters → Suppression
  suppress_agent g mg fp = elim g [
    | none ↦ not_suppressed none mg
    | some m ↦ elim (kargo_agent_write_key mg fp) [
      | err e ↦ skip_terminal_write_guard (some m) mg
      | ok key ↦ suppress_terminal_write (some m) mg key
    ]
  ]

  unfoldable pub clear_agent : Guard → Meta → KargoAgentParameters → Guard
  clear_agent g mg fp =
      if has_terminal_write_resource g mg kargo_agent_gvk
      then elim (kargo_agent_write_key mg fp) [ err e ↦ g | ok key ↦ clear_terminal_write g key ]
      else g

  -- The loop of exportedAgentSpec over the agents of an export.
  unfoldable pub find_exported :
      KargoAgentParameters → List (Option Json) → Result Error (Option KargoAgentParameters)
  find_exported fp [] = ok none
  find_exported fp (none ∷ es) = find_exported fp es
  find_exported fp (some e ∷ es) =
      let rest = find_exported fp es in
      elim (api.marshal_entry e) [
        | err x ↦ err (wrap "encode exported agent" x)
        | ok raw ↦ elim (api.unmarshal_wire raw) [
          | err x ↦ err (wrap "decode exported agent" x)
          | ok wire ↦
              if wire.name == fp.name then ok (some (wire_to_spec api.codec fp wire)) else rest
        ]
      ]

  -- An export that fails is as one that does not have the agent.
  unfoldable pub exported_agent_spec :
      KargoAgentResource → String → Exec Error W (Option KargoAgentParameters)
  exported_agent_spec mg instance_id = do
    r ← attempt (api.client.export_agents instance_id (workspace_of mg))
    elim r [ err e ↦ pure none | ok es ↦ lift (find_exported mg.for_provider es) ]
