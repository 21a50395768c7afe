-- ===== src/Gateway/Kargo.antt =====
-- internal/clients/akuity/client.go: the methods on Kargo instances and their agents.
use provider_crossplane_akui.Common.{
  Result, ok, err, if◌then◌else◌, ◌==◌, nonempty, String, ◌<>◌, Option, none, some, List, [], ◌∷◌,
}
use provider_crossplane_akui.Common.Exec.{pure, raise, lift, ◌>>=◌, ◌>>◌, attempt}
use provider_crossplane_akui.Reason.{Error, new, wrap, as_not_found, is_not_found}
use provider_crossplane_akui.Json.{Json}
use provider_crossplane_akui.Gateway.State.{
  unspecified, Agent, Response, body, ApplyRequest, Client, Method, GatewayApi, ask, tell,
  inc_api_write,
}
use provider_crossplane_akui.Gateway.Gets.{
  has_not_found_code, code_of, kargo_required, get_kargo_instance,
}
use provider_crossplane_akui.Gateway.Workspaces.{
  resolve_workspace_id, kargo_workspace_id_for_instance, kargo_workspace_id_for_ref,
  kargo_workspace_id_for_apply,
}
use provider_crossplane_akui.Gateway.Manifests.{
  get_manifests_from_response, retry_attempts, kargo_agent_not_found_or_reconciled_error,
  reconciled_or_raise,
}
use provider_crossplane_akui.Gateway.Argo.{or_wrapped, agent_request, scoped_request, filled}

-- The loop of resolveKargoAgentIDByName: the ID of the first agent with the name. The nil entries,
-- which the loop skips, are left out of the list.
unfoldable pub find_agent_id : String → List Agent → Option String
find_agent_id name [] = none
find_agent_id name (a ∷ as') = if a.name == name then some a.id else find_agent_id name as'

module _ {S T : Type 0} (api : GatewayApi S T) (c : Client) where
  unfoldable pub patch_kargo_instance : String → Json → Method S (Unit {0})
  patch_kargo_instance id patch = do
    kargo_required api c "PatchKargoInstance"
    workspace_id ← kargo_workspace_id_for_instance api c id
    inc_api_write "PatchKargoInstance" id
    e ← tell (api.patch_kargo_instance (scoped_request api c id workspace_id (some patch)))
    or_wrapped api c ("could not patch kargo instance " <> id) e

  -- The workspace of an export.
  unfoldable pub export_workspace_id : String → String → Method S String
  export_workspace_id name workspace_id =
      if nonempty workspace_id then resolve_workspace_id api c workspace_id else do
        r ← attempt (kargo_workspace_id_for_ref api c name)
        elim r [
          | ok id ↦ pure id
          | err e ↦ if is_not_found (some e) then resolve_workspace_id api c "" else raise e
        ]

  -- What export_kargo_instance makes of the gateway's answer.
  unfoldable pub read_kargo_export : String → Result Error Json → Result Error Json
  read_kargo_export name r =
      let prefix = "could not export kargo instance " <> name in
      elim r [
        | ok x ↦ ok x
        | err e ↦
            if has_not_found_code (code_of api c e)
            then err (as_not_found (wrap prefix e))
            else err (wrap prefix e)
      ]

  unfoldable pub export_kargo_instance : String → String → Method S Json
  export_kargo_instance name workspace_id = do
    kargo_required api c "ExportKargoInstance"
    id ← export_workspace_id name workspace_id
    r ← attempt (ask (api.export_kargo_instance (scoped_request api c name id none)))
    lift (read_kargo_export name r)

  unfoldable pub apply_kargo_instance : ApplyRequest → Method S (Unit {0})
  apply_kargo_instance request = do
    kargo_required api c "ApplyKargoInstance"
    let req = filled api c request
    workspace_id ← kargo_workspace_id_for_apply api c req
    inc_api_write "ApplyKargoInstance" req.id
    e ← tell (api.apply_kargo_instance (record req { workspace_id = workspace_id }))
    elim e [ none ↦ pure tt | some x ↦ raise x ]

  unfoldable pub delete_kargo_instance : String → Method S (Unit {0})
  delete_kargo_instance name = do
    kargo_required api c "DeleteKargoInstance"
    i ← get_kargo_instance api c name
    workspace_id ←
        if i.workspace_id == "" then resolve_workspace_id api c "" else pure i.workspace_id
    inc_api_write "DeleteKargoInstance" i.id
    e ← tell (api.delete_kargo_instance (scoped_request api c i.id workspace_id none))
    or_wrapped api c ("could not delete kargo instance " <> name) e

  -- What resolve_kargo_agent_id_by_name makes of the gateway's answer.
  unfoldable pub choose_kargo_agent_id :
      String → String → Result Error (List Agent) → Result Error String
  choose_kargo_agent_id instance_id name r =
      let prefix = "could not list kargo agents on instance " <> instance_id in
      elim r [
        | err e ↦
            if has_not_found_code (code_of api c e)
            then err (as_not_found (wrap prefix e))
            else err (wrap prefix e)
        | ok agents ↦ elim (find_agent_id name agents) [
          | some id ↦ ok id
          | none ↦ err (
              as_not_found
                (new ("kargo agent \"" <> name <> "\" not found on instance " <> instance_id)))
        ]
      ]

  unfoldable pub resolve_kargo_agent_id_by_name : String → String → String → Method S String
  resolve_kargo_agent_id_by_name instance_id name workspace_id = do
    r ← attempt (
        ask (
          api.list_kargo_instance_agents
            (agent_request api c instance_id workspace_id unspecified "")))
    lift (choose_kargo_agent_id instance_id name r)

  -- GetKargoInstanceAgent, once the ID of the agent is known.
  -- What get_kargo_agent_by_id makes of the gateway's answer.
  unfoldable pub read_kargo_agent :
      String → String → String → Result Error (Response Agent) → Result Error Agent
  read_kargo_agent instance_id name id r =
      let prefix =
        "could not get kargo agent " <> instance_id <> "/" <> name <> " (id=" <> id <> ")" in
      elim r [
        | err e ↦
            if has_not_found_code (code_of api c e)
            then err (as_not_found (wrap prefix e))
            else err (wrap prefix e)
        | ok (body a) ↦ ok a
        | ok _ ↦ err (new (prefix <> ": empty response"))
      ]

  unfoldable pub get_kargo_agent_by_id : String → String → String → String → Method S Agent
  get_kargo_agent_by_id instance_id name workspace_id id = do
    r ← attempt (
        ask (
          api.get_kargo_instance_agent
            (agent_request api c instance_id workspace_id unspecified id)))
    lift (read_kargo_agent instance_id name id r)

  unfoldable pub get_kargo_instance_agent : String → String → Method S Agent
  get_kargo_instance_agent instance_id name = do
    kargo_required api c "GetKargoInstanceAgent"
    workspace_id ← kargo_workspace_id_for_instance api c instance_id
    id ← resolve_kargo_agent_id_by_name instance_id name workspace_id
    get_kargo_agent_by_id instance_id name workspace_id id

  -- The stream of an agent's manifests.
  unfoldable pub kargo_agent_manifests : String → String → Method S String
  kargo_agent_manifests instance_id id = do
    workspace_id ← kargo_workspace_id_for_instance api c instance_id
    r ← attempt (
        ask (
          api.get_kargo_instance_agent_manifests
            (agent_request api c instance_id workspace_id unspecified id)))
    elim r [
      | err e ↦ raise (wrap "could not get kargo agent manifests" e)
      | ok stream ↦ lift (get_manifests_from_response "" stream)
    ]

  unfoldable pub get_kargo_instance_agent_manifests_once : String → String → Method S String
  get_kargo_instance_agent_manifests_once instance_id id = do
    kargo_required api c "GetKargoInstanceAgentManifestsOnce"
    kargo_agent_manifests instance_id id

  unfoldable pub check_kargo_agent_reconciled : String → String → Method S Agent
  check_kargo_agent_reconciled instance_id name =
      api.do_with_data retry_attempts (kargo_agent_not_found_or_reconciled_error api.errors)
        (reconciled_or_raise "kargo agent" (get_kargo_instance_agent instance_id name))

  unfoldable pub get_kargo_instance_agent_manifests : String → String → Method S String
  get_kargo_instance_agent_manifests instance_id name = do
    kargo_required api c "GetKargoInstanceAgentManifests"
    a ← check_kargo_agent_reconciled instance_id name
    kargo_agent_manifests instance_id a.id

  unfoldable pub delete_kargo_instance_agent : String → String → Method S (Unit {0})
  delete_kargo_instance_agent instance_id name = do
    kargo_required api c "DeleteKargoInstanceAgent"
    a ← get_kargo_instance_agent instance_id name
    workspace_id ← kargo_workspace_id_for_instance api c instance_id
    inc_api_write "DeleteKargoInstanceAgent" (instance_id <> "/" <> a.id)
    e ←
        tell (
          api.delete_instance_agent (agent_request api c instance_id workspace_id unspecified a.id))
    or_wrapped api c ("could not delete kargo agent " <> instance_id <> "/" <> name) e
