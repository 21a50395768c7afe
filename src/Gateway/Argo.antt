-- ===== src/Gateway/Argo.antt =====
-- internal/clients/akuity/client.go: the methods on Argo CD instances and their clusters.
use provider_crossplane_akui.Common.{
  Result, ok, err, if◌then◌else◌, ◌==◌, String, ◌<>◌, Bool, Option, none, some, [], ◌∷◌,
}
use provider_crossplane_akui.Common.Exec.{pure, raise, lift, ◌>>=◌, ◌>>◌, attempt}
use provider_crossplane_akui.Reason.{Error, new, wrap, Err, as_not_found}
use provider_crossplane_akui.Json.{Json}
use provider_crossplane_akui.Gateway.State.{
  IdType, unspecified, by_name, Agent, Response, no_response, no_body, body, InstanceRequest,
  AgentRequest, MaintenanceRequest, ApplyRequest, ScopedRequest, Client, Method, GatewayApi, ask,
  tell, inc_api_write,
}
use provider_crossplane_akui.Gateway.Gets.{
  has_not_found_code, has_missing_code, code_of, get_instance,
}
use provider_crossplane_akui.Gateway.Workspaces.{
  resolve_workspace_id, argo_workspace_id_for_instance, argo_workspace_id_for_apply,
}
use provider_crossplane_akui.Gateway.Manifests.{
  get_manifests_from_response, retry_attempts, cluster_not_found_or_reconciled_error,
  reconciled_or_raise,
}

module _ {S T : Type 0} (api : GatewayApi S T) (c : Client) where
  -- The end of a method that returns only an error: the error of a call, with its prefix.
  abbrev pub or_wrapped : String → Err → Method S (Unit {0})
  or_wrapped prefix none = pure tt
  or_wrapped prefix (some e) = raise (wrap prefix e)

  abbrev pub agent_request : String → String → IdType → String → AgentRequest
  agent_request instance_id workspace_id id_type id = record {
    organization_id = c.organization_id;
    instance_id = instance_id;
    workspace_id = workspace_id;
    id_type = id_type;
    id = id;
  }

  abbrev pub scoped_request : String → String → Option Json → ScopedRequest
  scoped_request id workspace_id patch = record {
    organization_id = c.organization_id;
    id = id;
    workspace_id = workspace_id;
    patch = patch;
  }

  -- What get_cluster makes of the gateway's answer.
  unfoldable pub read_cluster : String → Result Error (Response Agent) → Result Error Agent
  read_cluster name r =
      let prefix = "could not get cluster " <> name <> " from Akuity API" in
      elim r [
        | err e ↦
            if has_missing_code (code_of api c e)
            then err (as_not_found (wrap prefix e))
            else err (wrap (prefix <> ", error") e)
        | ok no_response ↦ err (new (prefix <> ", response was empty"))
        | ok no_body ↦ err (new (prefix <> ", cluster is response was empty"))
        | ok (body a) ↦ ok a
      ]

  unfoldable pub get_cluster : String → String → Method S Agent
  get_cluster instance_id name = do
    workspace_id ← argo_workspace_id_for_instance api c instance_id
    r ←
        attempt
          (ask (api.get_instance_cluster (agent_request instance_id workspace_id by_name name)))
    lift (read_cluster name r)

  unfoldable pub get_cluster_manifests_once : String → String → Method S String
  get_cluster_manifests_once instance_id cluster_id = do
    workspace_id ← argo_workspace_id_for_instance api c instance_id
    r ← attempt (
        ask (
          api.get_instance_cluster_manifests
            (agent_request instance_id workspace_id unspecified cluster_id)))
    elim r [
      | err e ↦ raise (wrap "could not get cluster manifests from Akuity API, error" e)
      | ok stream ↦ lift (get_manifests_from_response "" stream)
    ]

  unfoldable pub check_cluster_reconciled : String → String → Method S Agent
  check_cluster_reconciled instance_id name =
      api.do_with_data retry_attempts cluster_not_found_or_reconciled_error
        (reconciled_or_raise "cluster" (get_cluster instance_id name))

  unfoldable pub get_cluster_manifests : String → String → Method S String
  get_cluster_manifests instance_id name = do
    a ← check_cluster_reconciled instance_id name
    get_cluster_manifests_once instance_id a.id

  unfoldable pub delete_cluster : String → String → Method S (Unit {0})
  delete_cluster instance_id name = do
    r ← attempt (get_cluster instance_id name)
    a ← lift (elim r [
      | err e ↦ err (wrap ("could not get cluster " <> name <> " to delete, err") e)
      | ok a ↦ ok a
    ])
    workspace_id ← argo_workspace_id_for_instance api c instance_id
    inc_api_write "DeleteCluster" (instance_id <> "/" <> a.id)
    e ← tell (api.delete_instance_cluster (agent_request instance_id workspace_id unspecified a.id))
    or_wrapped ("could not delete cluster " <> name <> " using Akuity API, error") e

  unfoldable pub set_cluster_maintenance_mode :
      String → String → Bool → Option T → Method S (Unit {0})
  set_cluster_maintenance_mode instance_id name mode expiry = do
    workspace_id ← argo_workspace_id_for_instance api c instance_id
    let request : MaintenanceRequest T = record {
      organization_id = c.organization_id;
      instance_id = instance_id;
      workspace_id = workspace_id;
      cluster_names = name ∷ [];
      mode = mode;
      expiry = expiry;
    }
    inc_api_write "SetClusterMaintenanceMode" (instance_id <> "/" <> name)
    e ← tell (api.set_cluster_maintenance_mode request)
    or_wrapped ("could not set maintenance mode for cluster " <> instance_id <> "/" <> name) e

  unfoldable pub patch_instance : String → Json → Method S (Unit {0})
  patch_instance id patch = do
    workspace_id ← argo_workspace_id_for_instance api c id
    inc_api_write "PatchInstance" id
    e ← tell (api.patch_instance (scoped_request id workspace_id (some patch)))
    or_wrapped ("could not patch instance " <> id <> " using Akuity API, error") e

  -- exportInstance, and with its two ways to name the instance ExportInstance and
  -- ExportInstanceByID.
  -- What export_instance makes of the gateway's answer.
  unfoldable pub read_export : String → Result Error (Option Json) → Result Error Json
  read_export id r =
      let prefix = "could not export instance " <> id <> " from Akuity API, " in
      elim r [
        | err e ↦
            if has_not_found_code (code_of api c e)
            then err (as_not_found (new (prefix <> "instance was not found")))
            else err (wrap (prefix <> "error") e)
        | ok (some x) ↦ ok x
        | ok none ↦ err (new (prefix <> "response was empty"))
      ]

  unfoldable pub export_instance : IdType → String → Method S Json
  export_instance id_type id = do
    let request : InstanceRequest = record {
      organization_id = c.organization_id;
      id_type = id_type;
      id = id;
    }
    r ← attempt (ask (api.export_instance request))
    lift (read_export id r)

  unfoldable pub filled : ApplyRequest → ApplyRequest
  filled req =
      if req.organization_id == "" then record req { organization_id = c.organization_id } else req

  unfoldable pub apply_instance : ApplyRequest → Method S (Unit {0})
  apply_instance request = do
    let req = filled request
    workspace_id ← argo_workspace_id_for_apply api c req
    inc_api_write "ApplyInstance" req.id
    e ← tell (api.apply_instance (record req { workspace_id = workspace_id }))
    elim e [ none ↦ pure tt | some x ↦ raise x ]

  unfoldable pub delete_instance : String → Method S (Unit {0})
  delete_instance name = do
    r ← attempt (get_instance api c name)
    i ← lift (elim r [
      | err e ↦ err (wrap ("could not get instance " <> name <> " to delete, err") e)
      | ok i ↦ ok i
    ])
    workspace_id ←
        if i.workspace_id == "" then resolve_workspace_id api c "" else pure i.workspace_id
    inc_api_write "DeleteInstance" i.id
    e ← tell (api.delete_instance (scoped_request i.id workspace_id none))
    or_wrapped ("could not delete instance " <> name <> " using Akuity API, error") e
