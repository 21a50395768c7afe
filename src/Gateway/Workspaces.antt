-- ===== src/Gateway/Workspaces.antt =====
-- internal/clients/akuity/client.go: the methods that find the workspace of a request, through the
-- cache.
use provider_crossplane_akui.Common.{
  ok, err, if◌then◌else◌, nonempty, String, ◌<>◌, Bool, true, false, not, ◌&&◌, Option, none, some,
}
use provider_crossplane_akui.Common.Exec.{pure, raise, ◌>>=◌, attempt}
use provider_crossplane_akui.Reason.{Error, wrap, as_terminal, is_not_found}
use provider_crossplane_akui.Gateway.State.{
  WorkspaceIdCache, IdType, by_id, Instance, ApplyRequest, Client, Method, GatewayApi,
}
use provider_crossplane_akui.Gateway.Gets.{
  get_ref, set_ref, get_argo_instance, set_argo_instance, get_kargo_by_instance,
  set_kargo_by_instance, get_instance, get_instance_by_id, get_kargo_instance,
  get_kargo_instance_by_id, resolve_workspace,
}

module _ {S T : Type 0} (api : GatewayApi S T) (c : Client) where
  -- A read of the cache, and a write.
  abbrev pub cached : (Option WorkspaceIdCache → Option String) → Method S (Option String)
  cached f w = (ok (f w.cache), w)

  abbrev pub remember :
      (Option WorkspaceIdCache → Option WorkspaceIdCache) → String → Method S String
  remember f id w = (ok id, record w { cache = f w.cache })

  -- The error of a reference that the user set and that names no workspace.
  abbrev pub unresolved : String → Error → Error
  unresolved ref e =
      if nonempty ref && is_not_found (some e)
      then as_terminal (wrap ("workspace \"" <> ref <> "\"") e)
      else e

  unfoldable pub resolve_workspace_id : String → Method S String
  resolve_workspace_id ref = if not c.has_org then pure ref else do
    hit ← cached (λ k. get_ref k ref)
    elim hit [
      | some id ↦ pure id
      | none ↦ do
        r ← attempt (resolve_workspace api c ref)
        elim r [ err e ↦ raise (unresolved ref e) | ok w ↦ remember (λ k. set_ref k ref w.id) w.id ]
    ]

  unfoldable pub argo_workspace_id_for_instance : String → Method S String
  argo_workspace_id_for_instance instance_id = do
    hit ← cached (λ k. get_argo_instance k instance_id)
    elim hit [
      | some id ↦ pure id
      | none ↦ do
        i ← get_instance_by_id api c instance_id
        id ← if nonempty i.workspace_id then pure i.workspace_id else resolve_workspace_id ""
        remember (λ k. set_argo_instance k instance_id id) id
    ]

  abbrev pub is_by_id : IdType → Bool
  is_by_id by_id = true
  is_by_id _ = false

  -- The workspace of an instance that an apply request names by its name.
  abbrev pub argo_workspace_id_by_name : String → Method S String
  argo_workspace_id_by_name name = do
    r ← attempt (get_instance api c name)
    elim r [
      | ok i ↦
          if nonempty i.workspace_id
          then remember (λ k. set_argo_instance k i.id i.workspace_id) i.workspace_id
          else resolve_workspace_id ""
      | err e ↦ if is_not_found (some e) then resolve_workspace_id "" else raise e
    ]

  unfoldable pub argo_workspace_id_for_apply : ApplyRequest → Method S String
  argo_workspace_id_for_apply req =
      if nonempty req.workspace_id
      then resolve_workspace_id req.workspace_id
      else if is_by_id req.id_type
      then argo_workspace_id_for_instance req.id
      else if not c.has_org
      then pure ""
      else argo_workspace_id_by_name req.id

  unfoldable pub kargo_workspace_id_for_instance : String → Method S String
  kargo_workspace_id_for_instance instance_id = do
    hit ← cached (λ k. get_kargo_by_instance k instance_id)
    elim hit [
      | some id ↦ pure id
      | none ↦ do
        i ← get_kargo_instance_by_id api c instance_id
        id ← if nonempty i.workspace_id then pure i.workspace_id else resolve_workspace_id ""
        remember (λ k. set_kargo_by_instance k instance_id id) id
    ]

  -- By ID, and by name if no instance has the ID.
  abbrev pub kargo_instance_of_ref : String → Method S Instance
  kargo_instance_of_ref ref = do
    r ← attempt (get_kargo_instance_by_id api c ref)
    elim r [
      | ok i ↦ pure i
      | err e ↦ if is_not_found (some e) then get_kargo_instance api c ref else raise e
    ]

  unfoldable pub kargo_workspace_id_for_ref : String → Method S String
  kargo_workspace_id_for_ref ref = do
    hit ← cached (λ k. get_kargo_by_instance k ref)
    elim hit [
      | some id ↦ pure id
      | none ↦ do
        i ← kargo_instance_of_ref ref
        id ← if nonempty i.workspace_id then pure i.workspace_id else resolve_workspace_id ""
        remember (λ k. set_kargo_by_instance (set_kargo_by_instance k ref id) i.id id) id
    ]

  abbrev pub kargo_workspace_id_by_name : String → Method S String
  kargo_workspace_id_by_name name = do
    r ← attempt (get_kargo_instance api c name)
    elim r [
      | ok i ↦
          if nonempty i.workspace_id
          then remember (λ k. set_kargo_by_instance k i.id i.workspace_id) i.workspace_id
          else resolve_workspace_id ""
      | err e ↦ if is_not_found (some e) then resolve_workspace_id "" else raise e
    ]

  unfoldable pub kargo_workspace_id_for_apply : ApplyRequest → Method S String
  kargo_workspace_id_for_apply req =
      if nonempty req.workspace_id
      then resolve_workspace_id req.workspace_id
      else if is_by_id req.id_type
      then kargo_workspace_id_for_instance req.id
      else if not c.has_org
      then pure ""
      else kargo_workspace_id_by_name req.id
