-- ===== src/Gateway/Gets.antt =====
-- internal/clients/akuity/client.go: the constructor, the methods that find an instance or a
-- workspace, and the names of the cache.
use provider_crossplane_akui.Common.{
  Result, ok, err, if◌then◌else◌, ◌==◌, is_none, String, ◌<>◌, Bool, true, false, ◌&&◌, Option,
  none, some, List, [], ◌∷◌,
}
use provider_crossplane_akui.Common.Exec.{pure, raise, lift, ◌>>=◌, ◌>>◌, attempt}
use provider_crossplane_akui.Reason.{
  Error, new, wrap, Code, not_found_code, permission_denied_code, as_not_found,
}
use provider_crossplane_akui.Gateway.State.{
  get_entry, set_entry, WorkspaceIdCache, new_workspace_id_cache, by_name, by_id, Instance,
  Workspace, Response, no_response, no_body, body, InstanceRequest, Client, Method, GatewayApi, ask,
}

unfoldable pub new_client :
    String → String → String → Bool → Bool → Result Error (Client × WorkspaceIdCache)
new_client organization_id api_key_id api_key_secret has_kargo has_org =
    if organization_id == ""
    then err (new "organization ID must not be empty")
    else if api_key_id == ""
    then err (new "API key ID must not be empty")
    else if api_key_secret == ""
    then err (new "API key secret must not be empty")
    else ok (
      record {
        organization_id = organization_id;
        api_key_id = api_key_id;
        api_key_secret = api_key_secret;
        has_kargo = has_kargo;
        has_org = has_org;
      },
      new_workspace_id_cache,
    )

abbrev pub workspace_ref_cache_key : String → String
workspace_ref_cache_key ref = if ref == "" then "<default>" else ref

-- The methods of the cache, which do nothing on a nil cache.
abbrev pub get_ref : Option WorkspaceIdCache → String → Option String
get_ref none ref = none
get_ref (some c) ref = get_entry (workspace_ref_cache_key ref) c.refs

abbrev pub set_ref : Option WorkspaceIdCache → String → String → Option WorkspaceIdCache
set_ref none ref id = none
set_ref (some c) ref id =
    some (record c { refs = set_entry (workspace_ref_cache_key ref) id c.refs })

abbrev pub get_argo_instance : Option WorkspaceIdCache → String → Option String
get_argo_instance none instance_id = none
get_argo_instance (some c) instance_id = get_entry instance_id c.argo_by_instance

abbrev pub set_argo_instance : Option WorkspaceIdCache → String → String → Option WorkspaceIdCache
set_argo_instance none instance_id id = none
set_argo_instance (some c) instance_id id =
    if instance_id == ""
    then some c
    else some (record c { argo_by_instance = set_entry instance_id id c.argo_by_instance })

abbrev pub get_kargo_by_instance : Option WorkspaceIdCache → String → Option String
get_kargo_by_instance none instance_id = none
get_kargo_by_instance (some c) instance_id = get_entry instance_id c.kargo_by_instance

abbrev pub set_kargo_by_instance :
    Option WorkspaceIdCache → String → String → Option WorkspaceIdCache
set_kargo_by_instance none instance_id id = none
set_kargo_by_instance (some c) instance_id id =
    if instance_id == ""
    then some c
    else some (record c { kargo_by_instance = set_entry instance_id id c.kargo_by_instance })

-- `status.FromError(err)` has the code.
abbrev pub has_not_found_code : Option Code → Bool
has_not_found_code none = false
has_not_found_code (some not_found_code) = true
has_not_found_code (some _) = false

abbrev pub has_missing_code : Option Code → Bool
has_missing_code (some permission_denied_code) = true
has_missing_code c = has_not_found_code c

-- The first instance of a list with the ID.
unfoldable pub find_instance : String → List Instance → Option Instance
find_instance id [] = none
find_instance id (i ∷ is) = if i.id == id then some i else find_instance id is

-- The loop of ResolveWorkspace, with `nameMatch`.
unfoldable pub scan_workspaces : String → Option Workspace → List Workspace → Option Workspace
scan_workspaces name name_match [] = name_match
scan_workspaces name name_match (w ∷ ws) =
    let next =
      scan_workspaces name (if is_none name_match && w.name == name then some w else name_match)
        ws in
    let default = scan_workspaces name name_match ws in
    if name == ""
    then if w.is_default then some w else default
    else if w.id == name
    then some w
    else next

module _ {S T : Type 0} (api : GatewayApi S T) (c : Client) where
  abbrev pub code_of : Error → Option Code
  code_of e = elim (api.errors.from_error e) [ none ↦ none | some s ↦ some s.code ]

  -- What get_instance makes of the gateway's answer.
  unfoldable pub read_instance : String → Result Error (Response Instance) → Result Error Instance
  read_instance name r =
      let prefix = "could not get instance " <> name <> " from Akuity API, " in
      elim r [
        | err e ↦
            if has_not_found_code (code_of e)
            then err (as_not_found (new (prefix <> "instance was not found")))
            else err (wrap (prefix <> "error") e)
        | ok no_response ↦ err (new (prefix <> "response was empty"))
        | ok no_body ↦ err (new (prefix <> "instance is response was empty"))
        | ok (body i) ↦ ok i
      ]

  unfoldable pub get_instance : String → Method S Instance
  get_instance name = do
    let request : InstanceRequest = record {
      organization_id = c.organization_id;
      id_type = by_name;
      id = name;
    }
    r ← attempt (ask (api.get_instance request))
    lift (read_instance name r)

  -- What get_instance_by_id makes of the gateway's answer.
  unfoldable pub read_instance_by_id :
      String → Result Error (Response Instance) → Result Error Instance
  read_instance_by_id id r =
      let prefix = "could not get instance " <> id <> " from Akuity API, " in
      elim r [
        | err e ↦
            if has_not_found_code (code_of e)
            then err (as_not_found (new (prefix <> "instance was not found")))
            else err (wrap (prefix <> "error") e)
        | ok no_response ↦ err (new (prefix <> "response was empty"))
        | ok no_body ↦ err (new (prefix <> "response was empty"))
        | ok (body i) ↦ ok i
      ]

  unfoldable pub get_instance_by_id : String → Method S Instance
  get_instance_by_id id = do
    let request : InstanceRequest = record {
      organization_id = c.organization_id;
      id_type = by_id;
      id = id;
    }
    r ← attempt (ask (api.get_instance request))
    lift (read_instance_by_id id r)

  abbrev pub kargo_required : String → Method S (Unit {0})
  kargo_required op =
      if c.has_kargo
      then pure tt
      else raise (new (op <> ": kargo gateway client not configured on this Akuity client"))

  abbrev pub org_required : String → Method S (Unit {0})
  org_required op =
      if c.has_org
      then pure tt
      else raise (new (op <> ": organization gateway client not configured on this Akuity client"))

  -- What get_kargo_instance makes of the gateway's answer.
  unfoldable pub read_kargo_instance :
      String → Result Error (Response Instance) → Result Error Instance
  read_kargo_instance name r =
      let prefix = "could not get kargo instance " <> name in
      elim r [
        | err e ↦
            if has_not_found_code (code_of e)
            then err (as_not_found (wrap prefix e))
            else err (wrap prefix e)
        | ok (body i) ↦ ok i
        | ok _ ↦ err (new (prefix <> ": empty response"))
      ]

  unfoldable pub get_kargo_instance : String → Method S Instance
  get_kargo_instance name = do
    kargo_required "GetKargoInstance"
    let request : InstanceRequest = record {
      organization_id = c.organization_id;
      id_type = by_name;
      id = name;
    }
    r ← attempt (ask (api.get_kargo_instance request))
    lift (read_kargo_instance name r)

  -- What get_kargo_instance_by_id makes of the gateway's answer.
  unfoldable pub choose_kargo_instance :
      String → Result Error (List Instance) → Result Error Instance
  choose_kargo_instance id r = elim r [
    | err e ↦ err (wrap ("could not list kargo instances while resolving " <> id) e)
    | ok is ↦ elim (find_instance id is) [
      | some i ↦ ok i
      | none ↦ err (as_not_found (new ("kargo instance " <> id <> " not found")))
    ]
  ]

  unfoldable pub get_kargo_instance_by_id : String → Method S Instance
  get_kargo_instance_by_id id = do
    kargo_required "GetKargoInstanceByID"
    r ← attempt (ask (api.list_kargo_instances c.organization_id))
    lift (choose_kargo_instance id r)

  -- What resolve_workspace makes of the gateway's answer.
  unfoldable pub choose_workspace : String → Result Error (List Workspace) → Result Error Workspace
  choose_workspace name r = elim r [
    | err e ↦ err (wrap "could not list workspaces" e)
    | ok ws ↦ elim (scan_workspaces name none ws) [
      | some w ↦ ok w
      | none ↦
          if name == ""
          then err (
              as_not_found
                (new ("default workspace not found in organization " <> c.organization_id)))
          else err (
              as_not_found (
                new
                  ("workspace \"" <> name <> "\" not found in organization " <> c.organization_id)))
    ]
  ]

  unfoldable pub resolve_workspace : String → Method S Workspace
  resolve_workspace name = do
    org_required "ResolveWorkspace"
    r ← attempt (ask (api.list_workspaces c.organization_id))
    lift (choose_workspace name r)
