-- ===== src/Gateway/State.antt =====
-- internal/clients/akuity/client.go: the client, its cache of workspace IDs, and the gateways that
-- it calls. `rest` is what the client passes on and does not read of a message.
use provider_crossplane_akui.Common.{
  Result, ok, if◌then◌else◌, ◌==◌, ℕ, String, Bool, Option, none, some, List, [], ◌∷◌,
}
use provider_crossplane_akui.Common.Exec.{Exec}
use provider_crossplane_akui.Reason.{Error, Err, ErrorApi}
use provider_crossplane_akui.Json.{Json}
use provider_crossplane_akui.Secrets.{StringMap}

-- `v, ok := m[k]`
unfoldable pub get_entry : String → StringMap → Option String
get_entry k [] = none
get_entry k ((j, v) ∷ m) = if j == k then some v else get_entry k m

-- `m[k] = v`
unfoldable pub set_entry : String → String → StringMap → StringMap
set_entry k v [] = (k, v) ∷ []
set_entry k v ((j, u) ∷ m) = if j == k then (k, v) ∷ m else (j, u) ∷ set_entry k v m

pub record WorkspaceIdCache : Type 0 where
  pub refs : StringMap
  pub argo_by_instance : StringMap
  pub kargo_by_instance : StringMap

abbrev pub new_workspace_id_cache : WorkspaceIdCache
new_workspace_id_cache = record { refs = []; argo_by_instance = []; kargo_by_instance = [] }

-- idv1.Type
pub data IdType : Type 0 where
  unspecified by_name by_id : IdType

-- reconv1.StatusCode, as far as it is read.
pub data ReconciliationCode : Type 0 where
  successful failed other : ReconciliationCode

-- An instance of either plane.
pub record Instance : Type 0 where
  pub id : String
  pub workspace_id : String
  pub rest : Json

-- An Argo CD cluster, or a Kargo agent.
pub record Agent : Type 0 where
  pub id : String
  pub name : String
  pub reconciliation_status : Option ReconciliationCode
  pub rest : Json

pub record Workspace : Type 0 where
  pub id : String
  pub name : String
  pub is_default : Bool

-- The answer to a get: a nil response, one with a nil body, or a body.
pub data Response (A : Type 0) : Type 0 where
  no_response no_body : Response A
  body : A → Response A

pub record InstanceRequest : Type 0 where
  pub organization_id : String
  pub id_type : IdType
  pub id : String

-- A request about a cluster or an agent of an instance.
pub record AgentRequest : Type 0 where
  pub organization_id : String
  pub instance_id : String
  pub workspace_id : String
  pub id_type : IdType
  pub id : String

pub record MaintenanceRequest (T : Type 0) : Type 0 where
  pub organization_id : String
  pub instance_id : String
  pub workspace_id : String
  pub cluster_names : List String
  pub mode : Bool
  pub expiry : Option T

pub record ApplyRequest : Type 0 where
  pub organization_id : String
  pub id_type : IdType
  pub id : String
  pub workspace_id : String
  pub rest : Json

-- PatchInstance has a patch, a deletion and an export have none.
pub record ScopedRequest : Type 0 where
  pub organization_id : String
  pub id : String
  pub workspace_id : String
  pub patch : Option Json

-- What `select` receives from the stream of manifests and from the channel of its errors, in the
-- order in which it does, up to the receive that ends the loop.
pub data Receives : Type 0 where
  chunk : String → Receives → Receives
  nil_error : Receives → Receives
  server_error : Error → Receives
  chunks_closed errors_closed : Receives

-- The client's configuration; a gateway client that is nil is told by a flag.
pub record Client : Type 0 where
  pub organization_id : String
  pub api_key_id : String
  pub api_key_secret : String
  pub has_kargo : Bool
  pub has_org : Bool

-- The gateways, the cache that all copies of a client share, and the counter of write calls by
-- method and resource, which is off when it is `none`.
pub record ClientWorld (S : Type 0) : Type 0 where
  pub remote : S
  pub cache : Option WorkspaceIdCache
  pub writes : Option (List (String × String))

abbrev pub Method : Type 0 → Type 0 → Type 0
Method S A = Exec Error (ClientWorld S) A

-- The generated gateway clients and retry-go. `S` is the type of their state, `T` that of times.
pub record GatewayApi (S T : Type 0) : Type 0 where
  pub errors : ErrorApi
  pub get_instance : InstanceRequest → S → Result Error (Response Instance) × S
  pub export_instance : InstanceRequest → S → Result Error (Option Json) × S
  pub patch_instance : ScopedRequest → S → Err × S
  pub apply_instance : ApplyRequest → S → Err × S
  pub delete_instance : ScopedRequest → S → Err × S
  pub get_instance_cluster : AgentRequest → S → Result Error (Response Agent) × S
  pub get_instance_cluster_manifests : AgentRequest → S → Result Error Receives × S
  pub delete_instance_cluster : AgentRequest → S → Err × S
  pub set_cluster_maintenance_mode : MaintenanceRequest T → S → Err × S
  pub get_kargo_instance : InstanceRequest → S → Result Error (Response Instance) × S
  pub list_kargo_instances : String → S → Result Error (List Instance) × S
  pub export_kargo_instance : ScopedRequest → S → Result Error Json × S
  pub patch_kargo_instance : ScopedRequest → S → Err × S
  pub apply_kargo_instance : ApplyRequest → S → Err × S
  pub delete_kargo_instance : ScopedRequest → S → Err × S
  pub list_kargo_instance_agents : AgentRequest → S → Result Error (List Agent) × S
  pub get_kargo_instance_agent : AgentRequest → S → Result Error (Response Agent) × S
  pub get_kargo_instance_agent_manifests : AgentRequest → S → Result Error Receives × S
  pub delete_instance_agent : AgentRequest → S → Err × S
  pub list_workspaces : String → S → Result Error (List Workspace) × S
  -- retry.DoWithData, with its attempts and its RetryIf
  pub do_with_data : ℕ → (Error → Bool) → Method S Agent → Method S Agent

module _ {S : Type 0} where
  -- A call that returns a value.
  abbrev pub ask : {A : Type 0} → (S → Result Error A × S) → Method S A
  ask call w = let (r, s) = call w.remote in (r, record w { remote = s })

  -- A call that returns only an error, handed on as it is.
  abbrev pub tell : (S → Err × S) → Method S Err
  tell call w = let (e, s) = call w.remote in (ok e, record w { remote = s })

  -- incAPIWrite
  unfoldable pub inc_api_write : String → String → Method S (Unit {0})
  inc_api_write m id w =
      (ok tt, elim w.writes [ none ↦ w | some ws ↦ record w { writes = some ((m, id) ∷ ws) } ])
